-- ===== src/Nats/Producer/Lifecycle/Runs.antt =====
-- nats/producer/producer.go: Start and Shutdown keep the producer sound.
use go_dev_sdk.Prelude.{
  either_branch, ℕ, ◌<◌, ◌==◌, ==_iff, ◌≡◌, refl, sym, ◌∙◌, ap, inl, inr, true, false, ◌||◌,
  Bool-cases, List, [], ◌∷◌, ◌++◌, Option, none, some, Option-cases, Bytes, arith, All-append,
}
use go_dev_sdk.Nats.Failure.{Err}
use go_dev_sdk.Nats.Producer.Lifecycle.{
  Producer, Run, topics_of, is_running, start, begin_run, dial_all, close_run, is_among, take_out,
  leave, drain, give_up,
}
use go_dev_sdk.Nats.Producer.Lifecycle.Sound.{
  All-map, AllHeld, IsSound, among-All, edge, is_live, take_out-All,
}

-- Connections: of a run that starts, and of one that is closed.
pub dial_all-AllHeld :
    (dial : Bytes → Option Err) (i : ℕ) (ts : List Bytes) (leaving : List ℕ) (run : Option Run)
    → is_live i run ≡ true
    → AllHeld run leaving (dial_all dial i ts).0
unfolding dial_all
dial_all-AllHeld dial i [] leaving run h = tt
dial_all-AllHeld dial i (t ∷ ts) leaving run h =
    let rest = dial_all-AllHeld dial i ts leaving run h in
    elim (Option-cases (dial t)) [
      | inl e ↦ rw (e, dial_all) (ground (arith, h), rest)
      | inr (err, e) ↦ rw (e, dial_all) rest
    ]

-- Whether a connection is held is asked only of runs other than one that is closed.
pub close_run-AllHeld :
    (i : ℕ) (run run' : Option Run) (leaving leaving' : List ℕ) (cs : List (ℕ × Bytes))
    → ((j : ℕ)
        → (j == i) ≡ false
        → (is_live j run || is_among j leaving) ≡ true
        → (is_live j run' || is_among j leaving') ≡ true)
    → AllHeld run leaving cs
    → AllHeld run' leaving' (close_run i cs)
unfolding close_run
close_run-AllHeld i run run' leaving leaving' [] f h = tt
close_run-AllHeld i run run' leaving leaving' ((j, t) ∷ cs) f h =
    let rest = close_run-AllHeld i run run' leaving leaving' cs f h.1 in
    elim (Bool-cases (j == i)) [
      | inl e ↦ rw (e, close_run) rest
      | inr e ↦ rw (e, close_run) (f j e h.0, rest)
    ]

pub is_among-take_out :
    (i j : ℕ) (js : List ℕ)
    → (j == i) ≡ false
    → is_among j js ≡ true
    → is_among j (take_out i js) ≡ true
unfolding take_out is_among
is_among-take_out i j [] n h = h
is_among-take_out i j (k ∷ js) n h = ground (arith, is_among-take_out i j js n)

-- While no run is live, the edge is the next run.
pub edge_off : (run : Option Run) (next : ℕ) → is_running run ≡ false → edge run next ≡ next
edge_off none next h = refl
edge_off (some r) next h = absurd (cc)

pub off_among :
    (i : ℕ) (run : Option Run) (leaving : List ℕ)
    → is_running run ≡ false
    → (is_live i run || is_among i leaving) ≡ true
    → is_among i leaving ≡ true
off_among i none leaving off h = h
off_among i (some r) leaving off h = absurd (cc)

pub started-AllHeld :
    (dial : Bytes → Option Err) (ts : List Bytes) (p : Producer) (r : Run)
    → IsSound p
    → is_running p.run ≡ false
    → r.cycle ≡ p.next
    → AllHeld (some r) p.leaving ((dial_all dial p.next ts).0 ++ p.opened)
started-AllHeld dial ts p r s off e =
    All-append _ (dial_all dial p.next ts).0 p.opened
      (dial_all-AllHeld dial p.next ts p.leaving (some r) (ground (arith, e)))
      (All-map _ _ p.opened
        (λ (c : ℕ × Bytes) (h : (is_live c.0 p.run || is_among c.0 p.leaving) ≡ true).
          let m : is_among c.0 p.leaving ≡ true = off_among c.0 p.run p.leaving off h in
          ground (arith, m))
        s.held)

pub begin_run-IsSound :
    (dial : Bytes → Option Err) (ts : List Bytes) (errs : List Err) (p : Producer)
    → IsSound p
    → is_running p.run ≡ false
    → IsSound (begin_run ((dial_all dial p.next ts).0, errs) p).1
begin_run-IsSound dial ts (e ∷ es) p s off = record {
  counted = s.counted;
  live = s.live;
  left = s.left;
  drained = s.drained;
  held =
      let r : Run = record { cycle = p.next; topics = [] } in
      close_run-AllHeld p.next (some r) p.run p.leaving p.leaving _
        (λ j other h. ground (arith, other, h)) (started-AllHeld dial ts p r s off refl);
  spans = s.spans;
  promised = s.promised;
}
begin_run-IsSound dial ts [] p s off = record {
  counted = s.counted;
  live = λ r e.
      let same : p.next ≡ r.cycle = ap (λ (x : Option Run). edge x 0) e in omega (arith, same);
  left = rw (edge_off p.run p.next off) at s.left;
  drained = rw (edge_off p.run p.next off) at s.drained;
  held =
      started-AllHeld dial ts p (record { cycle = p.next; topics = topics_of p.configs }) s off
        refl;
  spans = s.spans;
  promised = s.promised;
}

pub start-IsSound :
    (dial : Bytes → Option Err) (p : Producer) → IsSound p → IsSound (start dial p).1
unfolding start
start-IsSound dial p s =
    let dialed = dial_all dial p.next (topics_of p.configs) in
    either_branch (λ (r : List Err × Producer). IsSound r.1) (is_running p.run) _ _ (λ _. s)
      (λ off. begin_run-IsSound dial (topics_of p.configs) dialed.1 p s off)

pub leave-IsSound :
    (run : Option Run) (p : Producer) → IsSound p → p.run ≡ run → IsSound (leave run p)
unfolding is_among
leave-IsSound none p s e = s
leave-IsSound (some r) p s e =
    let below : r.cycle < p.next = s.live r e in
    let at_edge : edge p.run p.next ≡ r.cycle = ap (λ (x : Option Run). edge x p.next) e in
    record {
      counted = s.counted;
      live = λ q f. cc;
      left = (
        below,
        All-map _ _ p.leaving
            (λ (i : ℕ) (h : i < edge p.run p.next). omega (arith, h, at_edge, below)) s.left,
      );
      drained =
          All-map _ _ p.drained
            (λ (i : ℕ) (h : (i < edge p.run p.next) × (p.pending i ≡ 0)).
              (omega (arith, h.0, at_edge, below), h.1))
            s.drained;
      held =
          All-map _ _ p.opened
            (λ (c : ℕ × Bytes) (h : (is_live c.0 p.run || is_among c.0 p.leaving) ≡ true).
              let g : (is_live c.0 (some r) || is_among c.0 p.leaving) ≡ true =
                ap (λ (x : Option Run). is_live c.0 x || is_among c.0 p.leaving) (sym e) ∙ h in
              ground (arith, g))
            s.held;
      spans = s.spans;
      promised = s.promised;
    }

-- A Shutdown's wait ends: the run of the Shutdown no longer waits, and has no connection.
pub gone-AllHeld :
    (i : ℕ) (p : Producer) → IsSound p → AllHeld p.run (take_out i p.leaving) (close_run i p.opened)
gone-AllHeld i p s =
    close_run-AllHeld i p.run p.run p.leaving (take_out i p.leaving) p.opened
      (λ j other h. ground (arith, h, is_among-take_out i j p.leaving other)) s.held

pub drained-IsSound :
    (i : ℕ) (p : Producer)
    → IsSound p
    → is_among i p.leaving ≡ true
    → p.pending i ≡ 0
    → IsSound (record p {
      leaving = take_out i p.leaving;
      drained = i ∷ p.drained;
      opened = close_run i p.opened;
    })
drained-IsSound i p s m z = record {
  counted = s.counted;
  live = s.live;
  left = take_out-All (λ j. j < edge p.run p.next) i p.leaving s.left;
  drained = ((among-All (λ j. j < edge p.run p.next) i p.leaving s.left m, z), s.drained);
  held = gone-AllHeld i p s;
  spans = s.spans;
  promised = s.promised;
}

pub drain-IsSound : (i : ℕ) (p : Producer) → IsSound p → IsSound (drain i p)
unfolding drain
drain-IsSound i p s =
    either_branch IsSound (is_among i p.leaving) _ _
      (λ m.
        either_branch IsSound (p.pending i == 0) _ _
          (λ z. drained-IsSound i p s m ((==_iff (p.pending i) 0).0 z)) (λ _. s))
      (λ _. s)

pub give_up-IsSound : (i : ℕ) (p : Producer) → IsSound p → IsSound (give_up i p)
unfolding give_up
give_up-IsSound i p s =
    either_branch IsSound (is_among i p.leaving) _ _
      (λ m. record {
        counted = s.counted;
        live = s.live;
        left = take_out-All (λ j. j < edge p.run p.next) i p.leaving s.left;
        drained = s.drained;
        held = gone-AllHeld i p s;
        spans = s.spans;
        promised = s.promised;
      })
      (λ _. s)
