-- ===== src/Nats/Producer/Lifecycle/Reach.antt =====
-- nats/producer/producer.go: the steps in any order.
use go_dev_sdk.Prelude.{
  ◌⊎◌, ◌&&◌, eq_bytes, if◌then◌else◌, Bool-cases, inl, inr, ℕ, ◌+◌, ◌<◌, ◌==◌, ◌≡◌, refl, true,
  false, List, [], ◌∷◌, Option, Bytes, arith, All,
}
use go_dev_sdk.Prelude.Int.{ℤ}
use go_dev_sdk.Nats.Failure.{Err}
use go_dev_sdk.Nats.Producer.Message.{Config, Outgoing, Msg}
use go_dev_sdk.Nats.Producer.Lifecycle.{
  Producer, new_producer, register, start, close_run, is_among, take_out, begin_shutdown, drain,
  give_up,
}
use go_dev_sdk.Nats.Producer.Lifecycle.Publish.{
  publish_sync, publish_delayed, publish_async, transport, complete,
}
use go_dev_sdk.Nats.Producer.Lifecycle.Sound.{IsSound, new_producer-IsSound, count}
use go_dev_sdk.Nats.Producer.Lifecycle.Publishes.{
  register-IsSound, publish_sync-IsSound, publish_delayed-IsSound, publish_async-IsSound,
  transport-IsSound, complete-IsSound,
}
use go_dev_sdk.Nats.Producer.Lifecycle.Runs.{
  start-IsSound, leave-IsSound, drain-IsSound, give_up-IsSound,
}

pub data Step (p : Producer) : Producer → Type 0 where
  registered : (cfg : Config) → Step p (register cfg p).1
  started : (dial : Bytes → Option Err) → Step p (start dial p).1
  published : (answer : Msg → Option Err) (m : Outgoing) → Step p (publish_sync answer m p).1
  scheduled :
      (answer : Msg → Option Err) (id at : Bytes) (delay : ℤ) (m : Outgoing)
      → Step p (publish_delayed answer id at delay m p).1
  acquired : (m : Outgoing) → Step p (publish_async m p).1
  transported : (i : ℕ) (answer : Option Err) → Step p (transport i answer p)
  completed : (i : ℕ) (e : Option Err) → Step p (complete i e p)
  shutting : Step p (begin_shutdown p)
  drained : (i : ℕ) → Step p (drain i p)
  given_up : (i : ℕ) → Step p (give_up i p)

pub data Reach : Producer → Type 0 where
  fresh : Reach new_producer
  then_step : {p q : Producer} → Reach p → Step p q → Reach q

Step-IsSound : {p q : Producer} → Step p q → IsSound p → IsSound q
unfolding begin_shutdown
Step-IsSound {p} (registered cfg) s = register-IsSound cfg p s
Step-IsSound {p} (started dial) s = start-IsSound dial p s
Step-IsSound {p} (published answer m) s = publish_sync-IsSound answer m p s
Step-IsSound {p} (scheduled answer id at delay m) s =
    publish_delayed-IsSound answer id at delay m p s
Step-IsSound {p} (acquired m) s = publish_async-IsSound m p s
Step-IsSound {p} (transported i answer) s = transport-IsSound i answer p s
Step-IsSound {p} (completed i e) s = complete-IsSound i e p s
Step-IsSound {p} shutting s = leave-IsSound p.run p s refl
Step-IsSound {p} (drained i) s = drain-IsSound i p s
Step-IsSound {p} (given_up i) s = give_up-IsSound i p s

-- In whatever order registrations, starts, publishes, acks and shutdowns take their steps, and whatever
-- the server answers: the wait group of each run counts the asynchronous publishes that hold it; a run
-- that was drained has none left and gets none any more; each open connection is of the live run or of
-- a run whose Shutdown waits; the spans that are open are those of the publishes under way; and the
-- callbacks still due are those of the publishes that wait for their ack.
pub producer_Reach-IsSound : {p : Producer} → Reach p → IsSound p
producer_Reach-IsSound fresh = new_producer-IsSound
producer_Reach-IsSound (then_step r t) = Step-IsSound t (producer_Reach-IsSound r)

close_run_none :
    (i : ℕ) (cs : List (ℕ × Bytes)) → All (λ (c : ℕ × Bytes). (c.0 == i) ≡ false) (close_run i cs)
unfolding close_run
close_run_none i [] = tt
close_run_none i ((j, t) ∷ cs) = ground (arith, close_run_none i cs)

pending-count :
    {p : Producer} (i : ℕ) → Reach p → p.pending i ≡ count i p.sending + count i p.awaiting
pending-count i r = let s = producer_Reach-IsSound r in s.counted i

-- How often a connection is open.
abbrev pub times : ℕ → Bytes → List (ℕ × Bytes) → ℕ
times j t [] = 0
times j t ((k, u) ∷ cs) = (if k == j && eq_bytes u t then 1 else 0) + times j t cs

times-close_run :
    (i j : ℕ) (t : Bytes) (cs : List (ℕ × Bytes))
    → (j == i) ≡ false
    → times j t (close_run i cs) ≡ times j t cs
unfolding close_run
times-close_run i j t [] h = refl
times-close_run i j t ((k, u) ∷ cs) h = ground (arith, h, times-close_run i j t cs)

is_among-take_out :
    (i j : ℕ) (js : List ℕ) → (j == i) ≡ false → is_among j (take_out i js) ≡ is_among j js
unfolding is_among take_out
is_among-take_out i j [] h = refl
is_among-take_out i j (k ∷ js) h = ground (arith, h, is_among-take_out i j js)

among_first : (i : ℕ) (js : List ℕ) → is_among i (i ∷ js) ≡ true
unfolding is_among
among_first i js = ground arith

among_other : (i j : ℕ) (js : List ℕ) → (j == i) ≡ false → is_among j (i ∷ js) ≡ is_among j js
unfolding is_among
among_other i j js h = ground (arith, h)

-- From the first producer to the second the run i was drained: it has no connection left, and is counted as
-- drained; every other run has the connections that it had, and waits and was drained as before; and
-- the live run is the same.
pub record IsDrained (i : ℕ) (p q : Producer) : Type 0 where
  pub closed : All (λ (c : ℕ × Bytes). (c.0 == i) ≡ false) q.opened
  pub others_open : (j : ℕ) (t : Bytes) → (j == i) ≡ false → times j t q.opened ≡ times j t p.opened
  pub drained : is_among i q.drained ≡ true
  pub others_drained : (j : ℕ) → (j == i) ≡ false → is_among j q.drained ≡ is_among j p.drained
  pub others_wait : (j : ℕ) → (j == i) ≡ false → is_among j q.leaving ≡ is_among j p.leaving
  pub live : q.run ≡ p.run

-- In every state that can come about, a Shutdown that waits for a run drains it exactly if no asynchronous
-- publish holds the run: then all connections of the run are closed, and no other, the run counts as
-- drained, and the other runs wait or are drained as before. While a publish holds the run, nothing
-- changes.
pub drain-Ends :
    {p : Producer} (i : ℕ)
    → Reach p
    → is_among i p.leaving ≡ true
    → ((count i p.sending + count i p.awaiting ≡ 0) × IsDrained i p (drain i p))
      ⊎ ((0 < count i p.sending + count i p.awaiting) × (drain i p ≡ p))
unfolding drain
drain-Ends {p} i r m = elim (Bool-cases (p.pending i == 0)) [
  | inl e ↦ inl (
    ground (arith, pending-count i r, e),
    rw (m, e, drain)
        (record {
          closed = close_run_none i p.opened;
          others_open = λ j t h. times-close_run i j t p.opened h;
          drained = among_first i p.drained;
          others_drained = λ j h. among_other i j p.drained h;
          others_wait = λ j h. is_among-take_out i j p.leaving h;
          live = refl;
        }),
  )
  | inr e ↦ inr (ground (arith, pending-count i r, e), rw (m, e, drain) refl)
]
