-- ===== src/Nats/Producer/Lifecycle/Sound.antt =====
-- nats/producer/producer.go: what holds of a producer between any steps of its callers, of the acks and
-- of Shutdown: the wait groups, the connections and the spans.
use go_dev_sdk.Prelude.{
  ℕ, suc, ◌+◌, ◌<◌, ◌==◌, ==_iff, ◌≡◌, refl, inl, inr, Bool, true, false, ◌||◌, Bool-cases, List,
  [], ◌∷◌, Option, none, some, Bytes, arith, All, length, if◌then◌else◌,
}
use go_dev_sdk.Nats.Failure.{Err}
use go_dev_sdk.Nats.Producer.Message.{Msg}
use go_dev_sdk.Nats.Producer.Lifecycle.{
  Producer, Run, Told, span_started, span_ended, accepted, handed, called_back, new_producer,
  is_among, take_out,
}
use go_dev_sdk.Nats.Producer.Lifecycle.Publish.{finish}

unfoldable pub count : ℕ → List ℕ → ℕ
count i [] = 0
count i (j ∷ js) = (if j == i then 1 else 0) + count i js

pub count-take_out :
    (i j : ℕ) (js : List ℕ)
    → is_among i js ≡ true
    → count j js ≡ (if i == j then 1 else 0) + count j (take_out i js)
unfolding is_among take_out count
count-take_out i j [] h = absurd (cc)
count-take_out i j (k ∷ js) h = ground (arith, count-take_out i j js)

pub length-take_out :
    (i : ℕ) (js : List ℕ) → is_among i js ≡ true → length js ≡ suc (length (take_out i js))
unfolding is_among take_out
length-take_out i [] h = absurd (cc)
length-take_out i (k ∷ js) h = ground (arith, length-take_out i js)

pub take_out-All {ℓ} : (P : ℕ → Type ℓ) (i : ℕ) (js : List ℕ) → All P js → All P (take_out i js)
unfolding take_out
take_out-All P i [] h = tt
take_out-All P i (k ∷ js) h = elim (Bool-cases (k == i)) [
  | inl e ↦ rw (e, take_out) h.1
  | inr e ↦ rw (e, take_out) (h.0, take_out-All P i js h.1)
]

pub among-All {ℓ} : (P : ℕ → Type ℓ) (i : ℕ) (js : List ℕ) → All P js → is_among i js ≡ true → P i
unfolding is_among
among-All P i [] h m = absurd (cc)
among-All P i (k ∷ js) h m = elim (Bool-cases (k == i)) [
  | inl e ↦ rw ((==_iff k i).0 e) at h.0
  | inr e ↦ among-All P i js h.1 (rw (e, is_among) at m)
]

-- Spans that started and have not ended, and callbacks promised and not called, as differences of these.
unfoldable pub starts : List Told → ℕ
starts [] = 0
starts (t ∷ l) = (elim t [ span_started ↦ 1 | _ ↦ 0 ]) + starts l

unfoldable pub ends : List Told → ℕ
ends [] = 0
ends (t ∷ l) = (elim t [ span_ended ↦ 1 | _ ↦ 0 ]) + ends l

unfoldable pub promises : List Told → ℕ
promises [] = 0
promises (t ∷ l) = (elim t [ accepted ↦ 1 | _ ↦ 0 ]) + promises l

unfoldable pub callbacks : List Told → ℕ
callbacks [] = 0
callbacks (t ∷ l) = (elim t [ called_back _ ↦ 1 | _ ↦ 0 ]) + callbacks l

-- The runs from this one on are those that can still get a publish.
abbrev pub edge : Option Run → ℕ → ℕ
edge none next = next
edge (some r) next = r.cycle

abbrev pub is_live : ℕ → Option Run → Bool
is_live i none = false
is_live i (some r) = r.cycle == i

abbrev pub AllHeld : Option Run → List ℕ → List (ℕ × Bytes) → Type 0
AllHeld run leaving = All (λ (c : ℕ × Bytes). (is_live c.0 run || is_among c.0 leaving) ≡ true)

-- The wait group of each run counts its publishes that hold it; a run that was drained has none, and
-- is below the runs that can get one; a connection is of the live run or of one whose Shutdown waits;
-- a span is open for each publish that has not ended, and a callback is due for each that was accepted.
pub record IsSound (p : Producer) : Type 0 where
  pub counted : (i : ℕ) → p.pending i ≡ count i p.sending + count i p.awaiting
  pub live : (r : Run) → p.run ≡ some r → r.cycle < p.next
  pub left : All (λ (i : ℕ). i < edge p.run p.next) p.leaving
  pub drained : All (λ (i : ℕ). (i < edge p.run p.next) × (p.pending i ≡ 0)) p.drained
  pub held : AllHeld p.run p.leaving p.opened
  pub spans : starts p.told ≡ ends p.told + (length p.sending + length p.awaiting)
  pub promised : promises p.told ≡ callbacks p.told + length p.awaiting

pub new_producer-IsSound : IsSound new_producer
unfolding count starts ends promises callbacks
new_producer-IsSound = record {
  counted = λ i. refl;
  live = λ r e. cc;
  left = tt;
  drained = tt;
  held = tt;
  spans = refl;
  promised = refl;
}

pub All-map {ℓ κ} :
    {A : Type ℓ} (P Q : A → Type κ) (l : List A) → ((a : A) → P a → Q a) → All P l → All Q l
All-map P Q [] f h = tt
All-map P Q (a ∷ l) f h = (f a h.0, All-map P Q l f h.1)

-- What a record of the telemetry adds.
abbrev pub Adds : ℕ → ℕ → ℕ → ℕ → List Told → List Told → Type 0
Adds a b c d l l' =
    (starts l' ≡ a + starts l)
    × (ends l' ≡ b + ends l)
    × (promises l' ≡ c + promises l)
    × (callbacks l' ≡ d + callbacks l)

pub finish-Adds : (e : Option Err) (l : List Told) → Adds 0 1 0 0 l (finish e l)
unfolding finish starts ends promises callbacks
finish-Adds e l = ground arith

-- A step that changes only what is told, in balance.
pub told-IsSound :
    (p : Producer) (l : List Told) (n : ℕ)
    → IsSound p
    → Adds n n 0 0 p.told l
    → IsSound (record p { told = l })
told-IsSound p l n s (a, b, c, d) = record {
  counted = s.counted;
  live = s.live;
  left = s.left;
  drained = s.drained;
  held = s.held;
  spans = omega (arith, a, b, s.spans);
  promised = omega (arith, c, d, s.promised);
}

pub span_finish-Adds :
    (e : Option Err) (l : List Told) → Adds 1 1 0 0 l (finish e (span_started ∷ l))
unfolding starts ends promises callbacks
span_finish-Adds e l =
    let (a, b, c, d) = finish-Adds e (span_started ∷ l) in
    (omega (arith, a), omega (arith, b), omega (arith, c), omega (arith, d))

pub handed_finish-Adds :
    (e : Option Err) (w : Msg) (l : List Told)
    → Adds 1 1 0 0 l (finish e (handed w ∷ span_started ∷ l))
unfolding starts ends promises callbacks
handed_finish-Adds e w l =
    let (a, b, c, d) = finish-Adds e (handed w ∷ span_started ∷ l) in
    (omega (arith, a), omega (arith, b), omega (arith, c), omega (arith, d))
