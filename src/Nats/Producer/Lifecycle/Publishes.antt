-- ===== src/Nats/Producer/Lifecycle/Publishes.antt =====
-- nats/producer/producer.go: Register, the publishes and the acks keep the producer sound.
use go_dev_sdk.Prelude.{
  either_branch, ℕ, ◌<◌, ◌≡◌, inl, inr, true, List, [], ◌∷◌, Option, none, some, Option-cases,
  Bytes, arith, All,
}
use go_dev_sdk.Nats.Failure.{Err, wrap}
use go_dev_sdk.Nats.Producer.Message.{
  Config, ConfigError, Outgoing, Msg, set_defaults, has_dot, build_msg, build_delayed,
}
use go_dev_sdk.Prelude.Int.{ℤ, not_positive}
use go_dev_sdk.Nats.Producer.Lifecycle.{
  Producer, ProducerError, Run, is_in, topics_of, is_running, register, store, is_among,
}
use go_dev_sdk.Nats.Producer.Lifecycle.Publish.{
  not_found, run_for, send_sync, publish_sync, publish_delayed, publish_async, acquire, add, done,
  transport, transported, complete,
}
use go_dev_sdk.Nats.Producer.Lifecycle.Sound.{
  All-map, IsSound, callbacks, count, edge, ends, finish-Adds, handed_finish-Adds, promises,
  span_finish-Adds, starts, length-take_out, count-take_out, told-IsSound,
}

pub configs-IsSound :
    (cs : List (Bytes × Config)) (p : Producer) → IsSound p → IsSound (record p { configs = cs })
configs-IsSound cs p s = record {
  counted = s.counted;
  live = s.live;
  left = s.left;
  drained = s.drained;
  held = s.held;
  spans = s.spans;
  promised = s.promised;
}

pub store-IsSound :
    (errs : List ConfigError) (cfg : Config) (p : Producer)
    → IsSound p
    → IsSound (store errs cfg p).1
store-IsSound (e ∷ es) cfg p s = s
store-IsSound [] cfg p s =
    either_branch (λ (r : Option ProducerError × Producer). IsSound r.1)
      (is_in cfg.topic (topics_of p.configs)) _ _ (λ _. s)
      (λ _. configs-IsSound ((cfg.topic, cfg) ∷ p.configs) p s)

pub register-IsSound : (cfg : Config) (p : Producer) → IsSound p → IsSound (register cfg p).1
unfolding register
register-IsSound cfg p s =
    either_branch (λ (r : Option ProducerError × Producer). IsSound r.1) (is_running p.run) _ _
      (λ _. s) (λ _. store-IsSound _ (set_defaults cfg) p s)

-- The publishes that end within the call.
pub send_sync-IsSound :
    (answer : Msg → Option Err) (topic : Bytes) (w : Msg) (p : Producer)
    → IsSound p
    → IsSound (send_sync answer topic w p).1
unfolding send_sync
send_sync-IsSound answer topic w p s = elim (Option-cases (run_for topic p.run)) [
  | inl e ↦
      rw (e, send_sync) (told-IsSound p _ 1 s (span_finish-Adds (some (not_found topic)) p.told))
  | inr (i, e) ↦ elim (Option-cases (answer w)) [
    | inl a ↦ rw (e, a, send_sync) (told-IsSound p _ 1 s (handed_finish-Adds none w p.told))
    | inr (err, a) ↦
        rw (e, a, send_sync)
          (told-IsSound p _ 1 s (handed_finish-Adds (some (wrap topic err)) w p.told))
  ]
]

pub publish_sync-IsSound :
    (answer : Msg → Option Err) (m : Outgoing) (p : Producer)
    → IsSound p
    → IsSound (publish_sync answer m p).1
unfolding publish_sync
publish_sync-IsSound answer m p s =
    either_branch (λ (r : Option ProducerError × Producer). IsSound r.1) (has_dot m.tag) _ _
      (λ _. s) (λ _. send_sync-IsSound answer m.topic (build_msg m) p s)

pub publish_delayed-IsSound :
    (answer : Msg → Option Err) (id at : Bytes) (delay : ℤ) (m : Outgoing) (p : Producer)
    → IsSound p
    → IsSound (publish_delayed answer id at delay m p).1
unfolding publish_delayed
publish_delayed-IsSound answer id at delay m p s =
    either_branch (λ (r : Option ProducerError × Producer). IsSound r.1) (has_dot m.tag) _ _
      (λ _. s)
      (λ _.
        either_branch (λ (r : Option ProducerError × Producer). IsSound r.1) (not_positive delay) _
          _ (λ _. publish_sync-IsSound answer m p s)
          (λ _. send_sync-IsSound answer m.topic (build_delayed id at m) p s))

-- A run that `run_for` gives is the live one.
pub run_for-edge :
    (topic : Bytes) (run : Option Run) (next i : ℕ) → run_for topic run ≡ some i → edge run next ≡ i
run_for-edge topic none next i e = absurd (cc)
run_for-edge topic (some r) next i e = ground arith

pub add-drained :
    (i : ℕ) (pending : ℕ → ℕ) (js : List ℕ)
    → All (λ (j : ℕ). (j < i) × (pending j ≡ 0)) js
    → All (λ (j : ℕ). (j < i) × (add i pending j ≡ 0)) js
unfolding add
add-drained i pending js =
    All-map _ _ js (λ (j : ℕ) (h : (j < i) × (pending j ≡ 0)). (h.0, ground (arith, h.0, h.1)))

pub done-drained :
    (i e : ℕ) (pending : ℕ → ℕ) (js : List ℕ)
    → All (λ (j : ℕ). (j < e) × (pending j ≡ 0)) js
    → All (λ (j : ℕ). (j < e) × (done i pending j ≡ 0)) js
unfolding done
done-drained i e pending js =
    All-map _ _ js (λ (j : ℕ) (h : (j < e) × (pending j ≡ 0)). (h.0, ground (arith, h.0, h.1)))

pub acquire-IsSound :
    (topic : Bytes) (i : ℕ) (p : Producer)
    → IsSound p
    → edge p.run p.next ≡ i
    → IsSound (acquire topic (some i) p).1
unfolding add count starts ends promises callbacks
acquire-IsSound topic i p s e = record {
  counted = λ j. ground (arith, s.counted j);
  live = s.live;
  left = s.left;
  drained = rw e (add-drained i p.pending p.drained (rw e at s.drained));
  held = s.held;
  spans = omega (arith, s.spans);
  promised = omega (arith, s.promised);
}

pub publish_async-IsSound :
    (m : Outgoing) (p : Producer) → IsSound p → IsSound (publish_async m p).1
unfolding publish_async
publish_async-IsSound m p s =
    either_branch (λ (r : Option ProducerError × Producer). IsSound r.1) (has_dot m.tag) _ _
      (λ _. s)
      (λ _. elim (Option-cases (run_for m.topic p.run)) [
        | inl e ↦ rw e (told-IsSound p _ 1 s (span_finish-Adds (some (not_found m.topic)) p.told))
        | inr (i, e) ↦ rw e (acquire-IsSound m.topic i p s (run_for-edge m.topic p.run p.next i e))
      ])

pub transported-IsSound :
    (i : ℕ) (answer : Option Err) (p : Producer)
    → IsSound p
    → is_among i p.sending ≡ true
    → IsSound (transported i answer p)
unfolding count starts ends promises callbacks done
transported-IsSound i none p s m = record {
  counted = λ j. ground (arith, s.counted j, count-take_out i j p.sending m);
  live = s.live;
  left = s.left;
  drained = s.drained;
  held = s.held;
  spans = omega (arith, s.spans, length-take_out i p.sending m);
  promised = omega (arith, s.promised);
}
transported-IsSound i (some e) p s m =
    let (a, b, c, d) = finish-Adds (some (wrap [] e)) p.told in
    record {
      counted = λ j. ground (arith, s.counted j, count-take_out i j p.sending m);
      live = s.live;
      left = s.left;
      drained = done-drained i (edge p.run p.next) p.pending p.drained s.drained;
      held = s.held;
      spans = omega (arith, s.spans, length-take_out i p.sending m, a, b);
      promised = omega (arith, s.promised, c, d);
    }

pub transport-IsSound :
    (i : ℕ) (answer : Option Err) (p : Producer) → IsSound p → IsSound (transport i answer p)
unfolding transport
transport-IsSound i answer p s =
    either_branch IsSound (is_among i p.sending) _ _ (transported-IsSound i answer p s) (λ _. s)

pub complete-IsSound :
    (i : ℕ) (e : Option Err) (p : Producer) → IsSound p → IsSound (complete i e p)
unfolding complete count starts ends promises callbacks done
complete-IsSound i e p s =
    let (a, b, c, d) = finish-Adds e p.told in
    either_branch IsSound (is_among i p.awaiting) _ _
      (λ m. record {
        counted = λ j. ground (arith, s.counted j, count-take_out i j p.awaiting m);
        live = s.live;
        left = s.left;
        drained = done-drained i (edge p.run p.next) p.pending p.drained s.drained;
        held = s.held;
        spans = omega (arith, s.spans, length-take_out i p.awaiting m, a, b);
        promised = omega (arith, s.promised, length-take_out i p.awaiting m, c, d);
      })
      (λ _. s)
