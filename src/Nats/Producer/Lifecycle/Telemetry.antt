-- ===== src/Nats/Producer/Lifecycle/Telemetry.antt =====
-- nats/producer/telemetry.go: what the spans and metrics say of a publish.
use go_dev_sdk.Prelude.{
  ℕ, ◌+◌, ◌≡◌, inl, inr, Bool-cases, List, [], ◌∷◌, Option, none, some, Option-cases, Bytes, arith,
}
use go_dev_sdk.Prelude.Int.{ℤ, not_positive}
use go_dev_sdk.Nats.Failure.{Err, wrap}
use go_dev_sdk.Nats.Failure.Laws.{error_type_full, no_error_type}
use go_dev_sdk.Nats.Producer.Message.{Outgoing, Msg, has_dot, build_msg, build_delayed}
use go_dev_sdk.Nats.Producer.Lifecycle.{Producer, Told, span_started, sent, handed}
use go_dev_sdk.Nats.Producer.Lifecycle.Publish.{
  run_for, finish, send_sync, publish_sync, publish_delayed, not_found,
}

-- How many messages the counter of sent messages has counted.
unfoldable pub sents : List Told → ℕ
sents [] = 0
sents (t ∷ l) = (elim t [ sent ↦ 1 | _ ↦ 0 ]) + sents l

sents-finish :
    (e : Option Err) (l : List Told)
    → sents (finish e l) ≡ (elim e [ none ↦ 1 | some _ ↦ 0 ]) + sents l
unfolding finish sents
sents-finish none l = ground (arith, no_error_type)
sents-finish (some e) l = ground (arith, error_type_full e)

abbrev pub succeeded {ℓ} : {A : Type ℓ} → Option A → ℕ
succeeded none = 1
succeeded (some _) = 0

sents-send_sync :
    (answer : Msg → Option Err) (topic : Bytes) (w : Msg) (p : Producer)
    → let r = send_sync answer topic w p in sents r.1.told ≡ succeeded r.0 + sents p.told
unfolding send_sync sents
sents-send_sync answer topic w p = elim (Option-cases (run_for topic p.run)) [
  | inl e ↦
      let h = sents-finish (some (not_found topic)) (span_started ∷ p.told) in
      rw (e, send_sync) (omega (arith, h))
  | inr (i, e) ↦ elim (Option-cases (answer w)) [
    | inl a ↦
        let h = sents-finish none (handed w ∷ span_started ∷ p.told) in
        rw (e, a, send_sync) (omega (arith, h))
    | inr (err, a) ↦
        let h = sents-finish (some (wrap topic err)) (handed w ∷ span_started ∷ p.told) in
        rw (e, a, send_sync) (omega (arith, h))
  ]
]

-- A synchronous publish, delayed or not, is counted as sent exactly if it returns no error.
pub sents-publish_delayed :
    (answer : Msg → Option Err) (id at : Bytes) (delay : ℤ) (m : Outgoing) (p : Producer)
    → let r = publish_delayed answer id at delay m p in
      sents r.1.told ≡ succeeded r.0 + sents p.told
unfolding publish_delayed publish_sync
sents-publish_delayed answer id at delay m p = elim (Bool-cases (has_dot m.tag)) [
  | inl dot ↦ rw (dot, publish_delayed) (omega arith)
  | inr ok ↦ elim (Bool-cases (not_positive delay)) [
    | inl now ↦
        rw (ok, now, publish_delayed, publish_sync) (sents-send_sync answer m.topic (build_msg m) p)
    | inr later ↦
        rw (ok, later, publish_delayed) (sents-send_sync answer m.topic (build_delayed id at m) p)
  ]
]
