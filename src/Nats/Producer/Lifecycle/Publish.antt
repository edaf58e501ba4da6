-- ===== src/Nats/Producer/Lifecycle/Publish.antt =====
-- nats/producer/producer.go and telemetry.go: the publish calls, and the acks that end them.
use go_dev_sdk.Prelude.{
  ℕ, suc, ◌-◌, ◌==◌, List, [], ◌∷◌, Option, none, some, Bytes, codes, is_empty, if◌then◌else◌,
}
use go_dev_sdk.Nats.Failure.{Err, wrap, error_type}
use go_dev_sdk.Nats.Producer.Message.{Outgoing, Msg, has_dot, build_msg, build_delayed}
use go_dev_sdk.Prelude.Int.{ℤ, not_positive}
use go_dev_sdk.Nats.Producer.Lifecycle.{
  ProducerError, invalid_tag, producer_not_found, send_failed, Run, Told, span_started, span_ended,
  sent, accepted, measured, handed, called_back, Producer, is_in, is_among, take_out,
}

-- `producerFor`: the run, when it has the topic.
abbrev pub run_for : Bytes → Option Run → Option ℕ
run_for topic none = none
run_for topic (some r) = if is_in topic r.topics then some r.cycle else none

abbrev pub not_found : Bytes → Err
not_found topic = wrap topic (Err.plain (codes "producer: not registered for this topic"))

-- `finish` and `record`: the span ends, its time is measured, and what has no error type is sent.
unfoldable pub finish : Option Err → List Told → List Told
finish e l =
    let ended = measured (error_type e) ∷ span_ended ∷ l in
    if is_empty (error_type e) then sent ∷ ended else ended

-- `sendSync` of the wire message in a span.
unfoldable pub send_sync :
    (Msg → Option Err) → Bytes → Msg → Producer → Option ProducerError × Producer
unfolding finish is_in
send_sync answer topic w p = elim (run_for topic p.run) [
  | none ↦ (
    some (producer_not_found topic),
    record p { told = finish (some (not_found topic)) (span_started ∷ p.told) },
  )
  | some _ ↦ elim (answer w) [
    | none ↦ (none, record p { told = finish none (handed w ∷ span_started ∷ p.told) })
    | some e ↦ (
      some (send_failed (wrap topic e)),
      record p { told = finish (some (wrap topic e)) (handed w ∷ span_started ∷ p.told) },
    )
  ]
]

unfoldable pub publish_sync :
    (Msg → Option Err) → Outgoing → Producer → Option ProducerError × Producer
unfolding send_sync
publish_sync answer m p =
    if has_dot m.tag then (some invalid_tag, p) else send_sync answer m.topic (build_msg m) p

-- `PublishSyncWithDelay`: `id` and `at` as for build_delayed.
unfoldable pub publish_delayed :
    (Msg → Option Err) → Bytes → Bytes → ℤ → Outgoing → Producer → Option ProducerError × Producer
unfolding send_sync publish_sync
publish_delayed answer id at delay m p =
    if has_dot m.tag
    then (some invalid_tag, p)
    else if not_positive delay
    then publish_sync answer m p
    else send_sync answer m.topic (build_delayed id at m) p

unfoldable pub add : ℕ → (ℕ → ℕ) → ℕ → ℕ
add i p j = if j == i then suc (p j) else p j

-- `pending.Done()`.
unfoldable pub done : ℕ → (ℕ → ℕ) → ℕ → ℕ
done i p j = if j == i then p j - 1 else p j

-- `PublishAsync` up to the end of its `acquire`.
abbrev pub acquire : Bytes → Option ℕ → Producer → Option ProducerError × Producer
acquire topic none p = (
  some (producer_not_found topic),
  record p { told = finish (some (not_found topic)) (span_started ∷ p.told) },
)
acquire topic (some i) p = (
  none,
  record p { pending = add i p.pending; sending = i ∷ p.sending; told = span_started ∷ p.told },
)

unfoldable pub publish_async : Outgoing → Producer → Option ProducerError × Producer
unfolding is_in add finish
publish_async m p =
    if has_dot m.tag then (some invalid_tag, p) else acquire m.topic (run_for m.topic p.run) p

-- The transport's answer to a publish of run i: taken, or refused with an error, which the call returns.
abbrev pub transported : ℕ → Option Err → Producer → Producer
transported i none p = record p {
  sending = take_out i p.sending;
  awaiting = i ∷ p.awaiting;
  told = accepted ∷ p.told;
}
transported i (some e) p = record p {
  sending = take_out i p.sending;
  pending = done i p.pending;
  told = finish (some (wrap [] e)) p.told;
}

unfoldable pub transport : ℕ → Option Err → Producer → Producer
unfolding is_among take_out done finish
transport i answer p = if is_among i p.sending then transported i answer p else p

-- The ack of a publish of run i, or its error: the span ends, the callback runs, and then the run's
-- count falls.
unfoldable pub complete : ℕ → Option Err → Producer → Producer
unfolding is_among take_out done finish
complete i e p =
    if is_among i p.awaiting
    then record p {
      awaiting = take_out i p.awaiting;
      pending = done i p.pending;
      told = called_back e ∷ finish e p.told;
    }
    else p
