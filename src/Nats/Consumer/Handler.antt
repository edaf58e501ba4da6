-- ===== src/Nats/Consumer/Handler.antt =====
-- nats/consumer/handler.go and middleware.go: one delivery, from its metadata to its settlement. The
-- events are what the server, the span, the log and the metrics are told, the last one first. What
-- the handler does and how the settle calls end are given by the delivery. Times, trace identifiers and
-- the attributes of spans and log lines are left out, but for the error type.
pub mod Settling
use go_dev_sdk.Prelude.{
  ℕ, zero, suc, Bool, true, false, ◌&&◌, not, List, [], ◌∷◌, ◌++◌, Option, none, some, Bytes, codes,
  cut_prefix, is_empty, if◌then◌else◌,
}
use go_dev_sdk.Prelude.Int.{ℤ, pos, negsuc, not_positive, ltb_ℤ}
use go_dev_sdk.Nats.Failure.{
  Err, sentinel, wrap, no_retry, no_metadata, panic_recovered, is_err, error_type, type_panics,
  slog_panics, meets_nil,
}

-- The handler returns or panics, after a number of heartbeat ticks.
pub data Outcome : Type 0 where
  returned : Option Err → Outcome
  panics : Outcome

pub data Op : Type 0 where
  ack nak term in_progress : Op
  nak_with_delay : ℤ → Op

pub record Metadata : Type 0 where
  pub sequence : ℕ
  pub num_delivered : ℕ

-- `raw` and the run context: the metadata, or its error, the headers of the SDK, how the context
-- stands, what a settle call answers, and the handler's part.
pub record Delivery : Type 0 where
  pub metadata : Option Metadata
  pub key_header : Bytes
  pub tag_header : Bytes
  pub subject : Bytes
  pub context_err : Option Err
  pub settle_err : Op → Option Err

pub record Message : Type 0 where
  pub key : Bytes
  pub tag : Bytes
  pub subject : Bytes
  pub sequence : ℕ
  pub delivery_count : ℕ

pub data Event : Type 0 where
  settled : Op → ℕ → Event
  settle_failed : Op → ℕ → Event
  warned : Event
  span_started : Message → Event
  span_failed : Bytes → Event
  span_ended : Event
  log_consumed : Event
  log_error : Err → Event
  measured : Bytes → Event
  counted : Event
  called : Message → Event
  panic_logged : Event

abbrev pub suffix_tag : Option Bytes → Bytes
suffix_tag none = []
suffix_tag (some after) = after

-- `newMessage`: the tag of the header, or else the suffix of the subject.
unfoldable pub new_message : Bytes → Delivery → Option Message
new_message topic d = elim d.metadata [
  | none ↦ none
  | some md ↦ some (record {
    key = d.key_header;
    tag =
        (if is_empty d.tag_header
          then suffix_tag (cut_prefix d.subject (topic ++ codes "."))
          else d.tag_header);
    subject = d.subject;
    sequence = md.sequence;
    delivery_count = md.num_delivered;
  })
]

-- `settle`: the call, and the warning where it fails.
unfoldable pub settle : Delivery → ℕ → Op → List Event → List Event
settle d sequence op l = elim (d.settle_err op) [
  | none ↦ settled op sequence ∷ l
  | some e ↦ settle_failed op sequence ∷ settled op sequence ∷ l
]

-- The adapter's settings: `meta` with the retry backoff, and whether a heartbeat runs.
pub record Adapter : Type 0 where
  pub topic : Bytes
  pub retry_backoff : ℤ
  pub heartbeat_every : ℤ
  pub handler : Message → ℕ × Outcome

unfoldable pub settle_outcome : Adapter → Delivery → ℕ → Option Err → List Event → List Event
unfolding settle
settle_outcome h d sequence none l = settle d sequence ack l
settle_outcome h d sequence (some e) l =
    if is_err e no_retry
    then settle d sequence term l
    else if ltb_ℤ (pos 0) h.retry_backoff
    then settle d sequence (nak_with_delay h.retry_backoff) l
    else settle d sequence nak l

-- As many ticks of the heartbeat as come before the handler returns.
unfoldable pub heartbeats : Delivery → ℕ → ℕ → List Event → List Event
unfolding settle
heartbeats d sequence zero l = l
heartbeats d sequence (suc n) l = settle d sequence in_progress (heartbeats d sequence n l)

-- `call`: the heartbeat has stopped when it returns, also by a panic.
unfoldable pub call : Adapter → Delivery → Message → List Event → Outcome × List Event
unfolding heartbeats
call h d m l =
    let (ticks, o) = h.handler m in
    (
      o,
      if not_positive h.heartbeat_every
          then called m ∷ l
          else heartbeats d m.sequence ticks (called m ∷ l),
    )

abbrev pub recover : Outcome × List Event → Outcome × List Event
recover (returned e, l) = (returned e, l)
recover (panics, l) = (returned (some (wrap [] (sentinel panic_recovered))), panic_logged ∷ l)

unfoldable pub panic_recovery : Outcome × List Event → Outcome × List Event
panic_recovery r = recover r

-- The middlewares from their `next(ctx, msg)` on. They are outside of the recovery: where an error has a
-- nil *Error, they may panic.
unfoldable pub metrics_mw : Outcome × List Event → Outcome × List Event
unfolding type_panics error_type
metrics_mw (panics, l) = (panics, l)
metrics_mw (returned none, l) = (returned none, counted ∷ measured [] ∷ l)
metrics_mw (returned (some e), l) =
    if type_panics e
    then (panics, l)
    else (returned (some e), counted ∷ measured (error_type (some e)) ∷ l)

unfoldable pub logger : Outcome × List Event → Outcome × List Event
unfolding slog_panics
logger (panics, l) = (panics, l)
logger (returned none, l) = (returned none, log_consumed ∷ l)
logger (returned (some e), l) =
    if slog_panics e then (panics, l) else (returned (some e), log_error e ∷ l)

abbrev pub status : Err → List Event → Outcome × List Event
status e l =
    if type_panics e
    then (panics, span_ended ∷ l)
    else (returned (some e), span_ended ∷ span_failed (error_type (some e)) ∷ l)

-- The span ends also at a panic.
abbrev pub trace_result : Adapter → Delivery → ℕ → Outcome × List Event → Outcome × List Event
trace_result h d sequence (panics, l) = (panics, span_ended ∷ l)
trace_result h d sequence (returned none, l) =
    (returned none, span_ended ∷ settle_outcome h d sequence none l)
trace_result h d sequence (returned (some e), l) =
    if meets_nil e no_retry
    then (panics, span_ended ∷ l)
    else status e (settle_outcome h d sequence (some e) l)

unfoldable pub tracer_mw :
    Adapter
    → Delivery
    → Message
    → (List Event → Outcome × List Event)
    → List Event
    → Outcome × List Event
unfolding settle_outcome type_panics error_type meets_nil
tracer_mw h d m next l = trace_result h d m.sequence (next (span_started m ∷ l))

unfoldable pub chain : Adapter → Delivery → Message → List Event → Outcome × List Event
unfolding tracer_mw logger metrics_mw panic_recovery call
chain h d m l = tracer_mw h d m (λ l'. logger (metrics_mw (panic_recovery (call h d m l')))) l

abbrev run_unless_ended :
    Adapter → Delivery → Message → Option Err → List Event → Outcome × List Event
run_unless_ended h d m none l = chain h d m l
run_unless_ended h d m (some e) l = (returned (some e), settle d m.sequence nak l)

abbrev run_message : Adapter → Delivery → Option Message → List Event → Outcome × List Event
run_message h d none l = (returned (some (sentinel no_metadata)), settle d 0 nak (warned ∷ l))
run_message h d (some m) l = run_unless_ended h d m d.context_err l

unfoldable pub handle_msg : Adapter → Delivery → List Event → Outcome × List Event
unfolding new_message chain settle
handle_msg h d l = run_message h d (new_message h.topic d) l
