-- ===== src/Nats/Consumer/Handler/Settling.antt =====
-- nats/consumer/handler.go: a delivery is settled once.
use go_dev_sdk.Prelude.{
  Bool, true, false, ◌||◌, ◌∙◌, ap, ℕ, zero, suc, ◌≡◌, refl, ap₂, inl, inr, Option-cases, List, [],
  ◌∷◌, Option, none, some, if◌then◌else◌, arith,
}
use go_dev_sdk.Prelude.Int.{ℤ, pos, ltb_ℤ}
use go_dev_sdk.Nats.Failure.{
  no_metadata, error_type, Sentinel, Err, sentinel, wrap, joined, coded, nil_coded, api_error,
  net_error, plain, no_retry, panic_recovered, is_err, meets_nil, first_is_nil, type_panics,
  slog_panics,
}
use go_dev_sdk.Nats.Consumer.Handler.{
  Outcome, returned, panics, Op, ack, nak, term, in_progress, nak_with_delay, Delivery, Message,
  Event, settled, settle_failed, warned, span_started, span_failed, span_ended, log_consumed,
  log_error, measured, counted, called, panic_logged, Adapter, settle, settle_outcome, heartbeats,
  call, recover, panic_recovery, metrics_mw, logger, trace_result, status, tracer_mw, chain,
  handle_msg, new_message,
}

-- The settle calls that end a delivery, so without the heartbeats.
abbrev pub finals : List Event → List (Op × ℕ)
finals [] = []
finals (settled ack n ∷ l) = (ack, n) ∷ finals l
finals (settled nak n ∷ l) = (nak, n) ∷ finals l
finals (settled term n ∷ l) = (term, n) ∷ finals l
finals (settled in_progress n ∷ l) = finals l
finals (settled (nak_with_delay t) n ∷ l) = (nak_with_delay t, n) ∷ finals l
finals (settle_failed _ _ ∷ l) = finals l
finals (warned ∷ l) = finals l
finals (span_started _ ∷ l) = finals l
finals (span_failed _ ∷ l) = finals l
finals (span_ended ∷ l) = finals l
finals (log_consumed ∷ l) = finals l
finals (log_error _ ∷ l) = finals l
finals (measured _ ∷ l) = finals l
finals (counted ∷ l) = finals l
finals (called _ ∷ l) = finals l
finals (panic_logged ∷ l) = finals l

-- How a result is answered: a success is acked, an error that must not be retried is termed, and any
-- other asks for a redelivery, after the backoff if there is one.
abbrev pub answer_to : ℤ → Option Err → Op
answer_to backoff none = ack
answer_to backoff (some e) =
    if is_err e no_retry
    then term
    else if ltb_ℤ (pos 0) backoff
    then nak_with_delay backoff
    else nak

abbrev pub result_of : Outcome → Option Err
result_of (returned e) = e
result_of panics = some (wrap [] (sentinel panic_recovered))

-- The one settlement of a delivery: a nak of sequence 0 without metadata, a nak if the run has ended
-- before, and else the answer to the handler's result.
abbrev pub settlement : Adapter → Option Message → Option Err → Op × ℕ
settlement h none ended = (nak, 0)
settlement h (some m) none = (answer_to h.retry_backoff (result_of (h.handler m).1), m.sequence)
settlement h (some m) (some e) = (nak, m.sequence)

settle-finals :
    (d : Delivery) (n : ℕ) (op : Op) (l : List Event)
    → finals (settle d n op l) ≡ finals (settled op n ∷ l)
unfolding settle
settle-finals d n op l = elim (Option-cases (d.settle_err op)) [
  | inl e ↦ rw (e, settle) refl
  | inr (x, e) ↦ rw (e, settle) refl
]

heartbeats-finals :
    (d : Delivery) (n k : ℕ) (l : List Event) → finals (heartbeats d n k l) ≡ finals l
unfolding heartbeats
heartbeats-finals d n zero l = refl
heartbeats-finals d n (suc k) l =
    settle-finals d n in_progress (heartbeats d n k l) ∙ heartbeats-finals d n k l

call-finals :
    (h : Adapter) (d : Delivery) (m : Message) (l : List Event) → finals (call h d m l).1 ≡ finals l
unfolding call
call-finals h d m l = ground (arith, heartbeats-finals d m.sequence (h.handler m).0 (called m ∷ l))

recover-finals : (r : Outcome × List Event) → finals (recover r).1 ≡ finals r.1
recover-finals (returned e, l) = refl
recover-finals (panics, l) = refl

recover-result : (r : Outcome × List Event) → (recover r).0 ≡ returned (result_of r.0)
recover-result (returned e, l) = refl
recover-result (panics, l) = refl

-- No *Error in the tree is nil.
abbrev pub has_nil : Err → Bool
has_nil (sentinel _) = false
has_nil (wrap _ e) = has_nil e
has_nil (joined e f) = has_nil e || has_nil f
has_nil (coded _) = false
has_nil nil_coded = true
has_nil (api_error _) = false
has_nil (net_error _) = false
has_nil (plain _) = false

abbrev pub tells_nil : Option Err → Bool
tells_nil none = false
tells_nil (some e) = has_nil e

meets_no_nil : (e : Err) (s : Sentinel) → has_nil e ≡ false → meets_nil e s ≡ false
unfolding meets_nil
meets_no_nil (sentinel _) s h = refl
meets_no_nil (wrap _ e) s h = meets_no_nil e s h
meets_no_nil (joined e f) s h = ground (arith, h, meets_no_nil e s, meets_no_nil f s)
meets_no_nil (coded _) s h = refl
meets_no_nil nil_coded s h = absurd (cc)
meets_no_nil (api_error _) s h = refl
meets_no_nil (net_error _) s h = refl
meets_no_nil (plain _) s h = refl

first_no_nil : (e : Err) → has_nil e ≡ false → slog_panics e ≡ false
unfolding slog_panics first_is_nil
first_no_nil (sentinel _) h = refl
first_no_nil (wrap _ e) h = first_no_nil e h
first_no_nil (joined e f) h = ground (arith, h, first_no_nil e, first_no_nil f)
first_no_nil (coded _) h = refl
first_no_nil nil_coded h = absurd (cc)
first_no_nil (api_error _) h = refl
first_no_nil (net_error _) h = refl
first_no_nil (plain _) h = refl

type_no_nil : (e : Err) → has_nil e ≡ false → type_panics e ≡ false
unfolding type_panics
type_no_nil e h = meets_no_nil e panic_recovered h

settle_outcome-finals :
    (h : Adapter) (d : Delivery) (n : ℕ) (e : Option Err) (l : List Event)
    → finals (settle_outcome h d n e l) ≡ (answer_to h.retry_backoff e, n) ∷ finals l
unfolding settle_outcome
settle_outcome-finals h d n none l = settle-finals d n ack l
settle_outcome-finals h d n (some e) l = ground (
  arith,
  settle-finals d n term l,
  settle-finals d n (nak_with_delay h.retry_backoff) l,
  settle-finals d n nak l,
)

status-finals :
    (e : Err) (l : List Event)
    → type_panics e ≡ false
    → (finals (status e l).1 ≡ finals l) × ((status e l).0 ≡ returned (some e))
status-finals e l q = rw q (refl, refl)

-- What follows the recovery, of an error without a nil *Error.
traced-finals :
    (h : Adapter) (d : Delivery) (n : ℕ) (e : Option Err) (l : List Event)
    → tells_nil e ≡ false
    → (finals (trace_result h d n (logger (metrics_mw (returned e, l)))).1
        ≡ (answer_to h.retry_backoff e, n) ∷ finals l)
      × ((trace_result h d n (logger (metrics_mw (returned e, l)))).0 ≡ returned e)
unfolding logger metrics_mw
traced-finals h d n none l q =
    (settle_outcome-finals h d n none (log_consumed ∷ counted ∷ measured [] ∷ l), refl)
traced-finals h d n (some e) l q =
    let t = type_no_nil e q in
    let g = first_no_nil e q in
    let r = meets_no_nil e no_retry q in
    let told = log_error e ∷ counted ∷ measured (error_type (some e)) ∷ l in
    let (same, ending) = status-finals e (settle_outcome h d n (some e) told) t in
    rw (t, g, r) (same ∙ settle_outcome-finals h d n (some e) told, ending)

-- A nil *Error that errors.Is meets on the way to ErrPanic: nothing is settled.
crashed-finals :
    (h : Adapter) (d : Delivery) (n : ℕ) (e : Err) (l : List Event)
    → type_panics e ≡ true
    → (finals (trace_result h d n (logger (metrics_mw (returned (some e), l)))).1 ≡ finals l)
      × ((trace_result h d n (logger (metrics_mw (returned (some e), l)))).0 ≡ panics)
unfolding logger metrics_mw
crashed-finals h d n e l q = rw q (refl, refl)

-- What the recovery hands on: the result of the handler, and no settlement.
recover-returned :
    (r : Outcome × List Event) → recover r ≡ (returned (result_of r.0), (recover r).1)
recover-returned (returned e, l) = refl
recover-returned (panics, l) = refl

inner-finals :
    (h : Adapter) (d : Delivery) (m : Message) (l : List Event)
    → finals (recover (call h d m l)).1 ≡ finals l
inner-finals h d m l = recover-finals (call h d m l) ∙ call-finals h d m l

called-returned :
    (h : Adapter) (d : Delivery) (m : Message) (l : List Event)
    → recover (call h d m l) ≡ (returned (result_of (h.handler m).1), (recover (call h d m l)).1)
unfolding call
called-returned h d m l = recover-returned (call h d m l)

-- The settlements and the ending of what a chain gives.
abbrev gives : Outcome × List Event → List (Op × ℕ) × Outcome
gives r = (finals r.1, r.0)

abbrev around : Adapter → Delivery → ℕ → Outcome × List Event → Outcome × List Event
around h d n r = trace_result h d n (logger (metrics_mw r))

chain-finals :
    (h : Adapter) (d : Delivery) (m : Message) (l : List Event)
    → let e = result_of (h.handler m).1 in
      tells_nil e ≡ false
      → gives (chain h d m l) ≡ ((answer_to h.retry_backoff e, m.sequence) ∷ finals l, returned e)
unfolding chain tracer_mw panic_recovery
chain-finals h d m l q =
    let e = result_of (h.handler m).1 in
    let k = span_started m ∷ l in
    let r = recover (call h d m k) in
    let (settles, ending) = traced-finals h d m.sequence e r.1 q in
    ap (λ (x : Outcome × List Event). gives (around h d m.sequence x)) (called-returned h d m k)
    ∙ ap₂ (λ (f : List (Op × ℕ)) (o : Outcome). (f, o)) settles ending
    ∙ ap (λ (f : List (Op × ℕ)). ((answer_to h.retry_backoff e, m.sequence) ∷ f, returned e))
        (inner-finals h d m k)

chain-crashes :
    (h : Adapter) (d : Delivery) (m : Message) (e : Err) (l : List Event)
    → result_of (h.handler m).1 ≡ some e
    → type_panics e ≡ true
    → gives (chain h d m l) ≡ (finals l, panics)
unfolding chain tracer_mw panic_recovery
chain-crashes h d m e l same q =
    let k = span_started m ∷ l in
    let r = recover (call h d m k) in
    let (settles, ending) = crashed-finals h d m.sequence e r.1 q in
    ap (λ (x : Outcome × List Event). gives (around h d m.sequence x)) (called-returned h d m k)
    ∙ ap (λ (x : Option Err). gives (around h d m.sequence (returned x, r.1))) same
    ∙ ap₂ (λ (f : List (Op × ℕ)) (o : Outcome). (f, o)) settles ending
    ∙ ap (λ (f : List (Op × ℕ)). (f, panics)) (inner-finals h d m k)

-- What HandleMsg returns.
abbrev pub answer_of : Adapter → Option Message → Option Err → Option Err
answer_of h none ended = some (sentinel no_metadata)
answer_of h (some m) none = result_of (h.handler m).1
answer_of h (some m) (some e) = some e

-- Given a handler whose errors have no nil *errs.Error in their tree, every delivery is settled exactly
-- once, however the handler ends and however many heartbeats it sends: nak'd without metadata or after
-- the run has ended; else acked for success, termed for an error that must not be retried, and nak'd for
-- any other error or a panic, with the backoff if there is one. And the call returns, with the error
-- that it was settled by.
pub handle_msg-settles :
    (h : Adapter) (d : Delivery) (l : List Event)
    → ((m : Message) → tells_nil (result_of (h.handler m).1) ≡ false)
    → (finals (handle_msg h d l).1 ≡ settlement h (new_message h.topic d) d.context_err ∷ finals l)
      × ((handle_msg h d l).0 ≡ returned (answer_of h (new_message h.topic d) d.context_err))
unfolding handle_msg
handle_msg-settles h d l q = elim (Option-cases (new_message h.topic d)) [
  | inl e ↦ rw (e, handle_msg) (settle-finals d 0 nak (warned ∷ l), refl)
  | inr (m, e) ↦ elim (Option-cases d.context_err) [
    | inl f ↦
        let g = chain-finals h d m l (q m) in
        rw (e, f, handle_msg)
          (ap (λ (x : List (Op × ℕ) × Outcome). x.0) g, ap (λ (x : List (Op × ℕ) × Outcome). x.1) g)
    | inr (x, f) ↦ rw (e, f, handle_msg) (settle-finals d m.sequence nak l, refl)
  ]
]

-- Where the handler of a delivery that is to run returns an error in whose tree errors.Is meets a nil
-- *errs.Error before it finds ErrPanic, the call panics, and the delivery is not settled.
pub handle_msg-crashes :
    (h : Adapter) (d : Delivery) (m : Message) (e : Err) (l : List Event)
    → new_message h.topic d ≡ some m
    → d.context_err ≡ none
    → (h.handler m).1 ≡ returned (some e)
    → meets_nil e panic_recovered ≡ true
    → ((handle_msg h d l).0 ≡ panics) × (finals (handle_msg h d l).1 ≡ finals l)
unfolding handle_msg type_panics
handle_msg-crashes h d m e l known runs gives_e q =
    let g = chain-crashes h d m e l (ap result_of gives_e) q in
    rw (known, runs, handle_msg)
      (ap (λ (x : List (Op × ℕ) × Outcome). x.1) g, ap (λ (x : List (Op × ℕ) × Outcome). x.0) g)
