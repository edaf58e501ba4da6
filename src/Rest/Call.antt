-- ===== src/Rest/Call.antt =====
-- rest/client: a call, through `logging`, `retry`, `tracing`, `measure` and `deadline`. The events are what
-- the spans, the metrics and the log are told, the last one first. Times and the trace context are left
-- out. What an attempt meets is given by its number, under the time bound of the call.
pub mod Told
pub mod Hiding
pub mod Agreement
mod Tests
use go_dev_sdk.Prelude.{
  ℕ, zero, suc, leb, Bool, true, false, ◌&&◌, ◌||◌, ◌==◌, not, List, [], ◌∷◌, ◌++◌, Option, none,
  some, Bytes, codes, is_empty, if◌then◌else◌,
}
use go_dev_sdk.Prelude.Int.{ℤ, pos, ltb_ℤ}
use go_dev_sdk.Errs.{Err, plain}
use go_dev_sdk.Rest.Semconv.{method, span_name, scheme}
use go_dev_sdk.Rest.Redaction.{Uri, redact_url, is_sendable, server_address, server_port}
use go_dev_sdk.Rest.Backoff.{RetryAfter}
use go_dev_sdk.Rest.Retry
use go_dev_sdk.Rest.Retry.{Call, retryable, retry_delay}
use go_dev_sdk.Rest.Attempt.{
  Result, failed, responded, World, State, Outcome, min_ℤ, attempt_timeout, deadline,
  attempt_outcome,
}

-- A request, with what `retry` reads of it, its method among that.
pub record Request : Type 0 where
  pub sent : Retry.Request
  pub uri : Uri
  pub path : Bytes

-- The attributes of a span at its start; a resend count of 0 is one not recorded.
pub record Span : Type 0 where
  pub name : Bytes
  pub method : Bytes
  pub original : Bytes
  pub address : Bytes
  pub port : ℕ
  pub url : Bytes
  pub resend_count : ℕ

-- The attributes of a measurement but for the outcome.
pub record Labels : Type 0 where
  pub method : Bytes
  pub address : Bytes
  pub port : ℕ
  pub scheme : Bytes

-- The line of a call: its status, or the error.
pub record Line : Type 0 where
  pub method : Bytes
  pub address : Bytes
  pub path : Bytes
  pub result : Result
  pub attempts : ℕ

pub data Event : Type 0 where
  span_started : Span → Event
  span_set : Outcome → Event
  span_failed : Event
  span_ended : Event
  measured : Labels → Outcome → Event
  logged_debug : Line → Event
  logged_warn : Line → Event

abbrev pub Told : Type 0
Told = Result × State × List Event

abbrev pub Endpoint : Type 0
Endpoint = State → List Event → Told

-- The end of a span, with its outcome.
abbrev pub end_span : Outcome → List Event → List Event
end_span o l = span_ended ∷ span_set o ∷ (if is_empty o.err_type then l else span_failed ∷ l)

abbrev pub traced : Span → Endpoint → Endpoint
traced span next s l =
    let (r, s', l') = next s (span_started span ∷ l) in (r, s', end_span (attempt_outcome r) l')

abbrev pub log_level : Result → Line → Event
log_level (failed e) line = logged_warn line
log_level (responded r) line = if leb 400 r.status then logged_warn line else logged_debug line

-- The bound that `logging` puts on the call: the timeout option of the caller, at most the time left to the
-- context; else that; else the timeout of the config.
unfoldable pub time_bound : ℤ → Option ℤ → ℤ → ℤ
time_bound option left timeout = elim left [
  | none ↦ if ltb_ℤ (pos 0) option then option else timeout
  | some t ↦ if ltb_ℤ (pos 0) option then min_ℤ option t else t
]

abbrev pub url_error : Err
url_error = plain (codes "rest/client: request URL must be http or https with a host")

-- What the client and its calls use: net.SplitHostPort and strconv.Atoi, which errors are timeouts, the
-- timeouts of the config, and what the retries meet, in `call`, whose own results of attempts are not
-- used. `classify` is what retryErr finds in an error, and `woken` the error of a wait as an error tree.
pub record Client : Type 0 where
  pub split_host_port : Bytes → Option (Bytes × Bytes)
  pub atoi : Bytes → Option ℕ
  pub timed_out : Err → Bool
  pub attempt_limit : ℤ
  pub timeout : ℤ
  pub call : Call
  pub classify : Err → Retry.Err
  pub retry_after : ℕ → RetryAfter
  pub woken : Retry.Err → Err

module _ (x : Client) where
  unfoldable pub span_of : Request → ℕ → Span
  unfolding method span_name server_address server_port redact_url
  span_of q attempts = record {
    name = span_name (method q.sent.method).0 [];
    method = (method q.sent.method).0;
    original = (method q.sent.method).1;
    address = server_address x.split_host_port x.atoi q.uri.host;
    port = server_port x.split_host_port x.atoi q.uri;
    url = redact_url q.uri;
    resend_count = attempts;
  }

  unfoldable pub tracing : Request → Endpoint → Endpoint
  unfolding span_of attempt_outcome
  tracing q next s l = traced (span_of q s.attempts) next s l

  unfoldable pub labels_of : Request → Labels
  unfolding method server_address server_port scheme
  labels_of q = record {
    method = (method q.sent.method).0;
    address = server_address x.split_host_port x.atoi q.uri.host;
    port = server_port x.split_host_port x.atoi q.uri;
    scheme = scheme q.uri.scheme;
  }

  unfoldable pub measure : Request → Endpoint → Endpoint
  unfolding labels_of attempt_outcome
  measure q next s l =
      let (r, s', l') = next s l in (r, s', measured (labels_of q) (attempt_outcome r) ∷ l')

  unfoldable pub log_call : Request → Result → ℕ → List Event → List Event
  unfolding method server_address
  log_call q r attempts l =
      log_level r (record {
        method = (method q.sent.method).0;
        address = server_address x.split_host_port x.atoi q.uri.host;
        path = q.path;
        result = r;
        attempts = attempts;
      })
      ∷ l

  abbrev pub log_end : Request → Told → Told
  log_end q (r, s, l) = (r, s, log_call q r s.attempts l)

  -- The state of the call starts here, with no attempt.
  unfoldable pub logging : Request → Endpoint → Endpoint
  unfolding is_sendable log_call
  logging q next s l =
      let fresh = record s { attempts = 0 } in
      log_end q (if is_sendable q.uri then next fresh l else (failed url_error, fresh, l))

  abbrev pub innermost : World → Endpoint
  innermost w s l = let (r, s') = deadline x.timed_out x.attempt_limit w s in (r, s', l)

  unfoldable pub attempt : Request → World → Endpoint
  unfolding tracing measure deadline
  attempt q w s l = tracing q (measure q (innermost w)) s l

  -- What `retryDelay` reads of the result of an attempt.
  abbrev pub read_result : ℕ → Result → Retry.Result
  read_result n (failed e) = Retry.failed (x.classify e)
  read_result n (responded r) = Retry.response r.status (x.retry_after n)

  abbrev after_wait : Option Retry.Err → Told → Told → Told
  after_wait none t next = next
  after_wait (some e) (r, s, l) next = (failed (x.woken e), s, l)

  abbrev pub after_delay : Option ℕ → ℕ → Told → Told → Told
  after_delay none n t next = t
  after_delay (some d) n t next = after_wait (x.call.wait_err n d) t next

  -- The loop of `retry` from attempt n on. It stops at attempt MaxAttempts, so with that much fuel it does not
  -- come to the first clause again after it.
  unfoldable pub retries : Request → (ℕ → World) → ℕ → ℕ → Endpoint
  unfolding attempt retry_delay
  retries q ws zero n s l = attempt q (ws n) s l
  retries q ws (suc left) n s l =
      let t = attempt q (ws n) s l in
      let next = retries q ws left (suc n) t.1 t.2 in
      if leb x.call.max_attempts n || x.call.context_done n
      then t
      else after_delay (retry_delay x.call n (read_result n t.0)) n t next

  unfoldable pub retry : Request → (ℕ → World) → Endpoint
  unfolding retries attempt retryable
  retry q ws s l =
      if not (retryable q.sent)
      then attempt q (ws 1) s l
      else retries q ws x.call.max_attempts 1 s l

  unfoldable pub call : (ℤ → ℕ → World) → Option ℤ → Request → State → List Event → Told
  unfolding logging retry time_bound
  call worlds left q s l =
      logging q (retry q (worlds (time_bound s.timeout_option left x.timeout))) s l
