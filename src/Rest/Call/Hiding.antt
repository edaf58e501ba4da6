-- ===== src/Rest/Call/Hiding.antt =====
-- rest/client/middleware.go: what of the query a call tells.
use go_dev_sdk.Prelude.{
  zero, suc, not, leb, ◌||◌, ap₂, ℕ, ◌≡◌, ◌∙◌, ap, if◌then◌else◌, List, Option, Bytes, split_at,
}
use go_dev_sdk.Prelude.Int.{ℤ}
use go_dev_sdk.Rest.Redaction.{is_sendable, server_port}
use go_dev_sdk.Rest.Redaction.Laws.{keys_of, redact_url-hides}
use go_dev_sdk.Rest.Attempt.{World, State, failed}
use go_dev_sdk.Rest.Retry.{retryable, retry_delay}
use go_dev_sdk.Rest.Call.{
  Client, retries, retry, read_result, after_delay, Request, Span, Event, Told, traced, time_bound,
  url_error, span_of, labels_of, tracing, measure, log_call, log_end, logging, innermost, attempt,
  call,
}

abbrev pub with_query : Request → Bytes → Request
with_query q other = record q { uri = record q.uri { query_string = other } }

module _ (x : Client) (q : Request) (other : Bytes)
    (same : keys_of (split_at b'&' q.uri.query_string) ≡ keys_of (split_at b'&' other)) where
  span_of-hides : (n : ℕ) → span_of x q n ≡ span_of x (with_query q other) n
  unfolding span_of server_port
  span_of-hides n =
      ap (λ (url : Bytes). record (span_of x q n) { url = url }) (redact_url-hides q.uri other same)

  attempt-hides :
      (w : World) (s : State) (l : List Event)
      → attempt x q w s l ≡ attempt x (with_query q other) w s l
  unfolding attempt tracing measure labels_of server_port
  attempt-hides w s l =
      ap (λ (span : Span). traced span (measure x q (innermost x w)) s l) (span_of-hides s.attempts)

  retries-hides :
      (ws : ℕ → World) (left n : ℕ) (s : State) (l : List Event)
      → retries x q ws left n s l ≡ retries x (with_query q other) ws left n s l
  unfolding retries
  retries-hides ws zero n s l = attempt-hides (ws n) s l
  retries-hides ws (suc left) n s l =
      let t = attempt x q (ws n) s l in
      let u = attempt x (with_query q other) (ws n) s l in
      let same : t ≡ u = attempt-hides (ws n) s l in
      let next = retries-hides ws left (suc n) t.1 t.2 in
      let stop = leb x.call.max_attempts n || x.call.context_done n in
      ap
        (λ (y : Told).
          if stop then t else after_delay x (retry_delay x.call n (read_result x n t.0)) n t y)
        next
      ∙ ap
          (λ (y : Told).
            if stop
            then y
            else after_delay x (retry_delay x.call n (read_result x n y.0)) n y
                (retries x (with_query q other) ws left (suc n) y.1 y.2))
          same

  retry-hides :
      (ws : ℕ → World) (s : State) (l : List Event)
      → retry x q ws s l ≡ retry x (with_query q other) ws s l
  unfolding retry
  retry-hides ws s l =
      ap₂ (λ (a b : Told). if not (retryable q.sent) then a else b) (attempt-hides (ws 1) s l)
        (retries-hides ws x.call.max_attempts 1 s l)

  -- Calls whose URLs differ at most in the values of their queries, with the same keys in the same order,
  -- and whose attempts meet the same, tell the same: no span, measurement or log line of any attempt
  -- holds anything of a value.
  pub call-hides :
      (worlds : ℤ → ℕ → World) (left : Option ℤ) (s : State) (l : List Event)
      → call x worlds left q s l ≡ call x worlds left (with_query q other) s l
  unfolding call logging log_call is_sendable
  call-hides worlds left s l =
      let ws = worlds (time_bound s.timeout_option left x.timeout) in
      let fresh = record s { attempts = 0 } in
      ap (λ (t : Told). log_end x q (if is_sendable q.uri then t else (failed url_error, fresh, l)))
        (retry-hides ws fresh l)
