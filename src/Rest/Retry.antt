-- ===== src/Rest/Retry.antt =====
-- rest/client/middleware.go: the retry loop. The results of the attempts, the caller's context and the
-- draws of the random delays are the parameter `Call`, by the number of the attempt, which starts at 1.
-- Of a response the status and its Retry-After header are kept, and of an error what retryErr tells
-- apart.
pub mod Laws
use go_dev_sdk.Prelude.{
  ℕ, zero, suc, ◌+◌, leb, ltb, ◌==◌, Bool, true, false, ◌&&◌, ◌||◌, not, List, [], ◌∷◌, Option,
  none, some, Bytes, codes, eq_bytes, is_empty, if◌then◌else◌,
}
use go_dev_sdk.Rest.Backoff.{RetryAfter, parse_retry_after}

-- The causes that retryErr looks for in an error, and any other.
pub data Err : Type 0 where
  certificate record_header remote_alert dns_not_found : Err
  body_too_large not_support_protocol informational_response : Err
  context_ended : ℕ → Err
  other : ℕ → Err

pub data Result : Type 0 where
  failed : Err → Result
  response : ℕ → RetryAfter → Result

-- A request, as `retryable` reads it.
pub record Request : Type 0 where
  pub is_body_stream : Bool
  pub file_has_reader : Bool
  pub field_has_reader : Bool
  pub method : Bytes
  pub idempotency_key : Bytes

unfoldable pub retryable : Request → Bool
retryable r =
    if r.is_body_stream
    then false
    else if r.file_has_reader
    then false
    else if r.field_has_reader
    then false
    else if eq_bytes r.method (codes "GET")
        || eq_bytes r.method (codes "HEAD")
        || eq_bytes r.method (codes "OPTIONS")
        || eq_bytes r.method (codes "PUT")
        || eq_bytes r.method (codes "DELETE")
        || eq_bytes r.method (codes "TRACE")
    then true
    else not (is_empty r.idempotency_key)

unfoldable pub retry_err : Err → Bool
retry_err certificate = false
retry_err record_header = false
retry_err remote_alert = false
retry_err dns_not_found = false
retry_err body_too_large = false
retry_err not_support_protocol = false
retry_err informational_response = false
retry_err (context_ended _) = true
retry_err (other _) = true

abbrev pub is_retryable_status : ℕ → Bool
is_retryable_status s = s == 429 || s == 502 || s == 503 || s == 504

-- `attempts` gives the result of an attempt, `context_err` whether the context is done after it,
-- `jitter` the draw of `backoff`, `too_late` whether a delay passes the deadline, and `wait_err` how
-- the wait ends.
pub record Call : Type 0 where
  pub max_attempts : ℕ
  pub max_retry_after : ℕ
  pub attempts : ℕ → Result
  pub context_done : ℕ → Bool
  pub jitter : ℕ → ℕ
  pub too_late : ℕ → ℕ → Bool
  pub wait_err : ℕ → ℕ → Option Err

module _ (c : Call) where
  abbrev within_deadline : ℕ → ℕ → Option ℕ
  within_deadline attempt delay = if c.too_late attempt delay then none else some delay

  abbrev header_delay : ℕ → Option ℕ → Option ℕ
  header_delay attempt none = within_deadline attempt (c.jitter attempt)
  header_delay attempt (some d) =
      if ltb c.max_retry_after d then none else within_deadline attempt d

  unfoldable pub retry_delay : ℕ → Result → Option ℕ
  unfolding retry_err parse_retry_after
  retry_delay attempt (failed e) =
      if not (retry_err e) then none else within_deadline attempt (c.jitter attempt)
  retry_delay attempt (response status after) =
      if not (is_retryable_status status)
      then none
      else if status == 429 || status == 503
      then header_delay attempt (parse_retry_after after)
      else within_deadline attempt (c.jitter attempt)

  -- A call ends with a result after a number of attempts. `out_of_fuel` is no end of the source.
  pub data End : Type 0 where
    ended : Result → ℕ → End
    out_of_fuel : End

  abbrev after_wait : Option Err → ℕ → End → End
  after_wait (some e) attempt next = ended (failed e) attempt
  after_wait none attempt next = next

  abbrev after_delay : Option ℕ → ℕ → End → End
  after_delay none attempt next = ended (c.attempts attempt) attempt
  after_delay (some d) attempt next = after_wait (c.wait_err attempt d) attempt next

  -- The loop, with fuel for the attempts that are left.
  unfoldable pub retry_loop : ℕ → ℕ → End
  unfolding retry_delay
  retry_loop zero attempt = out_of_fuel
  retry_loop (suc left) attempt =
      let next = retry_loop left (suc attempt) in
      if leb c.max_attempts attempt || c.context_done attempt
      then ended (c.attempts attempt) attempt
      else after_delay (retry_delay attempt (c.attempts attempt)) attempt next

  -- The fuel max(MaxAttempts, 1) is enough, since attempt MaxAttempts stops the loop.
  unfoldable pub retry : Request → End
  unfolding retry_loop retryable
  retry r = if not (retryable r) then ended (c.attempts 1) 1 else retry_loop (suc c.max_attempts) 1
