-- ===== src/Rest/Backoff.antt =====
-- rest/client/config.go and middleware.go: the client's settings, and the delay before a retry.
-- Durations are integers of nanoseconds; where a shift or a product could pass 64 bits, the wrap is
-- written out. Whether a proxy is valid is a parameter.
pub mod Bounds
use go_dev_sdk.Prelude.{
  ℕ, suc, ◌+◌, ◌-◌, ◌*◌, ◌/◌, ◌%◌, ◌^◌, leb, ltb, min, Bool, true, false, ◌&&◌, ◌||◌, not, List, [],
  ◌∷◌, Option, none, some, Bytes, is_empty, if◌then◌else◌, reports,
}
use go_dev_sdk.Prelude.Int.{or_if_zero, ℤ, pos, negsuc, is_negative, is_zero, ltb_ℤ, pos_part}

pub record Config : Type 0 where
  pub timeout : ℤ
  pub attempt_timeout : ℤ
  pub max_attempts : ℤ
  pub backoff_base : ℤ
  pub backoff_max : ℤ
  pub max_retry_after : ℤ
  pub dial_timeout : ℤ
  pub proxy : Bytes

abbrev ms : ℕ
ms = 1000000

unfoldable pub set_defaults : Config → Config
set_defaults c = record c {
  timeout = or_if_zero c.timeout (pos (30000 * ms));
  attempt_timeout = or_if_zero c.attempt_timeout (pos (10000 * ms));
  max_attempts = or_if_zero c.max_attempts (pos 3);
  backoff_base = or_if_zero c.backoff_base (pos (100 * ms));
  backoff_max = or_if_zero c.backoff_max (pos (2000 * ms));
  max_retry_after = or_if_zero c.max_retry_after (pos (10000 * ms));
  dial_timeout = or_if_zero c.dial_timeout (pos (5000 * ms));
}

pub data ConfigError : Type 0 where
  negative_timeout negative_attempt_timeout negative_backoff_base negative_backoff_max : ConfigError
  negative_max_retry_after negative_dial_timeout too_few_attempts base_exceeds_max invalid_proxy :
      ConfigError

module _ (is_proxy : Bytes → Bool) where
  unfoldable pub checks : Config → List (Bool × ConfigError)
  checks c =
      (is_negative c.timeout, negative_timeout)
      ∷ (is_negative c.attempt_timeout, negative_attempt_timeout)
      ∷ (is_negative c.backoff_base, negative_backoff_base)
      ∷ (is_negative c.backoff_max, negative_backoff_max)
      ∷ (is_negative c.max_retry_after, negative_max_retry_after)
      ∷ (is_negative c.dial_timeout, negative_dial_timeout)
      ∷ (ltb_ℤ c.max_attempts (pos 1), too_few_attempts)
      ∷ (ltb_ℤ c.backoff_max c.backoff_base, base_exceeds_max)
      ∷ (not (is_empty c.proxy) && not (is_proxy c.proxy), invalid_proxy)
      ∷ []

  unfoldable pub validate : Config → List ConfigError
  unfolding checks
  validate c = reports (checks c)

-- `v >> k` and `v << k` of an int64 that is not negative. The shift left wraps.
abbrev pub shift_right : ℕ → ℕ → ℕ
shift_right v k = v / 2 ^ k

abbrev pub shift_left : ℕ → ℕ → ℕ
shift_left v k = v * 2 ^ k % 2 ^ 64

-- The bound that `backoff` draws below, for base and maximum that are not negative and n of 1 or more.
unfoldable pub backoff_cap : ℕ → ℕ → ℕ → ℕ
backoff_cap base limit n =
    if leb base (shift_right limit (n - 1)) then shift_left base (n - 1) else limit

-- `strconv.Atoi` of a Retry-After value, with the clamped number if it is out of range; or else the
-- time until the date that it is; or neither.
pub data RetryAfter : Type 0 where
  seconds : ℤ → RetryAfter
  date : ℤ → RetryAfter
  malformed : RetryAfter

abbrev pub max_retry_after_seconds : ℕ
max_retry_after_seconds = 9223372036

unfoldable pub parse_retry_after : RetryAfter → Option ℕ
parse_retry_after (seconds (pos s)) = some (min s max_retry_after_seconds * 1000000000 % 2 ^ 64)
parse_retry_after (seconds (negsuc s)) = none
parse_retry_after (date d) = some (pos_part d)
parse_retry_after malformed = none
