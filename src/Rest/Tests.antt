-- ===== src/Rest/Tests.antt =====
-- rest/client: runs on small inputs, and the theorems at such inputs.
use go_dev_sdk.Prelude.{
  ℕ, ◌-◌, ◌*◌, ◌^◌, ◌≤◌, ◌<◌, ◌≡◌, refl, Bool, true, false, [], none, some, Bytes, codes, eq_bytes,
  min, ltb, arith, reports,
}
use go_dev_sdk.Prelude.Int.{pos, pos_part}
use go_dev_sdk.Rest.Backoff.{
  Config, set_defaults, validate, checks, backoff_cap, seconds, malformed, parse_retry_after,
}
use go_dev_sdk.Rest.Backoff.Bounds.{backoff_cap-exact}
use go_dev_sdk.Rest.Retry.{
  Call, Request, other, Result, failed, response, retryable, retry_delay, retry_err, ended,
  retry_loop, retry,
}
use go_dev_sdk.Rest.Retry.Laws.{Ends, retry-Ends}

-- The zero config.
abbrev config : Config
config = record {
  timeout = pos 0;
  attempt_timeout = pos 0;
  max_attempts = pos 0;
  backoff_base = pos 0;
  backoff_max = pos 0;
  max_retry_after = pos 0;
  dial_timeout = pos 0;
  proxy = [];
}

abbrev any_proxy : Bytes → Bool
any_proxy p = true

valid : validate any_proxy (set_defaults config) ≡ []
unfolding validate checks set_defaults reports
valid = refl

small_max : pos_part (set_defaults config).backoff_max < 2 ^ 63
unfolding set_defaults
small_max = omega arith

third_retry : backoff_cap 100000000 2000000000 3 ≡ 400000000
unfolding backoff_cap
third_retry = refl

late_retry : backoff_cap 100000000 2000000000 80 ≡ 2000000000
unfolding backoff_cap
late_retry = refl

huge_header : parse_retry_after (seconds (pos 99999999999999)) ≡ some 9223372036000000000
unfolding parse_retry_after
huge_header = refl

backoff_cap-exact_example :
    let base = pos_part (set_defaults config).backoff_base in
    let limit = pos_part (set_defaults config).backoff_max in
    (1 ≤ backoff_cap base limit 3)
    × (backoff_cap base limit 3 ≤ limit)
    × (backoff_cap base limit 3 ≡ min limit (base * 2 ^ (3 - 1)))
backoff_cap-exact_example = backoff_cap-exact any_proxy config 3 valid small_max

abbrev script : ℕ → Result
script n = elim (ltb n 3) [ true ↦ failed (other 1) | false ↦ response 200 malformed ]

-- Two failures, and then a response of 200.
abbrev call : Call
call = record {
  max_attempts = 5;
  max_retry_after = 10000000000;
  attempts = script;
  context_done = λ _. false;
  jitter = λ _. 7;
  too_late = λ _ _. false;
  wait_err = λ _ _. none;
}

abbrev request : Request
request = record {
  is_body_stream = false;
  file_has_reader = false;
  field_has_reader = false;
  method = codes "GET";
  idempotency_key = [];
}

third_attempt : retry call request ≡ ended (response 200 malformed) 3
unfolding retry retryable retry_loop retry_delay retry_err eq_bytes
third_attempt = refl

retry-Ends_example :
    Ends call 1 (retry call request)
    × (retryable request ≡ false → retry call request ≡ ended (call.attempts 1) 1)
retry-Ends_example = retry-Ends call request
