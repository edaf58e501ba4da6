-- ===== src/Observability/Metrics/Defaults.antt =====
-- observability/metrics/config.go: which configs `New` takes.
use go_dev_sdk.Prelude.{◌≡◌, ◌↔◌, [], reports-nil_iff, arith}
use go_dev_sdk.Prelude.Int.{pos, negsuc, ◌≤ℤ◌}
use go_dev_sdk.Observability.Metrics.{Config, set_defaults, checks, validate}

abbrev pub IsReasonable : Config → Type 0
IsReasonable c =
    (pos 0 ≤ℤ c.timeout)
    × (pos 0 ≤ℤ c.export_interval)
    × (pos 0 ≤ℤ c.histogram_max_buckets)
    × (c.histogram_max_buckets ≤ℤ pos 320)
    × (negsuc 9 ≤ℤ c.histogram_max_scale)
    × (c.histogram_max_scale ≤ℤ pos 20)

-- `Validate` takes a config with its defaults exactly if no duration or number of buckets is negative, there
-- are at most 320 buckets, and the scale is from -10 to 20.
pub validate-IsReasonable_iff : (c : Config) → (validate (set_defaults c) ≡ []) ↔ IsReasonable c
unfolding validate checks set_defaults
validate-IsReasonable_iff c = ground (arith, reports-nil_iff (checks (set_defaults c)))
