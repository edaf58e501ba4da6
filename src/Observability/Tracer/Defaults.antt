-- ===== src/Observability/Tracer/Defaults.antt =====
-- observability/tracer/config.go: which configs `New` takes.
use go_dev_sdk.Prelude.{◌≡◌, ◌↔◌, [], reports-nil_iff, arith}
use go_dev_sdk.Prelude.Int.{pos, ◌≤ℤ◌}
use go_dev_sdk.Observability.Tracer.{Config, set_defaults, checks, validate}

abbrev pub IsReasonable : Config → Type 0
IsReasonable c =
    (pos 0 ≤ℤ c.export_timeout)
    × (pos 0 ≤ℤ c.batch_timeout)
    × (pos 0 ≤ℤ c.max_queue_size)
    × (pos 0 ≤ℤ c.max_export_batch_size)
    × ((set_defaults c).max_export_batch_size ≤ℤ (set_defaults c).max_queue_size)

-- `Validate` takes a config with its defaults exactly if no duration and no size is negative, and the
-- batch, of 512 where none is given, fits the queue, of 2048 where none is given. So a config that only
-- sets a queue below 512 is refused.
pub validate-IsReasonable_iff : (c : Config) → (validate (set_defaults c) ≡ []) ↔ IsReasonable c
unfolding validate checks set_defaults
validate-IsReasonable_iff c = ground (arith, reports-nil_iff (checks (set_defaults c)))
