-- ===== src/Observability/Tracer.antt =====
-- observability/tracer/config.go: the settings that `SetDefaults` and `Validate` read.
pub mod Defaults
use go_dev_sdk.Prelude.{◌*◌, Bool, List, [], ◌∷◌, Bytes, codes, is_empty, reports, if◌then◌else◌}
use go_dev_sdk.Prelude.Int.{ℤ, pos, ltb_ℤ, not_positive, or_if_zero}

pub record Config : Type 0 where
  pub endpoint : Bytes
  pub export_timeout : ℤ
  pub batch_timeout : ℤ
  pub max_queue_size : ℤ
  pub max_export_batch_size : ℤ

unfoldable pub set_defaults : Config → Config
set_defaults c = record {
  endpoint = if is_empty c.endpoint then codes "localhost:4317" else c.endpoint;
  export_timeout = or_if_zero c.export_timeout (pos (5 * 1000000000));
  batch_timeout = or_if_zero c.batch_timeout (pos (5 * 1000000000));
  max_queue_size = or_if_zero c.max_queue_size (pos 2048);
  max_export_batch_size = or_if_zero c.max_export_batch_size (pos 512);
}

pub data ConfigError : Type 0 where
  export_timeout_not_positive batch_timeout_not_positive queue_not_positive : ConfigError
  batch_not_positive batch_exceeds_queue : ConfigError

unfoldable pub checks : Config → List (Bool × ConfigError)
checks c =
    (not_positive c.export_timeout, export_timeout_not_positive)
    ∷ (not_positive c.batch_timeout, batch_timeout_not_positive)
    ∷ (not_positive c.max_queue_size, queue_not_positive)
    ∷ (not_positive c.max_export_batch_size, batch_not_positive)
    ∷ (ltb_ℤ c.max_queue_size c.max_export_batch_size, batch_exceeds_queue)
    ∷ []

unfoldable pub validate : Config → List ConfigError
unfolding checks
validate c = reports (checks c)
