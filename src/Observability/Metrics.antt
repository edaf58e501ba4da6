-- ===== src/Observability/Metrics.antt =====
-- observability/metrics/config.go: the settings that `SetDefaults` and `Validate` read. An int32 is an integer
-- without a width: it is only compared.
pub mod Defaults
use go_dev_sdk.Prelude.{
  ◌*◌, Bool, ◌||◌, List, [], ◌∷◌, Bytes, codes, is_empty, reports, if◌then◌else◌,
}
use go_dev_sdk.Prelude.Int.{ℤ, pos, negsuc, ltb_ℤ, is_negative, not_positive, or_if_zero}

pub record Config : Type 0 where
  pub endpoint : Bytes
  pub timeout : ℤ
  pub export_interval : ℤ
  pub scope : Bytes
  pub histogram_max_buckets : ℤ
  pub histogram_max_scale : ℤ

abbrev pub default_scope : Bytes
default_scope = codes "github.com/fikrimohammad/go-servicekit/observability/metrics"

unfoldable pub set_defaults : Config → Config
set_defaults c = record {
  endpoint = if is_empty c.endpoint then codes "localhost:4317" else c.endpoint;
  timeout = or_if_zero c.timeout (pos (10 * 1000000000));
  export_interval = or_if_zero c.export_interval (pos (10 * 1000000000));
  scope = if is_empty c.scope then default_scope else c.scope;
  histogram_max_buckets = or_if_zero c.histogram_max_buckets (pos 160);
  histogram_max_scale = or_if_zero c.histogram_max_scale (pos 20);
}

pub data ConfigError : Type 0 where
  timeout_not_positive interval_not_positive buckets_negative buckets_too_many scale_out_of_range :
      ConfigError

unfoldable pub checks : Config → List (Bool × ConfigError)
checks c =
    (not_positive c.timeout, timeout_not_positive)
    ∷ (not_positive c.export_interval, interval_not_positive)
    ∷ (is_negative c.histogram_max_buckets, buckets_negative)
    ∷ (ltb_ℤ (pos 320) c.histogram_max_buckets, buckets_too_many)
    ∷ (
      ltb_ℤ c.histogram_max_scale (negsuc 9) || ltb_ℤ (pos 20) c.histogram_max_scale,
      scale_out_of_range,
    )
    ∷ []

unfoldable pub validate : Config → List ConfigError
unfolding checks
validate c = reports (checks c)
