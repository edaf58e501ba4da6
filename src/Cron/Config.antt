-- ===== src/Cron/Config.antt =====
-- cron/engine/config.go. Durations are integers of nanoseconds.
use go_dev_sdk.Prelude.{◌*◌, ◌≡◌, List, [], ◌∷◌, reports, arith}
use go_dev_sdk.Prelude.Int.{or_if_not_positive, ℤ, pos, is_negative, ◌≤ℤ◌}

pub record Config : Type 0 where
  pub global_timeout : ℤ
  pub shutdown_timeout : ℤ

abbrev pub default_global_timeout : ℤ
default_global_timeout = pos (60 * 1000000000)

abbrev pub default_shutdown_timeout : ℤ
default_shutdown_timeout = pos (10 * 1000000000)

unfoldable pub set_defaults : Config → Config
set_defaults c = record {
  global_timeout = or_if_not_positive c.global_timeout default_global_timeout;
  shutdown_timeout = or_if_not_positive c.shutdown_timeout default_shutdown_timeout;
}

pub data ConfigError : Type 0 where
  negative_global_timeout negative_shutdown_timeout : ConfigError

unfoldable pub validate : Config → List ConfigError
validate c = reports (
    (is_negative c.global_timeout, negative_global_timeout)
    ∷ (is_negative c.shutdown_timeout, negative_shutdown_timeout)
    ∷ [])

-- After the defaults a config is valid with timeouts of at least one nanosecond, whatever it was, and
-- a second round of defaults changes nothing.
pub validate-engine_defaults :
    (c : Config)
    → (validate (set_defaults c) ≡ [])
      × (pos 1 ≤ℤ (set_defaults c).global_timeout)
      × (pos 1 ≤ℤ (set_defaults c).shutdown_timeout)
      × (set_defaults (set_defaults c) ≡ set_defaults c)
unfolding validate set_defaults reports
validate-engine_defaults c = ground arith
