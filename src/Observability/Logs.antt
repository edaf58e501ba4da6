-- ===== src/Observability/Logs.antt =====
-- observability/logs/config.go: the settings that are read by `SetDefaults` and `Validate`.
pub mod Defaults
use go_dev_sdk.Prelude.{
  Bool, ◌&&◌, not, List, [], ◌∷◌, Bytes, codes, eq_bytes, is_empty, reports, if◌then◌else◌,
}

pub record Config : Type 0 where
  pub format : Bytes
  pub level : Bytes

unfoldable pub set_defaults : Config → Config
set_defaults c = record {
  format = if is_empty c.format then codes "text" else c.format;
  level = if is_empty c.level then codes "debug" else c.level;
}

pub data ConfigError : Type 0 where
  invalid_log_format invalid_log_level : ConfigError

abbrev pub level_invalid : Bytes → Bool
level_invalid level =
    not (is_empty level)
    && not (eq_bytes level (codes "debug"))
    && not (eq_bytes level (codes "info"))
    && not (eq_bytes level (codes "warn"))
    && not (eq_bytes level (codes "error"))

unfoldable pub checks : Config → List (Bool × ConfigError)
checks c =
    (
      not (eq_bytes c.format (codes "text")) && not (eq_bytes c.format (codes "json")),
      invalid_log_format,
    )
    ∷ (level_invalid c.level, invalid_log_level)
    ∷ []

unfoldable pub validate : Config → List ConfigError
unfolding checks
validate c = reports (checks c)
