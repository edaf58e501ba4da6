-- ===== src/Rest/Server/Config.antt =====
-- rest/server/config.go. Whether a text is host:port, by net.SplitHostPort, is a parameter.
use go_dev_sdk.Prelude.{
  Bool, not, List, [], ◌∷◌, Bytes, codes, is_empty, if◌then◌else◌, reports, ℕ, ◌*◌,
}
use go_dev_sdk.Prelude.Int.{ℤ, pos, is_negative, or_if_zero}

pub record Config : Type 0 where
  pub addr : Bytes
  pub read_timeout : ℤ
  pub write_timeout : ℤ
  pub shutdown_timeout : ℤ

abbrev pub seconds : ℕ → ℤ
seconds n = pos (n * 1000000000)

unfoldable pub set_defaults : Config → Config
set_defaults c = record {
  addr = (if is_empty c.addr then codes ":3000" else c.addr);
  read_timeout = or_if_zero c.read_timeout (seconds 30);
  write_timeout = or_if_zero c.write_timeout (seconds 30);
  shutdown_timeout = or_if_zero c.shutdown_timeout (seconds 10);
}

pub data ConfigError : Type 0 where
  addr_invalid read_timeout_negative write_timeout_negative shutdown_timeout_negative : ConfigError

unfoldable pub validate : (Bytes → Bool) → Config → List ConfigError
validate is_host_port c = reports (
    (not (is_host_port c.addr), addr_invalid)
    ∷ (is_negative c.read_timeout, read_timeout_negative)
    ∷ (is_negative c.write_timeout, write_timeout_negative)
    ∷ (is_negative c.shutdown_timeout, shutdown_timeout_negative)
    ∷ [])
