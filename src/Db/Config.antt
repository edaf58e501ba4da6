-- ===== src/Db/Config.antt =====
-- db/config.go. Durations are integers of nanoseconds; `Validate` gives its list of errors, which is
-- empty where the source returns nil.
pub mod Laws
use go_dev_sdk.Prelude.{
  ℕ, ◌*◌, Bool, true, false, ◌&&◌, ◌||◌, not, List, [], ◌∷◌, Option, none, some, Bytes, codes,
  is_empty, eq_bytes, to_lower, trim_space, if◌then◌else◌, reports,
}
use go_dev_sdk.Prelude.Int.{or_if_zero, ℤ, pos, ltb_ℤ, is_negative, is_zero}
use go_dev_sdk.Db.Driver.{DriverSpec, driver_for}

pub record Config : Type 0 where
  pub driver : Bytes
  pub dsn : Bytes
  pub host : Bytes
  pub port : ℤ
  pub database : Bytes
  pub username : Bytes
  pub password : Bytes
  pub ssl_mode : Bytes
  pub max_open_conns : ℤ
  pub max_idle_conns : ℤ
  pub conn_max_lifetime : ℤ
  pub conn_max_idle_time : ℤ

abbrev second : ℕ
second = 1000000000

abbrev pub default_max_open_conns : ℤ
default_max_open_conns = pos 25

abbrev pub default_max_idle_conns : ℤ
default_max_idle_conns = pos 25

abbrev pub default_conn_max_lifetime : ℤ
default_conn_max_lifetime = pos (180 * second)

abbrev pub default_conn_max_idle_time : ℤ
default_conn_max_idle_time = pos (300 * second)

abbrev or_text : Bytes → Bytes → Bytes
or_text [] d = d
or_text (c ∷ s) d = c ∷ s

abbrev spec_port : Option DriverSpec → ℤ → ℤ
spec_port none p = p
spec_port (some spec) p = pos spec.port

unfoldable pub default_port : Config → Bytes → ℤ
default_port c driver =
    if is_zero c.port && not (is_empty c.host) && is_empty c.dsn
    then spec_port (driver_for driver) c.port
    else c.port

abbrev default_idle : ℤ → ℤ → ℤ
default_idle idle open_conns =
    if is_zero idle
    then (if ltb_ℤ (pos 0) open_conns then open_conns else default_max_idle_conns)
    else idle

unfoldable pub set_defaults : Config → Config
unfolding default_port
set_defaults c =
    let driver = or_text (to_lower (trim_space c.driver)) (codes "mysql") in
    let open_conns = or_if_zero c.max_open_conns default_max_open_conns in
    record c {
      driver = driver;
      ssl_mode = to_lower (trim_space c.ssl_mode);
      port = default_port c driver;
      max_open_conns = open_conns;
      max_idle_conns = default_idle c.max_idle_conns open_conns;
      conn_max_lifetime = or_if_zero c.conn_max_lifetime default_conn_max_lifetime;
      conn_max_idle_time = or_if_zero c.conn_max_idle_time default_conn_max_idle_time;
    }

pub data ConfigError : Type 0 where
  unsupported_driver : Bytes → ConfigError
  host_required database_required username_required : ConfigError
  port_out_of_range : ℤ → ConfigError
  invalid_ssl_mode : Bytes → ConfigError
  negative_max_open negative_max_idle negative_lifetime negative_idle_time : ℤ → ConfigError
  idle_exceeds_open : ℤ → ℤ → ConfigError

abbrev is_known : Option DriverSpec → Bool
is_known none = false
is_known (some _) = true

unfoldable pub is_ssl_mode : Bytes → Bool
is_ssl_mode m =
    eq_bytes m (codes "disable")
    || eq_bytes m (codes "allow")
    || eq_bytes m (codes "prefer")
    || eq_bytes m (codes "require")
    || eq_bytes m (codes "verify-ca")
    || eq_bytes m (codes "verify-full")

-- The tests of `Validate` with their errors, in its order; `discrete` says that DSN is empty.
unfoldable pub checks : Config → List (Bool × ConfigError)
checks c =
    let discrete = is_empty c.dsn in
    (not (is_known (driver_for c.driver)) && discrete, unsupported_driver c.driver)
    ∷ (discrete && is_empty c.host, host_required)
    ∷ (discrete && (ltb_ℤ c.port (pos 1) || ltb_ℤ (pos 65535) c.port), port_out_of_range c.port)
    ∷ (discrete && is_empty c.database, database_required)
    ∷ (discrete && is_empty c.username, username_required)
    ∷ (not (is_empty c.ssl_mode) && not (is_ssl_mode c.ssl_mode), invalid_ssl_mode c.ssl_mode)
    ∷ (is_negative c.max_open_conns, negative_max_open c.max_open_conns)
    ∷ (is_negative c.max_idle_conns, negative_max_idle c.max_idle_conns)
    ∷ (
      ltb_ℤ (pos 0) c.max_open_conns && ltb_ℤ c.max_open_conns c.max_idle_conns,
      idle_exceeds_open c.max_idle_conns c.max_open_conns,
    )
    ∷ (is_negative c.conn_max_lifetime, negative_lifetime c.conn_max_lifetime)
    ∷ (is_negative c.conn_max_idle_time, negative_idle_time c.conn_max_idle_time)
    ∷ []

unfoldable pub validate : Config → List ConfigError
unfolding checks
validate c = reports (checks c)
