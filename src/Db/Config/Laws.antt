-- ===== src/Db/Config/Laws.antt =====
-- db/config.go: what `Validate` accepts, and what `SetDefaults` leaves for it.
use go_dev_sdk.Prelude.{
  ◌≡◌, ◌≢◌, ◌↔◌, ◌⊎◌, true, [], ◌∷◌, none, some, arith, reports-nil_iff, to_lower, trim_space,
  eq_bytes, Bytes, Option-cases, ◌≤◌, codes, refl, sym, ap, ◌∙◌, inl, inr,
}
use go_dev_sdk.Prelude.Int.{pos, ◌≤ℤ◌}
use go_dev_sdk.Prelude.Normal.{normal_idem}
use go_dev_sdk.Db.Driver.{DriverSpec, driver_for, driver_named}
use go_dev_sdk.Db.Config.{
  Config, validate, checks, is_ssl_mode, set_defaults, or_text, default_port,
}

-- The connection fields that are required where no DSN is given.
pub record IsAddressed (c : Config) : Type 0 where
  pub known : driver_for c.driver ≢ none
  pub host : c.host ≢ []
  pub port_low : pos 1 ≤ℤ c.port
  pub port_high : c.port ≤ℤ pos 65535
  pub database : c.database ≢ []
  pub username : c.username ≢ []

-- A pool that database/sql can be set up with.
pub record IsPool (c : Config) : Type 0 where
  pub open_conns : pos 0 ≤ℤ c.max_open_conns
  pub idle_conns : pos 0 ≤ℤ c.max_idle_conns
  pub fits : (c.max_open_conns ≡ pos 0) ⊎ (c.max_idle_conns ≤ℤ c.max_open_conns)
  pub lifetime : pos 0 ≤ℤ c.conn_max_lifetime
  pub idle_time : pos 0 ≤ℤ c.conn_max_idle_time

abbrev pub IsUsable : Config → Type 0
IsUsable c =
    ((c.dsn ≢ []) ⊎ IsAddressed c)
    × ((c.ssl_mode ≡ []) ⊎ (is_ssl_mode c.ssl_mode ≡ true))
    × IsPool c

-- `Validate` finds nothing exactly when the config is usable: a DSN or all connection fields, a known
-- SSL mode or none, and no negative or contradictory pool setting.
pub validate-nil_iff : (c : Config) → (validate c ≡ []) ↔ IsUsable c
unfolding validate checks
validate-nil_iff c = ground (arith, reports-nil_iff (checks c))

-- A config as an operator writes it: connection fields for a known driver, SSL mode in any case and
-- spacing, and pool settings that are not negative, where zero asks for the default.
pub record IsReasonable (c : Config) : Type 0 where
  pub discrete : c.dsn ≡ []
  pub known : driver_for c.driver ≢ none
  pub host : c.host ≢ []
  pub port : (c.port ≡ pos 0) ⊎ ((pos 1 ≤ℤ c.port) × (c.port ≤ℤ pos 65535))
  pub database : c.database ≢ []
  pub username : c.username ≢ []
  pub ssl_mode :
      (to_lower (trim_space c.ssl_mode) ≡ [])
      ⊎ (is_ssl_mode (to_lower (trim_space c.ssl_mode)) ≡ true)
  pub open_conns : pos 0 ≤ℤ c.max_open_conns
  pub idle_conns : pos 0 ≤ℤ c.max_idle_conns
  pub fits :
      (c.max_idle_conns ≡ pos 0)
      ⊎ ((c.max_open_conns ≡ pos 0) × (c.max_idle_conns ≤ℤ pos 25))
      ⊎ (c.max_idle_conns ≤ℤ c.max_open_conns)
  pub lifetime : pos 0 ≤ℤ c.conn_max_lifetime
  pub idle_time : pos 0 ≤ℤ c.conn_max_idle_time

set_defaults-IsPool : (c : Config) → IsReasonable c → IsPool (set_defaults c)
unfolding set_defaults
set_defaults-IsPool c r = ground arith

driver_named_default :
    (n : Bytes)
    → to_lower (trim_space n) ≡ n
    → driver_for (or_text n (codes "mysql")) ≡ driver_named n
unfolding driver_for trim_space to_lower eq_bytes
driver_named_default [] e = refl
driver_named_default (b ∷ n) e = ap driver_named e

-- The driver stays the one that was named.
pub driver_for-set_defaults :
    (c : Config) → driver_for (set_defaults c).driver ≡ driver_for c.driver
unfolding set_defaults driver_for
driver_for-set_defaults c =
    driver_named_default (to_lower (trim_space c.driver)) (normal_idem c.driver)

driver_for-port :
    (name : Bytes) (spec : DriverSpec)
    → driver_for name ≡ some spec
    → (1 ≤ spec.port) × (spec.port ≤ 65535)
unfolding driver_for driver_named
driver_for-port name spec e = ground arith

known_port : (c : Config) → driver_for c.driver ≢ none → driver_for (set_defaults c).driver ≢ none
known_port c k e = k (sym (driver_for-set_defaults c) ∙ e)

set_defaults-port :
    (c : Config)
    → IsReasonable c
    → (pos 1 ≤ℤ (set_defaults c).port) × ((set_defaults c).port ≤ℤ pos 65535)
unfolding set_defaults default_port
set_defaults-port c r = elim (Option-cases (driver_for (set_defaults c).driver)) [
  | inl e ↦ absurd (known_port c r.known e)
  | inr (spec, e) ↦
      rw (e, default_port) (ground (arith, driver_for-port (set_defaults c).driver spec e))
]

set_defaults-IsUsable : (c : Config) → IsReasonable c → IsUsable (set_defaults c)
unfolding set_defaults
set_defaults-IsUsable c r = (
  inr (record {
    known = known_port c r.known;
    host = r.host;
    port_low = (set_defaults-port c r).0;
    port_high = (set_defaults-port c r).1;
    database = r.database;
    username = r.username;
  }),
  r.ssl_mode,
  set_defaults-IsPool c r,
)

-- After `SetDefaults` such a config passes `Validate`.
pub validate-set_defaults : (c : Config) → IsReasonable c → validate (set_defaults c) ≡ []
validate-set_defaults c r = (validate-nil_iff (set_defaults c)).1 (set_defaults-IsUsable c r)
