-- ===== src/Db/Connect.antt =====
-- db/db.go and drivers.go: `Connect`. Whether sqlx opens a data source is a parameter, as are the placeholder syntax that
-- sqlx has registered for a driver and the functions of Connection.
pub mod Laws
mod Tests
use go_dev_sdk.Prelude.{
  ℕ, Bool, true, false, List, [], ◌∷◌, Option, none, some, Bytes, is_empty, if◌then◌else◌,
}
use go_dev_sdk.Prelude.Int.{ℤ, pos, ltb_ℤ}
use go_dev_sdk.Db.Driver.{
  Dialect, generic, BindType, question, dollar, named, at, DriverSpec, driver_for,
}
use go_dev_sdk.Db.Config.{Config, ConfigError, set_defaults, validate}
use go_dev_sdk.Db.Connection.{MysqlConfig, Url, dsn, conn_info, MysqlDsn, ConnInfo}

-- The bind types of sqlx.
pub data SqlxBind : Type 0 where
  unknown_bind question_bind dollar_bind named_bind at_bind : SqlxBind

unfoldable pub sqlx_bind_type : SqlxBind → BindType
sqlx_bind_type dollar_bind = dollar
sqlx_bind_type named_bind = named
sqlx_bind_type at_bind = at
sqlx_bind_type question_bind = question
sqlx_bind_type unknown_bind = question

unfoldable pub generic_driver : (Bytes → SqlxBind) → Bytes → DriverSpec
unfolding sqlx_bind_type
generic_driver bind_of name = record {
  name = name;
  system_name = name;
  port = 0;
  dialect = generic;
  bind_type = sqlx_bind_type (bind_of name);
}

-- The settings of a pool that are made, or none where the driver's default stays.
pub record Pool : Type 0 where
  pub max_open_conns : Option ℤ
  pub max_idle_conns : Option ℤ
  pub conn_max_lifetime : Option ℤ
  pub conn_max_idle_time : Option ℤ

abbrev if_positive : ℤ → Option ℤ
if_positive n = if ltb_ℤ (pos 0) n then some n else none

unfoldable pub apply_pool : Config → Pool
apply_pool cfg = record {
  max_open_conns = if_positive cfg.max_open_conns;
  max_idle_conns = if_positive cfg.max_idle_conns;
  conn_max_lifetime = if_positive cfg.conn_max_lifetime;
  conn_max_idle_time = if_positive cfg.conn_max_idle_time;
}

-- A `dbConn`, with its pool, and its meta but for the clients.
pub record Database : Type 0 where
  pub source : Bytes
  pub driver : DriverSpec
  pub info : ConnInfo
  pub pool : Pool

pub data Connected : Type 0 where
  invalid : List ConfigError → Connected
  dsn_required : Bytes → Connected
  not_opened : Bytes → Connected
  connected : Database → Connected

abbrev pub or_generic : (Bytes → SqlxBind) → Bytes → Option DriverSpec → DriverSpec
or_generic bind_of name (some spec) = spec
or_generic bind_of name none = generic_driver bind_of name

-- What the drivers, sqlx and the standard library do.
pub record Drivers : Type 0 where
  pub bind_of : Bytes → SqlxBind
  pub format_dsn : MysqlConfig → Bytes
  pub url_string : Url → Bytes
  pub parse_mysql : Bytes → Option MysqlDsn
  pub parse_postgres : Bytes → Option ConnInfo
  pub split_host_port : Bytes → Option (Bytes × Bytes)
  pub atoi : Bytes → Option ℤ
  pub opens : Bytes → Bytes → Bool

module _ (x : Drivers) where
  unfoldable pub spec_of : Config → DriverSpec
  unfolding driver_for generic_driver
  spec_of cfg = or_generic x.bind_of cfg.driver (driver_for cfg.driver)

  -- After `Validate`.
  unfoldable pub open_valid : Config → Connected
  unfolding spec_of dsn conn_info apply_pool
  open_valid cfg =
      let spec = spec_of cfg in
      let source = dsn x.format_dsn x.url_string spec cfg in
      if is_empty source
      then dsn_required cfg.driver
      else if x.opens spec.name source
      then connected (record {
        source = source;
        driver = spec;
        info = conn_info x.parse_mysql x.parse_postgres x.split_host_port x.atoi spec cfg;
        pool = apply_pool cfg;
      })
      else not_opened spec.system_name

  abbrev pub if_valid : List ConfigError → Config → Connected
  if_valid [] cfg = open_valid cfg
  if_valid (e ∷ es) cfg = invalid (e ∷ es)

  unfoldable pub connect : Config → Connected
  unfolding set_defaults validate open_valid
  connect cfg = let c = set_defaults cfg in if_valid (validate c) c
