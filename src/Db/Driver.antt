-- ===== src/Db/Driver.antt =====
-- db/drivers.go: the dialects, the placeholder syntaxes and the driver table.
use go_dev_sdk.Prelude.{
  ℕ, Bool, true, false, ◌||◌, Option, none, some, Bytes, codes, eq_bytes, to_lower, trim_space,
  is_empty, if◌then◌else◌,
}

pub data Dialect : Type 0 where
  mysql postgres generic : Dialect

pub data BindType : Type 0 where
  question dollar named at : BindType

-- `d == dialectMySQL`, `d == dialectPostgres`.
abbrev pub is_mysql : Dialect → Bool
is_mysql mysql = true
is_mysql _ = false

abbrev pub is_postgres : Dialect → Bool
is_postgres postgres = true
is_postgres _ = false

pub record DriverSpec : Type 0 where
  pub name : Bytes
  pub system_name : Bytes
  pub port : ℕ
  pub dialect : Dialect
  pub bind_type : BindType

abbrev pub mysql_driver : DriverSpec
mysql_driver = record {
  name = codes "mysql";
  system_name = codes "mysql";
  port = 3306;
  dialect = mysql;
  bind_type = question;
}

abbrev pub postgres_driver : DriverSpec
postgres_driver = record {
  name = codes "pgx";
  system_name = codes "postgresql";
  port = 5432;
  dialect = postgres;
  bind_type = dollar;
}

-- The switch of `driverFor`, on the normalised name.
unfoldable pub driver_named : Bytes → Option DriverSpec
driver_named n =
    if is_empty n || eq_bytes n (codes "mysql")
    then some mysql_driver
    else if eq_bytes n (codes "pgx")
        || eq_bytes n (codes "pgx/v5")
        || eq_bytes n (codes "postgres")
        || eq_bytes n (codes "postgresql")
    then some postgres_driver
    else none

-- A false second result is `none`.
unfoldable pub driver_for : Bytes → Option DriverSpec
unfolding driver_named
driver_for name = driver_named (to_lower (trim_space name))
