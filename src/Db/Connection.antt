-- ===== src/Db/Connection.antt =====
-- db/drivers.go: the data source name and what the telemetry knows of the connection. The renderers and parsers of
-- the drivers, of net/url and net.SplitHostPort are parameters.
pub mod Laws
use go_dev_sdk.Prelude.{
  ℕ, Bool, true, ◌||◌, List, [], ◌∷◌, ◌++◌, Option, none, some, Bytes, codes, eq_bytes, is_empty,
  join_host_port, if◌then◌else◌,
}
use go_dev_sdk.Prelude.Int.{ℤ, itoa_int}
use go_dev_sdk.Db.Driver.{Dialect, mysql, postgres, generic, DriverSpec}
use go_dev_sdk.Db.Config.{Config}

unfoldable pub mysql_tls_config : Bytes → Bytes
mysql_tls_config m =
    if eq_bytes m (codes "disable")
    then codes "false"
    else if eq_bytes m (codes "allow") || eq_bytes m (codes "prefer")
    then codes "preferred"
    else if eq_bytes m (codes "require")
    then codes "skip-verify"
    else if eq_bytes m (codes "verify-ca") || eq_bytes m (codes "verify-full")
    then codes "true"
    else []

-- The fields of mysql.Config that are set.
pub record MysqlConfig : Type 0 where
  pub user : Bytes
  pub passwd : Bytes
  pub net : Bytes
  pub addr : Bytes
  pub db_name : Bytes
  pub parse_time : Bool
  pub tls_config : Bytes

pub data Userinfo : Type 0 where
  nobody : Userinfo
  user : Bytes → Userinfo
  user_password : Bytes → Bytes → Userinfo

-- url.URL, with the query as its values.
pub record Url : Type 0 where
  pub scheme : Bytes
  pub userinfo : Userinfo
  pub host : Bytes
  pub path : Bytes
  pub query : List (Bytes × Bytes)

unfoldable pub mysql_config : Config → MysqlConfig
unfolding mysql_tls_config join_host_port
mysql_config cfg = record {
  user = cfg.username;
  passwd = cfg.password;
  net = codes "tcp";
  addr = join_host_port cfg.host (itoa_int cfg.port);
  db_name = cfg.database;
  parse_time = true;
  tls_config = mysql_tls_config cfg.ssl_mode;
}

unfoldable pub postgres_url : Config → Url
unfolding join_host_port
postgres_url cfg = record {
  scheme = codes "postgres";
  userinfo =
      if is_empty cfg.username
      then nobody
      else if is_empty cfg.password
      then user cfg.username
      else user_password cfg.username cfg.password;
  host = join_host_port cfg.host (itoa_int cfg.port);
  path = codes "/" ++ cfg.database;
  query = if is_empty cfg.ssl_mode then [] else (codes "sslmode", cfg.ssl_mode) ∷ [];
}

abbrev pub rendered : (MysqlConfig → Bytes) → (Url → Bytes) → Dialect → Config → Bytes
rendered format_dsn url_string mysql cfg = format_dsn (mysql_config cfg)
rendered format_dsn url_string postgres cfg = url_string (postgres_url cfg)
rendered format_dsn url_string generic cfg = []

unfoldable pub dsn : (MysqlConfig → Bytes) → (Url → Bytes) → DriverSpec → Config → Bytes
unfolding mysql_config postgres_url
dsn format_dsn url_string d cfg =
    if is_empty cfg.dsn then rendered format_dsn url_string d.dialect cfg else cfg.dsn

pub record ConnInfo : Type 0 where
  pub host : Bytes
  pub port : ℤ
  pub database : Bytes

-- What mysql.ParseDSN gives, and what pgx.ParseConfig gives.
pub record MysqlDsn : Type 0 where
  pub db_name : Bytes
  pub net : Bytes
  pub addr : Bytes

module _ (parse_mysql : Bytes → Option MysqlDsn) (parse_postgres : Bytes → Option ConnInfo)
    (split_host_port : Bytes → Option (Bytes × Bytes)) (atoi : Bytes → Option ℤ) where
  abbrev with_port : Option ℤ → ConnInfo → ConnInfo
  with_port none info = info
  with_port (some p) info = record info { port = p }

  abbrev with_address : Option (Bytes × Bytes) → Bytes → ConnInfo → ConnInfo
  with_address (some (host, port)) addr info = with_port (atoi port) (record info { host = host })
  with_address none addr info = if is_empty addr then info else record info { host = addr }

  abbrev pub from_mysql : Option MysqlDsn → ConnInfo → ConnInfo
  from_mysql none info = info
  from_mysql (some mc) info =
      let named = if is_empty mc.db_name then info else record info { database = mc.db_name } in
      if eq_bytes mc.net (codes "tcp")
        || eq_bytes mc.net (codes "tcp4")
        || eq_bytes mc.net (codes "tcp6")
      then with_address (split_host_port mc.addr) mc.addr named
      else named

  abbrev pub from_postgres : Option ConnInfo → ConnInfo → ConnInfo
  from_postgres none info = info
  from_postgres (some pc) info = pc

  abbrev pub from_dsn : Dialect → Bytes → ConnInfo → ConnInfo
  from_dsn mysql s info = from_mysql (parse_mysql s) info
  from_dsn postgres s info = from_postgres (parse_postgres s) info
  from_dsn generic s info = info

  unfoldable pub conn_info : DriverSpec → Config → ConnInfo
  conn_info d cfg =
      let info : ConnInfo = record { host = cfg.host; port = cfg.port; database = cfg.database } in
      if is_empty cfg.dsn then info else from_dsn d.dialect cfg.dsn info
