-- ===== src/Db/Connect/Tests.antt =====
-- db: Connect at a config with connection fields, and the theorem there.
use go_dev_sdk.Prelude.{eq_bytes, ◌≡◌, refl, true, [], ◌∷◌, Option, none, some, Bytes, codes}
use go_dev_sdk.Prelude.Int.{pos}
use go_dev_sdk.Db.Driver.{mysql_driver}
use go_dev_sdk.Db.Config.{Config, set_defaults}
use go_dev_sdk.Db.Connection.{MysqlDsn, conn_info}
use go_dev_sdk.Db.Connect.{question_bind, Drivers, connect}
use go_dev_sdk.Db.Connect.Laws.{Connects, connect-Connects}

abbrev drivers : Drivers
drivers = record {
  bind_of = λ _. question_bind;
  format_dsn = λ c. b'm' ∷ c.addr;
  url_string = λ u. b'p' ∷ u.host;
  parse_mysql = λ _. none;
  parse_postgres = λ _. none;
  split_host_port = λ _. none;
  atoi = λ _. none;
  opens = λ _ _. true;
}

abbrev shop : Config
shop = record {
  driver = codes "postgres";
  dsn = [];
  host = codes "db";
  port = pos 0;
  database = codes "shop";
  username = codes "u";
  password = [];
  ssl_mode = codes "require";
  max_open_conns = pos 0;
  max_idle_conns = pos 0;
  conn_max_lifetime = pos 0;
  conn_max_idle_time = pos 0;
}

connect-Connects_example : Connects drivers (set_defaults shop) (connect drivers shop)
connect-Connects_example = connect-Connects drivers (λ _. refl) (λ _. refl) shop

-- The telemetry goes by the DSN.
abbrev parsed : Bytes → Option MysqlDsn
parsed _ = some (record { db_name = codes "shop"; net = codes "tcp"; addr = codes "h" })

conn_info-parsed :
    conn_info parsed
      (λ _. none)
      (λ _. none)
      (λ _. none)
      mysql_driver
      (record shop { dsn = codes "@tcp(h)/shop"; database = [] })
    ≡ record { host = codes "h"; port = pos 0; database = codes "shop" }
unfolding conn_info eq_bytes
conn_info-parsed = refl
