-- ===== src/Db/Connection/Laws.antt =====
-- db/drivers.go: what a config that Validate takes gives.
use go_dev_sdk.Prelude.{
  ◌≡◌, ◌≢◌, ◌⊎◌, inl, inr, true, false, Bool-cases, [], some, Bytes, is_empty, arith,
}
use go_dev_sdk.Db.Driver.{Dialect, mysql, postgres, generic, DriverSpec, driver_for, driver_named}
use go_dev_sdk.Db.Config.{Config, is_ssl_mode}
use go_dev_sdk.Db.Connection.{
  MysqlConfig, Url, mysql_tls_config, mysql_config, postgres_url, rendered, dsn,
}

-- Each SSL mode that `Validate` knows has a setting of the mysql driver.
pub mysql_tls_config-IsSet :
    (m : Bytes) → is_ssl_mode m ≡ true → is_empty (mysql_tls_config m) ≡ false
unfolding is_ssl_mode mysql_tls_config
mysql_tls_config-IsSet m h = ground (arith, h)

known_dialect :
    (name : Bytes) (d : DriverSpec)
    → driver_for name ≡ some d
    → (d.dialect ≡ mysql) ⊎ (d.dialect ≡ postgres)
unfolding driver_for driver_named
known_dialect name d e = ground (arith, e)

module _ (format_dsn : MysqlConfig → Bytes) (url_string : Url → Bytes)
    (formats : (c : MysqlConfig) → is_empty (format_dsn c) ≡ false)
    (prints : (u : Url) → is_empty (url_string u) ≡ false) where
  rendered-IsSet :
      (d : Dialect) (cfg : Config)
      → (d ≡ mysql) ⊎ (d ≡ postgres)
      → is_empty (rendered format_dsn url_string d cfg) ≡ false
  rendered-IsSet mysql cfg h = formats (mysql_config cfg)
  rendered-IsSet postgres cfg h = prints (postgres_url cfg)
  rendered-IsSet generic cfg h = absurd (ground (arith, h))

  -- The data source name of a config that has one, or that names a driver of the table, is not empty.
  pub dsn-IsSet :
      (d : DriverSpec) (cfg : Config)
      → (cfg.dsn ≢ []) ⊎ (driver_for cfg.driver ≡ some d)
      → is_empty (dsn format_dsn url_string d cfg) ≡ false
  unfolding dsn
  dsn-IsSet d cfg h = elim (Bool-cases (is_empty cfg.dsn)) [
    | inr e ↦ rw (e, dsn) e
    | inl e ↦
        rw (e, dsn)
          (rendered-IsSet d.dialect cfg (known_dialect cfg.driver d (ground (arith, h, e))))
  ]
