-- ===== src/Db/Connect/Laws.antt =====
-- db/db.go: when `Connect` gives a database.
use go_dev_sdk.Prelude.{
  ◌≡◌, ◌≢◌, ◌⊎◌, refl, sym, ap, inl, inr, true, false, Bool-cases, List, [], ◌∷◌, Option-cases,
  is_empty, arith,
}
use go_dev_sdk.Db.Driver.{driver_for}
use go_dev_sdk.Db.Config.{Config, ConfigError, set_defaults, validate}
use go_dev_sdk.Db.Config.Laws.{validate-nil_iff}
use go_dev_sdk.Db.Connection.{MysqlConfig, Url, dsn}
use go_dev_sdk.Db.Connection.Laws.{dsn-IsSet}
use go_dev_sdk.Db.Connect.{
  Drivers, Database, Connected, invalid, not_opened, connected, generic_driver, spec_of, open_valid,
  if_valid, connect,
}

module _ (x : Drivers) where
  -- What `Connect` does with a config, by its form with the defaults.
  abbrev pub Connects : Config → Connected → Type 0
  Connects c r =
      ((validate c ≢ []) × (r ≡ invalid (validate c)))
      ⊎ ((validate c ≡ [])
          × (((d : Database) × (r ≡ connected d)
                × (x.opens d.driver.name d.source ≡ true)
                × (d.source ≢ []))
              ⊎ ((r ≡ not_opened (spec_of x c).system_name)
                  × (x.opens (spec_of x c).name (dsn x.format_dsn x.url_string (spec_of x c) c)
                      ≡ false))))

module _ (x : Drivers) (formats : (c : MysqlConfig) → is_empty (x.format_dsn c) ≡ false)
    (prints : (u : Url) → is_empty (x.url_string u) ≡ false) where
  -- What Validate takes has a data source name.
  valid-HasSource :
      (c : Config)
      → validate c ≡ []
      → is_empty (dsn x.format_dsn x.url_string (spec_of x c) c) ≡ false
  unfolding spec_of
  valid-HasSource c v =
      let usable = (validate-nil_iff c).0 v in
      elim (Option-cases (driver_for c.driver)) [
        | inr (spec, k) ↦ rw k (dsn-IsSet x.format_dsn x.url_string formats prints spec c (inr k))
        | inl k ↦ rw k (
            dsn-IsSet x.format_dsn x.url_string formats prints (generic_driver x.bind_of c.driver) c
              (inl (ground (arith, usable.0, k))))
      ]

  open_valid-Connects : (c : Config) → validate c ≡ [] → Connects x c (open_valid x c)
  unfolding open_valid
  open_valid-Connects c v =
      let spec = spec_of x c in
      let source = dsn x.format_dsn x.url_string spec c in
      let set = valid-HasSource c v in
      elim (Bool-cases (x.opens spec.name source)) [
        | inl e ↦ rw (set, e, open_valid) (inr (v, inl (_, refl, e, λ n. ground (arith, set, n))))
        | inr e ↦ rw (set, e, open_valid) (inr (v, inr (refl, refl)))
      ]

  checked-Connects :
      (c : Config) (errors : List ConfigError)
      → validate c ≡ errors
      → Connects x c (if_valid x errors c)
  checked-Connects c [] v = open_valid-Connects c v
  checked-Connects c (e ∷ es) v = inl (λ n. cc, ap invalid (sym v))

  -- Given that neither mysql nor net/url renders an empty text, `Connect` refuses a config with the errors
  -- that `Validate` finds after the defaults, if there are any. Any other gives a database exactly if its
  -- driver opens its data source, whose name is never empty; so the error for a missing DSN never comes.
  pub connect-Connects : (cfg : Config) → Connects x (set_defaults cfg) (connect x cfg)
  unfolding connect
  connect-Connects cfg = checked-Connects (set_defaults cfg) (validate (set_defaults cfg)) refl
