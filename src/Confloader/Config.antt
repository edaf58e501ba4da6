-- ===== src/Confloader/Config.antt =====
-- confloader/config.go. Durations are integers of nanoseconds. A float64 is a parameter: its type,
-- the test `<= 0` and the literal 2.0. `validate` returns its error, or none for nil.
use go_dev_sdk.Prelude.{
  ℕ, ◌*◌, ◌≡◌, ◌≢◌, ◌↔◌, ◌⊎◌, Bool, false, ◌&&◌, ◌||◌, not, [], Option, none, some, Bytes, codes,
  is_empty, eq_bytes, if◌then◌else◌, arith, eq_bytes_iff,
}
use go_dev_sdk.Prelude.Int.{or_if_not_positive, ℤ, pos, not_positive}

pub data ConfigError : Type 0 where
  invalid_provider invalid_endpoint invalid_auth_client_id invalid_auth_client_secret : ConfigError
  invalid_namespace invalid_environment unsupported_provider : ConfigError

abbrev second : ℕ
second = 1000000000

abbrev pub provider_etcd : Bytes
provider_etcd = codes "etcd"

abbrev pub provider_infisical : Bytes
provider_infisical = codes "infisical"

module _ (F : Type 0) (not_positive_float : F → Bool) (two : F) where
  pub record WatcherConfig : Type 0 where
    pub polling_interval : ℤ
    pub polling_max_retries : ℤ
    pub polling_retry_delay : ℤ
    pub polling_retry_backoff : F

  pub record Config : Type 0 where
    pub provider : Bytes
    pub endpoint : Bytes
    pub auth_client_id : Bytes
    pub auth_client_secret : Bytes
    pub namespace : Bytes
    pub environment : Bytes
    pub watcher : WatcherConfig

  abbrev pub default_watcher_config : WatcherConfig
  default_watcher_config = record {
    polling_interval = pos (30 * second);
    polling_max_retries = pos 3;
    polling_retry_delay = pos second;
    polling_retry_backoff = two;
  }

  unfoldable pub apply_defaults : Config → Config
  apply_defaults c =
      let w = c.watcher in
      record c {
        watcher = record {
          polling_interval =
              or_if_not_positive w.polling_interval default_watcher_config.polling_interval;
          polling_max_retries =
              or_if_not_positive w.polling_max_retries default_watcher_config.polling_max_retries;
          polling_retry_delay =
              or_if_not_positive w.polling_retry_delay default_watcher_config.polling_retry_delay;
          polling_retry_backoff =
              (if not_positive_float w.polling_retry_backoff then two else w.polling_retry_backoff);
        };
      }

  unfoldable pub validate : Config → Option ConfigError
  validate c =
      if is_empty c.provider
      then some invalid_provider
      else if not (eq_bytes c.provider provider_infisical) && is_empty c.endpoint
      then some invalid_endpoint
      else if is_empty c.auth_client_id
      then some invalid_auth_client_id
      else if is_empty c.auth_client_secret
      then some invalid_auth_client_secret
      else if is_empty c.namespace
      then some invalid_namespace
      else if eq_bytes c.provider provider_infisical && is_empty c.environment
      then some invalid_environment
      else if eq_bytes c.provider provider_etcd || eq_bytes c.provider provider_infisical
      then none
      else some unsupported_provider

  -- The two providers with what each of them needs.
  abbrev pub IsUsable : Config → Type 0
  IsUsable c =
      (c.auth_client_id ≢ [])
      × (c.auth_client_secret ≢ [])
      × (c.namespace ≢ [])
      × (((c.provider ≡ provider_etcd) × (c.endpoint ≢ []))
          ⊎ ((c.provider ≡ provider_infisical) × (c.environment ≢ [])))

  -- A config passes exactly when it has credentials and a namespace and is either for etcd with an
  -- endpoint or for infisical with an environment.
  pub validate-none_iff : (c : Config) → (validate c ≡ none) ↔ IsUsable c
  unfolding validate
  validate-none_iff c = (
    (λ h.
        ground (
          arith,
          eq_bytes_iff c.provider provider_etcd,
          eq_bytes_iff c.provider provider_infisical,
        )),
    (λ h.
        ground (
          arith,
          eq_bytes_iff c.provider provider_etcd,
          eq_bytes_iff c.provider provider_infisical,
        )),
  )

  -- After the defaults every polling setting is positive, where 2.0 is so, and `validate` gives the
  -- same.
  pub apply_defaults-positive :
      not_positive_float two ≡ false
      → (c : Config)
      → let w = (apply_defaults c).watcher in
        (not_positive w.polling_interval ≡ false)
        × (not_positive w.polling_max_retries ≡ false)
        × (not_positive w.polling_retry_delay ≡ false)
        × (not_positive_float w.polling_retry_backoff ≡ false)
        × (validate (apply_defaults c) ≡ validate c)
  unfolding apply_defaults validate
  apply_defaults-positive t c = ground arith
