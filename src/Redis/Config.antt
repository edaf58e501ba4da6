-- ===== src/Redis/Config.antt =====
-- redis/config.go. Durations are integers of nanoseconds; credentials are left out. SetDefaults writes
-- into the caller's slice of addresses, so it gives that slice too.
pub mod Addresses
pub mod Filled
use go_dev_sdk.Prelude.{
  join_host_port, ℕ, suc, ◌*◌, Bool, true, false, ◌&&◌, ◌||◌, not, ◌==◌, List, [], ◌∷◌, ◌++◌, Bytes,
  codes, eq_bytes, is_empty, to_lower, trim_space, contains_byte, itoa, if◌then◌else◌, reports,
}
use go_dev_sdk.Prelude.Int.{
  itoa_int, ℤ, pos, negsuc, ltb_ℤ, is_negative, is_zero, or_if_zero, or_if_not_positive,
}

pub record Config : Type 0 where
  pub mode : Bytes
  pub host : Bytes
  pub port : ℤ
  pub addrs : List Bytes
  pub db : ℤ
  pub master_name : Bytes
  pub max_redirects : ℤ
  pub tls_enabled : Bool
  pub tls_ca_cert : Bytes
  pub tls_cert : Bytes
  pub tls_key : Bytes
  pub dial_timeout : ℤ
  pub read_timeout : ℤ
  pub write_timeout : ℤ
  pub connect_timeout : ℤ
  pub pool_size : ℤ
  pub min_idle_conns : ℤ
  pub max_idle_conns : ℤ
  pub conn_max_idle_time : ℤ
  pub conn_max_lifetime : ℤ

abbrev pub standalone : Bytes
standalone = codes "standalone"

abbrev pub sentinel : Bytes
sentinel = codes "sentinel"

abbrev pub cluster : Bytes
cluster = codes "cluster"

abbrev has_many : List Bytes → Bool
has_many [] = false
has_many (_ ∷ []) = false
has_many (_ ∷ _ ∷ _) = true

abbrev pub has_none : List Bytes → Bool
has_none [] = true
has_none (_ ∷ _) = false

unfoldable pub default_mode : Config → Bytes
default_mode c =
    let mode = to_lower (trim_space c.mode) in
    if not (is_empty mode)
    then mode
    else if not (is_empty c.master_name)
    then sentinel
    else if has_many c.addrs
    then cluster
    else standalone

abbrev pub default_port : ℤ
default_port = pos 6379

abbrev pub default_sentinel_port : ℤ
default_sentinel_port = pos 26379

-- One round of the loop over the addresses.
unfoldable pub with_port : Bytes → ℤ → Bytes → Bytes
unfolding join_host_port
with_port mode port addr =
    let host = trim_space addr in
    if is_empty host || contains_byte b':' host
    then addr
    else if eq_bytes mode sentinel
    then join_host_port host (itoa_int default_sentinel_port)
    else join_host_port host (itoa_int (or_if_zero port default_port))

unfoldable pub with_ports : Bytes → ℤ → List Bytes → List Bytes
unfolding with_port
with_ports mode port [] = []
with_ports mode port (a ∷ as_) = with_port mode port a ∷ with_ports mode port as_

-- The addresses before the loop: a new slice where the config has none, but a host.
unfoldable pub given_addrs : Config → ℤ → List Bytes
unfolding join_host_port
given_addrs c port =
    if has_none c.addrs && not (is_empty c.host)
    then join_host_port c.host (itoa_int (or_if_zero port default_port)) ∷ []
    else c.addrs

-- The config returned, and what the caller's slice of addresses holds after the call.
unfoldable pub set_defaults : Config → Config × List Bytes
unfolding default_mode with_ports given_addrs
set_defaults c =
    let mode = default_mode c in
    let port = if is_zero c.port && not (is_empty c.host) then default_port else c.port in
    let addrs = with_ports mode port (given_addrs c port) in
    (
      record c {
        mode = mode;
        port = port;
        addrs = addrs;
        connect_timeout = or_if_not_positive c.connect_timeout (pos (5 * 1000000000));
        max_redirects =
            (if eq_bytes mode cluster
              then or_if_not_positive c.max_redirects (pos 3)
              else c.max_redirects);
      },
      if has_none c.addrs then [] else addrs,
    )

pub data ConfigError : Type 0 where
  master_name_required sentinel_addrs_required cluster_addrs_required cluster_db : ConfigError
  host_required port_out_of_range unknown_mode negative_db negative_dial_timeout : ConfigError
  negative_read_timeout negative_write_timeout negative_connect_timeout : ConfigError
  negative_pool_size negative_min_idle negative_max_idle min_idle_exceeds_pool : ConfigError
  max_idle_exceeds_pool min_idle_exceeds_max_idle tls_pair tls_disabled : ConfigError
  negative_idle_time negative_lifetime : ConfigError

-- The switch of `Validate` on the mode.
unfoldable pub mode_checks : Config → List (Bool × ConfigError)
mode_checks c =
    if eq_bytes c.mode sentinel
    then (is_empty c.master_name, master_name_required)
      ∷ (has_none c.addrs, sentinel_addrs_required)
      ∷ []
    else if eq_bytes c.mode cluster
    then (has_none c.addrs, cluster_addrs_required) ∷ (not (is_zero c.db), cluster_db) ∷ []
    else if eq_bytes c.mode standalone
    then (has_none c.addrs && is_empty c.host, host_required)
      ∷ (
        not (is_empty c.host) && (ltb_ℤ c.port (pos 1) || ltb_ℤ (pos 65535) c.port),
        port_out_of_range,
      )
      ∷ []
    else (true, unknown_mode) ∷ []

abbrev differ : Bool → Bool → Bool
differ true b = not b
differ false b = b

unfoldable pub pool_checks : Config → List (Bool × ConfigError)
pool_checks c =
    (is_negative c.db, negative_db)
    ∷ (is_negative c.dial_timeout, negative_dial_timeout)
    ∷ (is_negative c.read_timeout, negative_read_timeout)
    ∷ (is_negative c.write_timeout, negative_write_timeout)
    ∷ (is_negative c.connect_timeout, negative_connect_timeout)
    ∷ (is_negative c.pool_size, negative_pool_size)
    ∷ (is_negative c.min_idle_conns, negative_min_idle)
    ∷ (is_negative c.max_idle_conns, negative_max_idle)
    ∷ (ltb_ℤ (pos 0) c.pool_size && ltb_ℤ c.pool_size c.min_idle_conns, min_idle_exceeds_pool)
    ∷ (ltb_ℤ (pos 0) c.pool_size && ltb_ℤ c.pool_size c.max_idle_conns, max_idle_exceeds_pool)
    ∷ (
      ltb_ℤ (pos 0) c.max_idle_conns && ltb_ℤ c.max_idle_conns c.min_idle_conns,
      min_idle_exceeds_max_idle,
    )
    ∷ (differ (is_empty c.tls_cert) (is_empty c.tls_key), tls_pair)
    ∷ (
      not c.tls_enabled
          && (not (is_empty c.tls_ca_cert)
              || not (is_empty c.tls_cert)
              || not (is_empty c.tls_key)),
      tls_disabled,
    )
    ∷ (is_negative c.conn_max_idle_time, negative_idle_time)
    ∷ (is_negative c.conn_max_lifetime, negative_lifetime)
    ∷ []

unfoldable pub validate : Config → List ConfigError
unfolding mode_checks pool_checks
validate c = reports (mode_checks c) ++ reports (pool_checks c)
