-- ===== src/Redis/Tests.antt =====
-- redis: runs on a small config, and the theorems at it.
use go_dev_sdk.Prelude.{
  join_host_port, ◌≡◌, refl, false, [], ◌∷◌, codes, to_lower, lower_byte, trim_space, trim_left,
  is_space, contains_byte, eq_bytes, itoa, reports,
}
use go_dev_sdk.Prelude.Int.{pos}
use go_dev_sdk.Redis.Config.{
  Config, set_defaults, default_mode, with_ports, with_port, given_addrs, validate, mode_checks,
  pool_checks,
}
use go_dev_sdk.Redis.Config.Addresses.{AllComplete}
use go_dev_sdk.Redis.Config.Filled.{set_defaults_idem}

abbrev sentinels : Config
sentinels = record {
  mode = [];
  host = [];
  port = pos 0;
  addrs = codes "a" ∷ codes "b:1" ∷ [];
  db = pos 0;
  master_name = codes "m";
  max_redirects = pos 0;
  tls_enabled = false;
  tls_ca_cert = [];
  tls_cert = [];
  tls_key = [];
  dial_timeout = pos 0;
  read_timeout = pos 0;
  write_timeout = pos 0;
  connect_timeout = pos 0;
  pool_size = pos 0;
  min_idle_conns = pos 0;
  max_idle_conns = pos 0;
  conn_max_idle_time = pos 0;
  conn_max_lifetime = pos 0;
}

-- The caller's slice has the port that the defaults add.
written : (set_defaults sentinels).1 ≡ codes "a:26379" ∷ codes "b:1" ∷ []
unfolding set_defaults default_mode with_ports with_port given_addrs join_host_port to_lower
    lower_byte trim_space trim_left is_space contains_byte eq_bytes itoa
written = refl

valid : validate (set_defaults sentinels).0 ≡ []
unfolding validate mode_checks pool_checks reports set_defaults default_mode with_ports with_port
    given_addrs join_host_port to_lower lower_byte trim_space trim_left is_space contains_byte
    eq_bytes itoa
valid = refl

set_defaults_idem_example :
    AllComplete (set_defaults sentinels).0.addrs
    × ((set_defaults (set_defaults sentinels).0).0 ≡ (set_defaults sentinels).0)
set_defaults_idem_example = set_defaults_idem sentinels
