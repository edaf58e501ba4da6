-- ===== src/Db/Bind/Query.antt =====
-- db/bind.go: `bindQuery`, over any sqlx.Named.
use go_dev_sdk.Prelude.{◌≡◌, false, List, [], Bytes}
use go_dev_sdk.Db.Driver.{DriverSpec}
use go_dev_sdk.Db.Protect.{protect}
use go_dev_sdk.Db.Protect.RoundTrip.{NoSentinels, restore-protect}
use go_dev_sdk.Db.Bind.Values.{Val, Result, ok, is_nil, call_valuers}
use go_dev_sdk.Db.Bind.{find_slices, rebind, bind_query}

module _ (named_query : Bytes → Val → Result (Bytes × List Val)) where
  -- A query in which sqlx.Named finds no name reaches the driver as it was written, literals, casts
  -- and stray colons included, but for its own '?' placeholders, which are rebound; it has no
  -- arguments.
  pub bind_query-rebind :
      (d : DriverSpec) (q : Bytes) (arg : Val)
      → NoSentinels q
      → is_nil arg ≡ false
      → named_query (protect q d.dialect) arg ≡ ok (protect q d.dialect, [])
      → bind_query named_query d q arg ≡ ok (rebind q d, [])
  unfolding bind_query call_valuers find_slices
  bind_query-rebind d q arg clean given unnamed =
      rw (given, unnamed, restore-protect q d.dialect clean)
