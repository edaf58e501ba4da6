-- ===== src/Confloader/Cache.antt =====
-- confloader/confloader.go: the cache entries, and reading and refreshing them. A call is one
-- step on the entry, as where no other goroutine takes its lock between the sections of the call; the
-- time is the argument `now`. The zero time is `none`.
pub mod Invariant
pub mod Reading
use go_dev_sdk.Prelude.{
  ℕ, Bool, true, false, ◌&&◌, ◌||◌, not, List, [], ◌∷◌, ◌++◌, Option, none, some, Bytes, codes,
  eq_bytes, is_empty, if◌then◌else◌,
}
use go_dev_sdk.Confloader.Fetch.{
  Err, not_found, is_not_found, Fetched, fetched, failed, unset, World, GetterMeta,
  fetch_with_fallback,
}

pub record Entry : Type 0 where
  pub value : ℕ
  pub revision : Bytes
  pub has_value : Bool
  pub fetch_err : Option Err
  pub last_fetch : Option ℕ
  pub stale : Bool
  pub last_change : Option ℕ

-- `&cacheEntry{typ: m.typ}`.
abbrev pub cold : Entry
cold = record {
  value = 0;
  revision = [];
  has_value = false;
  fetch_err = none;
  last_fetch = none;
  stale = false;
  last_change = none;
}

abbrev is_zero_time : Option ℕ → Bool
is_zero_time none = true
is_zero_time (some _) = false

unfoldable pub need_refresh : Entry → Bool
need_refresh e = is_zero_time e.last_fetch || e.stale

-- The second half of `refreshOne`, after the fetch: what becomes of the entry.
unfoldable pub store : Entry → ℕ → Fetched → Entry
store e now (failed x) =
    if is_not_found x
    then record e { fetch_err = some not_found; stale = false; last_fetch = some now }
    else record e { fetch_err = some x; stale = e.has_value; last_fetch = some now }
store e now (fetched v rev) = record e {
  fetch_err = none;
  last_change = (if e.has_value && not (eq_bytes rev e.revision) then some now else e.last_change);
  value = v;
  revision = rev;
  has_value = true;
  stale = false;
  last_fetch = some now;
}
store e now unset = record e {
  fetch_err = none;
  last_change = (if e.has_value && not (is_empty e.revision) then some now else e.last_change);
  value = 0;
  revision = [];
  has_value = true;
  stale = false;
  last_fetch = some now;
}

-- What the error handler is told of the fetch.
unfoldable pub notice : GetterMeta → Fetched → List (Bytes × Bytes × Err)
notice m (failed x) = if is_not_found x then [] else (m.folder, m.key, x) ∷ []
notice m _ = []

module _ (w : World) (max_retries : ℕ) where
  -- `refreshOne`: the new entry, the number of fetches so far, and the handler's calls.
  unfoldable pub refresh_one :
      GetterMeta → Bool → ℕ → Entry → ℕ → Entry × ℕ × List (Bytes × Bytes × Err)
  unfolding store notice
  refresh_one m force now e n =
      let r = fetch_with_fallback w max_retries m n in
      if not force && not (is_zero_time e.last_fetch) && not e.stale
      then (e, n, [])
      else (store e now r.0, r.1, notice m r.0)

  -- The result of `get` from the entry that it reads last.
  abbrev pub outcome : Entry → Option Err → Fetched
  outcome e none = if e.has_value then fetched e.value e.revision else failed not_found
  outcome e (some x) = failed x

  -- `getterCore.get` of a known entry. Its value comes here with its revision.
  unfoldable pub get : GetterMeta → ℕ → Entry → ℕ → Fetched × Entry × ℕ
  unfolding refresh_one need_refresh
  get m now e n =
      let (e', n', _) = refresh_one m false now e n in
      if need_refresh e then (outcome e' e'.fetch_err, e', n') else (outcome e e.fetch_err, e, n)

  unfoldable pub refresh_all : ℕ → List (GetterMeta × Entry) → ℕ → List (GetterMeta × Entry) × ℕ
  unfolding refresh_one
  refresh_all now [] n = ([], n)
  refresh_all now ((m, e) ∷ es) n =
      let (e', n', _) = refresh_one m true now e n in
      let (es', n'') = refresh_all now es n' in ((m, e') ∷ es', n'')

-- `markAllStale`, after a panic in the client.
unfoldable pub mark_stale : Err → ℕ → Entry → Entry
mark_stale x now e = record e { fetch_err = some x; stale = e.has_value; last_fetch = some now }

unfoldable pub mark_all_stale : Err → ℕ → List (GetterMeta × Entry) → List (GetterMeta × Entry)
unfolding mark_stale
mark_all_stale x now [] = []
mark_all_stale x now ((m, e) ∷ es) = (m, mark_stale x now e) ∷ mark_all_stale x now es

unfoldable pub is_stale : List (GetterMeta × Entry) → Bool
is_stale [] = false
is_stale ((m, e) ∷ es) = e.stale || is_stale es
