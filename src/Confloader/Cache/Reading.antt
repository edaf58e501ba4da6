-- ===== src/Confloader/Cache/Reading.antt =====
-- confloader/confloader.go: what `Getter.Get` returns.
use go_dev_sdk.Prelude.{
  some, ◌⊎◌, ℕ, ◌≡◌, ◌≢◌, refl, inl, inr, true, false, none, arith, Bytes, Bool-cases,
}
use go_dev_sdk.Confloader.Fetch.{
  not_found, provider, parse_failed, ended, Fetched, fetched, failed, unset, World, GetterMeta,
  fetch_with_fallback,
}
use go_dev_sdk.Confloader.Fetch.Bounds.{fetch_with_fallback-Settled}
use go_dev_sdk.Confloader.Cache.{Entry, store, refresh_one, get, need_refresh, outcome}
use go_dev_sdk.Confloader.Cache.Invariant.{IsSound, get-IsSound}

module _ (w : World) (max_retries : ℕ) where
  outcome-store :
      (e : Entry) (now : ℕ) (r : Fetched)
      → r ≢ unset
      → outcome w max_retries (store e now r) (store e now r).fetch_err ≡ r
  unfolding store
  outcome-store e now (failed not_found) h = refl
  outcome-store e now (failed (provider k)) h = refl
  outcome-store e now (failed (parse_failed k)) h = refl
  outcome-store e now (failed (ended k)) h = refl
  outcome-store e now (fetched v rev) h = refl
  outcome-store e now unset h = absurd (h refl)

  -- The refresh of such an entry stores what the fetch gave.
  refetch :
      (m : GetterMeta) (now : ℕ) (e : Entry) (n : ℕ)
      → need_refresh e ≡ true
      → let e' = (refresh_one w max_retries m false now e n).0 in
        outcome w max_retries e' e'.fetch_err ≡ (fetch_with_fallback w max_retries m n).0
  unfolding refresh_one need_refresh
  refetch m now e n h =
      let r = fetch_with_fallback w max_retries m n in
      let same : outcome w max_retries (store e now r.0) (store e now r.0).fetch_err ≡ r.0 =
        outcome-store e now r.0 (fetch_with_fallback-Settled w max_retries m n).0 in
      ground (arith, same)

  due-need_refresh : (e : Entry) → (e.last_fetch ≡ none) ⊎ (e.stale ≡ true) → need_refresh e ≡ true
  unfolding need_refresh
  due-need_refresh e h = ground (arith, h)

  kept-need_refresh :
      (e : Entry) (t : ℕ) → e.last_fetch ≡ some t → e.stale ≡ false → need_refresh e ≡ false
  unfolding need_refresh
  kept-need_refresh e t f s = ground (arith, f, s)

  -- A read of an entry that was never fetched, or whose last fetch failed over an older value, returns
  -- what the backend gives now, with the fallback; any other read returns what the last fetch gave,
  -- and asks the backend nothing.
  pub get-fetch :
      (m : GetterMeta) (now : ℕ) (e : Entry) (n : ℕ)
      → let r = get w max_retries m now e n in
        ((e.last_fetch ≡ none) ⊎ (e.stale ≡ true) → r.0 ≡ (fetch_with_fallback w max_retries m n).0)
        × ((t : ℕ)
            → e.last_fetch ≡ some t
            → e.stale ≡ false
            → (r.0 ≡ outcome w max_retries e e.fetch_err) × (r.1 ≡ e) × (r.2 ≡ n))
  unfolding get
  get-fetch m now e n = (
    (λ h. let due = due-need_refresh e h in rw (due, get) (refetch m now e n due)),
    (λ t f s. let kept = kept-need_refresh e t f s in rw (kept, get) (refl, refl, refl)),
  )

  outcome-fresh :
      (e : Entry) (v : ℕ) (rev : Bytes)
      → IsSound e
      → outcome w max_retries e e.fetch_err ≡ fetched v rev
      → (e.fetch_err ≡ none) × (e.stale ≡ false) × (e.value ≡ v) × (e.revision ≡ rev)
  outcome-fresh e v rev s h = ground (arith, s.fresh)

  -- A value comes only from an entry whose last fetch succeeded: never a stale one.
  pub get-fresh :
      (m : GetterMeta) (now : ℕ) (e : Entry) (n v : ℕ) (rev : Bytes)
      → IsSound e
      → (get w max_retries m now e n).0 ≡ fetched v rev
      → let e' = (get w max_retries m now e n).1 in
        (e'.fetch_err ≡ none) × (e'.stale ≡ false) × (e'.value ≡ v) × (e'.revision ≡ rev)
  unfolding get
  get-fresh m now e n v rev s h =
      let s' : IsSound (get w max_retries m now e n).1 = get-IsSound w max_retries m now e n s in
      elim (Bool-cases (need_refresh e)) [
        | inl t ↦
            rw (t, get)
              (outcome-fresh (refresh_one w max_retries m false now e n).0 v rev (rw (t, get) at s')
                (rw (t, get) at h))
        | inr t ↦ rw (t, get) (outcome-fresh e v rev s (rw (t, get) at h))
      ]
