-- ===== src/Confloader/Cache/Invariant.antt =====
-- confloader/confloader.go: what every entry of the cache satisfies.
use go_dev_sdk.Prelude.{
  ℕ, ◌≡◌, refl, inl, inr, Bool-cases, Bool, true, false, List, [], ◌∷◌, ◌++◌, map, none, some,
  arith, All,
}
use go_dev_sdk.Confloader.Fetch.{
  Err, is_not_found, Fetched, fetched, failed, unset, World, GetterMeta, fetch_with_fallback,
}
use go_dev_sdk.Confloader.Cache.{
  Entry, cold, store, refresh_one, get, refresh_all, mark_all_stale, need_refresh,
}

-- A stale entry serves an older value after a failure that is no absence; an entry that was never
-- fetched is blank; an entry with neither value nor error was never fetched.
pub record IsSound (e : Entry) : Type 0 where
  pub serves : e.stale ≡ true → e.has_value ≡ true
  pub broken : e.stale ≡ true → (x : Err) × (e.fetch_err ≡ some x) × (is_not_found x ≡ false)
  pub blank : e.last_fetch ≡ none → (e.has_value ≡ false) × (e.fetch_err ≡ none)
  pub fresh : e.has_value ≡ true → e.fetch_err ≡ none → e.stale ≡ false
  pub known : e.has_value ≡ false → e.fetch_err ≡ none → e.last_fetch ≡ none

pub cold-IsSound : IsSound cold
cold-IsSound = record {
  serves = λ h. cc;
  broken = λ h. cc;
  blank = λ _. (refl, refl);
  fresh = λ h. cc;
  known = λ _ _. refl;
}

-- A failure that is no absence.
failing-IsSound :
    (e : Entry) (now : ℕ) (x : Err)
    → is_not_found x ≡ false
    → IsSound (record e { fetch_err = some x; stale = e.has_value; last_fetch = some now })
failing-IsSound e now x h = record {
  serves = λ s. s;
  broken = λ _. (x, refl, h);
  blank = λ b. cc;
  fresh = λ _ f. cc;
  known = λ _ f. cc;
}

store-IsSound : (e : Entry) (now : ℕ) (r : Fetched) → IsSound (store e now r)
unfolding store
store-IsSound e now (failed x) = elim (Bool-cases (is_not_found x)) [
  | inl h ↦
      rw (h, store)
        (record {
          serves = λ s. cc;
          broken = λ s. cc;
          blank = λ b. cc;
          fresh = λ _ f. cc;
          known = λ _ f. cc;
        })
  | inr h ↦ rw (h, store) (failing-IsSound e now x h)
]
store-IsSound e now (fetched v rev) = record {
  serves = λ s. cc;
  broken = λ s. cc;
  blank = λ b. cc;
  fresh = λ _ _. refl;
  known = λ h _. cc;
}
store-IsSound e now unset = record {
  serves = λ s. cc;
  broken = λ s. cc;
  blank = λ b. cc;
  fresh = λ _ _. refl;
  known = λ h _. cc;
}

module _ (w : World) (max_retries : ℕ) where
  refresh_one-IsSound :
      (m : GetterMeta) (force : Bool) (now : ℕ) (e : Entry) (n : ℕ)
      → IsSound e
      → IsSound (refresh_one w max_retries m force now e n).0
  unfolding refresh_one
  refresh_one-IsSound m force now e n s =
      ground (arith, store-IsSound e now (fetch_with_fallback w max_retries m n).0)

  abbrev pub AreSound : List (GetterMeta × Entry) → Type 0
  AreSound = All {A = GetterMeta × Entry} (λ p. IsSound p.1)

  -- A read keeps its entry sound, whatever the backend answers.
  pub get-IsSound :
      (m : GetterMeta) (now : ℕ) (e : Entry) (n : ℕ)
      → IsSound e
      → IsSound (get w max_retries m now e n).1
  unfolding get
  get-IsSound m now e n s = elim (Bool-cases (need_refresh e)) [
    | inl h ↦ rw (h, get) (refresh_one-IsSound m false now e n s)
    | inr h ↦ rw (h, get) s
  ]

  pub refresh_all-AreSound :
      (now : ℕ) (es : List (GetterMeta × Entry)) (n : ℕ)
      → AreSound es
      → AreSound (refresh_all w max_retries now es n).0
  unfolding refresh_all
  refresh_all-AreSound now [] n s = tt
  refresh_all-AreSound now ((m, e) ∷ es) n (s, ss) =
      (refresh_one-IsSound m true now e n s, refresh_all-AreSound now es _ ss)

mark_all_stale-AreSound :
    (x : Err) (now : ℕ) (es : List (GetterMeta × Entry))
    → is_not_found x ≡ false
    → All {A = GetterMeta × Entry} (λ p. IsSound p.1) (mark_all_stale x now es)
unfolding mark_all_stale
mark_all_stale-AreSound x now [] h = tt
mark_all_stale-AreSound x now ((m, e) ∷ es) h =
    (failing-IsSound e now x h, mark_all_stale-AreSound x now es h)

module _ (w : World) (max_retries : ℕ) where
  -- A tick of the poller, or one whose client panics after a part of the entries was refreshed.
  pub data Tick (es : List (GetterMeta × Entry)) : List (GetterMeta × Entry) → Type 0 where
    polled : (now n : ℕ) → Tick es (refresh_all w max_retries now es n).0
    panicked :
        (x : Err) (now n : ℕ) (pre post : List (GetterMeta × Entry))
        → is_not_found x ≡ false
        → es ≡ pre ++ post
        → Tick es (mark_all_stale x now ((refresh_all w max_retries now pre n).0 ++ post))

  -- The caches of a loader over time: polls and reads in any order, with any answers of the backend.
  pub data Reach (metas : List GetterMeta) : List (GetterMeta × Entry) → Type 0 where
    start : {es : List (GetterMeta × Entry)} → es ≡ map (λ m. (m, cold)) metas → Reach metas es
    tick : {es fs : List (GetterMeta × Entry)} → Reach metas es → Tick es fs → Reach metas fs
    read :
        {es fs : List (GetterMeta × Entry)} (m : GetterMeta) (e : Entry)
        (pre post : List (GetterMeta × Entry)) (now n : ℕ)
        → Reach metas es
        → es ≡ pre ++ (m, e) ∷ post
        → fs ≡ pre ++ (m, (get w max_retries m now e n).1) ∷ post
        → Reach metas fs

  cold-AreSound :
      (metas : List GetterMeta)
      → All {A = GetterMeta × Entry} (λ p. IsSound p.1) (map (λ m. (m, cold)) metas)
  cold-AreSound [] = tt
  cold-AreSound (m ∷ ms) = (cold-IsSound, cold-AreSound ms)

  Tick-AreSound :
      {es fs : List (GetterMeta × Entry)}
      → Tick es fs
      → All {A = GetterMeta × Entry} (λ p. IsSound p.1) es
      → All {A = GetterMeta × Entry} (λ p. IsSound p.1) fs
  Tick-AreSound {es} (polled now n) s = refresh_all-AreSound w max_retries now es n s
  Tick-AreSound (panicked x now n pre post h _) s = mark_all_stale-AreSound x now _ h

  read-AreSound :
      (m : GetterMeta) (e : Entry) (pre post : List (GetterMeta × Entry)) (now n : ℕ)
      → All {A = GetterMeta × Entry} (λ p. IsSound p.1) (pre ++ (m, e) ∷ post)
      → All {A = GetterMeta × Entry}
          (λ p. IsSound p.1)
          (pre ++ (m, (get w max_retries m now e n).1) ∷ post)
  read-AreSound m e [] post now n s = (get-IsSound w max_retries m now e n s.0, s.1)
  read-AreSound m e (p ∷ pre) post now n s = (s.0, read-AreSound m e pre post now n s.1)

  -- Every entry of a loader is sound at all times.
  pub Reach-AreSound :
      {metas : List GetterMeta} {es : List (GetterMeta × Entry)}
      → Reach metas es
      → All {A = GetterMeta × Entry} (λ p. IsSound p.1) es
  Reach-AreSound {metas} (start e) = rw e (cold-AreSound metas)
  Reach-AreSound (tick r t) = Tick-AreSound t (Reach-AreSound r)
  Reach-AreSound (read m e pre post now n r before after) =
      rw after (read-AreSound m e pre post now n (rw before at (Reach-AreSound r)))
