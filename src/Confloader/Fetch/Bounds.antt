-- ===== src/Confloader/Fetch/Bounds.antt =====
-- confloader/confloader.go: how often the backend is asked, and that a fetch has an outcome.
use go_dev_sdk.Prelude.{ℕ, zero, suc, ◌+◌, ◌≤◌, ◌<◌, ◌≡◌, ◌≢◌, Option, none, some, arith, Bytes}
use go_dev_sdk.Confloader.Fetch.{
  World, Fetched, fetched, failed, unset, default_folder, Answer, answer, no_answer, not_found,
  provider, parse_failed, ended, Err, GetterMeta, attempts, settle, fetch_retried, fetch_default,
  fetch_with_fallback,
}

module _ (w : World) (max_retries : ℕ) where
  -- A fetch has an outcome, and has asked the backend at most k times since the count was n.
  abbrev pub Settled : ℕ → ℕ → Fetched × ℕ → Type 0
  Settled n k r = (r.0 ≢ unset) × (n ≤ r.1) × (r.1 ≤ n + k)

  settle-Settled :
      (a : Answer) (typ n k : ℕ) (retry : Err → Fetched × ℕ)
      → ((e : Err) → Settled (suc n) k (retry e))
      → Settled n (suc k) (settle w max_retries a typ retry (suc n))
  unfolding settle
  settle-Settled (answer raw rev) typ n k retry h = ground arith
  settle-Settled (no_answer not_found) typ n k retry h = ground arith
  settle-Settled (no_answer (provider e)) typ n k retry h = ground (arith, h (provider e))
  settle-Settled (no_answer (parse_failed e)) typ n k retry h = ground (arith, h (parse_failed e))
  settle-Settled (no_answer (ended e)) typ n k retry h = ground (arith, h (ended e))

  attempts-Settled :
      (left attempt : ℕ) (folder key : Bytes) (typ n : ℕ) (e : Err)
      → Settled n left (attempts w max_retries left attempt folder key typ n (some e))
  unfolding attempts
  attempts-Settled zero attempt folder key typ n e = ground arith
  attempts-Settled (suc left) attempt folder key typ n e = ground (
    arith,
    settle-Settled (w.answers n folder key) typ n left _
        (attempts-Settled left (suc attempt) folder key typ (suc n)),
  )

  -- A fetch asks the backend at least once and at most once more than it may retry, and ends with a
  -- value or an error.
  fetch_retried-Settled :
      (folder key : Bytes) (typ n : ℕ)
      → Settled n (suc max_retries) (fetch_retried w max_retries folder key typ n)
  unfolding fetch_retried attempts
  fetch_retried-Settled folder key typ n =
      settle-Settled (w.answers n folder key) typ n max_retries _
        (attempts-Settled max_retries 1 folder key typ (suc n))

  fetch_default-Settled :
      (m : GetterMeta) (n : ℕ) (r : Fetched × ℕ)
      → Settled n (suc max_retries) r
      → Settled n (suc max_retries + suc max_retries) (fetch_default w max_retries m r)
  unfolding fetch_default
  fetch_default-Settled m n (failed not_found, k) h =
      ground (arith, h, fetch_retried-Settled default_folder m.key m.typ k)
  fetch_default-Settled m n (failed (provider e), k) h = ground arith
  fetch_default-Settled m n (failed (parse_failed e), k) h = ground arith
  fetch_default-Settled m n (failed (ended e), k) h = ground arith
  fetch_default-Settled m n (fetched v rev, k) h = ground arith
  fetch_default-Settled m n (unset, k) h = ground arith

  -- With the fallback to the default folder, at most twice that.
  pub fetch_with_fallback-Settled :
      (m : GetterMeta) (n : ℕ)
      → Settled n (suc max_retries + suc max_retries) (fetch_with_fallback w max_retries m n)
  unfolding fetch_with_fallback
  fetch_with_fallback-Settled m n =
      fetch_default-Settled m n _ (fetch_retried-Settled m.folder m.key m.typ n)

module _ (w : World) (max_retries : ℕ) (folder key : Bytes) (typ : ℕ) where
  -- From the n-th call on, j calls fail by a provider error, the next gives a raw text that parses,
  -- and no wait between them is cut short.
  abbrev pub Recovers : ℕ → ℕ → ℕ → Bytes → Type 0
  Recovers zero n v rev =
      (w.done n ≡ none)
      × ((raw : Bytes) × (w.answers n folder key ≡ answer raw rev) × (w.parse raw typ ≡ some v))
  Recovers (suc j) n v rev =
      (w.done n ≡ none)
      × ((k : ℕ) × (w.answers n folder key ≡ no_answer (provider k)))
      × Recovers j (suc n) v rev

  attempts-Recovers :
      (j left attempt n v : ℕ) (rev : Bytes) (e : Option Err)
      → j < left
      → Recovers j n v rev
      → let r = attempts w max_retries left attempt folder key typ n e in
        (r.0 ≡ fetched v rev) × (r.1 ≡ n + suc j)
  unfolding attempts
  attempts-Recovers j zero attempt n v rev e lt h = absurd (omega arith)
  attempts-Recovers zero (suc left) attempt n v rev e lt (d, (raw, a, p)) = ground arith
  attempts-Recovers (suc j) (suc left) attempt n v rev e lt (d, (k, a), h) = ground (
    arith,
    attempts-Recovers j left (suc attempt) (suc n) v rev (some (provider k)) (omega arith) h,
  )

  -- A value is found in spite of as many provider failures in a row as may be retried, with one call
  -- for each failure and one more.
  pub fetch_retried-Recovers :
      (j n v : ℕ) (rev : Bytes)
      → j ≤ max_retries
      → Recovers j n v rev
      → let r = fetch_retried w max_retries folder key typ n in
        (r.0 ≡ fetched v rev) × (r.1 ≡ n + suc j)
  unfolding fetch_retried
  fetch_retried-Recovers j n v rev le h =
      attempts-Recovers j (suc max_retries) 0 n v rev none (omega arith) h
