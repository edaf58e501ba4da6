-- ===== src/Rest/Call/Agreement.antt =====
-- rest/client/middleware.go: the whole chain makes the attempts that the retry loop alone makes.
use go_dev_sdk.Prelude.{
  ℕ, zero, suc, ◌+◌, ◌≤◌, ◌≡◌, ◌⊎◌, ◌||◌, refl, sym, ap, ◌∙◌, inl, inr, true, false, leb, Bool,
  Bool-cases, Option-cases, List, Option, [], arith,
}
use go_dev_sdk.Prelude.Int.{ℤ, pos, not_positive}
use go_dev_sdk.Errs.{Err}
use go_dev_sdk.Rest.Attempt.{
  is_informational, Result, failed, responded, World, State, deadline, settle_attempt,
  attempt_timeout,
}
use go_dev_sdk.Rest.Retry
use go_dev_sdk.Rest.Retry.{retryable, retry_delay, retry_loop, End, ended, out_of_fuel}
use go_dev_sdk.Rest.Call.{
  Client, Request, Event, Told, attempt, tracing, measure, read_result, retries, retry,
}
use go_dev_sdk.Rest.Call.Told.{IsTelling, attempt-IsTelling, fresh-IsTelling}

abbrev blank : State
blank = record { attempts = 0; timeout_option = pos 0; sent_with = []; closed_idle = false }

settled-same :
    (timed_out : Err → Bool) (r : Result) (ctx : Option Err) (s u : State)
    → (settle_attempt timed_out r ctx s).0 ≡ (settle_attempt timed_out r ctx u).0
settled-same timed_out (failed e) ctx s u = refl
settled-same timed_out (responded r) ctx s u = elim (Bool-cases (is_informational r.status)) [
  | inl e ↦ rw e refl
  | inr e ↦ rw e refl
]

module _ (x : Client) where
  -- The result of an attempt that meets this world.
  unfoldable pub result_of : World → Result
  result_of w = (deadline x.timed_out x.attempt_limit w blank).0

  deadline-same :
      (w : World) (s : State) → (deadline x.timed_out x.attempt_limit w s).0 ≡ result_of w
  unfolding deadline result_of
  deadline-same w s =
      let d = attempt_timeout x.attempt_limit w.time_left in
      elim (Option-cases w.context_err) [
        | inr (e, over_before) ↦ rw (over_before, deadline, result_of) refl
        | inl going ↦ elim (Bool-cases (not_positive d)) [
          | inl over ↦ rw (going, over, deadline, result_of) refl
          | inr positive ↦
              rw (going, positive, deadline, result_of)
                (settled-same x.timed_out (w.next d) w.context_err_after _ _)
        ]
      ]

  attempt-result :
      (q : Request) (w : World) (s : State) (l : List Event) → (attempt x q w s l).0 ≡ result_of w
  unfolding attempt tracing measure
  attempt-result q w s l = deadline-same w s

  -- The chain has told as many attempts as the loop ended after, and has the result of the last, or the error of
  -- the wait after it, as the loop has.
  abbrev pub Matches : (ℕ → World) → List ℤ → End x.call → Told → Type 0
  Matches ws before out_of_fuel t = ⊥
  Matches ws before (ended r k) t =
      IsTelling k before t.1 t.2
      × (((r ≡ x.call.attempts k) × (t.0 ≡ result_of (ws k)))
          ⊎ ((e : Retry.Err) × (r ≡ Retry.failed e) × (t.0 ≡ failed (x.woken e))))

  -- The retry loop reads the results of these attempts.
  abbrev pub Reads : (ℕ → World) → Type 0
  Reads ws = (n : ℕ) → x.call.attempts n ≡ read_result x n (result_of (ws n))

  last-Matches :
      (q : Request) (ws : ℕ → World) (k : ℕ) (before : List ℤ) (s : State) (l : List Event)
      → IsTelling k before s l
      → Matches ws before (ended (x.call.attempts (suc k)) (suc k)) (attempt x q (ws (suc k)) s l)
  last-Matches q ws k before s l h = (
    attempt-IsTelling x q (ws (suc k)) k before s l h,
    inl (refl, attempt-result q (ws (suc k)) s l),
  )

  decided-same :
      (ws : ℕ → World) (q : Request) (n : ℕ) (s : State) (l : List Event)
      → Reads ws
      → retry_delay x.call n (read_result x n (attempt x q (ws n) s l).0)
        ≡ retry_delay x.call n (x.call.attempts n)
  decided-same ws q n s l reads =
      ap (λ (r : Result). retry_delay x.call n (read_result x n r)) (attempt-result q (ws n) s l)
      ∙ ap (retry_delay x.call n) (sym (reads n))

  retries-Matches :
      (q : Request) (ws : ℕ → World) (left k : ℕ) (before : List ℤ) (s : State) (l : List Event)
      → Reads ws
      → x.call.max_attempts ≤ left + suc k
      → IsTelling k before s l
      → Matches ws before (retry_loop x.call (suc left) (suc k)) (retries x q ws left (suc k) s l)
  unfolding retry_loop retries
  retries-Matches q ws zero k before s l reads fuel h =
      let stop : (leb x.call.max_attempts (suc k) || x.call.context_done (suc k)) ≡ true =
        ground arith in
      rw (stop, retry_loop) (last-Matches q ws k before s l h)
  retries-Matches q ws (suc left) k before s l reads fuel h =
      let n = suc k in
      let t = attempt x q (ws n) s l in
      let told = attempt-IsTelling x q (ws n) k before s l h in
      let decided = decided-same ws q n s l reads in
      elim (Bool-cases (leb x.call.max_attempts n || x.call.context_done n)) [
        | inl stop ↦ rw (stop, retry_loop, retries) (last-Matches q ws k before s l h)
        | inr go ↦ elim (Option-cases (retry_delay x.call n (x.call.attempts n))) [
          | inl final ↦
              let same = decided ∙ final in
              rw (go, final, same, retry_loop, retries) (last-Matches q ws k before s l h)
          | inr (d, again) ↦
              let same = decided ∙ again in
              elim (Option-cases (x.call.wait_err n d)) [
                | inl slept ↦
                    rw (go, again, same, slept, retry_loop, retries)
                      (retries-Matches q ws left n before t.1 t.2 reads (omega arith) told)
                | inr (e, woken) ↦
                    rw (go, again, same, woken, retry_loop, retries) (told, inr (e, refl, refl))
              ]
        ]
      ]

  -- Where the results that Rest.Retry is given are those of the attempts, the chain of a new call makes as many
  -- attempts as the retry loop there ends after, and returns what it returns.
  pub retry-Matches :
      (q : Request) (ws : ℕ → World) (s : State)
      → Reads ws
      → Matches ws s.sent_with
          (Retry.retry x.call q.sent)
          (retry x q ws (record s { attempts = 0 }) [])
  unfolding retry Retry.retry
  retry-Matches q ws s reads =
      let fresh = record s { attempts = 0 } in
      elim (Bool-cases (retryable q.sent)) [
        | inl e ↦
            rw (e, retry, Retry.retry)
              (retries-Matches q ws x.call.max_attempts 0 s.sent_with fresh [] reads (omega arith)
                (fresh-IsTelling x s))
        | inr e ↦
            rw (e, retry, Retry.retry)
              (last-Matches q ws 0 s.sent_with fresh [] (fresh-IsTelling x s))
      ]
