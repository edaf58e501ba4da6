-- ===== src/Rest/Retry/Laws.antt =====
-- rest/client/middleware.go: how often a call is sent, and after which results it is sent again.
use go_dev_sdk.Prelude.{
  ℕ, zero, suc, ◌+◌, ◌≤◌, ◌<◌, ◌≡◌, ◌⊎◌, refl, inl, inr, false, ◌||◌, leb, ltb, ltb→lt, ltb→le,
  Bool-cases, Option-cases, some, arith,
}
use go_dev_sdk.Rest.Retry.{
  Call, Request, Err, Result, failed, retryable, retry_delay, End, ended, out_of_fuel, retry_loop,
  retry,
}

module _ (c : Call) where
  -- The call went on after the attempt: the result was to be retried, and the context not done.
  abbrev pub WentOn : ℕ → Type 0
  WentOn i =
      (i < c.max_attempts)
      × (c.context_done i ≡ false)
      × ((d : ℕ) × (retry_delay c i (c.attempts i) ≡ some d))

  -- After the attempt the call was to be sent again after a delay, and the wait for it ended with the error
  -- that is the result.
  abbrev pub WokenAt : ℕ → Result → Type 0
  WokenAt k r =
      (d : ℕ) × (retry_delay c k (c.attempts k) ≡ some d)
      × ((e : Err) × (c.wait_err k d ≡ some e) × (r ≡ failed e))

  -- The call has sent at least n attempts and at most MaxAttempts, or n if that is more; it went on
  -- after each from n to the last but one; and it ends with the result of the last, or with the error
  -- of the wait after it.
  abbrev pub Ends : ℕ → End c → Type 0
  Ends n out_of_fuel = ⊥
  Ends n (ended r k) =
      (n ≤ k)
      × ((k ≤ c.max_attempts) ⊎ (k ≡ n))
      × ((i : ℕ) → n ≤ i → i < k → WentOn i)
      × ((r ≡ c.attempts k) ⊎ WokenAt k r)

  -- The rest of the call, after an attempt that it went on after.
  went_on : (n : ℕ) (e : End c) → n < c.max_attempts → WentOn n → Ends (suc n) e → Ends n e
  went_on n out_of_fuel lt w h = h
  went_on n (ended r k) lt w (low, high, more, result) = (
    omega arith,
    inl (elim high [ inl le ↦ le | inr e ↦ omega arith ]),
    (λ i ge less. elim (Bool-cases (ltb n i)) [
      | inl past ↦ more i (ltb→lt n i past) less
      | inr here ↦ let le : i ≤ n = ltb→le n i here in rw (let e : i ≡ n = omega arith in e) w
    ]),
    result,
  )

  ended_now : (n : ℕ) (r : Result) → (r ≡ c.attempts n) ⊎ WokenAt n r → Ends n (ended r n)
  ended_now n r h = (omega arith, inr refl, (λ i ge less. absurd (omega arith)), h)

  retry_loop-Ends :
      (left attempt : ℕ)
      → 1 ≤ left
      → c.max_attempts < left + attempt
      → Ends attempt (retry_loop c left attempt)
  unfolding retry_loop
  retry_loop-Ends zero attempt more fuel = absurd (omega arith)
  retry_loop-Ends (suc left) attempt more fuel =
      elim (Bool-cases (leb c.max_attempts attempt || c.context_done attempt)) [
        | inl stop ↦ rw (stop, retry_loop) (ended_now attempt (c.attempts attempt) (inl refl))
        | inr go ↦ elim (Option-cases (retry_delay c attempt (c.attempts attempt))) [
          | inl final ↦
              rw (go, final, retry_loop) (ended_now attempt (c.attempts attempt) (inl refl))
          | inr (d, again) ↦ elim (Option-cases (c.wait_err attempt d)) [
            | inl slept ↦
                let lt : attempt < c.max_attempts = ground arith in
                let open_ : c.context_done attempt ≡ false = ground arith in
                rw (go, again, slept, retry_loop)
                  (went_on attempt _ lt (lt, open_, (d, again))
                    (retry_loop-Ends left (suc attempt) (omega arith) (omega arith)))
            | inr (e, woken) ↦
                rw (go, again, woken, retry_loop)
                  (ended_now attempt (failed e) (inr (d, again, (e, woken, refl))))
          ]
        ]
      ]

  -- A call always ends: after at least one attempt and, unless that is the only one, at most
  -- MaxAttempts; it is sent again only after a result that is to be retried, with the context not done,
  -- and never if the request must not be sent again; and it returns the result of the last attempt, or
  -- the error of the wait after it.
  pub retry-Ends :
      (r : Request)
      → Ends 1 (retry c r) × (retryable r ≡ false → retry c r ≡ ended (c.attempts 1) 1)
  unfolding retry
  retry-Ends r = elim (Bool-cases (retryable r)) [
    | inl safe ↦
        rw (safe, retry)
          (retry_loop-Ends (suc c.max_attempts) 1 (omega arith) (omega arith), λ not_safe. cc)
    | inr unsafe ↦ rw (unsafe, retry) (ended_now 1 (c.attempts 1) (inl refl), λ _. refl)
  ]
