-- ===== src/Rest/Attempt/Laws.antt =====
-- rest/client/middleware.go: the bounds of an attempt, and the type of its timeout.
use go_dev_sdk.Prelude.{
  suc, ◌≡◌, ◌⊎◌, refl, ap, inl, inr, Bool, true, false, Bool-cases, ◌∷◌, Option, none, some,
  Option-cases, codes, arith,
}
use go_dev_sdk.Prelude.Int.{ℤ, pos, negsuc, ◌≤ℤ◌, not_positive}
use go_dev_sdk.Errs.{Err, deadline_exceeded}
use go_dev_sdk.Rest.Semconv.{client_error_type, is_deadline}
use go_dev_sdk.Rest.Attempt.{
  World, State, Result, failed, responded, min_ℤ, attempt_timeout, with_context, settle_attempt,
  deadline, attempt_outcome,
}

min_ℤ-le : (a b : ℤ) → (min_ℤ a b ≤ℤ a) × (min_ℤ a b ≤ℤ b)
min_ℤ-le (pos a) (pos b) = ground arith
min_ℤ-le (pos a) (negsuc b) = ground arith
min_ℤ-le (negsuc a) (pos b) = ground arith
min_ℤ-le (negsuc a) (negsuc b) = ground arith

-- At most what is left, where there is a deadline.
abbrev pub IsWithin : ℤ → Option ℤ → Type 0
IsWithin d none = Unit
IsWithin d (some left) = d ≤ℤ left

attempt_timeout-IsWithin :
    (limit : ℤ) (left : Option ℤ)
    → (attempt_timeout limit left ≤ℤ limit) × IsWithin (attempt_timeout limit left) left
attempt_timeout-IsWithin limit none = (omega arith, tt)
attempt_timeout-IsWithin limit (some left) = min_ℤ-le limit left

settle_attempt-counts :
    (timed_out : Err → Bool) (r : Result) (ctx : Option Err) (s : State)
    → let q = (settle_attempt timed_out r ctx s).1 in
      (q.attempts ≡ s.attempts)
      × (q.timeout_option ≡ s.timeout_option)
      × (q.sent_with ≡ s.sent_with)
settle_attempt-counts timed_out (failed e) ctx s = (refl, refl, refl)
settle_attempt-counts timed_out (responded r) ctx s = ground arith

-- Either nothing is sent and nothing changes, or the request is sent once, counted once, and under a
-- positive timeout of at most the limit of an attempt and the time left until the deadline. The timeout
-- option of the caller is kept in any case.
pub deadline-bounds :
    (timed_out : Err → Bool) (limit : ℤ) (w : World) (s : State)
    → let q = (deadline timed_out limit w s).1 in
      (q ≡ s)
      ⊎ ((d : ℤ) × (q.sent_with ≡ d ∷ s.sent_with)
          × (q.attempts ≡ suc s.attempts)
          × (q.timeout_option ≡ s.timeout_option)
          × (not_positive d ≡ false)
          × (d ≤ℤ limit)
          × IsWithin d w.time_left)
unfolding deadline
deadline-bounds timed_out limit w s =
    let d = attempt_timeout limit w.time_left in
    elim (Option-cases w.context_err) [
      | inr (e, ended) ↦ rw (ended, deadline) (inl refl)
      | inl going ↦ elim (Bool-cases (not_positive d)) [
        | inl over ↦ rw (going, over, deadline) (inl refl)
        | inr positive ↦
            let (attempts, option, sent) =
              settle_attempt-counts timed_out (w.next d) w.context_err_after
                (record s { attempts = suc s.attempts; sent_with = d ∷ s.sent_with }) in
            let (limited, within) = attempt_timeout-IsWithin limit w.time_left in
            rw (going, positive, deadline)
              (inr (d, sent, attempts, option, positive, limited, within))
      ]
    ]

cut_off :
    (timed_out : Err → Bool) (e : Err) (ctx : Option Err)
    → (timed_out e ≡ true) ⊎ (ctx ≡ some deadline_exceeded)
    → (ctx ≡ none) ⊎ (ctx ≡ some deadline_exceeded)
    → (attempt_outcome (with_context timed_out ctx (failed e))).err_type ≡ codes "timeout"
unfolding attempt_outcome client_error_type is_deadline
cut_off timed_out e none (inl t) h = rw t refl
cut_off timed_out e none (inr c) h = absurd (cc)
cut_off timed_out e (some x) h (inl n) = absurd (cc)
cut_off timed_out e (some x) h (inr same) =
    ap (λ (c : Option Err). (attempt_outcome (with_context timed_out c (failed e))).err_type) same

-- An attempt that was sent and failed by a timeout of Hertz or of the connection, with the context not
-- done, or by any error when the deadline of the context had passed, is recorded as a timeout.
pub deadline-timeout :
    (timed_out : Err → Bool) (limit : ℤ) (w : World) (s : State) (e : Err)
    → w.context_err ≡ none
    → not_positive (attempt_timeout limit w.time_left) ≡ false
    → w.next (attempt_timeout limit w.time_left) ≡ failed e
    → (timed_out e ≡ true) ⊎ (w.context_err_after ≡ some deadline_exceeded)
    → (w.context_err_after ≡ none) ⊎ (w.context_err_after ≡ some deadline_exceeded)
    → (attempt_outcome (deadline timed_out limit w s).0).err_type ≡ codes "timeout"
unfolding deadline
deadline-timeout timed_out limit w s e going positive fails why context =
    rw (going, positive, fails, deadline) (cut_off timed_out e w.context_err_after why context)
