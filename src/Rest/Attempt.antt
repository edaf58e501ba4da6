-- ===== src/Rest/Attempt.antt =====
-- rest/client/middleware.go: one attempt, `deadline` and what the telemetry records of it. Durations are
-- integers of nanoseconds. Which errors are the timeouts of Hertz and of the connection is a parameter.
pub mod Laws
mod Tests
use go_dev_sdk.Prelude.{
  ℕ, suc, ltb, leb, ◌==◌, Bool, true, false, ◌&&◌, ◌||◌, not, List, [], ◌∷◌, ◌++◌, Option, none,
  some, Bytes, codes, is_empty, if◌then◌else◌,
}
use go_dev_sdk.Prelude.Int.{ℤ, pos, ltb_ℤ, not_positive}
use go_dev_sdk.Errs.{Err, wrapped, joined, plain, deadline_exceeded}
use go_dev_sdk.Rest.Semconv.{client_error_type, protocol_version}

pub record Response : Type 0 where
  pub status : ℕ
  pub protocol : Bytes

pub data Result : Type 0 where
  failed : Err → Result
  responded : Response → Result

-- What the attempt meets: the error of the context and the time left before it, the result of the rest
-- of the chain under its timeout, and the error of the context after it.
pub record World : Type 0 where
  pub context_err : Option Err
  pub time_left : Option ℤ
  pub next : ℤ → Result
  pub context_err_after : Option Err

-- The state that an attempt changes: the count of attempts of the call, the timeout option of the
-- request, the timeouts under which it was sent, and whether the idle connections were closed.
pub record State : Type 0 where
  pub attempts : ℕ
  pub timeout_option : ℤ
  pub sent_with : List ℤ
  pub closed_idle : Bool

abbrev pub min_ℤ : ℤ → ℤ → ℤ
min_ℤ a b = if ltb_ℤ b a then b else a

abbrev pub attempt_timeout : ℤ → Option ℤ → ℤ
attempt_timeout d none = d
attempt_timeout d (some left) = min_ℤ d left

unfoldable pub is_informational : ℕ → Bool
is_informational status = leb 100 status && ltb status 200 && not (status == 100)

abbrev pub informational_error : ℕ → Err
informational_error status = wrapped [] (plain (codes "rest/client: informational response"))

-- `req.SetOptions(config.WithRequestTimeout(d))`.
abbrev pub set_timeout : ℤ → State → State
set_timeout d s = record s { timeout_option = d }

module _ (timed_out : Err → Bool) where
  -- What follows a result that is not informational.
  abbrev pub with_context : Option Err → Result → Result
  with_context (some ctx) (failed e) = failed (joined ctx e)
  with_context (some ctx) (responded r) = failed ctx
  with_context none (failed e) =
      if timed_out e then failed (joined deadline_exceeded e) else failed e
  with_context none (responded r) = responded r

  -- After `next`, once the option is the caller's again.
  abbrev pub settle_attempt : Result → Option Err → State → Result × State
  settle_attempt (failed e) ctx s = (with_context ctx (failed e), s)
  settle_attempt (responded r) ctx s =
      if is_informational r.status
      then (failed (informational_error r.status), record s { closed_idle = true })
      else (with_context ctx (responded r), s)

  abbrev pub send : World → ℤ → State → Result × State
  send w d s =
      let caller = s.timeout_option in
      let counted = record s { attempts = suc s.attempts } in
      let bounded = set_timeout d counted in
      let sent = record bounded { sent_with = bounded.timeout_option ∷ bounded.sent_with } in
      settle_attempt (w.next bounded.timeout_option) w.context_err_after (set_timeout caller sent)

  abbrev pub unless_ended : Option Err → World → ℤ → State → Result × State
  unless_ended (some e) w d s = (failed e, s)
  unless_ended none w d s =
      if not_positive d then (failed (wrapped [] deadline_exceeded), s) else send w d s

  unfoldable pub deadline : ℤ → World → State → Result × State
  unfolding is_informational
  deadline limit w s = unless_ended w.context_err w (attempt_timeout limit w.time_left) s

-- `attemptOutcome`; a status of 0 is one not recorded.
pub record Outcome : Type 0 where
  pub status : ℕ
  pub version : Bytes
  pub err_type : Bytes

unfoldable pub attempt_outcome : Result → Outcome
unfolding client_error_type protocol_version
attempt_outcome (failed e) = record {
  status = 0;
  version = [];
  err_type = client_error_type 0 (some e);
}
attempt_outcome (responded r) = record {
  status = r.status;
  version = protocol_version r.protocol;
  err_type = client_error_type r.status none;
}
