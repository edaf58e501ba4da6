-- ===== src/Rest/Server/Respond/Hiding.antt =====
-- rest/server/problem.go: what a problem response shows and what it hides.
use go_dev_sdk.Prelude.{
  ap₂, ℕ, ◌≤◌, ◌≡◌, ◌⊎◌, refl, inl, inr, true, false, [], Option, none, some, Bytes, is_empty,
  arith,
}
use go_dev_sdk.Prelude.Int.{ℤ, pos, negsuc}
use go_dev_sdk.Errs.{Err, Error, as_type}
use go_dev_sdk.Rest.Semconv.{errs_code}
use go_dev_sdk.Rest.Server.{Context, Problem, problem_body}
use go_dev_sdk.Rest.Server.Stack.{header, header-set_header}
use go_dev_sdk.Rest.Server.Respond.{
  clamp, problem_title, write_problem, respond_error, shown_detail, shown_code, bound, id_header,
}

clamp_range : (status : ℤ) → (400 ≤ clamp status) × (clamp status ≤ 599)
unfolding clamp
clamp_range (pos n) = ground arith
clamp_range (negsuc n) = ground arith

abbrev pub error_of : Option Err → Option (Option Error)
error_of none = none
error_of (some e) = as_type e

module _ (status_text : ℕ → Bytes) where
  problem_title_full : (status : ℕ) → is_empty (problem_title status_text status) ≡ false
  unfolding problem_title
  problem_title_full status = ground arith

  -- Whatever the status and the error, Error answers with a problem that has a title, a status from 400
  -- to 599, which is that of the response too, and the request ID, which the header has too; it binds
  -- the error if there is one, and aborts the chain.
  pub respond_error-answers :
      (status : ℤ) (err : Option Err) (c : Context)
      → let r = respond_error status_text status err c in
        (p : Problem) × (r.response.body ≡ problem_body p)
        × (is_empty p.title ≡ false)
        × (400 ≤ p.status)
        × (p.status ≤ 599)
        × (r.response.status ≡ p.status)
        × (p.request_id ≡ c.stored_id)
        × (header id_header r.response.headers ≡ some c.stored_id)
        × (r.errors ≡ bound err c.errors)
        × (r.aborted ≡ true)
  unfolding respond_error write_problem
  respond_error-answers status err c =
      let (low, high) = clamp_range status in
      (
        record {
          title = problem_title status_text (clamp status);
          status = clamp status;
          detail = shown_detail (clamp status) err;
          code = shown_code (clamp status) err;
          request_id = c.stored_id;
        },
        refl,
        problem_title_full (clamp status),
        low,
        high,
        refl,
        refl,
        header-set_header id_header c.stored_id c.response.headers,
        refl,
        refl,
      )

  hidden :
      (status : ℕ) (err : Option Err)
      → (500 ≤ status) ⊎ (error_of err ≡ none)
      → (shown_detail status err ≡ []) × (shown_code status err ≡ none)
  unfolding errs_code
  hidden status none h = (refl, refl)
  hidden status (some e) (inl high) = ground (arith, high)
  hidden status (some e) (inr plain) = rw (plain, errs_code) (ground arith)

  -- For a status of 500 or more, or an error without an *errs.Error in its tree, the body says nothing of
  -- the error: it has no detail and no code.
  pub respond_error-hides :
      (status : ℤ) (err : Option Err) (c : Context)
      → (500 ≤ clamp status) ⊎ (error_of err ≡ none)
      → (respond_error status_text status err c).response.body
        ≡ problem_body (record {
          title = problem_title status_text (clamp status);
          status = clamp status;
          detail = [];
          code = none;
          request_id = c.stored_id;
        })
  unfolding respond_error write_problem
  respond_error-hides status err c h =
      let (no_detail, no_code) = hidden (clamp status) err h in
      let shown : Bytes → Option ℤ → Problem = λ detail code. record {
        title = problem_title status_text (clamp status);
        status = clamp status;
        detail = detail;
        code = code;
        request_id = c.stored_id;
      } in
      ap₂ (λ (detail : Bytes) (code : Option ℤ). problem_body (shown detail code)) no_detail no_code
