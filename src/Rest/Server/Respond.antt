-- ===== src/Rest/Server/Respond.antt =====
-- rest/server/problem.go. The texts of net/http.StatusText are a parameter.
pub mod Hiding
use go_dev_sdk.Prelude.{
  ℕ, ltb, Bool, true, false, ◌||◌, List, [], ◌∷◌, ◌++◌, Option, none, some, Bytes, codes, is_empty,
  if◌then◌else◌,
}
use go_dev_sdk.Prelude.Int.{ℤ, pos, negsuc}
use go_dev_sdk.Errs.{Err, Error, as_type}
use go_dev_sdk.Rest.Semconv.{errs_code}
use go_dev_sdk.Rest.Server.{Context, Problem, problem_body, Ending, returns, set_header}

abbrev pub id_header : Bytes
id_header = codes "X-Request-ID"

-- The first three lines of `Error`.
unfoldable pub clamp : ℤ → ℕ
clamp (pos n) = if ltb n 400 || ltb 599 n then 500 else n
clamp (negsuc _) = 500

abbrev pub message_of : Option (Option Error) → Bytes
message_of none = []
message_of (some none) = []
message_of (some (some e)) = e.message

-- The detail and the code of the body.
abbrev pub shown_detail : ℕ → Option Err → Bytes
shown_detail status none = []
shown_detail status (some err) = if ltb status 500 then message_of (as_type err) else []

abbrev pub shown_code : ℕ → Option Err → Option ℤ
shown_code status none = none
shown_code status (some err) = if ltb status 500 then errs_code err else none

abbrev pub bound : Option Err → List Err → List Err
bound none es = es
bound (some e) es = es ++ e ∷ []

module _ (status_text : ℕ → Bytes) where
  unfoldable pub problem_title : ℕ → Bytes
  problem_title status =
      if is_empty (status_text status)
      then (if ltb status 500 then codes "Client Error" else codes "Server Error")
      else status_text status

  -- `writeProblem`; a code of none is left out.
  unfoldable pub write_problem : ℕ → Bytes → Option ℤ → Context → Context
  unfolding problem_title set_header
  write_problem status detail code c = record c {
    response = record c.response {
      status = status;
      headers = set_header id_header c.stored_id c.response.headers;
      body = problem_body (record {
        title = problem_title status;
        status = status;
        detail = detail;
        code = code;
        request_id = c.stored_id;
      });
    };
  }

  -- `Error`, for an error or nil.
  unfoldable pub respond_error : ℤ → Option Err → Context → Context
  unfolding write_problem clamp as_type errs_code
  respond_error status err c =
      let s = clamp status in
      let c' = record c { errors = bound err c.errors } in
      record (write_problem s (shown_detail s err) (shown_code s err) c') { aborted = true }

  unfoldable pub no_route : Context → Ending
  unfolding respond_error
  no_route c = returns (respond_error (pos 404) none c)

  unfoldable pub no_method : Context → Ending
  unfolding respond_error
  no_method c = returns (respond_error (pos 405) none c)
