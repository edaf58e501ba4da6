-- ===== src/Rest/Server/Tests.antt =====
-- rest/server: runs on small inputs, and the theorems at such inputs.
use go_dev_sdk.Prelude.{
  Option, ℕ, ◌≤◌, ◌≡◌, refl, inl, true, false, List, [], ◌∷◌, ◌++◌, none, some, Bytes, codes, All,
  arith, reports,
}
use go_dev_sdk.Prelude.Int.{ℤ, pos}
use go_dev_sdk.Errs.{
  Err, LogValue, group, debug, without, nil_coded, as_err, as_type, new, wrap, slog_value,
  log_value,
}
use go_dev_sdk.Rest.Semconv.{method, span_name, scheme}
use go_dev_sdk.Rest.Server.{
  Context, problem_body, blank_response, panics, returns, Chain, span_started, active_up,
}
use go_dev_sdk.Rest.Server.Config.{set_defaults, validate}
use go_dev_sdk.Rest.Server.Respond.{respond_error, clamp, problem_title, write_problem, id_header}
use go_dev_sdk.Rest.Server.Respond.Hiding.{respond_error-hides}
use go_dev_sdk.Rest.Server.Middleware.{
  valid_request_id, all_id_bytes, is_id_byte, stack, bound_error_value, bound_error_values,
}
use go_dev_sdk.Rest.Server.Stack.{header, entered, left_by, panicked, any_hides_nil, stack_panics}
use go_dev_sdk.Rest.Server.Stack.Report.{
  IsFirstCode, telemetry, panic_events, IsKept, stack-telemetry, stack-panic,
}

abbrev request : Context
request = record {
  request = record {
    method = codes "GET";
    scheme = codes "http";
    route = codes "/users/:id";
    request_id = codes "abc-1";
  };
  response = blank_response;
  stored_id = [];
  errors = [];
  aborted = false;
  hijack_handler = false;
  events = [];
}

abbrev no_text : ℕ → Bytes
no_text status = []

abbrev fresh : Bytes
fresh = codes "F"

fresh_valid : valid_request_id fresh ≡ true
unfolding valid_request_id all_id_bytes is_id_byte
fresh_valid = refl

spaces_invalid : valid_request_id (codes "a b") ≡ false
unfolding valid_request_id all_id_bytes is_id_byte
spaces_invalid = refl

defaults :
    validate
      (λ _. true)
      (set_defaults (record {
        addr = [];
        read_timeout = pos 0;
        write_timeout = pos 0;
        shutdown_timeout = pos 0;
      }))
    ≡ []
unfolding validate set_defaults reports
defaults = refl

-- A handler that binds an error and panics.
abbrev bad_request : Err
bad_request = as_err (new (pos 40001) (codes "bad"))

abbrev panicking : Chain
panicking c = panics (record c { errors = bad_request ∷ [] })

can_log :
    bound_error_values (left_by (panicking (entered fresh request))).errors
    ≡ some (group (pos 40001) (codes "bad") [] [] ∷ [])
unfolding bound_error_values bound_error_value as_type slog_value log_value debug without
can_log = refl

stack_panics_example :
    panicked (stack no_text fresh panicking request)
    ≡ any_hides_nil (left_by (panicking (entered fresh request))).errors
stack_panics_example = stack_panics no_text fresh panicking request

-- Error(c, 400, errs.Wrap(1, "bad", (*errs.Error)(nil))): the access log panics outside of recovery.
abbrev nil_cause : Err
nil_cause = as_err (wrap (pos 1) (codes "bad") nil_coded)

unlogged :
    panicked (
      stack no_text fresh
        (λ c. returns (respond_error no_text (pos 400) (some nil_cause) c))
        request)
    ≡ true
unfolding respond_error write_problem as_type
unlogged = stack_panics no_text fresh _ request

clamped : 500 ≤ clamp (pos 200)
unfolding clamp
clamped = omega arith

respond_error-hides_example :
    (respond_error no_text (pos 200) (some bad_request) request).response.body
    ≡ problem_body (record {
      title = problem_title no_text (clamp (pos 200));
      status = clamp (pos 200);
      detail = [];
      code = none;
      request_id = [];
    })
respond_error-hides_example =
    respond_error-hides no_text (pos 200) (some bad_request) request (inl clamped)

abbrev values : List LogValue
values = group (pos 40001) (codes "bad") [] [] ∷ []

stack-telemetry_example :
    (d : Context) × (code : Option ℤ) × (stack no_text fresh panicking request ≡ returns d)
    × IsFirstCode d.errors code
    × (d.events
        ≡ telemetry (method (codes "GET")).0 (scheme (codes "http")) d.response.status code values (
            panic_events true
            ++ (active_up (method (codes "GET")).0 (scheme (codes "http"))
                ∷ span_started (span_name (method (codes "GET")).0 (codes "/users/:id"))
                ∷ [])))
stack-telemetry_example = stack-telemetry no_text fresh panicking request values refl can_log

stack-panic_example :
    (a : Context) × (stack no_text fresh panicking request ≡ returns a)
    × (a.response.status ≡ 500)
    × (a.response.body
        ≡ problem_body (record {
          title = problem_title no_text 500;
          status = 500;
          detail = [];
          code = none;
          request_id = (left_by (panicking (entered fresh request))).stored_id;
        }))
    × (header id_header a.response.headers
        ≡ some (left_by (panicking (entered fresh request))).stored_id)
    × All IsKept a.response.headers
    × (a.aborted ≡ true)
    × (a.hijack_handler ≡ false)
stack-panic_example =
    stack-panic no_text fresh panicking request (left_by (panicking (entered fresh request))) values
      refl refl can_log
