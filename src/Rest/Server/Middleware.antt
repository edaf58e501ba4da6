-- ===== src/Rest/Server/Middleware.antt =====
-- rest/server/middleware.go and server.go: the standard stack around the rest of the chain. The text
-- that rand.Text gives and the texts of net/http.StatusText are parameters.
use go_dev_sdk.Prelude.{
  ℕ, ltb, leb, Bool, true, false, ◌&&◌, ◌||◌, ◌==◌, not, List, [], ◌∷◌, Option, none, some, Bytes,
  codes, length, to_lower, starts_with, if◌then◌else◌,
}
use go_dev_sdk.Prelude.Int.{ℤ}
use go_dev_sdk.Errs.{Err, LogValue, as_type, slog_value}
use go_dev_sdk.Rest.Semconv.{method, span_name, scheme, errs_code, server_error_type}
use go_dev_sdk.Rest.Server.{
  Context, blank_response, Writer, no_writer, aborted_writer, Headers, Level, info, warn, error,
  span_started, span_attributes, span_failed, span_ended, exception, panic_logged, active_up,
  active_down, measured, logged, Ending, returns, panics, Chain, tell, set_header,
}
use go_dev_sdk.Rest.Server.Respond.{write_problem, id_header}

unfoldable pub is_id_byte : ℕ → Bool
is_id_byte c =
    (leb b'a' c && leb c b'z')
    || (leb b'A' c && leb c b'Z')
    || (leb b'0' c && leb c b'9')
    || c == b'.'
    || c == b'_'
    || c == b'-'

unfoldable pub all_id_bytes : Bytes → Bool
unfolding is_id_byte
all_id_bytes [] = true
all_id_bytes (c ∷ s) = is_id_byte c && all_id_bytes s

unfoldable pub valid_request_id : Bytes → Bool
unfolding all_id_bytes
valid_request_id id = not (length id == 0 || ltb 64 (length id)) && all_id_bytes id

-- `requestID`.
unfoldable pub request_id : Bytes → Chain → Chain
unfolding valid_request_id set_header
request_id fresh next c =
    let id = if valid_request_id c.request.request_id then c.request.request_id else fresh in
    next (record c {
      stored_id = id;
      response = record c.response { headers = set_header id_header id c.response.headers };
    })

-- `boundErrsCode`: the first code that is not zero.
unfoldable pub bound_errs_code : List Err → Option ℤ
unfolding errs_code
bound_errs_code [] = none
bound_errs_code (e ∷ es) =
    let rest = bound_errs_code es in elim (errs_code e) [ none ↦ rest | some k ↦ some k ]

abbrev pub is_server_error : ℕ → Bool
is_server_error status = not (ltb status 500)

-- The error type is empty where it is left out.
abbrev pub end_attributes : Context → Context
end_attributes c =
    let s = c.response.status in
    let attrs = span_attributes s (bound_errs_code c.errors) (server_error_type s) in
    tell attrs (if is_server_error s then tell span_failed c else c)

-- A deferred call, at a return and at a panic.
abbrev pub deferred : (Context → Context) → Ending → Ending
deferred f (returns c) = returns (f c)
deferred f (panics c) = panics (f c)

-- What follows the call of the rest of the chain.
abbrev pub then_do : (Context → Context) → Ending → Ending
then_do f (returns c) = returns (f c)
then_do f (panics c) = panics c

unfoldable pub tracing : Chain → Chain
unfolding bound_errs_code server_error_type method span_name
tracing next c =
    let start = span_started (span_name (method c.request.method).0 c.request.route) in
    deferred (tell span_ended) (then_do end_attributes (next (tell start c)))

abbrev pub record_duration : Context → Context
record_duration c =
    let s = c.response.status in
    tell (measured s (bound_errs_code c.errors) (server_error_type s)) c

unfoldable pub measure : Chain → Chain
unfolding bound_errs_code server_error_type method scheme
measure next c =
    let m = (method c.request.method).0 in
    let s = scheme c.request.scheme in
    deferred (tell (active_down m s)) (then_do record_duration (next (tell (active_up m s) c)))

unfoldable pub level_of : ℕ → Level
level_of status = if ltb status 400 then info else if ltb status 500 then warn else error

-- `boundErrorValue`: a nil *Error is logged as a text; none is a panic of the value.
unfoldable pub bound_error_value : Err → Option LogValue
unfolding as_type slog_value
bound_error_value e = elim (as_type e) [
  | none ↦ slog_value e
  | some none ↦ some (LogValue.text (Err.plain (codes "nil *errs.Error")))
  | some (some _) ↦ slog_value e
]

abbrev both : Option LogValue → Option (List LogValue) → Option (List LogValue)
both none vs = none
both (some v) none = none
both (some v) (some vs) = some (v ∷ vs)

-- `boundErrorAttr`: the values of all bound errors.
unfoldable pub bound_error_values : List Err → Option (List LogValue)
unfolding bound_error_value
bound_error_values [] = some []
bound_error_values (e ∷ es) = both (bound_error_value e) (bound_error_values es)

abbrev pub log_line : Context → Option (List LogValue) → Ending
log_line c none = panics c
log_line c (some vs) = returns (tell (logged (level_of c.response.status) c.response.status vs) c)

abbrev pub and_log : Ending → Ending
and_log (panics c) = panics c
and_log (returns c) = log_line c (bound_error_values c.errors)

unfoldable pub logging : Chain → Chain
unfolding bound_error_values level_of
logging next c = and_log (next c)

-- `corsHeaders`.
unfoldable pub cors_headers : Headers → Headers
cors_headers [] = []
cors_headers ((n, v) ∷ hs) =
    let rest = cors_headers hs in
    if starts_with (to_lower n) (codes "access-control-") then (n, v) ∷ rest else rest

module _ (status_text : ℕ → Bytes) where
  abbrev pub replaced : Writer → Context → Context
  replaced no_writer c =
      let kept = record blank_response { headers = cors_headers c.response.headers } in
      write_problem status_text 500 [] none (record c { response = kept })
  replaced _ c = record c { response = record c.response { status = 500; writer = aborted_writer } }

  abbrev pub recovered : Context → Context
  recovered c =
      let c' = record c { hijack_handler = false; events = exception ∷ c.events } in
      tell panic_logged (record (replaced c.response.writer c') { aborted = true })

  abbrev pub recover : Ending → Ending
  recover (returns c) = returns c
  recover (panics c) = returns (recovered c)

  unfoldable pub recovery : Chain → Chain
  unfolding cors_headers write_problem
  recovery next c = recover (next c)

  -- `registerMiddleware`: the order of the stack.
  unfoldable pub stack : Bytes → Chain → Chain
  unfolding request_id tracing measure logging recovery
  stack fresh handler = request_id fresh (tracing (measure (logging (recovery handler))))
