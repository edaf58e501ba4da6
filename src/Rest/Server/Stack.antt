-- ===== src/Rest/Server/Stack.antt =====
-- rest/server/middleware.go: what the standard stack guarantees whatever the handler does.
pub mod Report
use go_dev_sdk.Prelude.{
  ℕ, ◌≡◌, ◌⊎◌, refl, sym, ap, ◌∙◌, inl, inr, Bool, true, false, ◌||◌, Bool-cases, List, [], ◌∷◌,
  ◌++◌, Option, none, some, Option-cases, Bytes, is_empty, eq_bytes, eq_bytes_self, arith,
  if◌then◌else◌,
}
use go_dev_sdk.Errs.{Err, LogValue, as_type, as_err, Error, slog_value, log_value}
use go_dev_sdk.Errs.Laws.{ends_nil, is_none, log_value_panics}
use go_dev_sdk.Rest.Semconv.{method, span_name, scheme}
use go_dev_sdk.Rest.Server.{
  Context, Response, Headers, Event, span_started, active_up, Ending, returns, panics, Chain, tell,
  set_header, remove_header, Writer, no_writer, streaming, aborted_writer, Problem, problem_body,
}
use go_dev_sdk.Rest.Server.Respond.{id_header, problem_title, write_problem}
use go_dev_sdk.Rest.Server.Middleware.{
  valid_request_id, request_id, tracing, measure, logging, and_log, deferred, then_do, recover,
  recovered, recovery, bound_error_value, bound_error_values, stack, cors_headers,
}

abbrev pub header : Bytes → Headers → Option Bytes
header k [] = none
header k ((n, v) ∷ hs) = let rest = header k hs in if eq_bytes n k then some v else rest

pub header-set_header : (k v : Bytes) (hs : Headers) → header k (set_header k v hs) ≡ some v
unfolding set_header
header-set_header k v hs = ground (arith, eq_bytes_self k)

-- The context that requestID hands on.
abbrev pub identified : Bytes → Context → Context
identified id c = record c {
  stored_id = id;
  response = record c.response { headers = set_header id_header id c.response.headers };
}

-- The rest of the chain gets a valid ID: the incoming one exactly if that is valid, and the same in the
-- context as in the header of the response.
pub request_id-gives :
    (fresh : Bytes) (next : Chain) (c : Context)
    → valid_request_id fresh ≡ true
    → (id : Bytes) × (request_id fresh next c ≡ next (identified id c))
      × (valid_request_id id ≡ true)
      × (header id_header (identified id c).response.headers ≡ some id)
      × ((id ≡ c.request.request_id) ⊎ (valid_request_id c.request.request_id ≡ false))
unfolding request_id
request_id-gives fresh next c ok = elim (Bool-cases (valid_request_id c.request.request_id)) [
  | inl v ↦ (
    c.request.request_id,
    rw (v, request_id) refl,
    v,
    header-set_header id_header c.request.request_id c.response.headers,
    inl refl,
  )
  | inr v ↦ (
    fresh,
    rw (v, request_id) refl,
    ok,
    header-set_header id_header fresh c.response.headers,
    inr v,
  )
]

-- What the handler gets, and the context that it leaves.
abbrev pub chosen : Bytes → Context → Bytes
chosen fresh c = if valid_request_id c.request.request_id then c.request.request_id else fresh

abbrev pub entered : Bytes → Context → Context
entered fresh c =
    let m = (method c.request.method).0 in
    tell (active_up m (scheme c.request.scheme))
      (tell (span_started (span_name m c.request.route)) (identified (chosen fresh c) c))

abbrev pub left_by : Ending → Context
left_by (returns c) = c
left_by (panics c) = c

abbrev pub panicked : Ending → Bool
panicked (returns _) = false
panicked (panics _) = true

-- The first *Error of the tree is not nil, and its direct causes end in a nil one, or in a join of one.
abbrev pub hides_nil : Option (Option Error) → Bool
hides_nil none = false
hides_nil (some none) = false
hides_nil (some (some e)) = ends_nil (as_err e)

abbrev pub any_hides_nil : List Err → Bool
any_hides_nil [] = false
any_hides_nil (e ∷ es) = hides_nil (as_type e) || any_hides_nil es

slog_none : (e : Err) → as_type e ≡ none → is_none (slog_value e) ≡ false
unfolding slog_value
slog_none e n = rw (n, slog_value) refl

slog_some :
    (e : Err) (x : Error) → as_type e ≡ some (some x) → is_none (slog_value e) ≡ ends_nil (as_err x)
unfolding slog_value
slog_some e x n = rw (n, slog_value) (log_value_panics (as_err x))

value_panics : (e : Err) → is_none (bound_error_value e) ≡ hides_nil (as_type e)
unfolding bound_error_value
value_panics e = elim (Option-cases (as_type e)) [
  | inl n ↦ rw (n, bound_error_value) (slog_none e n)
  | inr (found, s) ↦ elim (Option-cases found) [
    | inl n ↦ let nil : as_type e ≡ some none = s ∙ ap some n in rw (nil, bound_error_value) refl
    | inr (x, n) ↦
        let here : as_type e ≡ some (some x) = s ∙ ap some n in
        rw (here, bound_error_value) (slog_some e x here)
  ]
]

values_panic : (es : List Err) → is_none (bound_error_values es) ≡ any_hides_nil es
unfolding bound_error_values
values_panic [] = refl
values_panic (e ∷ es) = ground (arith, value_panics e, values_panic es)

panicked-deferred : (f : Context → Context) (e : Ending) → panicked (deferred f e) ≡ panicked e
panicked-deferred f (returns c) = refl
panicked-deferred f (panics c) = refl

panicked-then_do : (f : Context → Context) (e : Ending) → panicked (then_do f e) ≡ panicked e
panicked-then_do f (returns c) = refl
panicked-then_do f (panics c) = refl

log_line_panics :
    (c : Context) → panicked (and_log (returns c)) ≡ is_none (bound_error_values c.errors)
log_line_panics c = elim (Option-cases (bound_error_values c.errors)) [
  | inl e ↦ rw e refl
  | inr (vs, e) ↦ rw e refl
]

writer_cases : (w : Writer) → (w ≡ no_writer) ⊎ (w ≡ streaming) ⊎ (w ≡ aborted_writer)
writer_cases no_writer = inl refl
writer_cases streaming = inr (inl refl)
writer_cases aborted_writer = inr (inr refl)

module _ (status_text : ℕ → Bytes) where
  recovered_errors : (c : Context) → (recovered status_text c).errors ≡ c.errors
  unfolding write_problem
  recovered_errors c = elim (writer_cases c.response.writer) [
    | inl e ↦ rw e refl
    | inr (inl e) ↦ rw e refl
    | inr (inr e) ↦ rw e refl
  ]

  logged_panics :
      (e : Ending) → panicked (and_log (recover status_text e)) ≡ any_hides_nil (left_by e).errors
  logged_panics (returns d) = log_line_panics d ∙ values_panic d.errors
  logged_panics (panics d) =
      log_line_panics (recovered status_text d)
      ∙ values_panic (recovered status_text d).errors
      ∙ ap any_hides_nil (recovered_errors d)

  -- The stack panics exactly if the handler, however it ended, left a bound error whose log value
  -- panics: one whose first *Error is not nil, while its direct causes end in a nil one, or in an
  -- errors.Join that holds a nil one, maybe through more joins.
  pub stack_panics :
      (fresh : Bytes) (h : Chain) (c : Context)
      → panicked (stack status_text fresh h c)
        ≡ any_hides_nil (left_by (h (entered fresh c))).errors
  unfolding stack request_id tracing measure logging recovery
  stack_panics fresh h c =
      panicked-deferred _ _
      ∙ panicked-then_do _ _
      ∙ panicked-deferred _ _
      ∙ panicked-then_do _ _
      ∙ logged_panics (h (entered fresh c))
