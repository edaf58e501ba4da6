-- ===== src/Rest/Server/Stack/Report.antt =====
-- rest/server/middleware.go: what a request tells, and how a panic is answered.
use go_dev_sdk.Prelude.{
  ◌⊎◌, itoa, leb, Option-cases, ℕ, ◌≡◌, refl, ap, ◌∙◌, inl, inr, Bool, true, false, ◌||◌,
  Bool-cases, List, [], ◌∷◌, ◌++◌, Option, none, some, Bytes, codes, eq_bytes, eq_bytes_self,
  starts_with, to_lower, arith, All, if◌then◌else◌,
}
use go_dev_sdk.Prelude.Int.{ℤ}
use go_dev_sdk.Errs.{Err, LogValue}
use go_dev_sdk.Rest.Semconv.{errs_code, method, span_name, scheme, server_error_type}
use go_dev_sdk.Rest.Server.{
  Level, info, warn, error, Context, Headers, Event, span_started, span_attributes, span_failed,
  span_ended, exception, panic_logged, active_up, active_down, measured, logged, Ending, returns,
  panics, Chain, tell, set_header, remove_header, Writer, no_writer, problem_body,
}
use go_dev_sdk.Rest.Server.Respond.{id_header, problem_title, write_problem}
use go_dev_sdk.Rest.Server.Middleware.{
  request_id, tracing, measure, logging, and_log, level_of, deferred, then_do, end_attributes,
  record_duration, is_server_error, recover, replaced, recovered, recovery, bound_errs_code,
  bound_error_values, stack, cors_headers,
}
use go_dev_sdk.Rest.Server.Stack.{
  header, entered, left_by, panicked, writer_cases, recovered_errors, header-set_header,
}

-- The code of the first bound error that has one: those before it have none.
abbrev pub IsFirstCode : List Err → Option ℤ → Type 0
IsFirstCode [] code = code ≡ none
IsFirstCode (e ∷ es) code =
    ((k : ℤ) × (errs_code e ≡ some k) × (code ≡ some k))
    ⊎ ((errs_code e ≡ none) × IsFirstCode es code)

bound_errs_code-IsFirstCode : (es : List Err) → IsFirstCode es (bound_errs_code es)
unfolding bound_errs_code
bound_errs_code-IsFirstCode [] = refl
bound_errs_code-IsFirstCode (e ∷ es) = elim (Option-cases (errs_code e)) [
  | inl n ↦ rw (n, bound_errs_code) (inr (refl, bound_errs_code-IsFirstCode es))
  | inr (k, s) ↦ rw (s, bound_errs_code) (inl (k, refl, refl))
]

-- Events from the middlewares at the end of a request, the last one first.
abbrev pub failure : ℕ → List Event
failure status = if leb 500 status then span_failed ∷ [] else []

-- The error type of a status, which is empty below 500, and the level of its line.
abbrev pub type_of : ℕ → Bytes
type_of status = if leb 500 status then itoa status else []

abbrev pub severity : ℕ → Level
severity status = if leb 500 status then error else if leb 400 status then warn else info

server_error_type-type_of : (status : ℕ) → server_error_type status ≡ type_of status
unfolding server_error_type
server_error_type-type_of status = ground arith

level_of-severity : (status : ℕ) → level_of status ≡ severity status
unfolding level_of
level_of-severity status = ground arith

abbrev pub panic_events : Bool → List Event
panic_events true = panic_logged ∷ exception ∷ []
panic_events false = []

-- What is told of a request by its method, scheme, final status, code and logged errors, and whether it
-- panicked; given are the error type of the status, the level of its line, and whether the span fails.
abbrev pub telemetry_by :
    Bytes
    → Level
    → List Event
    → Bytes
    → Bytes
    → ℕ
    → Option ℤ
    → List LogValue
    → List Event
    → List Event
telemetry_by kind level fails m s status code vs before =
    span_ended
    ∷ span_attributes status code kind
    ∷ (fails ++ (active_down m s ∷ measured status code kind ∷ logged level status vs ∷ before))

abbrev pub telemetry : Bytes → Bytes → ℕ → Option ℤ → List LogValue → List Event → List Event
telemetry m s status code vs before =
    telemetry_by (type_of status) (severity status) (failure status) m s status code vs before

-- The same as the middlewares compute it.
abbrev fails_of : ℕ → List Event
fails_of status = if is_server_error status then span_failed ∷ [] else []

abbrev computed : Bytes → Bytes → ℕ → Option ℤ → List LogValue → List Event → List Event
computed m s status code vs before =
    telemetry_by (server_error_type status) (level_of status) (fails_of status) m s status code vs
      before

fails_of-failure : (status : ℕ) → fails_of status ≡ failure status
fails_of-failure status = ground arith

computed-telemetry :
    (m s : Bytes) (status : ℕ) (code : Option ℤ) (vs : List LogValue) (before : List Event)
    → computed m s status code vs before ≡ telemetry m s status code vs before
computed-telemetry m s status code vs before =
    ap (λ (t : Bytes). telemetry_by t (level_of status) (fails_of status) m s status code vs before)
      (server_error_type-type_of status)
    ∙ ap
        (λ (k : Level). telemetry_by (type_of status) k (fails_of status) m s status code vs before)
        (level_of-severity status)
    ∙ ap
        (λ (l : List Event).
          telemetry_by (type_of status) (severity status) l m s status code vs before)
        (fails_of-failure status)

ended :
    (x : Context)
    → end_attributes x ≡ record x {
      events =
          span_attributes x.response.status
            (bound_errs_code x.errors)
            (server_error_type x.response.status)
          ∷ (fails_of x.response.status ++ x.events);
    }
ended x = elim (Bool-cases (is_server_error x.response.status)) [
  | inl e ↦ rw e refl
  | inr e ↦ rw e refl
]

-- The layers outside of recovery, around a response that was given.
around : Bytes → Bytes → Ending → Ending
around m s e = deferred (tell span_ended) (
    then_do end_attributes
      (deferred (tell (active_down m s)) (then_do record_duration (and_log e))))

around_returns :
    (m s : Bytes) (x : Context) (vs : List LogValue)
    → bound_error_values x.errors ≡ some vs
    → around m s (returns x)
      ≡ returns (record x {
        events = computed m s x.response.status (bound_errs_code x.errors) vs x.events;
      })
unfolding around
around_returns m s x vs e = rw e (ap (λ (y : Context). returns (tell span_ended y)) (ended _))

-- The headers that an answer to a panic may have.
abbrev pub IsKept : Bytes × Bytes → Type 0
IsKept (n, v) = (eq_bytes n id_header || starts_with (to_lower n) (codes "access-control-")) ≡ true

remove-AllKept : (k : Bytes) (hs : Headers) → All IsKept hs → All IsKept (remove_header k hs)
unfolding remove_header
remove-AllKept k [] h = tt
remove-AllKept k ((n, v) ∷ hs) h = elim (Bool-cases (eq_bytes n k)) [
  | inl e ↦ rw (e, remove_header) (remove-AllKept k hs h.1)
  | inr e ↦ rw (e, remove_header) (h.0, remove-AllKept k hs h.1)
]

cors-AllKept : (hs : Headers) → All IsKept (cors_headers hs)
unfolding cors_headers
cors-AllKept [] = tt
cors-AllKept ((n, v) ∷ hs) =
    elim (Bool-cases (starts_with (to_lower n) (codes "access-control-"))) [
      | inl e ↦ rw (e, cors_headers) (ground (arith, e), cors-AllKept hs)
      | inr e ↦ rw (e, cors_headers) (cors-AllKept hs)
    ]

module _ (status_text : ℕ → Bytes) where
  recovered_events :
      (d : Context) → (recovered status_text d).events ≡ panic_logged ∷ exception ∷ d.events
  unfolding write_problem
  recovered_events d = elim (writer_cases d.response.writer) [
    | inl e ↦ rw e refl
    | inr (inl e) ↦ rw e refl
    | inr (inr e) ↦ rw e refl
  ]

  recover_returns :
      (e : Ending) (vs : List LogValue)
      → bound_error_values (left_by e).errors ≡ some vs
      → (x : Context) × (recover status_text e ≡ returns x)
        × (bound_error_values x.errors ≡ some vs)
        × (x.events ≡ panic_events (panicked e) ++ (left_by e).events)
  recover_returns (returns d) vs h = (d, refl, h, refl)
  recover_returns (panics d) vs h = (
    recovered status_text d,
    refl,
    ap bound_error_values (recovered_errors status_text d) ∙ h,
    recovered_events d,
  )

  -- Of a request whose handler tells nothing itself, and whose bound errors can be logged, the stack
  -- tells, whether the handler returns or panics: one span, started and ended, with the final status
  -- and the first code of a bound error, failed exactly for a status of 500 or more; one request less
  -- active after one more; one duration and one log line with the same status; and, of a panic, the
  -- exception and its line.
  pub stack-telemetry :
      (fresh : Bytes) (h : Chain) (c : Context) (vs : List LogValue)
      → (left_by (h (entered fresh c))).events ≡ (entered fresh c).events
      → bound_error_values (left_by (h (entered fresh c))).errors ≡ some vs
      → let m = (method c.request.method).0 in
        let s = scheme c.request.scheme in
        (d : Context) × (code : Option ℤ) × (stack status_text fresh h c ≡ returns d)
        × IsFirstCode d.errors code
        × (d.events
            ≡ telemetry m s d.response.status code vs (
                panic_events (panicked (h (entered fresh c)))
                ++ (active_up m s ∷ span_started (span_name m c.request.route) ∷ c.events)))
  unfolding stack request_id tracing measure logging recovery around
  stack-telemetry fresh h c vs quiet log =
      let m = (method c.request.method).0 in
      let s = scheme c.request.scheme in
      let (x, back, can_log, told) = recover_returns (h (entered fresh c)) vs log in
      (
        record x { events = computed m s x.response.status (bound_errs_code x.errors) vs x.events },
        bound_errs_code x.errors,
        ap (around m s) back ∙ around_returns m s x vs can_log,
        bound_errs_code-IsFirstCode x.errors,
        computed-telemetry m s x.response.status (bound_errs_code x.errors) vs x.events
            ∙ ap (telemetry m s x.response.status (bound_errs_code x.errors) vs) (
                told
                ∙ ap (λ (l : List Event). panic_events (panicked (h (entered fresh c))) ++ l)
                    quiet),
      )

  -- The context that recovery leaves for a writer.
  abbrev answered : Writer → Context → Context
  answered w d =
      tell panic_logged
        (record (replaced status_text w
          (record d { hijack_handler = false; events = exception ∷ d.events })) { aborted = true })

  -- A panic before anything is streamed is answered, if the bound errors can be logged, by a 500 problem
  -- with the request ID and without a detail or a code, whatever the handler had set; of the headers
  -- only those of CORS stay beside the request ID, the chain is aborted, and no hijack handler is left.
  pub stack-panic :
      (fresh : Bytes) (h : Chain) (c d : Context) (vs : List LogValue)
      → h (entered fresh c) ≡ panics d
      → d.response.writer ≡ no_writer
      → bound_error_values d.errors ≡ some vs
      → (a : Context) × (stack status_text fresh h c ≡ returns a)
        × (a.response.status ≡ 500)
        × (a.response.body
            ≡ problem_body (record {
              title = problem_title status_text 500;
              status = 500;
              detail = [];
              code = none;
              request_id = d.stored_id;
            }))
        × (header id_header a.response.headers ≡ some d.stored_id)
        × All IsKept a.response.headers
        × (a.aborted ≡ true)
        × (a.hijack_handler ≡ false)
  unfolding stack request_id tracing measure logging recovery around write_problem set_header
  stack-panic fresh h c d vs ends plain_response log =
      let m = (method c.request.method).0 in
      let s = scheme c.request.scheme in
      let y = answered no_writer d in
      let same : recovered status_text d ≡ y = ap (λ (w : Writer). answered w d) plain_response in
      (
        record y { events = computed m s y.response.status (bound_errs_code y.errors) vs y.events },
        ap (λ (e : Ending). around m s (recover status_text e)) ends
            ∙ ap (λ (x : Context). around m s (returns x)) same
            ∙ around_returns m s y vs log,
        refl,
        refl,
        header-set_header id_header d.stored_id (cors_headers d.response.headers),
        (
          ground (arith, eq_bytes_self id_header),
          remove-AllKept id_header _ (cors-AllKept d.response.headers),
        ),
        refl,
        refl,
      )
