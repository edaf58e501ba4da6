-- ===== src/Rest/Call/Told.antt =====
-- rest/client/middleware.go: how often a call tells what.
use go_dev_sdk.Prelude.{
  leb, zero, ◌<◌, ◌⊎◌, ◌||◌, Option-cases, ℕ, suc, ◌+◌, ◌≤◌, ◌≡◌, refl, inl, inr, Bool, true, false,
  not, Bool-cases, List, [], ◌∷◌, Option, length, is_empty, arith,
}
use go_dev_sdk.Prelude.Int.{ℤ}
use go_dev_sdk.Rest.Redaction.{is_sendable}
use go_dev_sdk.Rest.Attempt.{Result, responded, failed, World, State, deadline, attempt_outcome}
use go_dev_sdk.Rest.Attempt.Laws.{deadline-bounds}
use go_dev_sdk.Rest.Retry.{retryable, retry_delay}
use go_dev_sdk.Rest.Call.{
  Client, retries, retry, read_result, Request, Line, Event, span_started, span_set, span_failed,
  span_ended, measured, logged_debug, logged_warn, Told, time_bound, url_error, tracing, measure,
  log_call, logging, attempt, call, log_level, log_end,
}

abbrev pub of_bool : Bool → ℕ
of_bool true = 1
of_bool false = 0

abbrev pub total : (Event → ℕ) → List Event → ℕ
total weight [] = 0
total weight (e ∷ l) = weight e + total weight l

abbrev pub started : Event → ℕ
started (span_started _) = 1
started (span_set _) = 0
started span_failed = 0
started span_ended = 0
started (measured _ _) = 0
started (logged_debug _) = 0
started (logged_warn _) = 0

abbrev pub ended : Event → ℕ
ended (span_started _) = 0
ended (span_set _) = 0
ended span_failed = 0
ended span_ended = 1
ended (measured _ _) = 0
ended (logged_debug _) = 0
ended (logged_warn _) = 0

abbrev pub failing : Event → ℕ
failing (span_started _) = 0
failing (span_set _) = 0
failing span_failed = 1
failing span_ended = 0
failing (measured _ _) = 0
failing (logged_debug _) = 0
failing (logged_warn _) = 0

abbrev pub measures : Event → ℕ
measures (span_started _) = 0
measures (span_set _) = 0
measures span_failed = 0
measures span_ended = 0
measures (measured _ _) = 1
measures (logged_debug _) = 0
measures (logged_warn _) = 0

-- A measurement with an error type.
abbrev pub measured_failing : Event → ℕ
measured_failing (span_started _) = 0
measured_failing (span_set _) = 0
measured_failing span_failed = 0
measured_failing span_ended = 0
measured_failing (measured _ o) = of_bool (not (is_empty o.err_type))
measured_failing (logged_debug _) = 0
measured_failing (logged_warn _) = 0

abbrev pub logs : Event → ℕ
logs (span_started _) = 0
logs (span_set _) = 0
logs span_failed = 0
logs span_ended = 0
logs (measured _ _) = 0
logs (logged_debug _) = 1
logs (logged_warn _) = 1

-- After n attempts: as many spans, all ended, and measurements; the spans failed are as many as the
-- measurements with an error type; nothing is logged; and of the attempts those count that were sent.
pub record IsTelling (n : ℕ) (before : List ℤ) (s : State) (l : List Event) : Type 0 where
  pub starts : total started l ≡ n
  pub ends : total ended l ≡ n
  pub measurements : total measures l ≡ n
  pub failures : total failing l ≡ total measured_failing l
  pub no_line : total logs l ≡ 0
  pub sent : length s.sent_with ≡ s.attempts + length before
  pub few : s.attempts ≤ n

-- A result is told at warning level exactly if it is an error or a status of 400 or more.
abbrev pub IsBad : Result → Type 0
IsBad (failed _) = Unit
IsBad (responded r) = 400 ≤ r.status

abbrev pub IsFine : Result → Type 0
IsFine (failed _) = ⊥
IsFine (responded r) = r.status < 400

abbrev pub IsLine : Result → Line → Event → Type 0
IsLine r line e = ((e ≡ logged_warn line) × IsBad r) ⊎ ((e ≡ logged_debug line) × IsFine r)

log_level-IsLine : (r : Result) (line : Line) → IsLine r line (log_level r line)
log_level-IsLine (failed e) line = inl (refl, tt)
log_level-IsLine (responded r) line = elim (Bool-cases (leb 400 r.status)) [
  | inl e ↦ rw e (inl (refl, ground (arith, e)))
  | inr e ↦ rw e (inr (refl, ground (arith, e)))
]

-- What `log_call` adds to what n attempts told: one line with the result and the count of the attempts
-- that were sent.
abbrev pub IsTold : ℕ → List ℤ → Told → Type 0
IsTold n before told =
    (line : Line) × (e : Event) × (l : List Event) × (told.2 ≡ e ∷ l)
    × IsLine told.0 line e
    × (line.result ≡ told.0)
    × (line.attempts ≡ told.1.attempts)
    × IsTelling n before told.1 l

module _ (x : Client) where
  deadline-sent :
      (w : World) (s : State) (k : ℕ)
      → length s.sent_with ≡ s.attempts + k
      → (length (deadline x.timed_out x.attempt_limit w s).1.sent_with
          ≡ (deadline x.timed_out x.attempt_limit w s).1.attempts + k)
        × ((deadline x.timed_out x.attempt_limit w s).1.attempts ≤ suc s.attempts)
  deadline-sent w s k h = elim (deadline-bounds x.timed_out x.attempt_limit w s) [
    | inl same ↦ rw same (h, omega arith)
    | inr (d, one, more, option, positive, low, within) ↦
        rw (one, more) (omega (arith, h), omega arith)
  ]

  pub attempt-IsTelling :
      (q : Request) (w : World) (n : ℕ) (before : List ℤ) (s : State) (l : List Event)
      → IsTelling n before s l
      → IsTelling (suc n) before (attempt x q w s l).1 (attempt x q w s l).2
  unfolding attempt tracing measure
  attempt-IsTelling q w n before s l h =
      let e = deadline-sent w s (length before) h.sent in
      let o = (attempt_outcome (deadline x.timed_out x.attempt_limit w s).0).err_type in
      elim (Bool-cases (is_empty o)) [
        | inl f ↦ rw f (record {
          starts = omega (arith, h.starts);
          ends = omega (arith, h.ends);
          measurements = omega (arith, h.measurements);
          failures = rw f (omega (arith, h.failures));
          no_line = omega (arith, h.no_line);
          sent = e.0;
          few = omega (arith, h.few, e.1);
        })
        | inr f ↦ rw f (record {
          starts = omega (arith, h.starts);
          ends = omega (arith, h.ends);
          measurements = omega (arith, h.measurements);
          failures = rw f (omega (arith, h.failures));
          no_line = omega (arith, h.no_line);
          sent = e.0;
          few = omega (arith, h.few, e.1);
        })
      ]

  -- From attempt n on, j more attempts after k.
  abbrev Retried : ℕ → ℕ → List ℤ → Told → Type 0
  Retried n k before t =
      (j : ℕ) × (1 ≤ j)
      × ((j + n ≤ suc x.call.max_attempts) ⊎ (j ≡ 1))
      × IsTelling (k + j) before t.1 t.2

  once :
      (n k : ℕ) (before : List ℤ) (t : Told)
      → IsTelling (suc k) before t.1 t.2
      → Retried n k before t
  once n k before t h =
      let same : k + 1 ≡ suc k = omega arith in (1, omega arith, inr refl, rw same h)

  -- One more attempt before those.
  once_more :
      (n k : ℕ) (before : List ℤ) (t : Told)
      → n < x.call.max_attempts
      → Retried (suc n) (suc k) before t
      → Retried n k before t
  once_more n k before t lt (j, low, high, h) =
      let same : k + suc j ≡ suc k + j = omega arith in
      (
        suc j,
        omega arith,
        inl (elim high [ inl le ↦ omega (arith, le) | inr e ↦ omega (arith, e, lt) ]),
        rw same h,
      )

  retries-Retried :
      (q : Request) (ws : ℕ → World) (left n k : ℕ) (before : List ℤ) (s : State) (l : List Event)
      → IsTelling k before s l
      → Retried n k before (retries x q ws left n s l)
  unfolding retries
  retries-Retried q ws zero n k before s l h =
      once n k before (attempt x q (ws n) s l) (attempt-IsTelling q (ws n) k before s l h)
  retries-Retried q ws (suc left) n k before s l h =
      let t = attempt x q (ws n) s l in
      let told = attempt-IsTelling q (ws n) k before s l h in
      elim (Bool-cases (leb x.call.max_attempts n || x.call.context_done n)) [
        | inl stop ↦ rw (stop, retries) (once n k before t told)
        | inr go ↦ elim (Option-cases (retry_delay x.call n (read_result x n t.0))) [
          | inl final ↦ rw (go, final, retries) (once n k before t told)
          | inr (d, again) ↦ elim (Option-cases (x.call.wait_err n d)) [
            | inl slept ↦
                rw (go, again, slept, retries)
                  (once_more n k before (retries x q ws left (suc n) t.1 t.2) (ground (arith, go))
                    (retries-Retried q ws left (suc n) (suc k) before t.1 t.2 told))
            | inr (e, woken) ↦
                rw (go, again, woken, retries) (once n k before (failed (x.woken e), t.1, t.2) told)
          ]
        ]
      ]

  retry-Retried :
      (q : Request) (ws : ℕ → World) (k : ℕ) (before : List ℤ) (s : State) (l : List Event)
      → IsTelling k before s l
      → Retried 1 k before (retry x q ws s l)
  unfolding retry
  retry-Retried q ws k before s l h = elim (Bool-cases (retryable q.sent)) [
    | inl e ↦ rw (e, retry) (retries-Retried q ws x.call.max_attempts 1 k before s l h)
    | inr e ↦
        rw (e, retry)
          (once 1 k before (attempt x q (ws 1) s l) (attempt-IsTelling q (ws 1) k before s l h))
  ]

  log_end-IsTold :
      (q : Request) (t : Told) (n : ℕ) (before : List ℤ)
      → IsTelling n before t.1 t.2
      → IsTold n before (log_end x q t)
  unfolding log_call
  log_end-IsTold q t n before h = (_, _, _, refl, log_level-IsLine t.0 _, refl, refl, h)

  pub fresh-IsTelling : (s : State) → IsTelling 0 s.sent_with (record s { attempts = 0 }) []
  fresh-IsTelling s = record {
    starts = refl;
    ends = refl;
    measurements = refl;
    failures = refl;
    no_line = refl;
    sent = omega arith;
    few = omega arith;
  }

  -- A call writes one log line, at its end, with the result that it returns: a warning exactly if that is
  -- an error or a status of 400 or more. Before it each attempt has told one span, which started and
  -- ended, and one measurement, and as many spans have failed as measurements have an error type. There
  -- is at least one attempt and, unless that is the only one, at most MaxAttempts, or none where the URL
  -- cannot be sent. The line counts the attempts that were sent, and no other.
  pub call-IsTold :
      (worlds : ℤ → ℕ → World) (left : Option ℤ) (q : Request) (s : State)
      → (n : ℕ) × (((is_sendable q.uri ≡ true) × (1 ≤ n) × ((n ≤ x.call.max_attempts) ⊎ (n ≡ 1)))
          ⊎ ((is_sendable q.uri ≡ false) × (n ≡ 0)))
        × IsTold n s.sent_with (call x worlds left q s [])
  unfolding call logging
  call-IsTold worlds left q s =
      let ws = worlds (time_bound s.timeout_option left x.timeout) in
      let fresh = record s { attempts = 0 } in
      let (j, low, high, h) = retry-Retried q ws 0 s.sent_with fresh [] (fresh-IsTelling s) in
      let same : 0 + j ≡ j = omega arith in
      elim (Bool-cases (is_sendable q.uri)) [
        | inl e ↦ (
          j,
          inl (e, low, elim high [ inl le ↦ inl (omega (arith, le)) | inr one ↦ inr one ]),
          rw (e, call) (log_end-IsTold q (retry x q ws fresh []) j s.sent_with (rw same at h)),
        )
        | inr e ↦ (
          0,
          inr (e, refl),
          rw (e, call)
              (log_end-IsTold q (failed url_error, fresh, []) 0 s.sent_with (fresh-IsTelling s)),
        )
      ]
