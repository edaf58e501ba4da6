-- ===== src/Cron/Chain.antt =====
-- cron/engine/middleware.go: the middleware chain of one run. A handler takes the run's state to an
-- outcome and a new state; the events are what the chain tells its collaborators, the last one first.
-- What the toggler, the locker and the job's handler do in this run is given by their answers. The
-- texts of log lines, times and trace identifiers are left out. The set of the names in flight is never
-- nil here: the engine always passes its own.
pub mod Admission
pub mod Release
pub mod Report
use go_dev_sdk.Prelude.{
  ℕ, suc, ◌+◌, ◌-◌, ltb, Bool, true, false, ◌||◌, List, [], ◌∷◌, ◌++◌, Option, none, some, Bytes,
  codes, eq_bytes, is_empty, if◌then◌else◌,
}
use go_dev_sdk.Prelude.Int.{ℤ, pos, negsuc}
use go_dev_sdk.Cron.Failure.{
  Err, sentinel, wrap, plain, job_running, job_disabled, lock_held, panic_recovered, is_err,
  is_skip, skip_reason, error_type,
}

-- A handler returns its error, nil or not, or panics.
pub data Outcome : Type 0 where
  returned : Option Err → Outcome
  panics : Outcome

pub data Event : Type 0 where
  span_started span_ended : Event
  span_skipped : Bytes → Event
  span_failed : Bytes → Event
  log_started log_completed : Event
  log_skipped log_failed : Err → Bytes → Event
  toggler_error : Err → Event
  measured : Option Bytes → Event
  lock_asked : Bytes → ℤ → Event
  locked : Event
  unlocked : Event
  unlock_error : Err → Event
  ran : Option Bytes → Event
  panic_logged : Event

-- The set of job names in flight, the fencing token in the run info, and the events.
pub record Run : Type 0 where
  pub in_flight : List Bytes
  pub fencing_token : Bytes
  pub events : List Event

abbrev pub emit : Event → Run → Run
emit v s = record s { events = v ∷ s.events }

pub data TogglerAnswer : Type 0 where
  enabled : Bool → TogglerAnswer
  toggler_failed : Err → TogglerAnswer
  toggler_panics : TogglerAnswer

pub data UnlockAnswer : Type 0 where
  unlock_done : UnlockAnswer
  unlock_failed : Err → UnlockAnswer
  unlock_panics : UnlockAnswer

-- The answer to Lock: a token, with what its FencingToken (none for a panic) and Unlock do.
pub data LockAnswer : Type 0 where
  lock_failed : Err → LockAnswer
  no_token : LockAnswer
  token : Option Bytes → UnlockAnswer → LockAnswer
  lock_panics : LockAnswer

-- `meta`, with nil collaborators as none. The handler sees the fencing token of its context.
pub record Meta : Type 0 where
  pub name : Bytes
  pub timeout : ℤ
  pub toggler : Option TogglerAnswer
  pub locker : Option LockAnswer
  pub handler : Option Bytes → Outcome

-- A `HandlerFunc`, from the fencing token of its context.
abbrev pub Handler : Type 0
Handler = Option Bytes → Run → Outcome × Run

abbrev pub call_handler : Meta → Handler
call_handler m fence s = (m.handler fence, emit (ran fence) s)

-- What a middleware does after `next`: with the error that it returns, or when a panic passes.
abbrev pub after : (Option Err → Run → Outcome × Run) → (Run → Run) → Outcome × Run → Outcome × Run
after on_return on_panic (returned e, s) = on_return e s
after on_return on_panic (panics, s) = (panics, on_panic s)

abbrev pub recover : Outcome × Run → Outcome × Run
recover (returned e, s) = (returned e, s)
recover (panics, s) = (returned (some (wrap [] (sentinel panic_recovered))), emit panic_logged s)

unfoldable pub panic_recovery : Handler → Handler
panic_recovery next fence s = recover (next fence s)

abbrev trace_failure : Err → Option Bytes → Run → Run
trace_failure e none s = emit (span_failed (error_type e)) s
trace_failure e (some reason) s = emit (span_skipped reason) s

abbrev trace_result : Option Err → Run → Run
trace_result none s = s
trace_result (some e) s = trace_failure e (skip_reason e) s

-- `defer span.End()` stands before the call.
unfoldable pub tracer_mw : Handler → Handler
tracer_mw next fence s =
    after (λ e s'. (returned e, emit span_ended (trace_result e s'))) (emit span_ended)
      (next fence (emit span_started s))

abbrev pub member : Bytes → List Bytes → Bool
member n [] = false
member n (m ∷ ms) = eq_bytes n m || member n ms

abbrev pub remove : Bytes → List Bytes → List Bytes
remove n [] = []
remove n (m ∷ ms) = let rest = remove n ms in if eq_bytes n m then rest else m ∷ rest

abbrev pub leave : Meta → Run → Run
leave m s = record s { in_flight = remove m.name s.in_flight }

unfoldable pub overlap_mw : Meta → Handler → Handler
overlap_mw m next fence s =
    if member m.name s.in_flight
    then (returned (some (sentinel job_running)), s)
    else after (λ e s'. (returned e, leave m s')) (leave m)
        (next fence (record s { in_flight = m.name ∷ s.in_flight }))

abbrev toggle : Handler → Option TogglerAnswer → Handler
toggle next none fence s = next fence s
toggle next (some (enabled true)) fence s = next fence s
toggle next (some (enabled false)) fence s = (returned (some (sentinel job_disabled)), s)
toggle next (some (toggler_failed e)) fence s = next fence (emit (toggler_error e) s)
toggle next (some toggler_panics) fence s = (panics, s)

unfoldable pub toggler_mw : Meta → Handler → Handler
toggler_mw m next = toggle next m.toggler

-- The measure of a returned error: none of a skip.
abbrev measure : Option Err → Run → Run
measure none s = emit (measured none) s
measure (some e) s = if is_skip e then s else emit (measured (some (error_type e))) s

unfoldable pub metrics_mw : Handler → Handler
metrics_mw next fence s = after (λ e s'. (returned e, measure e s')) (λ s'. s') (next fence s)

-- FixedLockTTLBuffer, 15 seconds, and the sum of a timeout and it.
abbrev pub lock_ttl_buffer : ℕ
lock_ttl_buffer = 15000000000

abbrev pub add_buffer : ℤ → ℤ
add_buffer (pos n) = pos (n + lock_ttl_buffer)
add_buffer (negsuc n) =
    if ltb n lock_ttl_buffer then pos (lock_ttl_buffer - suc n) else negsuc (n - lock_ttl_buffer)

-- The deferred call that releases the lock.
abbrev release : UnlockAnswer → Outcome × Run → Outcome × Run
release unlock_done (o, s) = (o, emit unlocked s)
release (unlock_failed e) (o, s) = (o, emit (unlock_error e) (emit unlocked s))
release unlock_panics (o, s) = (panics, emit unlocked s)

abbrev with_fence : Handler → Option Bytes → Run → Outcome × Run
with_fence next none s = (panics, s)
with_fence next (some f) s = next (some f) (record s { fencing_token = f })

abbrev lock : Handler → LockAnswer → Run → Outcome × Run
lock next (lock_failed e) s =
    if is_err e lock_held
    then (returned (some (sentinel lock_held)), s)
    else (returned (some (wrap (codes "cron: lock job") e)), s)
lock next no_token s = (returned (some (plain (codes "locker returned no token"))), s)
lock next (token f u) s = release u (with_fence next f (emit locked s))
lock next lock_panics s = (panics, s)

abbrev pub lock_key : Bytes → Bytes
lock_key name = codes "cron:lock:" ++ name

abbrev locking : Meta → Handler → Option LockAnswer → Handler
locking m next none fence s = next fence s
locking m next (some a) fence s =
    lock next a (emit (lock_asked (lock_key m.name) (add_buffer m.timeout)) s)

unfoldable pub locker_mw : Meta → Handler → Handler
locker_mw m next = locking m next m.locker

-- The last log line, with the fencing token of the run info.
abbrev log_result : Option Err → Run → Run
log_result none s = emit log_completed s
log_result (some e) s =
    if is_skip e
    then emit (log_skipped e s.fencing_token) s
    else emit (log_failed e s.fencing_token) s

unfoldable pub logger_mw : Handler → Handler
logger_mw next fence s =
    after (λ e s'. (returned e, log_result e s')) (λ s'. s')
      (next fence (record s { fencing_token = []; events = log_started ∷ s.events }))

unfoldable pub build_chain : Meta → Handler
build_chain m = tracer_mw (
    logger_mw
      (overlap_mw m (toggler_mw m (metrics_mw (locker_mw m (panic_recovery (call_handler m)))))))
