-- ===== src/Cron/Chain/Admission.antt =====
-- cron/engine/middleware.go: when a run calls the job's handler.
use go_dev_sdk.Prelude.{
  ◌≡◌, refl, inl, inr, true, false, Bool, Bool-cases, Option-cases, List, [], ◌∷◌, ◌++◌, ◌∙◌,
  Option, none, some, Bytes, arith, if◌then◌else◌,
}
use go_dev_sdk.Cron.Chain.{
  Outcome, returned, panics, Event, Run, Meta, Handler, emit, after, member, locked, unlocked,
  span_started, span_ended, span_skipped, span_failed, log_started, log_completed, log_skipped,
  log_failed, measured, TogglerAnswer, enabled, toggler_failed, toggler_panics, LockAnswer,
  lock_failed, no_token, token, lock_panics, UnlockAnswer, unlock_done, unlock_failed,
  unlock_panics, panic_recovery, tracer_mw, overlap_mw, toggler_mw, metrics_mw, locker_mw,
  logger_mw, build_chain, call_handler, recover, lock, toggle, release, trace_result, log_result,
  measure, ran, lock_asked, toggler_error, unlock_error, panic_logged,
}
use go_dev_sdk.Cron.Failure.{Err, skip_reason}

-- The handler's calls, by the fencing token in their context.
abbrev pub calls : List Event → List (Option Bytes)
calls [] = []
calls (ran f ∷ l) = f ∷ calls l
calls (span_started ∷ l) = calls l
calls (span_ended ∷ l) = calls l
calls (span_skipped _ ∷ l) = calls l
calls (span_failed _ ∷ l) = calls l
calls (log_started ∷ l) = calls l
calls (log_completed ∷ l) = calls l
calls (log_skipped _ _ ∷ l) = calls l
calls (log_failed _ _ ∷ l) = calls l
calls (measured _ ∷ l) = calls l
calls (toggler_error _ ∷ l) = calls l
calls (lock_asked _ _ ∷ l) = calls l
calls (locked ∷ l) = calls l
calls (unlocked ∷ l) = calls l
calls (unlock_error _ ∷ l) = calls l
calls (panic_logged ∷ l) = calls l

-- The toggler lets a run pass if it enables the job, fails, or is not there.
abbrev pub is_enabled : Option TogglerAnswer → Bool
is_enabled none = true
is_enabled (some (enabled b)) = b
is_enabled (some (toggler_failed _)) = true
is_enabled (some toggler_panics) = false

-- The locker lets it pass with the fencing token of the lock, or is not there.
abbrev pub with_lock : Option LockAnswer → Option Bytes → List (Option Bytes)
with_lock none fence = fence ∷ []
with_lock (some (token (some f) _)) fence = some f ∷ []
with_lock (some (token none _)) fence = []
with_lock (some (lock_failed _)) fence = []
with_lock (some no_token) fence = []
with_lock (some lock_panics) fence = []

abbrev pub admitted : Meta → Bool → Option Bytes → List (Option Bytes)
admitted m running fence =
    if running then [] else if is_enabled m.toggler then with_lock m.locker fence else []

abbrev CallsOf : List (Option Bytes) → Run → Outcome × Run → Type 0
CallsOf fs s r = calls r.1.events ≡ fs ++ calls s.events

abbrev Calls : (Option Bytes → List (Option Bytes)) → Handler → Type 0
Calls f h = (fence : Option Bytes) (s : Run) → CallsOf (f fence) s (h fence s)

abbrev once : Option Bytes → List (Option Bytes)
once fence = fence ∷ []

recover-Calls :
    (fs : List (Option Bytes)) (s : Run) (r : Outcome × Run)
    → CallsOf fs s r
    → CallsOf fs s (recover r)
recover-Calls fs s (returned e, t) h = h
recover-Calls fs s (panics, t) h = h

panic_recovery-Calls : (h : Handler) → Calls once h → Calls once (panic_recovery h)
unfolding panic_recovery
panic_recovery-Calls h q fence s = recover-Calls (once fence) s (h fence s) (q fence s)

release-Calls :
    (fs : List (Option Bytes)) (s : Run) (u : UnlockAnswer) (r : Outcome × Run)
    → CallsOf fs s r
    → CallsOf fs s (release u r)
release-Calls fs s unlock_done (o, t) h = h
release-Calls fs s (unlock_failed e) (o, t) h = h
release-Calls fs s unlock_panics (o, t) h = h

lock-Calls :
    (h : Handler)
    → Calls once h
    → (a : LockAnswer) (fence : Option Bytes) (s : Run)
    → CallsOf (with_lock (some a) fence) s (lock h a s)
lock-Calls h q (lock_failed e) fence s = ground arith
lock-Calls h q no_token fence s = refl
lock-Calls h q (token none u) fence s = release-Calls [] s u (panics, emit locked s) refl
lock-Calls h q (token (some f) u) fence s = release-Calls (some f ∷ []) s u _ (q (some f) _)
lock-Calls h q lock_panics fence s = refl

locker_mw-Calls :
    (m : Meta) (h : Handler) → Calls once h → Calls (with_lock m.locker) (locker_mw m h)
unfolding locker_mw
locker_mw-Calls m h q fence s = elim (Option-cases m.locker) [
  | inl e ↦ rw (e, locker_mw) (q fence s)
  | inr (a, e) ↦ rw (e, locker_mw) (lock-Calls h q a fence _)
]

after-Calls :
    (fs : List (Option Bytes)) (s : Run) (f : Option Err → Run → Outcome × Run) (g : Run → Run)
    (r : Outcome × Run)
    → ((e : Option Err) (t : Run) → calls (f e t).1.events ≡ calls t.events)
    → ((t : Run) → calls (g t).events ≡ calls t.events)
    → CallsOf fs s r
    → CallsOf fs s (after f g r)
after-Calls fs s f g (returned e, t) on_return on_panic h = on_return e t ∙ h
after-Calls fs s f g (panics, t) on_return on_panic h = on_panic t ∙ h

measure-calls : (e : Option Err) (t : Run) → calls (measure e t).events ≡ calls t.events
measure-calls none t = refl
measure-calls (some e) t = ground arith

metrics_mw-Calls :
    (f : Option Bytes → List (Option Bytes)) (h : Handler) → Calls f h → Calls f (metrics_mw h)
unfolding metrics_mw
metrics_mw-Calls f h q fence s =
    after-Calls (f fence) s _ _ (h fence s) measure-calls (λ t. refl) (q fence s)

toggle-Calls :
    (f : Option Bytes → List (Option Bytes)) (h : Handler)
    → Calls f h
    → (a : Option TogglerAnswer) (fence : Option Bytes) (s : Run)
    → CallsOf (if is_enabled a then f fence else []) s (toggle h a fence s)
toggle-Calls f h q none fence s = q fence s
toggle-Calls f h q (some (enabled true)) fence s = q fence s
toggle-Calls f h q (some (enabled false)) fence s = refl
toggle-Calls f h q (some (toggler_failed e)) fence s = q fence _
toggle-Calls f h q (some toggler_panics) fence s = refl

log_result-calls : (e : Option Err) (t : Run) → calls (log_result e t).events ≡ calls t.events
log_result-calls none t = refl
log_result-calls (some e) t = ground arith

trace_result-calls : (e : Option Err) (t : Run) → calls (trace_result e t).events ≡ calls t.events
trace_result-calls none t = refl
trace_result-calls (some e) t = elim (Option-cases (skip_reason e)) [
  | inl f ↦ rw f refl
  | inr (r, f) ↦ rw f refl
]

-- By the set of the names in flight, which the logger and the tracer pass on.
abbrev Admits : Meta → Handler → Type 0
Admits m h =
    (fence : Option Bytes) (s : Run)
    → CallsOf (admitted m (member m.name s.in_flight) fence) s (h fence s)

overlap_mw-Admits :
    (m : Meta) (h : Handler)
    → Calls (λ fence. if is_enabled m.toggler then with_lock m.locker fence else []) h
    → Admits m (overlap_mw m h)
unfolding overlap_mw
overlap_mw-Admits m h q fence s = elim (Bool-cases (member m.name s.in_flight)) [
  | inl e ↦ rw (e, overlap_mw) refl
  | inr e ↦
      rw (e, overlap_mw) (after-Calls _ s _ _ (h fence _) (λ o t. refl) (λ t. refl) (q fence _))
]

logger_mw-Admits : (m : Meta) (h : Handler) → Admits m h → Admits m (logger_mw h)
unfolding logger_mw
logger_mw-Admits m h q fence s =
    after-Calls (admitted m (member m.name s.in_flight) fence) s
      (λ e t. (returned e, log_result e t)) (λ t. t)
      (h fence (record s { fencing_token = []; events = log_started ∷ s.events })) log_result-calls
      (λ t. refl) (q fence _)

tracer_mw-Admits : (m : Meta) (h : Handler) → Admits m h → Admits m (tracer_mw h)
unfolding tracer_mw
tracer_mw-Admits m h q fence s =
    after-Calls (admitted m (member m.name s.in_flight) fence) s
      (λ e t. (returned e, emit span_ended (trace_result e t))) (emit span_ended)
      (h fence (emit span_started s)) trace_result-calls (λ t. refl) (q fence _)

toggler_mw-Calls :
    (m : Meta) (f : Option Bytes → List (Option Bytes)) (h : Handler)
    → Calls f h
    → Calls (λ fence. if is_enabled m.toggler then f fence else []) (toggler_mw m h)
unfolding toggler_mw
toggler_mw-Calls m f h q fence s = toggle-Calls f h q m.toggler fence s

call_handler-Calls : (m : Meta) → Calls once (call_handler m)
call_handler-Calls m fence s = refl

-- A run calls the job's handler at most once: exactly if the job is not in flight, the toggler enables
-- it, fails or is not there, and the locker gives a lock with its fencing token or is not there; and
-- with that token.
pub build_chain-admitted :
    (m : Meta) (fence : Option Bytes) (s : Run)
    → calls (build_chain m fence s).1.events
      ≡ admitted m (member m.name s.in_flight) fence ++ calls s.events
unfolding build_chain
build_chain-admitted m = tracer_mw-Admits m _ (
    logger_mw-Admits m _ (
      overlap_mw-Admits m _ (
        toggler_mw-Calls m (with_lock m.locker) _ (
          metrics_mw-Calls (with_lock m.locker) _
            (locker_mw-Calls m _ (panic_recovery-Calls _ (call_handler-Calls m)))))))
