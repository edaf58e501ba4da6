-- ===== src/Cron/Chain/Release.antt =====
-- cron/engine/middleware.go: what a run takes, it gives back.
use go_dev_sdk.Prelude.{
  ℕ, suc, ◌+◌, ◌≡◌, refl, ap, ◌∙◌, inl, inr, true, false, Bool-cases, Option-cases, List, [], ◌∷◌,
  Option, none, some, Bytes, eq_bytes_self, arith,
}
use go_dev_sdk.Cron.Chain.{
  Outcome, returned, panics, Event, Run, Meta, Handler, emit, after, member, remove, leave, locked,
  unlocked, TogglerAnswer, enabled, toggler_failed, toggler_panics, LockAnswer, lock_failed,
  no_token, token, lock_panics, UnlockAnswer, unlock_done, unlock_failed, unlock_panics,
  panic_recovery, tracer_mw, overlap_mw, toggler_mw, metrics_mw, locker_mw, logger_mw, build_chain,
  call_handler, recover, lock, toggle, release, trace_result, log_result, measure, span_ended,
}
use go_dev_sdk.Cron.Failure.{Err, skip_reason}

abbrev pub locks : List Event → ℕ
locks [] = 0
locks (locked ∷ l) = suc (locks l)
locks (_ ∷ l) = locks l

abbrev pub unlocks : List Event → ℕ
unlocks [] = 0
unlocks (unlocked ∷ l) = suc (unlocks l)
unlocks (_ ∷ l) = unlocks l

-- The names in flight are the same, and there are as many more unlocks as locks.
abbrev pub Restores : Run → Run → Type 0
Restores s t =
    (t.in_flight ≡ s.in_flight)
    × (locks t.events + unlocks s.events ≡ unlocks t.events + locks s.events)

abbrev IsTidy : Handler → Type 0
IsTidy h = (fence : Option Bytes) (s : Run) → Restores s (h fence s).1

call_handler-IsTidy : (m : Meta) → IsTidy (call_handler m)
call_handler-IsTidy m fence s = ground arith

after_keeps :
    (P : Run → Type 0) (f : Option Err → Run → Outcome × Run) (g : Run → Run) (r : Outcome × Run)
    → ((e : Option Err) (t : Run) → P t → P (f e t).1)
    → ((t : Run) → P t → P (g t))
    → P r.1
    → P (after f g r).1
after_keeps P f g (returned e, t) on_return on_panic p = on_return e t p
after_keeps P f g (panics, t) on_return on_panic p = on_panic t p

recover_keeps : (s : Run) (r : Outcome × Run) → Restores s r.1 → Restores s (recover r).1
recover_keeps s (returned e, t) h = h
recover_keeps s (panics, t) h = ground (arith, h)

panic_recovery-IsTidy : (h : Handler) → IsTidy h → IsTidy (panic_recovery h)
unfolding panic_recovery
panic_recovery-IsTidy h tidy fence s = recover_keeps s (h fence s) (tidy fence s)

release_keeps :
    (s : Run) (u : UnlockAnswer) (r : Outcome × Run)
    → Restores (emit locked s) r.1
    → Restores s (release u r).1
release_keeps s unlock_done (o, t) h = ground (arith, h)
release_keeps s (unlock_failed e) (o, t) h = ground (arith, h)
release_keeps s unlock_panics (o, t) h = ground (arith, h)

lock_keeps : (h : Handler) → IsTidy h → (a : LockAnswer) (s : Run) → Restores s (lock h a s).1
lock_keeps h tidy (lock_failed e) s = ground arith
lock_keeps h tidy no_token s = ground arith
lock_keeps h tidy (token none u) s = release_keeps s u (panics, emit locked s) (refl, ground arith)
lock_keeps h tidy (token (some f) u) s = release_keeps s u _ (tidy (some f) _)
lock_keeps h tidy lock_panics s = ground arith

locker_mw-IsTidy : (m : Meta) (h : Handler) → IsTidy h → IsTidy (locker_mw m h)
unfolding locker_mw
locker_mw-IsTidy m h tidy fence s = elim (Option-cases m.locker) [
  | inl e ↦ rw (e, locker_mw) (tidy fence s)
  | inr (a, e) ↦ rw (e, locker_mw) (lock_keeps h tidy a _)
]

measure_keeps : (s t : Run) (e : Option Err) → Restores s t → Restores s (measure e t)
measure_keeps s t none h = ground (arith, h)
measure_keeps s t (some e) h = ground (arith, h)

metrics_mw-IsTidy : (h : Handler) → IsTidy h → IsTidy (metrics_mw h)
unfolding metrics_mw
metrics_mw-IsTidy h tidy fence s =
    after_keeps (Restores s) _ _ (h fence s) (λ e t. measure_keeps s t e) (λ t p. p) (tidy fence s)

toggle_keeps :
    (h : Handler)
    → IsTidy h
    → (a : Option TogglerAnswer) (fence : Option Bytes) (s : Run)
    → Restores s (toggle h a fence s).1
toggle_keeps h tidy none fence s = tidy fence s
toggle_keeps h tidy (some (enabled true)) fence s = tidy fence s
toggle_keeps h tidy (some (enabled false)) fence s = (refl, ground arith)
toggle_keeps h tidy (some (toggler_failed e)) fence s = tidy fence _
toggle_keeps h tidy (some toggler_panics) fence s = (refl, ground arith)

toggler_mw-IsTidy : (m : Meta) (h : Handler) → IsTidy h → IsTidy (toggler_mw m h)
unfolding toggler_mw
toggler_mw-IsTidy m h tidy fence s = toggle_keeps h tidy m.toggler fence s

remove_absent : (n : Bytes) (ms : List Bytes) → member n ms ≡ false → remove n ms ≡ ms
remove_absent n [] h = refl
remove_absent n (m ∷ ms) h = ground (arith, remove_absent n ms)

-- Leaving restores what stood before the name was put in.
leave_keeps :
    (m : Meta) (s t : Run)
    → member m.name s.in_flight ≡ false
    → Restores (record s { in_flight = m.name ∷ s.in_flight }) t
    → Restores s (leave m t)
leave_keeps m s t absent (f, l) = (
  ap (remove m.name) f
      ∙ (let e : remove m.name (m.name ∷ s.in_flight) ≡ s.in_flight =
            rw (eq_bytes_self m.name) (remove_absent m.name s.in_flight absent) in
          e),
  l,
)

left_keeps :
    (m : Meta) (s : Run) (r : Outcome × Run)
    → member m.name s.in_flight ≡ false
    → Restores (record s { in_flight = m.name ∷ s.in_flight }) r.1
    → Restores s (after (λ e t. (returned e, leave m t)) (leave m) r).1
left_keeps m s (returned e, t) absent h = leave_keeps m s t absent h
left_keeps m s (panics, t) absent h = leave_keeps m s t absent h

overlap_mw-IsTidy : (m : Meta) (h : Handler) → IsTidy h → IsTidy (overlap_mw m h)
unfolding overlap_mw
overlap_mw-IsTidy m h tidy fence s = elim (Bool-cases (member m.name s.in_flight)) [
  | inl e ↦ rw (e, overlap_mw) (refl, ground arith)
  | inr e ↦ rw (e, overlap_mw) (left_keeps m s (h fence _) e (tidy fence _))
]

log_keeps : (s t : Run) (e : Option Err) → Restores s t → Restores s (log_result e t)
log_keeps s t none h = ground (arith, h)
log_keeps s t (some e) h = ground (arith, h)

logger_mw-IsTidy : (h : Handler) → IsTidy h → IsTidy (logger_mw h)
unfolding logger_mw
logger_mw-IsTidy h tidy fence s =
    after_keeps (Restores s) _ _ (h fence _) (λ e t. log_keeps s t e) (λ t p. p) (tidy fence _)

trace_keeps :
    (s t : Run) (e : Option Err) → Restores s t → Restores s (emit span_ended (trace_result e t))
trace_keeps s t none h = ground (arith, h)
trace_keeps s t (some e) h = elim (Option-cases (skip_reason e)) [
  | inl f ↦ rw f (ground (arith, h))
  | inr (r, f) ↦ rw f (ground (arith, h))
]

tracer_mw-IsTidy : (h : Handler) → IsTidy h → IsTidy (tracer_mw h)
unfolding tracer_mw
tracer_mw-IsTidy h tidy fence s =
    after_keeps (Restores s) _ _ (h fence _) (λ e t. trace_keeps s t e) (λ t p. p) (tidy fence _)

-- However a run ends, by a return, a skip or a panic of any collaborator, its name is taken out of the
-- set of the jobs in flight, or the set is as it was, and the run has unlocked as often as it locked.
pub build_chain-Restores :
    (m : Meta) (fence : Option Bytes) (s : Run) → Restores s (build_chain m fence s).1
unfolding build_chain
build_chain-Restores m = tracer_mw-IsTidy _ (
    logger_mw-IsTidy _ (
      overlap_mw-IsTidy m _ (
        toggler_mw-IsTidy m _ (
          metrics_mw-IsTidy _
            (locker_mw-IsTidy m _ (panic_recovery-IsTidy _ (call_handler-IsTidy m)))))))
