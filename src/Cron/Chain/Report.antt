-- ===== src/Cron/Chain/Report.antt =====
-- cron/engine/middleware.go: what the span, the log and the metric say of a run.
use go_dev_sdk.Prelude.{◌≡◌, List, [], ◌∷◌, ◌++◌, Option, none, some, Bytes, if◌then◌else◌}
use go_dev_sdk.Cron.Chain.{
  Outcome, returned, panics, Event, Run, Handler, locked, unlocked, span_started, span_ended,
  span_skipped, span_failed, log_started, log_completed, log_skipped, log_failed, measured, ran,
  lock_asked, toggler_error, unlock_error, panic_logged,
}
use go_dev_sdk.Cron.Failure.{is_skip, skip_reason, error_type}

-- The events of the span's life, the first log line and that of the outcome, without its token, and the
-- metric. The other lines are left aside.
abbrev pub visible : List Event → List Event
visible [] = []
visible (span_started ∷ l) = span_started ∷ visible l
visible (span_ended ∷ l) = span_ended ∷ visible l
visible (span_skipped r ∷ l) = span_skipped r ∷ visible l
visible (span_failed t ∷ l) = span_failed t ∷ visible l
visible (log_started ∷ l) = log_started ∷ visible l
visible (log_completed ∷ l) = log_completed ∷ visible l
visible (log_skipped e _ ∷ l) = log_skipped e [] ∷ visible l
visible (log_failed e _ ∷ l) = log_failed e [] ∷ visible l
visible (measured t ∷ l) = measured t ∷ visible l
visible (toggler_error _ ∷ l) = visible l
visible (lock_asked _ _ ∷ l) = visible l
visible (locked ∷ l) = visible l
visible (unlocked ∷ l) = visible l
visible (unlock_error _ ∷ l) = visible l
visible (ran _ ∷ l) = visible l
visible (panic_logged ∷ l) = visible l

-- The metric of an outcome: a success or a failure once, and no skip or panic.
abbrev pub metric_of : Outcome → List Event
metric_of (returned none) = measured none ∷ []
metric_of (returned (some e)) = if is_skip e then [] else measured (some (error_type e)) ∷ []
metric_of panics = []

abbrev pub log_of : Outcome → List Event
log_of (returned none) = log_completed ∷ []
log_of (returned (some e)) = (if is_skip e then log_skipped e [] else log_failed e []) ∷ []
log_of panics = []

abbrev pub status_of : Outcome → List Event
status_of (returned none) = []
status_of (returned (some e)) = elim (skip_reason e) [
  | none ↦ span_failed (error_type e) ∷ []
  | some reason ↦ span_skipped reason ∷ []
]
status_of panics = []

abbrev Tells : (Outcome → List Event) → Handler → Type 0
Tells f h =
    (fence : Option Bytes) (s : Run)
    → visible (h fence s).1.events ≡ f (h fence s).0 ++ visible s.events

abbrev nothing : Outcome → List Event
nothing _ = []

abbrev TellsOf : (Outcome → List Event) → Run → Outcome × Run → Type 0
TellsOf f s r = visible r.1.events ≡ f r.0 ++ visible s.events

-- Inside the tracer: the log line of the outcome, its metric, and the first line.
abbrev logged : Outcome → List Event
logged o = log_of o ++ (metric_of o ++ log_started ∷ [])

-- What a run tells by its outcome, the last first.
abbrev pub told : Outcome → List Event
told o =
    span_ended ∷ (status_of o ++ (log_of o ++ (metric_of o ++ log_started ∷ span_started ∷ [])))
