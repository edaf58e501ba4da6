-- ===== src/Cron/Tests.antt =====
-- cron: runs of the chain and the engine, and the theorems at them.
use go_dev_sdk.Prelude.{
  ◌≡◌, refl, true, [], ◌∷◌, ◌++◌, Option, none, some, Bytes, codes, eq_bytes, itoa,
}
use go_dev_sdk.Prelude.Int.{pos}
use go_dev_sdk.Cron.Failure.{
  Err, sentinel, wrap, coded, net_error, job_disabled, is_err, skip_reason, error_type, as_coded,
  as_net_timeout, engine_already_started,
}
use go_dev_sdk.Cron.Config.{Config}
use go_dev_sdk.Cron.Chain.{
  returned, Meta, enabled, token, unlock_panics, build_chain, panic_recovery, tracer_mw, overlap_mw,
  toggler_mw, metrics_mw, locker_mw, logger_mw, span_started, span_ended, log_started,
  log_completed, measured, locked, unlocked, ran, lock_asked,
}
use go_dev_sdk.Cron.Chain.Release.{Restores, build_chain-Restores}
use go_dev_sdk.Cron.Chain.{member}
use go_dev_sdk.Cron.Chain.Admission.{calls, admitted, build_chain-admitted}
use go_dev_sdk.Cron.Engine.{
  Job, Deps, Engine, new_engine, no_run, register, run_job, trigger, start, stop, find_job,
}
use go_dev_sdk.Cron.Engine.Lifecycle.{
  IsSound, registered, triggered, started, stopped, Steps, here, then_step, Steps-IsSound,
}

wrapped_code : error_type (wrap [] (coded (pos 4001))) ≡ codes "4001"
unfolding error_type is_err as_coded itoa
wrapped_code = refl

wrapped_timeout : error_type (wrap [] (net_error true)) ≡ codes "timeout"
unfolding error_type is_err as_coded as_net_timeout
wrapped_timeout = refl

disabled_skips : skip_reason (wrap [] (sentinel job_disabled)) ≡ some (codes "disabled")
unfolding skip_reason is_err
disabled_skips = refl

-- A job that succeeds under a lock whose release panics.
abbrev locked_job : Meta
locked_job = record {
  name = codes "sync";
  timeout = pos 60;
  toggler = some (enabled true);
  locker = some (token (some (codes "7")) unlock_panics);
  handler = λ _. returned none;
}

locked_run :
    (build_chain locked_job none no_run).1.events
    ≡ span_ended
      ∷ unlocked
      ∷ ran (some (codes "7"))
      ∷ locked
      ∷ lock_asked (codes "cron:lock:sync") (pos 15000000060)
      ∷ log_started
      ∷ span_started
      ∷ []
unfolding build_chain panic_recovery tracer_mw overlap_mw toggler_mw metrics_mw locker_mw logger_mw
locked_run = refl

build_chain-Restores_example : Restores no_run (build_chain locked_job none no_run).1
build_chain-Restores_example = build_chain-Restores locked_job none no_run

build_chain-admitted_example :
    calls (build_chain locked_job none no_run).1.events
    ≡ admitted locked_job (member (codes "sync") []) none ++ []
build_chain-admitted_example = build_chain-admitted locked_job none no_run

abbrev cfg : Config
cfg = record { global_timeout = pos 60; shutdown_timeout = pos 10 }

abbrev job : Job
job = record {
  name = codes "sync";
  schedule = codes "@hourly";
  timeout = pos 0;
  handler = some (λ _. returned none);
}

abbrev no_deps : Deps
no_deps = record { toggler = none; locker = none }

abbrev parse : Bytes → Option Err
parse s = none

-- Register, start, a manual run, and the stop.
abbrev life : Engine
life =
    (stop none (trigger no_deps (codes "sync") (start (register parse job (new_engine cfg)).1)).1).1

life_runs :
    life.run.events
    ≡ span_ended ∷ log_completed ∷ measured none ∷ ran none ∷ log_started ∷ span_started ∷ []
unfolding register trigger run_job start stop find_job eq_bytes build_chain panic_recovery tracer_mw
    overlap_mw toggler_mw metrics_mw locker_mw logger_mw
life_runs = refl

life_stops : life.stopping ≡ true
unfolding register trigger run_job start stop find_job eq_bytes
life_stops = refl

late : (register parse job life).0 ≡ some (sentinel engine_already_started)
unfolding register trigger run_job start stop find_job eq_bytes
late = refl

abbrev lived : Steps parse (new_engine cfg) life
lived =
    then_step
      (then_step (then_step (then_step here (registered job)) started)
        (triggered no_deps (codes "sync")))
      (stopped none)

Steps-IsSound_example : IsSound life
Steps-IsSound_example = Steps-IsSound parse lived
