-- ===== src/Cron/Engine.antt =====
-- cron/engine/engine.go: the engine's state and its methods, each under the lock that it takes, and a
-- run from its guard to its end. The schedule parser and what the collaborators answer in a run are
-- parameters. `Stop` waits for the runs in flight: how that wait ends is its argument.
pub mod Lifecycle
use go_dev_sdk.Prelude.{
  ℕ, suc, ◌+◌, ◌-◌, Bool, true, false, ◌||◌, List, [], ◌∷◌, map, Option, none, some, Bytes, codes,
  eq_bytes, is_empty, if◌then◌else◌,
}
use go_dev_sdk.Prelude.Int.{ℤ, not_positive}
use go_dev_sdk.Cron.Failure.{
  Err, sentinel, wrap, joined, engine_already_started, engine_stopped, empty_job_name, nil_handler,
  invalid_schedule, job_already_exists, job_not_found, panic_recovered,
}
use go_dev_sdk.Cron.Config.{Config}
use go_dev_sdk.Cron.Chain.{
  Outcome, returned, panics, Run, Event, Meta, TogglerAnswer, LockAnswer, build_chain, lock_key,
  add_buffer,
}

pub record Job : Type 0 where
  pub name : Bytes
  pub schedule : Bytes
  pub timeout : ℤ
  pub handler : Option (Option Bytes → Outcome)

-- The collaborators in one run: IsEnabled by the job's name, Lock by its key and time to live.
pub record Deps : Type 0 where
  pub toggler : Option (Bytes → TogglerAnswer)
  pub locker : Option (Bytes → ℤ → LockAnswer)

-- `scheduled` holds the names of the functions given to robfig/cron, the last first, and `ticking`
-- says whether it runs them; `run` is what the runs share and have told.
pub record Engine : Type 0 where
  pub cfg : Config
  pub jobs : List Job
  pub scheduled : List Bytes
  pub running : Bool
  pub stopping : Bool
  pub ticking : Bool
  pub stop_canceled : Bool
  pub active : ℕ
  pub run : Run

abbrev pub no_run : Run
no_run = record { in_flight = []; fencing_token = []; events = [] }

abbrev pub new_engine : Config → Engine
new_engine cfg = record {
  cfg = cfg;
  jobs = [];
  scheduled = [];
  running = false;
  stopping = false;
  ticking = false;
  stop_canceled = false;
  active = 0;
  run = no_run;
}

unfoldable pub find_job : Bytes → List Job → Option Job
find_job n [] = none
find_job n (j ∷ js) = let rest = find_job n js in if eq_bytes n j.name then some j else rest

abbrev is_nil {ℓ} : {A : Type ℓ} → Option A → Bool
is_nil none = true
is_nil (some _) = false

abbrev pub add_job : Job → Engine → Engine
add_job job e = record e { jobs = job ∷ e.jobs; scheduled = job.name ∷ e.scheduled }

-- The two last tests of `Register`: the schedule and the name.
abbrev schedule_job : Option Err → Option Job → Job → Engine → Option Err × Engine
schedule_job (some err) found job e = (some (joined (sentinel invalid_schedule) err), e)
schedule_job none (some _) job e = (some (sentinel job_already_exists), e)
schedule_job none none job e = (none, add_job job e)

unfoldable pub register : (Bytes → Option Err) → Job → Engine → Option Err × Engine
register parse job e =
    if e.running || e.stopping
    then (some (sentinel engine_already_started), e)
    else if is_empty job.name
    then (some (sentinel empty_job_name), e)
    else if is_nil job.handler
    then (some (sentinel nil_handler), e)
    else schedule_job (parse job.schedule) (find_job job.name e.jobs) job e

abbrev pub timeout_of : Config → Job → ℤ
timeout_of cfg job = if not_positive job.timeout then cfg.global_timeout else job.timeout

-- A call of a nil function panics.
abbrev call : Option (Option Bytes → Outcome) → Option Bytes → Outcome
call none fence = panics
call (some h) fence = h fence

abbrev answer_of {ℓ} : {A B : Type ℓ} → (A → B) → Option A → Option B
answer_of f none = none
answer_of f (some a) = some (f a)

abbrev pub meta_of : Config → Deps → Job → Meta
meta_of cfg d job = record {
  name = job.name;
  timeout = timeout_of cfg job;
  toggler = answer_of (λ (t : Bytes → TogglerAnswer). t job.name) d.toggler;
  locker =
      answer_of
        (λ (l : Bytes → ℤ → LockAnswer). l (lock_key job.name) (add_buffer (timeout_of cfg job)))
        d.locker;
  handler = call job.handler;
}

-- The outermost guard, which recovers a panic of a collaborator.
abbrev guard : Outcome → Option Err
guard (returned e) = e
guard panics = some (wrap [] (sentinel panic_recovered))

unfoldable pub run_job : Deps → Job → Engine → Option Err × Engine
run_job d job e =
    let (o, s) = build_chain (meta_of e.cfg d job) none e.run in
    if e.stopping
    then (some (sentinel engine_stopped), e)
    else (guard o, record e { run = s; active = suc e.active - 1 })

abbrev run_found : Deps → Option Job → Engine → Option Err × Engine
run_found d none e = (some (sentinel job_not_found), e)
run_found d (some job) e = run_job d job e

unfoldable pub trigger : Deps → Bytes → Engine → Option Err × Engine
trigger d n e = run_found d (find_job n e.jobs) e

unfoldable pub start : Engine → Engine
start e = if e.stopping || e.running then e else record e { running = true; ticking = true }

-- The wait of `Stop` ends by the last run (none) or by its context, with its error. Either way the
-- context of the runs is canceled.
unfoldable pub stop : Option Err → Engine → Option Err × Engine
stop wait e = if e.stopping then (none, e) else (
  wait,
  record e { stopping = true; running = false; ticking = false; stop_canceled = true },
)
