-- ===== src/Cron/Engine/Lifecycle.antt =====
-- cron/engine/engine.go: what holds of an engine over any sequence of calls.
use go_dev_sdk.Prelude.{
  ◌≡◌, ◌≢◌, refl, ap, ◌∙◌, inl, inr, true, false, ◌||◌, Bool-cases, Option-cases, List, [], ◌∷◌,
  map, Option, none, some, Bytes, eq_bytes_iff, arith, All,
}
use go_dev_sdk.Cron.Failure.{Err}
use go_dev_sdk.Cron.Config.{Config}
use go_dev_sdk.Cron.Chain.Release.{build_chain-Restores}
use go_dev_sdk.Cron.Engine.{
  Job, Deps, Engine, new_engine, find_job, register, run_job, trigger, start, stop, meta_of,
  add_job, schedule_job,
}

-- No job of the list has the name.
abbrev pub IsNew : Bytes → List Job → Type 0
IsNew n [] = Unit
IsNew n (j ∷ js) = (n ≢ j.name) × IsNew n js

abbrev pub AreDistinct : List Job → Type 0
AreDistinct [] = Unit
AreDistinct (j ∷ js) = IsNew j.name js × AreDistinct js

-- Job names are distinct and not empty and each is scheduled once; the scheduler ticks exactly while
-- the engine runs, and it does not run while it stops; between calls no name is left in flight and no
-- run is counted as active.
pub record IsSound (e : Engine) : Type 0 where
  pub distinct : AreDistinct e.jobs
  pub named : All (λ (j : Job). (j.name ≢ []) × (j.handler ≢ none)) e.jobs
  pub scheduled : e.scheduled ≡ map (λ (j : Job). j.name) e.jobs
  pub ticks : e.ticking ≡ e.running
  pub stops : e.stopping ≡ true → e.running ≡ false
  pub cancels : e.stop_canceled ≡ e.stopping
  pub in_flight : e.run.in_flight ≡ []
  pub active : e.active ≡ 0

new_engine-IsSound : (cfg : Config) → IsSound (new_engine cfg)
new_engine-IsSound cfg = record {
  distinct = tt;
  named = tt;
  scheduled = refl;
  ticks = refl;
  stops = λ h. cc;
  cancels = refl;
  in_flight = refl;
  active = refl;
}

find_job-IsNew : (n : Bytes) (js : List Job) → find_job n js ≡ none → IsNew n js
unfolding find_job
find_job-IsNew n [] h = tt
find_job-IsNew n (j ∷ js) h = ground (arith, find_job-IsNew n js, eq_bytes_iff n j.name)

add_job-IsSound :
    (job : Job) (e : Engine)
    → IsSound e
    → job.name ≢ []
    → job.handler ≢ none
    → find_job job.name e.jobs ≡ none
    → IsSound (add_job job e)
add_job-IsSound job e s n h f = record {
  distinct = (find_job-IsNew job.name e.jobs f, s.distinct);
  named = ((n, h), s.named);
  scheduled = ap (◌∷◌ job.name) s.scheduled;
  ticks = s.ticks;
  stops = s.stops;
  cancels = s.cancels;
  in_flight = s.in_flight;
  active = s.active;
}

schedule_job-IsSound :
    (job : Job) (e : Engine) (parsed : Option Err)
    → IsSound e
    → job.name ≢ []
    → job.handler ≢ none
    → IsSound (schedule_job parsed (find_job job.name e.jobs) job e).1
schedule_job-IsSound job e (some err) s n h = s
schedule_job-IsSound job e none s n h = elim (Option-cases (find_job job.name e.jobs)) [
  | inl f ↦ rw f (add_job-IsSound job e s n h f)
  | inr (found, f) ↦ rw f s
]

register-IsSound :
    (parse : Bytes → Option Err) (job : Job) (e : Engine)
    → IsSound e
    → IsSound (register parse job e).1
unfolding register
register-IsSound parse job e s = ground (arith, schedule_job-IsSound job e (parse job.schedule) s)

run_job-stopping : (d : Deps) (job : Job) (e : Engine) → e.stopping ≡ true → (run_job d job e).1 ≡ e
unfolding run_job
run_job-stopping d job e h = rw (h, run_job) refl

stop-stopping : (wait : Option Err) (e : Engine) → e.stopping ≡ true → (stop wait e).1 ≡ e
unfolding stop
stop-stopping wait e h = rw (h, stop) refl

run_job-IsSound : (d : Deps) (job : Job) (e : Engine) → IsSound e → IsSound (run_job d job e).1
unfolding run_job
run_job-IsSound d job e s = elim (Bool-cases e.stopping) [
  | inl h ↦ rw (run_job-stopping d job e h) s
  | inr h ↦
      rw (h, run_job)
        (record {
          distinct = s.distinct;
          named = s.named;
          scheduled = s.scheduled;
          ticks = s.ticks;
          stops = λ t. cc;
          cancels = s.cancels ∙ h;
          in_flight = (build_chain-Restores (meta_of e.cfg d job) none e.run).0 ∙ s.in_flight;
          active = omega (arith, s.active);
        })
]

trigger-IsSound : (d : Deps) (n : Bytes) (e : Engine) → IsSound e → IsSound (trigger d n e).1
unfolding trigger
trigger-IsSound d n e s = elim (Option-cases (find_job n e.jobs)) [
  | inl f ↦ rw (f, trigger) s
  | inr (job, f) ↦ rw (f, trigger) (run_job-IsSound d job e s)
]

start-IsSound : (e : Engine) → IsSound e → IsSound (start e)
unfolding start
start-IsSound e s = elim (Bool-cases (e.stopping || e.running)) [
  | inl h ↦ rw (h, start) s
  | inr h ↦
      rw (h, start)
        (record {
          distinct = s.distinct;
          named = s.named;
          scheduled = s.scheduled;
          ticks = refl;
          stops = λ t. ground arith;
          cancels = s.cancels;
          in_flight = s.in_flight;
          active = s.active;
        })
]

stop-IsSound : (wait : Option Err) (e : Engine) → IsSound e → IsSound (stop wait e).1
unfolding stop
stop-IsSound wait e s = elim (Bool-cases e.stopping) [
  | inl h ↦ rw (stop-stopping wait e h) s
  | inr h ↦
      rw (h, stop)
        (record {
          distinct = s.distinct;
          named = s.named;
          scheduled = s.scheduled;
          ticks = refl;
          stops = λ _. refl;
          cancels = refl;
          in_flight = s.in_flight;
          active = s.active;
        })
]

-- The calls on an engine, and the runs that the scheduler starts.
pub data Step (parse : Bytes → Option Err) (e : Engine) : Engine → Type 0 where
  registered : (job : Job) → Step parse e (register parse job e).1
  triggered : (d : Deps) (n : Bytes) → Step parse e (trigger d n e).1
  fired : (d : Deps) (job : Job) → Step parse e (run_job d job e).1
  started : Step parse e (start e)
  stopped : (wait : Option Err) → Step parse e (stop wait e).1

pub data Steps (parse : Bytes → Option Err) (e : Engine) : Engine → Type 0 where
  here : Steps parse e e
  then_step : {f g : Engine} → Steps parse e f → Step parse f g → Steps parse e g

module _ (parse : Bytes → Option Err) where
  Step-IsSound : {e f : Engine} → Step parse e f → IsSound e → IsSound f
  Step-IsSound {e} (registered job) s = register-IsSound parse job e s
  Step-IsSound {e} (triggered d n) s = trigger-IsSound d n e s
  Step-IsSound {e} (fired d job) s = run_job-IsSound d job e s
  Step-IsSound {e} started s = start-IsSound e s
  Step-IsSound {e} (stopped wait) s = stop-IsSound wait e s

  -- Every engine that calls in any order lead to is sound, whatever its collaborators answer.
  pub Steps-IsSound : {cfg : Config} {e : Engine} → Steps parse (new_engine cfg) e → IsSound e
  Steps-IsSound {cfg} here = new_engine-IsSound cfg
  Steps-IsSound (then_step r t) = Step-IsSound t (Steps-IsSound r)

  Step-stopping : {e f : Engine} → Step parse e f → e.stopping ≡ true → f ≡ e
  unfolding register trigger start
  Step-stopping (registered job) h = ground arith
  Step-stopping {e} (triggered d n) h = elim (Option-cases (find_job n e.jobs)) [
    | inl f ↦ rw (f, trigger) refl
    | inr (job, f) ↦ rw (f, trigger) (run_job-stopping d job e h)
  ]
  Step-stopping {e} (fired d job) h = run_job-stopping d job e h
  Step-stopping started h = rw (h, start) refl
  Step-stopping {e} (stopped wait) h = stop-stopping wait e h

  -- Once an engine stops, no call changes anything: no job is added, none runs, and it never starts
  -- again.
  pub Steps-stopping : {e f : Engine} → Steps parse e f → e.stopping ≡ true → f ≡ e
  Steps-stopping here h = refl
  Steps-stopping (then_step r t) h =
      let same = Steps-stopping r h in
      Step-stopping t (ap (λ (x : Engine). x.stopping) same ∙ h) ∙ same
