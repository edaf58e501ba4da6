-- ===== src/Nats/Producer/Lifecycle.antt =====
-- nats/producer/producer.go: Register, Start, the publish calls and Shutdown, as the steps between which
-- other goroutines run: each is what a call does under the lock, or what one goroutine does on its own.
-- A run is known by its number, and a connection by its run and topic. What the server answers is given
-- by the call.
pub mod Sound
pub mod Publishes
pub mod Runs
pub mod Reach
pub mod Publish
pub mod Telemetry
use go_dev_sdk.Prelude.{
  ℕ, suc, ◌+◌, ◌-◌, ◌==◌, Bool, true, false, ◌||◌, List, [], ◌∷◌, ◌++◌, map, Option, none, some,
  Bytes, codes, eq_bytes, is_empty, if◌then◌else◌,
}
use go_dev_sdk.Nats.Failure.{Err, wrap, error_type}
use go_dev_sdk.Nats.Producer.Message.{
  Config, ConfigError, Outgoing, Msg, set_defaults, validate, has_dot, build_msg, build_delayed,
}
use go_dev_sdk.Prelude.Int.{ℤ, not_positive}

pub data ProducerError : Type 0 where
  already_started invalid_tag : ProducerError
  config_invalid : List ConfigError → ProducerError
  producer_exists producer_not_found : Bytes → ProducerError
  send_failed : Err → ProducerError

pub record Run : Type 0 where
  pub cycle : ℕ
  pub topics : List Bytes

-- What the telemetry and the caller's callback are told.
pub data Told : Type 0 where
  span_started span_ended sent accepted : Told
  measured : Bytes → Told
  handed : Msg → Told
  called_back : Option Err → Told

-- `pending` is the wait group of each run. `sending` and `awaiting` hold, for each asynchronous publish
-- that has acquired its run, the run: while it is handed to the transport, and while its callback has
-- not returned. `leaving` are the runs whose Shutdown waits, and `drained` those whose Shutdown drained
-- the connections.
pub record Producer : Type 0 where
  pub configs : List (Bytes × Config)
  pub run : Option Run
  pub next : ℕ
  pub pending : ℕ → ℕ
  pub sending : List ℕ
  pub awaiting : List ℕ
  pub leaving : List ℕ
  pub drained : List ℕ
  pub opened : List (ℕ × Bytes)
  pub told : List Told

abbrev pub new_producer : Producer
new_producer = record {
  configs = [];
  run = none;
  next = 0;
  pending = λ _. 0;
  sending = [];
  awaiting = [];
  leaving = [];
  drained = [];
  opened = [];
  told = [];
}

unfoldable pub is_in : Bytes → List Bytes → Bool
is_in n [] = false
is_in n (m ∷ ms) = eq_bytes n m || is_in n ms

abbrev pub topics_of : List (Bytes × Config) → List Bytes
topics_of cs = map (λ (c : Bytes × Config). c.0) cs

abbrev pub store : List ConfigError → Config → Producer → Option ProducerError × Producer
store (e ∷ es) cfg p = (some (config_invalid (e ∷ es)), p)
store [] cfg p =
    if is_in cfg.topic (topics_of p.configs)
    then (some (producer_exists cfg.topic), p)
    else (none, record p { configs = (cfg.topic, cfg) ∷ p.configs })

abbrev pub is_running {ℓ} : {A : Type ℓ} → Option A → Bool
is_running none = false
is_running (some _) = true

unfoldable pub register : Config → Producer → Option ProducerError × Producer
unfolding is_in
register cfg p =
    let cfg' = set_defaults cfg in
    if is_running p.run then (some already_started, p) else store (validate cfg') cfg' p

-- The dials of `Start`: the connections opened, and the errors, of which g.Wait returns one.
unfoldable pub dial_all : (Bytes → Option Err) → ℕ → List Bytes → List (ℕ × Bytes) × List Err
dial_all dial i [] = ([], [])
dial_all dial i (t ∷ ts) =
    let (conns, errs) = dial_all dial i ts in
    elim (dial t) [ none ↦ ((i, t) ∷ conns, errs) | some e ↦ (conns, wrap t e ∷ errs) ]

-- Closes the connections of a run.
unfoldable pub close_run : ℕ → List (ℕ × Bytes) → List (ℕ × Bytes)
close_run i [] = []
close_run i ((j, t) ∷ cs) = let rest = close_run i cs in if j == i then rest else (j, t) ∷ rest

abbrev pub begin_run : List (ℕ × Bytes) × List Err → Producer → List Err × Producer
begin_run (conns, e ∷ es) p = (e ∷ es, record p { opened = close_run p.next (conns ++ p.opened) })
begin_run (conns, []) p = (
  [],
  record p {
    run = some (record { cycle = p.next; topics = topics_of p.configs });
    next = suc p.next;
    opened = conns ++ p.opened;
  },
)

unfoldable pub start : (Bytes → Option Err) → Producer → List Err × Producer
unfolding dial_all close_run
start dial p =
    if is_running p.run then ([], p) else begin_run (dial_all dial p.next (topics_of p.configs)) p

unfoldable pub is_among : ℕ → List ℕ → Bool
is_among i [] = false
is_among i (j ∷ js) = j == i || is_among i js

unfoldable pub take_out : ℕ → List ℕ → List ℕ
take_out i [] = []
take_out i (j ∷ js) = let rest = take_out i js in if j == i then js else j ∷ rest

-- `Shutdown` up to its wait.
abbrev pub leave : Option Run → Producer → Producer
leave none p = p
leave (some r) p = record p { run = none; leaving = r.cycle ∷ p.leaving }

unfoldable pub begin_shutdown : Producer → Producer
begin_shutdown p = leave p.run p

-- The wait of the Shutdown of run i ends: by the wait group, and then the connections are drained and
-- closed; or by its context, and then they are closed at once.
unfoldable pub drain : ℕ → Producer → Producer
unfolding is_among take_out close_run
drain i p =
    if is_among i p.leaving
    then (if p.pending i == 0
        then record p {
          leaving = take_out i p.leaving;
          drained = i ∷ p.drained;
          opened = close_run i p.opened;
        }
        else p)
    else p

unfoldable pub give_up : ℕ → Producer → Producer
unfolding is_among take_out close_run
give_up i p =
    if is_among i p.leaving
    then record p { leaving = take_out i p.leaving; opened = close_run i p.opened }
    else p
