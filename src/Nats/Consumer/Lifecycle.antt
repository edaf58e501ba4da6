-- ===== src/Nats/Consumer/Lifecycle.antt =====
-- nats/consumer/consumer.go: Register, Start and Shutdown, each of which holds the lock for its whole
-- run. Of a stream consumer its durable name is kept, and of the world the names whose connection is
-- open. How dialing, subscribing and shutting down end is given by the call's answers.
pub mod Connections
pub mod Success
use go_dev_sdk.Prelude.{
  ℕ, ltb, Bool, true, false, ◌&&◌, ◌||◌, not, ◌==◌, List, [], ◌∷◌, ◌++◌, map, Option, none, some,
  Bytes, codes, eq_bytes, is_empty, if◌then◌else◌,
}
use go_dev_sdk.Nats.Failure.{Err}
use go_dev_sdk.Nats.Consumer.Config.{Config, ConfigError, set_defaults, validate}

pub data RegisterError : Type 0 where
  already_started handler_nil : RegisterError
  config_invalid : List ConfigError → RegisterError
  consumer_exists : Bytes → RegisterError

-- `regs` is the map by durable name, in the order of the names; `running` the consumers in the order of
-- their start, and `opened` the names whose connection is open.
pub record Consumer : Type 0 where
  pub app_name : Bytes
  pub regs : List (Bytes × Config)
  pub running : List Bytes
  pub started : Bool
  pub run_canceled : Bool
  pub opened : List Bytes

abbrev pub new_consumer : Bytes → Consumer
new_consumer name = record {
  app_name = name;
  regs = [];
  running = [];
  started = false;
  run_canceled = false;
  opened = [];
}

abbrev pub names : Consumer → List Bytes
names c = map (λ (r : Bytes × Config). r.0) c.regs

unfoldable pub build_group_name : Consumer → Bytes → Bytes → Bytes
build_group_name c topic group = c.app_name ++ (codes "_" ++ (topic ++ (codes "_" ++ group)))

-- The order of slices.Sorted on strings.
unfoldable pub less_bytes : Bytes → Bytes → Bool
less_bytes [] [] = false
less_bytes [] (_ ∷ _) = true
less_bytes (_ ∷ _) [] = false
less_bytes (x ∷ s) (y ∷ t) = ltb x y || (x == y && less_bytes s t)

unfoldable pub insert : Bytes → Config → List (Bytes × Config) → List (Bytes × Config)
insert n c [] = (n, c) ∷ []
insert n c ((m, d) ∷ rs) =
    let rest = insert n c rs in if less_bytes n m then (n, c) ∷ (m, d) ∷ rs else (m, d) ∷ rest

unfoldable pub is_registered : Bytes → List (Bytes × Config) → Bool
is_registered n [] = false
is_registered n ((m, _) ∷ rs) = eq_bytes n m || is_registered n rs

abbrev pub store_reg :
    List ConfigError → Bytes → Config → Consumer → Option RegisterError × Consumer
store_reg (e ∷ es) name cfg c = (some (config_invalid (e ∷ es)), c)
store_reg [] name cfg c =
    if is_registered name c.regs
    then (some (consumer_exists name), c)
    else (none, record c { regs = insert name cfg c.regs })

-- `has_handler` says that the handler function is not nil.
unfoldable pub register :
    (Bytes → Bool) → Config → Bool → Consumer → Option RegisterError × Consumer
unfolding build_group_name insert is_registered
register is_rfc3339 cfg has_handler c =
    let cfg' = set_defaults cfg in
    if c.started
    then (some already_started, c)
    else if not has_handler
    then (some handler_nil, c)
    else store_reg (validate is_rfc3339 cfg') (build_group_name c cfg'.topic cfg'.group) cfg' c

-- What startOne meets: a dial that fails has closed its connection again.
pub data StartAnswer : Type 0 where
  consuming : StartAnswer
  dial_failed : Err → StartAnswer
  subscribe_failed : Err → StartAnswer

-- `shutdown` of one consumer: whatever its error, it closes the connection.
abbrev pub close : Bytes → List Bytes → List Bytes
close n [] = []
close n (m ∷ ms) = let rest = close n ms in if eq_bytes n m then rest else m ∷ rest

-- A list that is empty stands for a nil error of errors.Join.
abbrev pub err_of : Option Err → List Err
err_of none = []
err_of (some e) = e ∷ []

module _ (answers : Bytes → StartAnswer) (shut : Bytes → Option Err) where
  unfoldable pub shutdown_all : List Bytes → List Bytes → List Err × List Bytes
  shutdown_all [] opened = ([], opened)
  shutdown_all (n ∷ ns) opened =
      let (errs, rest) = shutdown_all ns (close n opened) in (err_of (shut n) ++ errs, rest)

  -- The errors, or none, the consumers started, and the connections open.
  abbrev pub Started : Type 0
  Started = List Err × List Bytes × List Bytes

  -- The rollback of `Start`.
  abbrev pub roll_back : List Err → List Bytes → List Bytes → Started
  roll_back errs running opened =
      let (more, left) = shutdown_all running opened in (errs ++ more, [], left)

  -- `startOne`, and the rest of the loop or the rollback.
  abbrev pub start_one : StartAnswer → Bytes → List Bytes → List Bytes → Started → Started
  start_one consuming n running opened next = next
  start_one (dial_failed e) n running opened next = roll_back (e ∷ []) running opened
  start_one (subscribe_failed e) n running opened next =
      roll_back (e ∷ err_of (shut n)) running (close n (n ∷ opened))

  unfoldable pub start_all : List Bytes → List Bytes → List Bytes → Started
  unfolding shutdown_all
  start_all [] running opened = ([], running, opened)
  start_all (n ∷ ns) running opened =
      let next = start_all ns (running ++ n ∷ []) (n ∷ opened) in
      start_one (answers n) n running opened next

  abbrev pub begin : Consumer → Started → List Err × Consumer
  begin c ([], running, opened) =
      ([], record c { running = running; started = true; run_canceled = false; opened = opened })
  begin c (e ∷ es, running, opened) = (e ∷ es, record c { opened = opened })

  unfoldable pub start : Consumer → List Err × Consumer
  unfolding start_all
  start c = if c.started then ([], c) else begin c (start_all (names c) [] c.opened)

  unfoldable pub shutdown : Consumer → List Err × Consumer
  unfolding shutdown_all
  shutdown c =
      let (errs, opened) = shutdown_all c.running c.opened in
      if not c.started
      then ([], c)
      else (errs, record c { running = []; started = false; run_canceled = true; opened = opened })
