-- ===== src/Nats/Consumer/Lifecycle/Connections.antt =====
-- nats/consumer/consumer.go: which connections are open.
use go_dev_sdk.Prelude.{
  either_branch, ◌≡◌, refl, sym, ◌∙◌, Bool, true, false, ◌||◌, not, List, [], ◌∷◌, ◌++◌, append-nil,
  append_assoc, Option, Bytes, eq_bytes, eq_bytes_iff, eq_bytes_self, arith, All,
}
use go_dev_sdk.Nats.Failure.{Err}
use go_dev_sdk.Nats.Consumer.Config.{Config, ConfigError, set_defaults}
use go_dev_sdk.Nats.Consumer.Lifecycle.{
  Consumer, new_consumer, register, store_reg, RegisterError, StartAnswer, consuming, dial_failed,
  subscribe_failed, close, err_of, shutdown_all, start_all, start_one, roll_back, begin, start,
  shutdown, names,
}

abbrev is_in : Bytes → List Bytes → Bool
is_in n [] = false
is_in n (m ∷ ms) = eq_bytes n m || is_in n ms

abbrev pub AllIn : List Bytes → List Bytes → Type 0
AllIn ns = All (λ (n : Bytes). is_in n ns ≡ true)

close-AllIn :
    (n : Bytes) (ns opened : List Bytes) → AllIn (n ∷ ns) opened → AllIn ns (close n opened)
close-AllIn n ns [] h = tt
close-AllIn n ns (m ∷ opened) h =
    ground (arith, close-AllIn n ns opened h.1, eq_bytes_iff n m, eq_bytes_iff m n)

close_less : (n : Bytes) (ns opened : List Bytes) → AllIn ns opened → AllIn ns (close n opened)
close_less n ns [] h = tt
close_less n ns (m ∷ opened) h = ground (arith, close_less n ns opened h.1)

more-AllIn : (n : Bytes) (ns opened : List Bytes) → AllIn ns opened → AllIn (ns ++ n ∷ []) opened
more-AllIn n ns [] h = tt
more-AllIn n ns (m ∷ opened) h = (in_more m n ns h.0, more-AllIn n ns opened h.1)
  where
    in_more : (m n : Bytes) (ns : List Bytes) → is_in m ns ≡ true → is_in m (ns ++ n ∷ []) ≡ true
    in_more m n [] h = cc
    in_more m n (k ∷ ns) h = ground (arith, in_more m n ns)

in_last : (n : Bytes) (ns : List Bytes) → is_in n (ns ++ n ∷ []) ≡ true
in_last n [] = ground (arith, eq_bytes_self n)
in_last n (k ∷ ns) = ground (arith, in_last n ns)

close_self :
    (n : Bytes) (ns opened : List Bytes) → AllIn ns opened → AllIn ns (close n (n ∷ opened))
close_self n ns opened h = ground (arith, eq_bytes_self n, close_less n ns opened h)

module _ (answers : Bytes → StartAnswer) (shut : Bytes → Option Err) where
  shutdown_all-opened :
      (ns opened : List Bytes) → AllIn ns opened → (shutdown_all answers shut ns opened).1 ≡ []
  unfolding shutdown_all
  shutdown_all-opened [] [] h = refl
  shutdown_all-opened [] (m ∷ opened) h = cc
  shutdown_all-opened (n ∷ ns) opened h =
      shutdown_all-opened ns (close n opened) (close-AllIn n ns opened h)

  -- Either nothing failed, and every consumer runs with a connection for each, or nothing is open.
  abbrev Settled : List Bytes → List Err × List Bytes × List Bytes → Type 0
  Settled all ([], running, opened) = (running ≡ all) × AllIn running opened
  Settled all (e ∷ es, running, opened) = opened ≡ []

  roll_back-Settled :
      (all : List Bytes) (e : Err) (es : List Err) (running opened : List Bytes)
      → AllIn running opened
      → Settled all (roll_back answers shut (e ∷ es) running opened)
  roll_back-Settled all e es running opened h = shutdown_all-opened running opened h

  start_one-Settled :
      (all : List Bytes) (a : StartAnswer) (n : Bytes) (running opened : List Bytes)
      (next : List Err × List Bytes × List Bytes)
      → AllIn running opened
      → Settled all next
      → Settled all (start_one answers shut a n running opened next)
  start_one-Settled all consuming n running opened next h s = s
  start_one-Settled all (dial_failed e) n running opened next h s =
      roll_back-Settled all e [] running opened h
  start_one-Settled all (subscribe_failed e) n running opened next h s =
      roll_back-Settled all e (err_of (shut n)) running (close n (n ∷ opened))
        (close_self n running opened h)

  start_all-Settled :
      (all ns running opened : List Bytes)
      → running ++ ns ≡ all
      → AllIn running opened
      → Settled all (start_all answers shut ns running opened)
  unfolding start_all
  start_all-Settled all [] running opened e h = (sym (append-nil running) ∙ e, h)
  start_all-Settled all (n ∷ ns) running opened e h =
      start_one-Settled all (answers n) n running opened _ h (
        start_all-Settled all ns (running ++ n ∷ []) (n ∷ opened)
          (append_assoc running (n ∷ []) ns ∙ e) (in_last n running, more-AllIn n running opened h))

-- A consumer that is not started has no connection and none running; one that is started runs every
-- registered consumer, in the order of the names, and each open connection is of one that runs.
pub record IsSound (c : Consumer) : Type 0 where
  pub idle : c.started ≡ false → (c.opened ≡ []) × (c.running ≡ [])
  pub complete : c.started ≡ true → c.running ≡ names c
  pub owned : c.started ≡ true → AllIn c.running c.opened

new_consumer-IsSound : (name : Bytes) → IsSound (new_consumer name)
new_consumer-IsSound name = record { idle = λ _. (refl, refl); complete = λ h. cc; owned = λ h. cc }

regs-IsSound :
    (rs : List (Bytes × Config)) (c : Consumer)
    → c.started ≡ false
    → IsSound c
    → IsSound (record c { regs = rs })
regs-IsSound rs c off s = record { idle = s.idle; complete = λ on. absurd (cc); owned = s.owned }

store_reg-IsSound :
    (errs : List ConfigError) (n : Bytes) (cfg : Config) (c : Consumer)
    → c.started ≡ false
    → IsSound c
    → IsSound (store_reg errs n cfg c).1
store_reg-IsSound (e ∷ es) n cfg c off s = s
store_reg-IsSound [] n cfg c off s = ground (arith, regs-IsSound _ c off s)

register-IsSound :
    (is_rfc3339 : Bytes → Bool) (cfg : Config) (has_handler : Bool) (c : Consumer)
    → IsSound c
    → IsSound (register is_rfc3339 cfg has_handler c).1
unfolding register
register-IsSound is_rfc3339 cfg has_handler c s =
    either_branch (λ (r : Option RegisterError × Consumer). IsSound r.1) c.started _ _ (λ _. s)
      (λ off.
        either_branch (λ (r : Option RegisterError × Consumer). IsSound r.1) (not has_handler) _ _
          (λ _. s) (λ _. store_reg-IsSound _ _ (set_defaults cfg) c off s))

module _ (answers : Bytes → StartAnswer) (shut : Bytes → Option Err) where
  begin-IsSound :
      (c : Consumer) (r : List Err × List Bytes × List Bytes)
      → c.started ≡ false
      → IsSound c
      → Settled answers shut (names c) r
      → IsSound (begin answers shut c r).1
  begin-IsSound c ([], running, opened) off s (all, own) = record {
    idle = λ h. cc;
    complete = λ _. all;
    owned = λ _. own;
  }
  begin-IsSound c (e ∷ es, running, opened) off s none_open = record {
    idle = λ _. (none_open, (s.idle off).1);
    complete = λ on. absurd cc;
    owned = λ on. absurd cc;
  }

  no_open : (c : Consumer) → c.started ≡ false → IsSound c → AllIn [] c.opened
  no_open c off s = ground (arith, s.idle off)

  start-IsSound : (c : Consumer) → IsSound c → IsSound (start answers shut c).1
  unfolding start
  start-IsSound c s =
      either_branch (λ (r : List Err × Consumer). IsSound r.1) c.started _ _ (λ _. s)
        (λ off.
          begin-IsSound c _ off s
            (start_all-Settled answers shut (names c) (names c) [] c.opened refl (no_open c off s)))

  closed-IsSound :
      (c : Consumer) {opened : List Bytes}
      → opened ≡ []
      → IsSound (record c { running = []; started = false; run_canceled = true; opened = opened })
  closed-IsSound c none_open = record {
    idle = λ _. (none_open, refl);
    complete = λ h. cc;
    owned = λ h. cc;
  }

  shutdown-IsSound : (c : Consumer) → IsSound c → IsSound (shutdown answers shut c).1
  unfolding shutdown
  shutdown-IsSound c s =
      either_branch (λ (r : List Err × Consumer). IsSound r.1) (not c.started) _ _ (λ _. s)
        (λ on.
          closed-IsSound c
            (shutdown_all-opened answers shut c.running c.opened (s.owned (ground arith))))

-- The calls on a consumer, with any answers of the server and of the connections.
pub data Step (is_rfc3339 : Bytes → Bool) (c : Consumer) : Consumer → Type 0 where
  registered :
      (cfg : Config) (has_handler : Bool)
      → Step is_rfc3339 c (register is_rfc3339 cfg has_handler c).1
  started :
      (answers : Bytes → StartAnswer) (shut : Bytes → Option Err)
      → Step is_rfc3339 c (start answers shut c).1
  stopped :
      (answers : Bytes → StartAnswer) (shut : Bytes → Option Err)
      → Step is_rfc3339 c (shutdown answers shut c).1

pub data Reach (is_rfc3339 : Bytes → Bool) (name : Bytes) : Consumer → Type 0 where
  fresh : Reach is_rfc3339 name (new_consumer name)
  then_step :
      {c d : Consumer} → Reach is_rfc3339 name c → Step is_rfc3339 c d → Reach is_rfc3339 name d

module _ (is_rfc3339 : Bytes → Bool) where
  Step-IsSound : {c d : Consumer} → Step is_rfc3339 c d → IsSound c → IsSound d
  Step-IsSound {c} (registered cfg has_handler) s = register-IsSound is_rfc3339 cfg has_handler c s
  Step-IsSound {c} (started answers shut) s = start-IsSound answers shut c s
  Step-IsSound {c} (stopped answers shut) s = shutdown-IsSound answers shut c s

  -- Whatever calls a consumer has seen, and however dialing, subscribing and shutting down ended: while
  -- it is not started, after a failed start and after a shutdown too, no connection is open; while it
  -- is started, all that are registered run, and only they have connections.
  pub Reach-IsSound : {name : Bytes} {c : Consumer} → Reach is_rfc3339 name c → IsSound c
  Reach-IsSound {name} fresh = new_consumer-IsSound name
  Reach-IsSound (then_step r t) = Step-IsSound t (Reach-IsSound r)
