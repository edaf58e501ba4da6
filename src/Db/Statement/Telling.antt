-- ===== src/Db/Statement/Telling.antt =====
-- db/db.go: what a statement tells, by the outcome of its binding and its run.
use go_dev_sdk.Prelude.{
  ℕ, ◌+◌, ◌≡◌, refl, Bool, true, false, List, [], ◌∷◌, Option, none, some, Bytes, arith,
  if◌then◌else◌,
}
use go_dev_sdk.Db.Driver.{DriverSpec}
use go_dev_sdk.Db.Bind.Values.{Val, Result, ok, err}
use go_dev_sdk.Db.Bind.{bind_query}
use go_dev_sdk.Db.Statement.Operation.{operation_name}
use go_dev_sdk.Db.Statement.{
  Err, leaf_of, is_no_rows, Told, span_started, span_failed, span_ended, measured, executed,
  Outcome, not_bound, ran, instrument, execute, status, run_bound,
}

abbrev pub is_start : Told → Bool
is_start (span_started _) = true
is_start span_failed = false
is_start (span_ended _ _ _ _) = false
is_start (measured _ _ _) = false
is_start (executed _ _) = false

abbrev pub is_end : Told → Bool
is_end (span_started _) = false
is_end span_failed = false
is_end (span_ended _ _ _ _) = true
is_end (measured _ _ _) = false
is_end (executed _ _) = false

abbrev pub is_measure : Told → Bool
is_measure (span_started _) = false
is_measure span_failed = false
is_measure (span_ended _ _ _ _) = false
is_measure (measured _ _ _) = true
is_measure (executed _ _) = false

abbrev pub is_run : Told → Bool
is_run (span_started _) = false
is_run span_failed = false
is_run (span_ended _ _ _ _) = false
is_run (measured _ _ _) = false
is_run (executed _ _) = true

abbrev pub is_failure : Told → Bool
is_failure (span_started _) = false
is_failure span_failed = true
is_failure (span_ended _ _ _ _) = false
is_failure (measured _ _ _) = false
is_failure (executed _ _) = false

abbrev pub count : (Told → Bool) → List Told → ℕ
count p [] = 0
count p (t ∷ l) = (if p t then 1 else 0) + count p l

-- One for a query that was bound.
abbrev pub bound_count : Result (Bytes × List Val) → ℕ
bound_count (ok _) = 1
bound_count (err _) = 0

-- One for an error of the run other than sql.ErrNoRows.
abbrev pub failure_count : Outcome → ℕ
failure_count (not_bound _) = 0
failure_count (ran none) = 0
failure_count (ran (some e)) = if is_no_rows (leaf_of e) then 0 else 1

abbrev pub TellsOnce : ℕ → Outcome × List Told → List Told → Type 0
TellsOnce k r l =
    (count is_run r.1 ≡ k + count is_run l)
    × (count is_start r.1 ≡ k + count is_start l)
    × (count is_end r.1 ≡ k + count is_end l)
    × (count is_measure r.1 ≡ k + count is_measure l)
    × (count is_failure r.1 ≡ failure_count r.0 + count is_failure l)

status-counts :
    (e : Option Err) (l : List Told)
    → (count is_run (status e l) ≡ count is_run l)
      × (count is_start (status e l) ≡ count is_start l)
      × (count is_end (status e l) ≡ count is_end l)
      × (count is_measure (status e l) ≡ count is_measure l)
      × (count is_failure (status e l) ≡ failure_count (ran e) + count is_failure l)
status-counts none l = (refl, refl, refl, refl, omega arith)
status-counts (some e) l = ground arith

module _ (named_query : Bytes → Val → Result (Bytes × List Val)) where
  run_bound-TellsOnce :
      (op : Bytes) (run : Bytes → List Val → Option Err) (b : Result (Bytes × List Val))
      (l : List Told)
      → TellsOnce (bound_count b) (run_bound named_query op run b l) l
  unfolding instrument
  run_bound-TellsOnce op run (err e) l =
      (omega arith, omega arith, omega arith, omega arith, omega arith)
  run_bound-TellsOnce op run (ok (bound, args)) l =
      let before = executed bound args ∷ span_started (operation_name op bound) ∷ l in
      let (a, b, c, d, f) = status-counts (run bound args) before in
      (omega (arith, a), omega (arith, b), omega (arith, c), omega (arith, d), omega (arith, f))

  -- A statement whose query cannot be bound does not run and tells nothing. Any other runs once, in one
  -- span, which starts and ends, and with one measurement; and the span has failed exactly if the run
  -- gave an error other than sql.ErrNoRows.
  pub execute-TellsOnce :
      (d : DriverSpec) (op query : Bytes) (arg : Val) (run : Bytes → List Val → Option Err)
      (l : List Told)
      → TellsOnce
          (bound_count (bind_query named_query d query arg))
          (execute named_query d op query arg run l)
          l
  unfolding execute
  execute-TellsOnce d op query arg run l =
      run_bound-TellsOnce op run (bind_query named_query d query arg) l
