-- ===== src/Db/Statement.antt =====
-- db/db.go: a statement from its named query to its result, and what is told of it. How the driver runs
-- the bound query is a parameter, which returns: panics of a driver are
-- left out. Of an error what errorInfo reads is kept.
pub mod Operation
pub mod Telling
mod Tests
use go_dev_sdk.Prelude.{
  ℕ, suc, Bool, true, false, ◌||◌, List, [], ◌∷◌, ◌++◌, Option, none, some, Bytes, codes, is_empty,
  itoa, if◌then◌else◌,
}
use go_dev_sdk.Db.Driver.{DriverSpec}
use go_dev_sdk.Db.Bind.Values.{Val, Result, ok, err, BindError}
use go_dev_sdk.Db.Bind.{bind_query}
use go_dev_sdk.Db.Statement.Operation.{operation_name}

-- What ends a chain of wrapped errors.
pub data Leaf : Type 0 where
  mysql_error : ℕ → Leaf
  pg_error : Bytes → Leaf
  net_error : Bool → Leaf
  no_rows deadline_exceeded canceled : Leaf
  other : Bytes → Leaf

-- An error that wraps at most one other, as errors.Is and errors.AsType walk it.
pub data Err : Type 0 where
  leaf : Leaf → Err
  wrapped : Err → Err

unfoldable pub leaf_of : Err → Leaf
leaf_of (leaf l) = l
leaf_of (wrapped e) = leaf_of e

abbrev pub is_no_rows : Leaf → Bool
is_no_rows no_rows = true
is_no_rows (mysql_error _) = false
is_no_rows (pg_error _) = false
is_no_rows (net_error _) = false
is_no_rows deadline_exceeded = false
is_no_rows canceled = false
is_no_rows (other _) = false

-- db/drivers.go `errorInfo`: the status code and the error type.
abbrev pub leaf_info : Leaf → Bytes × Bytes
leaf_info (mysql_error n) = (itoa n, itoa n)
leaf_info (pg_error c) = (c, c)
leaf_info (net_error t) = ([], if t then codes "timeout" else codes "_OTHER")
leaf_info deadline_exceeded = ([], codes "timeout")
leaf_info canceled = ([], codes "canceled")
leaf_info no_rows = ([], codes "_OTHER")
leaf_info (other _) = ([], codes "_OTHER")

unfoldable pub error_info : Err → Bytes × Bytes
unfolding leaf_of
error_info e = leaf_info (leaf_of e)

-- What the driver, the span and the metric are told, the last one first.
pub data Told : Type 0 where
  span_started : Bytes → Told
  span_failed : Told
  span_ended : Bytes → Bytes → Bytes → Bytes → Told
  measured : Bytes → Bytes → Bytes → Told
  executed : Bytes → List Val → Told

pub data Outcome : Type 0 where
  not_bound : BindError → Outcome
  ran : Option Err → Outcome

-- The code and the type that `instrument` records: none for no error and for no rows.
abbrev pub outcome_info : Option Err → Bytes × Bytes
outcome_info none = ([], [])
outcome_info (some e) = if is_no_rows (leaf_of e) then ([], []) else error_info e

abbrev pub status : Option Err → List Told → List Told
status none l = l
status (some e) l = if is_no_rows (leaf_of e) then l else span_failed ∷ l

unfoldable pub instrument :
    Bytes → Bytes → List Val → (Bytes → List Val → Option Err) → List Told → Option Err × List Told
unfolding operation_name error_info leaf_of
instrument op query args run l =
    let name = operation_name op query in
    let e = run query args in
    let (code, etype) = outcome_info e in
    (
      e,
      measured name code etype
          ∷ span_ended name query code etype
          ∷ status e (executed query args ∷ span_started name ∷ l),
    )

module _ (named_query : Bytes → Val → Result (Bytes × List Val)) where
  abbrev pub run_bound :
      Bytes
      → (Bytes → List Val → Option Err)
      → Result (Bytes × List Val)
      → List Told
      → Outcome × List Told
  run_bound op run (err e) l = (not_bound e, l)
  run_bound op run (ok (bound, args)) l =
      let (e, l') = instrument op bound args run l in (ran e, l')

  unfoldable pub execute :
      DriverSpec
      → Bytes
      → Bytes
      → Val
      → (Bytes → List Val → Option Err)
      → List Told
      → Outcome × List Told
  unfolding bind_query instrument
  execute d op query arg run l = run_bound op run (bind_query named_query d query arg) l
