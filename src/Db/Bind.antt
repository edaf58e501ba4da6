-- ===== src/Db/Bind.antt =====
-- db/bind.go: slice expansion, rebinding, and `bindQuery` that joins the stages.
pub mod Values
pub mod Weave
pub mod Rebinding
pub mod Expansion
pub mod Query
use go_dev_sdk.Prelude.{
  ℕ, ◌+◌, Bool, true, false, ◌||◌, List, [], ◌∷◌, ◌++◌, Option, none, some, Bytes, codes, length,
  drop, slice, ltb, ◌==◌, if◌then◌else◌, itoa,
}
use go_dev_sdk.Db.Driver.{BindType, question, dollar, named, at, DriverSpec, Dialect}
use go_dev_sdk.Db.Scan.{placeholder_indexes}
use go_dev_sdk.Db.Protect.{protect, restore}
use Values.{
  Val, Vals, nil, cons, Returned, Result, ok, err, BindError, empty_slice, too_few_vars,
  too_many_vars, ◌>>=◌,
}
use Values.{slice_value, call_valuers, vals, is_nil}

-- The round of the loop that asks for slices, for a slice ws; `rest` is what the loop gives after it.
abbrev note_slice : Vals → Result Bool → Result Bool
note_slice nil rest = err empty_slice
note_slice (cons _ _) rest = rest >>= λ _. ok true

-- The loop over the arguments: whether one is a slice, and the refusal of an empty one.
unfoldable pub find_slices : List Val → Result Bool
find_slices [] = ok false
find_slices (arg ∷ args) = elim (slice_value arg) [
  | none ↦ find_slices args
  | some vs ↦ note_slice vs (find_slices args)
]

-- "?, ?, ?" with a '?' for each element.
unfoldable pub marks_for : List Val → Bytes
marks_for [] = []
marks_for (v ∷ []) = codes "?"
marks_for (v ∷ w ∷ vs) = codes "?, " ++ marks_for (w ∷ vs)

-- What one argument writes in place of its placeholder, and what it appends to `flat`.
unfoldable pub expand_arg : Val → Bytes × List Val
unfolding marks_for
expand_arg arg = elim (slice_value arg) [
  | some vs ↦ (marks_for (vals vs), vals vs)
  | none ↦ (codes "?", arg ∷ [])
]

-- The writing loop of `expandSlices`; the arguments are as many as the placeholders.
unfoldable pub expand_loop : Bytes → ℕ → List ℕ → List Val → Bytes × List Val
unfolding expand_arg
expand_loop q prev (idx ∷ marks) (arg ∷ args) =
    let (text, flat) = expand_loop q (idx + 1) marks args in
    (slice prev idx q ++ ((expand_arg arg).0 ++ text), (expand_arg arg).1 ++ flat)
expand_loop q prev _ _ = (drop prev q, [])

unfoldable pub expand_slices : Bytes → List Val → Dialect → Result (Bytes × List Val)
unfolding find_slices expand_loop
expand_slices q args d = do
  args ← call_valuers args
  expanded ← find_slices args
  let marks = placeholder_indexes q d
  if expanded
      then (if ltb (length marks) (length args)
          then err too_few_vars
          else if ltb (length args) (length marks)
          then err too_many_vars
          else ok (expand_loop q 0 marks args))
      else ok (q, args)

-- What `rebind` writes for the k-th placeholder, k counted from 1.
unfoldable pub mark_text : BindType → ℕ → Bytes
mark_text dollar k = codes "$" ++ itoa k
mark_text at k = codes "@p" ++ itoa k
mark_text named k = codes ":arg" ++ itoa k
mark_text question k = codes "?"

-- The loop of `rebind`; i counts the placeholders from 0.
unfoldable pub rebind_loop : Bytes → BindType → ℕ → ℕ → List ℕ → Bytes
unfolding mark_text
rebind_loop q b prev i [] = drop prev q
rebind_loop q b prev i (idx ∷ marks) =
    slice prev idx q ++ (mark_text b (i + 1) ++ rebind_loop q b (idx + 1) (i + 1) marks)

abbrev is_question : BindType → Bool
is_question question = true
is_question _ = false

abbrev no_marks : List ℕ → Bool
no_marks [] = true
no_marks _ = false

unfoldable pub rebind : Bytes → DriverSpec → Bytes
unfolding rebind_loop
rebind q d =
    let marks = placeholder_indexes q d.dialect in
    if is_question d.bind_type
    then q
    else if no_marks marks
    then q
    else rebind_loop q d.bind_type 0 0 marks

-- `sqlx.Named` is the parameter: a query and an argument give a query and its positional arguments.
module _ (named_query : Bytes → Val → Result (Bytes × List Val)) where
  unfoldable pub bind_query : DriverSpec → Bytes → Val → Result (Bytes × List Val)
  unfolding expand_slices rebind
  bind_query d q arg = if is_nil arg then ok (q, []) else (do
    (bound, args) ← named_query (protect q d.dialect) arg
    (bound, args) ← expand_slices (restore bound) args d.dialect
    ok (rebind bound d, args))
