-- ===== src/Db/Bind/Expansion.antt =====
-- db/bind.go: `expandSlices` keeps placeholders and arguments in step.
use go_dev_sdk.Prelude.{
  ℕ, ◌+◌, ◌≤◌, ◌<◌, ◌≡◌, ◌≢◌, ◌↔◌, refl, ap, ◌⊎◌, inl, inr, Bool, true, false, List, [], ◌∷◌, ◌++◌,
  some, arith, Bytes, byte_at, length, length-append, drop, slice, ltb, ◌==◌, if◌then◌else◌,
  Option-cases,
}
use go_dev_sdk.Db.Driver.{Dialect}
use go_dev_sdk.Db.Scan.{placeholder_indexes}
use go_dev_sdk.Db.Scan.Placeholders.{Marks, placeholder_indexes-Marks}
use go_dev_sdk.Db.Bind.Values.{
  Val, Vals, nil, cons, Result, ok, err, empty_slice, too_few_vars, too_many_vars, Result-cases,
  vals, slice_value, resolve, call_valuers,
}
use go_dev_sdk.Db.Bind.{note_slice, find_slices, marks_for, expand_arg, expand_loop, expand_slices}
use go_dev_sdk.Db.Bind.Weave.{drop-split}

-- How often '?' stands in a text.
unfoldable pub count_marks : Bytes → ℕ
count_marks [] = 0
count_marks (c ∷ s) = (if c == b'?' then 1 else 0) + count_marks s

count_marks-append : (s t : Bytes) → count_marks (s ++ t) ≡ count_marks s + count_marks t
unfolding count_marks
count_marks-append [] t = omega arith
count_marks-append (c ∷ s) t = omega (arith, count_marks-append s t)

count_marks-marks_for : (vs : List Val) → count_marks (marks_for vs) ≡ length vs
unfolding count_marks marks_for
count_marks-marks_for [] = refl
count_marks-marks_for (v ∷ []) = refl
count_marks-marks_for (v ∷ w ∷ vs) = omega (arith, count_marks-marks_for (w ∷ vs))

expand_arg_step : (arg : Val) → count_marks (expand_arg arg).0 ≡ length (expand_arg arg).1
unfolding expand_arg
expand_arg_step arg = elim (Option-cases (slice_value arg)) [
  | inl e ↦ rw (e, expand_arg) (unfold count_marks in refl)
  | inr (vs, e) ↦ rw (e, expand_arg) (count_marks-marks_for (vals vs))
]

count_marks-split :
    (q : Bytes) (i m : ℕ)
    → i ≤ m
    → m < length q
    → byte_at q m ≡ b'?'
    → count_marks (drop i q) ≡ count_marks (slice i m q) + 1 + count_marks (drop (m + 1) q)
unfolding count_marks
count_marks-split q i m le lt e = omega (
  arith,
  ap count_marks (drop-split q i m b'?' le lt e),
  count_marks-append (slice i m q) (b'?' ∷ drop (m + 1) q),
)

expand_loop_count :
    (q : Bytes) (prev : ℕ) (marks : List ℕ) (args : List Val)
    → length marks ≡ length args
    → Marks q prev (length q) marks
    → count_marks (expand_loop q prev marks args).0 + length args
      ≡ count_marks (drop prev q) + length (expand_loop q prev marks args).1
unfolding expand_loop
expand_loop_count q prev [] [] e m = omega arith
expand_loop_count q prev [] (a ∷ args) e m = absurd (omega arith)
expand_loop_count q prev (i ∷ marks) [] e m = absurd (omega arith)
expand_loop_count q prev (i ∷ marks) (arg ∷ args) e (le, lt, mark, m) =
    let (text, flat) = expand_loop q (i + 1) marks args in
    omega (
      arith,
      count_marks-append (slice prev i q)
          ((expand_arg arg).0 ++ (expand_loop q (i + 1) marks args).0),
      count_marks-append (expand_arg arg).0 (expand_loop q (i + 1) marks args).0,
      length-append (expand_arg arg).1 (expand_loop q (i + 1) marks args).1,
      expand_arg_step arg,
      count_marks-split q prev i le lt mark,
      expand_loop_count q (i + 1) marks args (omega arith) m,
    )

length-call_valuers :
    (args : List Val) {vs : List Val} → call_valuers args ≡ ok vs → length vs ≡ length args
unfolding call_valuers
length-call_valuers [] e = ground arith
length-call_valuers (arg ∷ args) {vs} e = elim (Result-cases (resolve arg)) [
  | inr (x, bad) ↦ absurd (cc (rw (bad, call_valuers) at e))
  | inl (v, good) ↦ elim (Result-cases (call_valuers args)) [
    | inr (x, bad) ↦ absurd (cc (rw (good, bad, call_valuers) at e))
    | inl (ws, rest) ↦
        let same : ok (v ∷ ws) ≡ ok vs = rw (good, rest, call_valuers) at e in
        let grown : length ws ≡ length args = length-call_valuers args rest in ground arith
  ]
]

abbrev expand_checked : Bytes → Dialect → Bool → List Val → Result (Bytes × List Val)
expand_checked q d expanded args =
    if expanded
    then (if ltb (length (placeholder_indexes q d)) (length args)
        then err too_few_vars
        else if ltb (length args) (length (placeholder_indexes q d))
        then err too_many_vars
        else ok (expand_loop q 0 (placeholder_indexes q d) args))
    else ok (q, args)

expanded_count :
    (expanded : Bool) (q : Bytes) (d : Dialect) (args vs : List Val) (text : Bytes)
    (flat : List Val)
    → length vs ≡ length args
    → expand_checked q d expanded vs ≡ ok (text, flat)
    → count_marks text + length args ≡ count_marks q + length flat
expanded_count false q d args vs text flat same e = ground arith
expanded_count true q d args vs text flat same e = ground (
  arith,
  λ (h : length (placeholder_indexes q d) ≡ length vs).
      expand_loop_count q 0 (placeholder_indexes q d) vs h (placeholder_indexes-Marks q d),
)

-- Whatever branch it takes, an accepted expansion gives each new argument a '?' of its own: the text
-- gains as many as the argument list grows by.
pub expand_slices_count :
    (q : Bytes) (args : List Val) (d : Dialect) (text : Bytes) (flat : List Val)
    → expand_slices q args d ≡ ok (text, flat)
    → count_marks text + length args ≡ count_marks q + length flat
unfolding expand_slices
expand_slices_count q args d text flat e = elim (Result-cases (call_valuers args)) [
  | inr (x, bad) ↦ absurd (cc (rw (bad, expand_slices) at e))
  | inl (vs, good) ↦ elim (Result-cases (find_slices vs)) [
    | inr (x, bad) ↦ absurd (cc (rw (good, bad, expand_slices) at e))
    | inl (expanded, found) ↦
        expanded_count expanded q d args vs text flat (length-call_valuers args good)
          (rw (good, found, expand_slices) at e)
  ]
]

-- Some argument is an empty slice, perhaps behind pointers.
abbrev pub HasEmpty : List Val → Type 0
HasEmpty [] = ⊥
HasEmpty (v ∷ vs) = (slice_value v ≡ some nil) ⊎ HasEmpty vs

-- The round for a slice ws, with r for what the rest of the loop gives.
sliced_iff :
    (ws : Vals) (r : Result Bool) (vs : List Val)
    → (r ≡ err empty_slice) ↔ HasEmpty vs
    → (note_slice ws r ≡ err empty_slice) ↔ ((some ws ≡ some nil) ⊎ HasEmpty vs)
sliced_iff nil r vs ih = (λ _. inl refl, λ _. refl)
sliced_iff (cons w ws) (ok b) vs ih = ground (arith, ih)
sliced_iff (cons w ws) (err x) vs ih = ground (arith, ih)

find_slices_iff : (vs : List Val) → (find_slices vs ≡ err empty_slice) ↔ HasEmpty vs
unfolding find_slices
find_slices_iff [] = ground arith
find_slices_iff (v ∷ vs) = elim (Option-cases (slice_value v)) [
  | inl e ↦ rw (e, find_slices) (ground (arith, find_slices_iff vs))
  | inr (ws, e) ↦ rw (e, find_slices) (sliced_iff ws (find_slices vs) vs (find_slices_iff vs))
]

checked-ne-empty :
    (q : Bytes) (d : Dialect) (b : Bool) (vs : List Val) → expand_checked q d b vs ≢ err empty_slice
checked-ne-empty q d b vs = ground arith

-- Once the Valuers are resolved, the expansion fails for an empty slice exactly when an argument is
-- one: no empty "IN ()" is ever built, and nothing else is refused for this.
pub expand_slices-empty_iff :
    (q : Bytes) (args vs : List Val) (d : Dialect)
    → call_valuers args ≡ ok vs
    → (expand_slices q args d ≡ err empty_slice) ↔ HasEmpty vs
unfolding expand_slices
expand_slices-empty_iff q args vs d good = elim (Result-cases (find_slices vs)) [
  | inr (x, bad) ↦ rw (good, bad, expand_slices) (ground (arith, find_slices_iff vs))
  | inl (b, found) ↦
      rw (good, found, expand_slices)
        ((λ e. absurd (checked-ne-empty q d b vs e)), (λ h. cc ((find_slices_iff vs).1 h)))
]
