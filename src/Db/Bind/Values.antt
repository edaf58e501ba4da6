-- ===== src/Db/Bind/Values.antt =====
-- db/bind.go: the argument values as `reflect` sees them, and the results of binding.
use go_dev_sdk.Prelude.{
  ℕ, ◌≡◌, refl, ◌⊎◌, inl, inr, Bool, true, false, List, [], ◌∷◌, Option, none, some, Bytes,
}

pub data BindError : Type 0 where
  named_failed valuer_failed : Bytes → BindError
  empty_slice too_few_vars too_many_vars : BindError

pub data Result {ℓ} (A : Type ℓ) : Type ℓ where
  ok : A → Result A
  err : BindError → Result A

infixl 5 ◌>>=◌
abbrev pub ◌>>=◌ {ℓ κ} : {A : Type ℓ} {B : Type κ} → Result A → (A → Result B) → Result B
ok a >>= f = f a
err e >>= f = err e

pub Result-cases {ℓ} :
    {A : Type ℓ} (r : Result A) → ((a : A) × (r ≡ ok a)) ⊎ ((e : BindError) × (r ≡ err e))
Result-cases (ok a) = inl (a, refl)
Result-cases (err e) = inr (e, refl)

-- A value of type `any`. `opaque k` is any value that is no pointer, slice or Valuer; `valuer b r` is
-- a driver.Valuer whose Value method returns r, and b says that it is a nil pointer whose element
-- type has the method.
mutual
  pub data Val : Type 0 where
    null : Val
    opaque : ℕ → Val
    bytes : Bytes → Val
    sequence : Vals → Val
    null_pointer : Val
    pointer : Val → Val
    valuer : Bool → Returned → Val

  pub data Vals : Type 0 where
    nil : Vals
    cons : Val → Vals → Vals

  pub data Returned : Type 0 where
    value : Val → Returned
    failed : Bytes → Returned

abbrev pub vals : Vals → List Val
vals nil = []
vals (cons v vs) = v ∷ vals vs

abbrev pub is_nil : Val → Bool
is_nil null = true
is_nil _ = false

-- `sliceValue`: none is the second result false.
unfoldable pub slice_value : Val → Option Vals
slice_value (sequence vs) = some vs
slice_value (pointer v) = slice_value v
slice_value null = none
slice_value (opaque k) = none
slice_value (bytes b) = none
slice_value null_pointer = none
slice_value (valuer b r) = none

unfoldable pub call_valuer : Bool → Returned → Result Val
call_valuer true r = ok null
call_valuer false (value v) = ok v
call_valuer false (failed e) = err (valuer_failed e)

-- The round for one argument, and the first loop of `expandSlices`.
unfoldable pub resolve : Val → Result Val
unfolding call_valuer
resolve (valuer b r) = call_valuer b r
resolve v = ok v

unfoldable pub call_valuers : List Val → Result (List Val)
unfolding resolve
call_valuers [] = ok []
call_valuers (arg ∷ args) = do v ← resolve arg; vs ← call_valuers args; ok (v ∷ vs)
