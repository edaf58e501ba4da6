-- ===== src/Prelude/Lists.antt =====
-- Lists measured and indexed by native numbers, under the library's names, and predicates on them.
use Prim.Native.Nat.{ℕ, zero, suc, ◌+◌, ◌-◌, ◌≤◌, ◌<◌, min}
use mathlib.Core.Path.{◌≡◌, refl, ap, ◌∙◌}
use mathlib.Core.Bool.{Bool, true, false}
use mathlib.Core.Logic.{◌↔◌}
use mathlib.Core.List.{List, [], ◌∷◌, ◌++◌}
use native.Mathlib.Omega.{arith}
use go_dev_sdk.Prelude.Tests.{if◌then◌else◌}

module _ {ℓ} {A : Type ℓ} where
  abbrev pub length : List A → ℕ
  length [] = 0
  length (x ∷ xs) = suc (length xs)

  abbrev pub get_or : List A → ℕ → A → A
  get_or [] i d = d
  get_or (x ∷ xs) zero d = x
  get_or (x ∷ xs) (suc i) d = get_or xs i d

  abbrev pub take : ℕ → List A → List A
  take zero xs = []
  take (suc n) [] = []
  take (suc n) (x ∷ xs) = x ∷ take n xs

  abbrev pub drop : ℕ → List A → List A
  drop zero xs = xs
  drop (suc n) [] = []
  drop (suc n) (x ∷ xs) = drop n xs

  pub length-append : (xs ys : List A) → length (xs ++ ys) ≡ length xs + length ys
  length-append [] ys = omega arith
  length-append (x ∷ xs) ys = omega (arith, length-append xs ys)

  pub length-take : (n : ℕ) (xs : List A) → length (take n xs) ≡ min n (length xs)
  length-take zero xs = omega arith
  length-take (suc n) [] = omega arith
  length-take (suc n) (x ∷ xs) = omega (arith, length-take n xs)

  pub length-drop : (n : ℕ) (xs : List A) → length (drop n xs) ≡ length xs - n
  length-drop zero xs = omega arith
  length-drop (suc n) [] = omega arith
  length-drop (suc n) (x ∷ xs) = omega (arith, length-drop n xs)

  pub take-append-drop : (n : ℕ) (xs : List A) → take n xs ++ drop n xs ≡ xs
  take-append-drop zero xs = refl
  take-append-drop (suc n) [] = refl
  take-append-drop (suc n) (x ∷ xs) = rw (take-append-drop n xs)

  pub take_all : (n : ℕ) (xs : List A) → length xs ≤ n → take n xs ≡ xs
  take_all zero [] h = refl
  take_all zero (x ∷ xs) h = absurd (omega arith)
  take_all (suc n) [] h = refl
  take_all (suc n) (x ∷ xs) h = ap (◌∷◌ x) (take_all n xs (omega arith))

  pub drop_all : (n : ℕ) (xs : List A) → length xs ≤ n → drop n xs ≡ []
  drop_all zero [] h = refl
  drop_all zero (x ∷ xs) h = absurd (omega arith)
  drop_all (suc n) [] h = refl
  drop_all (suc n) (x ∷ xs) h = drop_all n xs (omega arith)

  -- What Go writes xs[i:j], for i ≤ j ≤ len(xs).
  abbrev pub slice : ℕ → ℕ → List A → List A
  slice i j xs = take (j - i) (drop i xs)

  take_nil : (n : ℕ) → take n [] ≡ []
  take_nil zero = refl
  take_nil (suc n) = refl

  pub take-slice : (i j : ℕ) (xs : List A) → i ≤ j → take i xs ++ slice i j xs ≡ take j xs
  take-slice zero j xs h = ap (λ (n : ℕ). take n xs) (omega arith)
  take-slice (suc i) zero xs h = absurd (omega arith)
  take-slice (suc i) (suc j) [] h = take_nil (suc j - suc i)
  take-slice (suc i) (suc j) (x ∷ xs) h = ap (◌∷◌ x) (
      ap (λ (n : ℕ). take i xs ++ take n (drop i xs)) (omega arith)
      ∙ take-slice i j xs (omega arith))

  pub slice-drop : (i j : ℕ) (xs : List A) → i ≤ j → slice i j xs ++ drop j xs ≡ drop i xs
  slice-drop zero j xs h =
      ap (λ (n : ℕ). take n xs ++ drop j xs) (let e : j - 0 ≡ j = omega arith in e)
      ∙ take-append-drop j xs
  slice-drop (suc i) zero xs h = absurd (omega arith)
  slice-drop (suc i) (suc j) [] h = ap (λ (t : List A). t ++ []) (take_nil (suc j - suc i))
  slice-drop (suc i) (suc j) (x ∷ xs) h =
      ap (λ (n : ℕ). take n (drop i xs) ++ drop j xs)
        (let e : suc j - suc i ≡ j - i = omega arith in e)
      ∙ slice-drop i j xs (omega arith)

  pub drop-get :
      (i : ℕ) (xs : List A) (d : A) → i < length xs → drop i xs ≡ get_or xs i d ∷ drop (suc i) xs
  drop-get i [] d h = absurd (omega arith)
  drop-get zero (x ∷ xs) d h = refl
  drop-get (suc i) (x ∷ xs) d h = drop-get i xs d (omega arith)

  pub take-suc :
      (i : ℕ) (xs : List A) (d : A)
      → i < length xs
      → take (suc i) xs ≡ take i xs ++ get_or xs i d ∷ []
  take-suc i [] d h = absurd (omega arith)
  take-suc zero (x ∷ xs) d h = refl
  take-suc (suc i) (x ∷ xs) d h = ap (◌∷◌ x) (take-suc i xs d (omega arith))

module _ {ℓ κ} {A : Type ℓ} (P : A → Type κ) where
  abbrev pub All : List A → Type κ
  All [] = Unit
  All (x ∷ xs) = P x × All xs

  pub All-append : (xs ys : List A) → All xs → All ys → All (xs ++ ys)
  All-append [] ys hx hy = hy
  All-append (x ∷ xs) ys hx hy = (hx.0, All-append xs ys hx.1 hy)

  pub All-take : (n : ℕ) (xs : List A) → All xs → All (take n xs)
  All-take zero xs h = tt
  All-take (suc n) [] h = tt
  All-take (suc n) (x ∷ xs) h = (h.0, All-take n xs h.1)

  pub All-drop : (n : ℕ) (xs : List A) → All xs → All (drop n xs)
  All-drop zero xs h = h
  All-drop (suc n) [] h = tt
  All-drop (suc n) (x ∷ xs) h = All-drop n xs h.1

-- The errors whose tests hold, in order: the source's `if test { errs = append(errs, e) }` in a row.
-- An empty list is `errors.Join()` of none, which is nil.
module _ {ℓ} {E : Type ℓ} where
  unfoldable pub reports : List (Bool × E) → List E
  reports [] = []
  reports ((test, e) ∷ rest) = let more = reports rest in if test then e ∷ more else more

  pub reports-nil_iff : (l : List (Bool × E)) → (reports l ≡ []) ↔ All (λ t. t.0 ≡ false) l
  unfolding reports
  reports-nil_iff [] = (λ _. tt, λ _. refl)
  reports-nil_iff ((true, e) ∷ rest) = (λ h. cc, λ h. cc)
  reports-nil_iff ((false, e) ∷ rest) =
      (λ h. (refl, (reports-nil_iff rest).0 h), λ h. (reports-nil_iff rest).1 h.1)

  pub append-nil_iff : (a b : List E) → (a ++ b ≡ []) ↔ ((a ≡ []) × (b ≡ []))
  append-nil_iff [] b = (λ h. (refl, h), λ h. h.1)
  append-nil_iff (x ∷ a) b = (λ h. cc, λ h. cc)
