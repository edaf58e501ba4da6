-- ===== src/Prelude/Loops.antt =====
-- Go's `for i := start; i < n; { ... }` over an index that the body moves forward: a round goes on
-- at a later index with a new state, or returns. The fuel bounds the rounds.
use Prim.Native.Nat.{ℕ, zero, suc, ◌-◌, ◌≤◌, ◌<◌}
use mathlib.Core.Path.{◌≡◌, refl}
use mathlib.Core.Bool.{true, false}
use mathlib.Core.Logic.{inl, inr}
use native.Mathlib.Omega.{arith}
use go_dev_sdk.Prelude.Tests.{ltb, ltb→lt, ltb→le, le→ltb, Bool-cases}

pub data Next {ℓ κ} (S : Type ℓ) (R : Type κ) : Type (ℓ ⊔ κ) where
  goto : ℕ → S → Next S R
  done : R → Next S R

module _ {ℓ κ} {S : Type ℓ} {R : Type κ} where
  abbrev pub resume : (ℕ → S → R) → Next S R → R
  resume next (goto j s) = next j s
  resume next (done r) = r

  -- What holds after a round: it went forward and kept P, or its result satisfies Q.
  abbrev pub After {μ} : (ℕ → S → Type μ) → (R → Type μ) → ℕ → Next S R → Type μ
  After P Q i (goto j s) = (i < j) × P j s
  After P Q i (done r) = Q r

  resume_After {μ} :
      (P : ℕ → S → Type μ) (Q : R → Type μ) (next : ℕ → S → R) (i : ℕ) (x : Next S R)
      → ((j : ℕ) (s : S) → i < j → P j s → Q (next j s))
      → After P Q i x
      → Q (resume next x)
  resume_After P Q next i (goto j s) rest a = rest j s a.0 a.1
  resume_After P Q next i (done r) rest a = a

module _ {ℓ κ} {S : Type ℓ} {R : Type κ} (n : ℕ) (exit : S → R) (body : ℕ → S → Next S R) where
  unfoldable pub loop : ℕ → ℕ → S → R
  loop zero i s = exit s
  loop (suc fuel) i s = elim (ltb i n) [ false ↦ exit s | true ↦ resume (loop fuel) (body i s) ]

  -- With as much fuel as the range is long, the result satisfies Q.
  pub loop_inv {μ} :
      (P : ℕ → S → Type μ) (Q : R → Type μ)
      → ((i : ℕ) (s : S) → i < n → P i s → After P Q i (body i s))
      → ((i : ℕ) (s : S) → n ≤ i → P i s → Q (exit s))
      → (fuel i : ℕ) (s : S) → n - i ≤ fuel
      → P i s
      → Q (loop fuel i s)
  unfolding loop
  loop_inv P Q keep end zero i s m h = end i s (omega arith) h
  loop_inv P Q keep end (suc fuel) i s m h = elim (Bool-cases (ltb i n)) [
    | inl more ↦
        let lt : i < n = ltb→lt i n more in
        rw (more, loop)
          (resume_After P Q (loop fuel) i (body i s)
            (λ j s' ij p. loop_inv P Q keep end fuel j s' (omega arith) p) (keep i s lt h))
    | inr over ↦ rw (over, loop) (end i s (ltb→le i n over) h)
  ]

  abbrev pub Progresses : Type (ℓ ⊔ κ)
  Progresses = (i j : ℕ) (s s' : S) → i < n → body i s ≡ goto j s' → i < j

  resume_same :
      (f g : ℕ → S → R) (x : Next S R)
      → ((j : ℕ) (s : S) → x ≡ goto j s → f j s ≡ g j s)
      → resume f x ≡ resume g x
  resume_same f g (goto j s) same = same j s refl
  resume_same f g (done r) same = refl

  -- More fuel than the range is long changes nothing.
  pub loop_fuel : Progresses → (f g i : ℕ) (s : S) → n - i ≤ f → n - i ≤ g → loop f i s ≡ loop g i s
  unfolding loop
  loop_fuel p zero zero i s hf hg = refl
  loop_fuel p zero (suc g) i s hf hg = rw (le→ltb i n (omega arith), loop)
  loop_fuel p (suc f) zero i s hf hg = rw (le→ltb i n (omega arith), loop)
  loop_fuel p (suc f) (suc g) i s hf hg = elim (Bool-cases (ltb i n)) [
    | inl more ↦
        let lt : i < n = ltb→lt i n more in
        rw (more, loop)
          (resume_same (loop f) (loop g) (body i s) (λ j s' e.
            let ij : i < j = p i j s s' lt e in loop_fuel p f g j s' (omega arith) (omega arith)))
    | inr over ↦ rw (over, loop)
  ]
