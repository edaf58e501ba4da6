-- ===== src/Observability/Key/Normal.antt =====
-- observability/attributes/attributes.go: a key is normalised once.
use go_dev_sdk.Prelude.{
  either_branch, ℕ, ◌≡◌, refl, ap, ap₂, ◌∙◌, inl, inr, true, false, ◌||◌, ◌==◌, Bool-cases, [], ◌∷◌,
  Bytes, codes, to_lower, lower_byte, contains_byte, replace_byte, arith, All,
}
use go_dev_sdk.Observability.Key.{tidy, is_correlation_key, normalize_key}
use go_dev_sdk.Observability.Key.Tidy.{tidy_idem, tidy-All}

abbrev IsLow : ℕ → Type 0
IsLow c = lower_byte c ≡ c

lower-IsLow : (c : ℕ) → IsLow (lower_byte c)
unfolding lower_byte
lower-IsLow c = ground arith

to_lower-AllLow : (s : Bytes) → All IsLow (to_lower s)
unfolding to_lower
to_lower-AllLow [] = tt
to_lower-AllLow (c ∷ s) = (lower-IsLow c, to_lower-AllLow s)

AllLow-to_lower : (s : Bytes) → All IsLow s → to_lower s ≡ s
unfolding to_lower
AllLow-to_lower [] h = refl
AllLow-to_lower (c ∷ s) h = ap₂ (◌∷◌) h.0 (AllLow-to_lower s h.1)

dot-IsLow : IsLow b'.'
unfolding lower_byte
dot-IsLow = refl

replace-AllLow : (s : Bytes) → All IsLow s → All IsLow (replace_byte b'_' (codes ".") s)
unfolding replace_byte
replace-AllLow [] h = tt
replace-AllLow (c ∷ s) h = elim (Bool-cases (c == b'_')) [
  | inl e ↦ rw e (dot-IsLow, replace-AllLow s h.1)
  | inr e ↦ rw e (h.0, replace-AllLow s h.1)
]

abbrev IsOther : ℕ → Type 0
IsOther c = (c == b'_') ≡ false

replace-AllOther : (s : Bytes) → All IsOther (replace_byte b'_' (codes ".") s)
unfolding replace_byte
replace-AllOther [] = tt
replace-AllOther (c ∷ s) = elim (Bool-cases (c == b'_')) [
  | inl e ↦ rw e (refl, replace-AllOther s)
  | inr e ↦ rw e (e, replace-AllOther s)
]

AllOther-replace : (s : Bytes) → All IsOther s → replace_byte b'_' (codes ".") s ≡ s
unfolding replace_byte
AllOther-replace [] h = refl
AllOther-replace (c ∷ s) h = rw h.0 (ap (◌∷◌ c) (AllOther-replace s h.1))

-- A key that the first step leaves as it is.
clean : (k : Bytes) → All IsLow k → tidy k ≡ k → tidy (to_lower k) ≡ k
clean k low t = ap tidy (AllLow-to_lower k low) ∙ t

kept :
    (k : Bytes)
    → tidy (to_lower k) ≡ k
    → (is_correlation_key k || contains_byte b'.' k) ≡ true
    → normalize_key k ≡ k
unfolding normalize_key
kept k c h =
    rw (c, normalize_key)
      (elim (Bool-cases (is_correlation_key k)) [
        | inl e ↦ rw e refl
        | inr e ↦ elim (Bool-cases (contains_byte b'.' k)) [
          | inl f ↦ rw (e, f) refl
          | inr f ↦ absurd (ground (arith, h))
        ]
      ])

replaced :
    (k : Bytes)
    → tidy (to_lower k) ≡ k
    → replace_byte b'_' (codes ".") k ≡ k
    → tidy k ≡ k
    → normalize_key k ≡ k
unfolding normalize_key
replaced k c r t =
    rw (c, normalize_key)
      (elim (Bool-cases (is_correlation_key k)) [
        | inl e ↦ rw e refl
        | inr e ↦ elim (Bool-cases (contains_byte b'.' k)) [
          | inl f ↦ rw (e, f) refl
          | inr f ↦ rw (e, f, r) t
        ]
      ])

-- Normalising a key that was normalised changes nothing.
pub normalize_key_idem : (key : Bytes) → normalize_key (normalize_key key) ≡ normalize_key key
unfolding normalize_key
normalize_key_idem key =
    let k = tidy (to_lower key) in
    let low : All IsLow k = tidy-All IsLow (to_lower key) (to_lower-AllLow key) in
    let first : tidy (to_lower k) ≡ k = clean k low (tidy_idem (to_lower key)) in
    let dotted = replace_byte b'_' (codes ".") k in
    let r = tidy dotted in
    let settled : normalize_key r ≡ r =
      replaced r (clean r (tidy-All IsLow dotted (replace-AllLow k low)) (tidy_idem dotted))
        (AllOther-replace r (tidy-All IsOther dotted (replace-AllOther k))) (tidy_idem dotted) in
    either_branch (λ (n : Bytes). normalize_key n ≡ n) (is_correlation_key k) _ _
      (λ e. kept k first (ground (arith, e)))
      (λ _.
        either_branch (λ (n : Bytes). normalize_key n ≡ n) (contains_byte b'.' k) _ _
          (λ f. kept k first (ground (arith, f))) (λ _. settled))
