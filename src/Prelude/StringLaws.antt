-- ===== src/Prelude/StringLaws.antt =====
-- What the string functions give their callers: where a search can end, and that a number has digits.
use go_dev_sdk.Prelude.Strings.{itoa_from}
use go_dev_sdk.Prelude.{
  zero, suc, ◌/◌, ◌%◌, refl, false, is_empty, itoa, ℕ, ◌+◌, ◌≤◌, ◌≡◌, true, [], ◌∷◌, some, inl, inr,
  arith, Bytes, length, starts_with, index_of, Bool-cases, Option-cases,
}

starts_with-le : (s p : Bytes) → starts_with s p ≡ true → length p ≤ length s
unfolding starts_with
starts_with-le s [] h = omega arith
starts_with-le [] (y ∷ p) h = cc
starts_with-le (x ∷ s) (y ∷ p) h = ground (arith, starts_with-le s p)

-- A found piece lies within the text.
pub index_of-le : (p s : Bytes) (k : ℕ) → index_of p s ≡ some k → k + length p ≤ length s
unfolding index_of
index_of-le p [] k e = ground (arith, starts_with-le [] p)
index_of-le p (x ∷ s) k e = elim (Bool-cases (starts_with (x ∷ s) p)) [
  | inl hit ↦ let le : length p ≤ length (x ∷ s) = starts_with-le (x ∷ s) p hit in ground arith
  | inr miss ↦ elim (Option-cases (index_of p s)) [
    | inl none_left ↦ ground arith
    | inr (j, found) ↦ ground (arith, index_of-le p s j found)
  ]
]

itoa_from_full : (fuel n x : ℕ) (out : Bytes) → is_empty (itoa_from fuel n (x ∷ out)) ≡ false
unfolding itoa_from
itoa_from_full zero n x out = refl
itoa_from_full (suc fuel) n x out =
    ground (arith, itoa_from_full fuel (n / 10) (b'0' + n % 10) (x ∷ out))

pub itoa_full : (n : ℕ) → is_empty (itoa n) ≡ false
unfolding itoa itoa_from
itoa_full n = ground (arith, itoa_from_full n (n / 10) (b'0' + n % 10) [])
