-- ===== src/Prelude/Int.antt =====
-- Go's int and time.Duration as integers without a width, and their comparisons.
use go_dev_sdk.Prelude.{Bytes, itoa, ◌∷◌, ℕ, suc, ◌+◌, ◌≤◌, Bool, ltb, leb, if◌then◌else◌}

-- `negsuc n` is -(n + 1).
pub data ℤ : Type 0 where
  pos : ℕ → ℤ
  negsuc : ℕ → ℤ

abbrev pub pos_part : ℤ → ℕ
pos_part (pos n) = n
pos_part (negsuc n) = 0

abbrev pub neg_part : ℤ → ℕ
neg_part (pos n) = 0
neg_part (negsuc n) = suc n

infix 50 ◌≤ℤ◌
abbrev pub ◌≤ℤ◌ : ℤ → ℤ → Type 0
a ≤ℤ b = pos_part a + neg_part b ≤ pos_part b + neg_part a

abbrev pub ltb_ℤ : ℤ → ℤ → Bool
ltb_ℤ a b = ltb (pos_part a + neg_part b) (pos_part b + neg_part a)

abbrev pub leb_ℤ : ℤ → ℤ → Bool
leb_ℤ a b = leb (pos_part a + neg_part b) (pos_part b + neg_part a)

abbrev pub is_negative : ℤ → Bool
is_negative (pos n) = Bool.false
is_negative (negsuc n) = Bool.true

-- `n == 0` and `n <= 0`.
abbrev pub is_zero : ℤ → Bool
is_zero (pos n) = leb n 0
is_zero (negsuc n) = Bool.false

abbrev pub not_positive : ℤ → Bool
not_positive (pos n) = leb n 0
not_positive (negsuc n) = Bool.true

-- `if v == 0 { v = d }` and `if v <= 0 { v = d }`.
abbrev pub or_if_zero : ℤ → ℤ → ℤ
or_if_zero v d = if is_zero v then d else v

abbrev pub or_if_not_positive : ℤ → ℤ → ℤ
or_if_not_positive v d = if not_positive v then d else v

-- strconv.Itoa(n).
abbrev pub itoa_int : ℤ → Bytes
itoa_int (pos n) = itoa n
itoa_int (negsuc n) = b'-' ∷ itoa (suc n)
