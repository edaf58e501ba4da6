-- ===== src/Prelude/Strings.antt =====
-- Go strings as lists of bytes, and the functions of package strings that the sources use. The case
-- and space rules are those of ASCII: a byte of 128 or more is kept and is no space.
use Prim.Native.Char.{code}
use Prim.Native.String.{String}
use Prim.Native.Nat.{ℕ, zero, suc, ◌+◌, ◌/◌, ◌%◌}
use mathlib.Core.Path.{◌≡◌, refl}
use mathlib.Core.Logic.{◌↔◌}
use mathlib.Core.Bool.{Bool, true, false, ◌&&◌, ◌||◌}
use mathlib.Core.Option.{Option, none, some}
use mathlib.Core.List.{List, [], ◌∷◌, ◌++◌, reverse, map}
use native.Mathlib.Omega.{arith}
use go_dev_sdk.Prelude.Tests.{leb, ◌==◌, if◌then◌else◌}
use go_dev_sdk.Prelude.Lists.{get_or}

abbrev pub Bytes : Type 0
Bytes = List ℕ

-- The bytes of an ASCII literal.
abbrev pub codes : String → Bytes
codes String.[] = []
codes (String.◌∷◌ c s) = code c ∷ codes s

-- `s[i]`. Every read of the sources is guarded by `i < len(s)`; 256, which is no byte, stands
-- for a read out of range.
abbrev pub byte_at : Bytes → ℕ → ℕ
byte_at s i = get_or s i 256

abbrev pub is_empty : Bytes → Bool
is_empty [] = true
is_empty (_ ∷ _) = false

-- `s == t`.
unfoldable pub eq_bytes : Bytes → Bytes → Bool
eq_bytes [] [] = true
eq_bytes [] (_ ∷ _) = false
eq_bytes (_ ∷ _) [] = false
eq_bytes (x ∷ s) (y ∷ t) = x == y && eq_bytes s t

eq_bytes_sound : (s t : Bytes) → eq_bytes s t ≡ true → s ≡ t
unfolding eq_bytes
eq_bytes_sound [] [] h = refl
eq_bytes_sound [] (y ∷ t) h = cc
eq_bytes_sound (x ∷ s) [] h = cc
eq_bytes_sound (x ∷ s) (y ∷ t) h = ground (arith, eq_bytes_sound s t)

pub eq_bytes_self : (s : Bytes) → eq_bytes s s ≡ true
unfolding eq_bytes
eq_bytes_self [] = refl
eq_bytes_self (x ∷ s) = ground (arith, eq_bytes_self s)

pub eq_bytes_iff : (s t : Bytes) → (eq_bytes s t ≡ true) ↔ (s ≡ t)
eq_bytes_iff s t = (eq_bytes_sound s t, λ e. rw e (eq_bytes_self t))

-- `strings.ToLower`.
unfoldable pub lower_byte : ℕ → ℕ
lower_byte c = if leb b'A' c && leb c b'Z' then c + 32 else c

unfoldable pub to_lower : Bytes → Bytes
unfolding lower_byte
to_lower s = map lower_byte s

-- `strings.TrimSpace`.
unfoldable pub is_space : ℕ → Bool
is_space c = c == b' ' || leb 9 c && leb c 13

unfoldable pub trim_left : Bytes → Bytes
unfolding is_space
trim_left [] = []
trim_left (c ∷ s) = let rest = trim_left s in if is_space c then rest else c ∷ s

unfoldable pub trim_space : Bytes → Bytes
unfolding trim_left
trim_space s = reverse (trim_left (reverse (trim_left s)))

-- `strings.Contains(s, c)` for a single byte c.
unfoldable pub contains_byte : ℕ → Bytes → Bool
contains_byte c [] = false
contains_byte c (x ∷ s) = x == c || contains_byte c s

-- `strings.ReplaceAll(s, c, r)` for a single byte c.
unfoldable pub replace_byte : ℕ → Bytes → Bytes → Bytes
replace_byte c r [] = []
replace_byte c r (x ∷ s) = (if x == c then r else (x ∷ [])) ++ replace_byte c r s

-- `strings.ReplaceAll(s, ab, r)` for two bytes a and b.
unfoldable pub replace_pair : ℕ → ℕ → Bytes → Bytes → Bytes
replace_pair a b r [] = []
replace_pair a b r (x ∷ []) = x ∷ []
replace_pair a b r (x ∷ y ∷ s) = elim (x == a && y == b) [
  | true ↦ r ++ replace_pair a b r s
  | false ↦ x ∷ replace_pair a b r (y ∷ s)
]

-- `strings.Split(s, c)` for a single byte c.
unfoldable pub push_front : ℕ → List Bytes → List Bytes
push_front c [] = (c ∷ []) ∷ []
push_front c (t ∷ ts) = (c ∷ t) ∷ ts

unfoldable pub split_at : ℕ → Bytes → List Bytes
unfolding push_front
split_at c [] = [] ∷ []
split_at c (x ∷ s) = let rest = split_at c s in if x == c then [] ∷ rest else push_front x rest

-- `strings.Cut(s, c)` for a single byte c: none if c is not in s.
unfoldable pub cut_at : ℕ → Bytes → Option (Bytes × Bytes)
cut_at c [] = none
cut_at c (x ∷ s) = elim (x == c) [
  | true ↦ some ([], s)
  | false ↦ elim (cut_at c s) [ none ↦ none | some (k, v) ↦ some (x ∷ k, v) ]
]

-- `strings.CutPrefix(s, p)`.
unfoldable pub cut_prefix : Bytes → Bytes → Option Bytes
cut_prefix s [] = some s
cut_prefix [] (_ ∷ _) = none
cut_prefix (x ∷ s) (y ∷ p) = let rest = cut_prefix s p in if x == y then rest else none

-- `strings.Index(s, p)`: the first offset at which p stands.
unfoldable pub starts_with : Bytes → Bytes → Bool
starts_with s [] = true
starts_with [] (_ ∷ _) = false
starts_with (x ∷ s) (y ∷ p) = x == y && starts_with s p

unfoldable pub index_of : Bytes → Bytes → Option ℕ
unfolding starts_with
index_of p [] = if starts_with [] p then some 0 else none
index_of p (x ∷ s) = elim (starts_with (x ∷ s) p) [
  | true ↦ some 0
  | false ↦ elim (index_of p s) [ none ↦ none | some k ↦ some (k + 1) ]
]

-- `strconv.Itoa(n)` for n ≥ 0. The fuel n + 1 is more than the number of digits.
unfoldable pub itoa_from : ℕ → ℕ → Bytes → Bytes
itoa_from zero n out = out
itoa_from (suc fuel) n out =
    let digits = (b'0' + n % 10) ∷ out in
    let more = itoa_from fuel (n / 10) digits in if n / 10 == 0 then digits else more

unfoldable pub itoa : ℕ → Bytes
unfolding itoa_from
itoa n = itoa_from (suc n) n []

-- `net.JoinHostPort`.
unfoldable pub join_host_port : Bytes → Bytes → Bytes
join_host_port host port =
    if contains_byte b':' host
    then codes "[" ++ (host ++ (codes "]:" ++ port))
    else host ++ (codes ":" ++ port)
