-- ===== src/Nats/Subject/Matching.antt =====
-- nats/internal/wire/wire.go: `covers` against the rules by which a NATS subject pattern matches the
-- subject of a message: * stands for one token, > for one or more at the end, and any other token for
-- itself.
use go_dev_sdk.Prelude.{
  ℕ, zero, suc, ◌+◌, ◌<◌, ◌≡◌, ◌↔◌, refl, ap, inl, inr, Bool, true, false, ◌&&◌, ◌||◌, Bool-cases,
  List, [], ◌∷◌, Bytes, eq_bytes, eq_bytes_iff, eq_bytes_self, split_at, if◌then◌else◌, arith,
  length, All,
}
use go_dev_sdk.Nats.Subject.{star, full_wildcard, covers_tokens, covers}

unfoldable pub matches : List Bytes → List Bytes → Bool
matches [] [] = true
matches [] (_ ∷ _) = false
matches (p ∷ ps) [] = false
matches (p ∷ ps) (t ∷ ts) =
    let rest = matches ps ts in
    eq_bytes p full_wildcard || ((eq_bytes p star || eq_bytes p t) && rest)

covers_tokens_sound :
    (w n s : List Bytes) → covers_tokens w n ≡ true → matches n s ≡ true → matches w s ≡ true
unfolding covers_tokens matches
covers_tokens_sound [] [] s c h = h
covers_tokens_sound [] (t ∷ n) s c h = cc
covers_tokens_sound (tok ∷ w) [] s c h = cc
covers_tokens_sound (tok ∷ w) (t ∷ n) [] c h = cc
covers_tokens_sound (tok ∷ w) (t ∷ n) (a ∷ s) c h =
    ground (arith, covers_tokens_sound w n s, eq_bytes_iff tok t)

-- Two instances of a pattern: x for *, and x or x twice for > and what follows it.
abbrev short : Bytes → List Bytes → List Bytes
short x [] = []
short x (t ∷ n) =
    let rest = short x n in
    if eq_bytes t full_wildcard then x ∷ [] else (if eq_bytes t star then x else t) ∷ rest

abbrev long : Bytes → List Bytes → List Bytes
long x [] = []
long x (t ∷ n) =
    let rest = long x n in
    if eq_bytes t full_wildcard then x ∷ x ∷ [] else (if eq_bytes t star then x else t) ∷ rest

short-matches : (x : Bytes) (n : List Bytes) → matches n (short x n) ≡ true
unfolding matches
short-matches x [] = refl
short-matches x (t ∷ n) = ground (arith, short-matches x n, eq_bytes_self t)

long-matches : (x : Bytes) (n : List Bytes) → matches n (long x n) ≡ true
unfolding matches
long-matches x [] = refl
long-matches x (t ∷ n) = ground (arith, long-matches x n, eq_bytes_self t)

abbrev IsFresh : Bytes → List Bytes → Type 0
IsFresh x = All (λ (t : Bytes). eq_bytes t x ≡ false)

matches_one : (x : Bytes) (w : List Bytes) → matches w [] ≡ true → matches w (x ∷ []) ≡ false
unfolding matches
matches_one x [] h = refl
matches_one x (t ∷ w) h = cc

covers_tokens_complete :
    (x : Bytes) (w n : List Bytes)
    → IsFresh x w
    → matches w (short x n) ≡ true
    → matches w (long x n) ≡ true
    → covers_tokens w n ≡ true
unfolding matches covers_tokens
covers_tokens_complete x [] [] f s l = refl
covers_tokens_complete x [] (t ∷ n) f s l = ground arith
covers_tokens_complete x (tok ∷ w) [] f s l = cc
covers_tokens_complete x (tok ∷ w) (t ∷ n) f s l =
    ground (arith, covers_tokens_complete x w n f.1, matches_one x w)

-- A token that is longer than all of the given ones together.
abbrev width : List Bytes → ℕ
width [] = 0
width (t ∷ w) = length t + width w

abbrev xs : ℕ → Bytes
xs zero = []
xs (suc k) = b'x' ∷ xs k

length-xs : (k : ℕ) → length (xs k) ≡ k
length-xs zero = refl
length-xs (suc k) = ap (λ (n : ℕ). suc n) (length-xs k)

longer_new : (t x : Bytes) → length t < length x → eq_bytes t x ≡ false
longer_new t x lt = elim (Bool-cases (eq_bytes t x)) [
  | inl e ↦ absurd (
      let same : length t ≡ length x = ap (λ (s : Bytes). length s) ((eq_bytes_iff t x).0 e) in
      omega arith)
  | inr e ↦ e
]

longer-IsFresh : (x : Bytes) (w : List Bytes) → width w < length x → IsFresh x w
longer-IsFresh x [] h = tt
longer-IsFresh x (t ∷ w) h = (longer_new t x (omega arith), longer-IsFresh x w (omega arith))

-- One list of tokens covers another exactly when it matches whatever the other matches.
covers_tokens_iff :
    (w n : List Bytes)
    → (covers_tokens w n ≡ true) ↔ ((s : List Bytes) → matches n s ≡ true → matches w s ≡ true)
covers_tokens_iff w n =
    let x = xs (suc (width w)) in
    let fresh : IsFresh x w =
      longer-IsFresh x w
        (let e : length x ≡ suc (width w) = length-xs (suc (width w)) in omega arith) in
    (
      (λ c s. covers_tokens_sound w n s c),
      (λ h.
          covers_tokens_complete x w n fresh (h (short x n) (short-matches x n))
            (h (long x n) (long-matches x n))),
    )

-- A subject covers another exactly when it matches every subject that the other matches.
pub covers_iff :
    (wide narrow : Bytes)
    → (covers wide narrow ≡ true) ↔ (
        (s : List Bytes)
        → matches (split_at b'.' narrow) s ≡ true
        → matches (split_at b'.' wide) s ≡ true)
unfolding covers
covers_iff wide narrow = covers_tokens_iff (split_at b'.' wide) (split_at b'.' narrow)

pub covers_trans : (a b c : Bytes) → covers a b ≡ true → covers b c ≡ true → covers a c ≡ true
covers_trans a b c f g =
    (covers_iff a c).1 (λ s h. (covers_iff a b).0 f s ((covers_iff b c).0 g s h))

pub covers_self : (a : Bytes) → covers a a ≡ true
covers_self a = (covers_iff a a).1 (λ s h. h)
