-- ===== src/Prelude/Normal.antt =====
-- Trimming and lowering a text is idempotent, so a normalised name is looked up as it is.
use mathlib.Core.List.{reverse, reverse-append, reverse-reverse, reverse-cons}
use go_dev_sdk.Prelude.{
  ℕ, ◌≡◌, refl, sym, ap, ◌∙◌, false, [], ◌∷◌, ◌++◌, map-append, inl, inr, arith, Bytes, is_space,
  trim_left, to_lower, lower_byte, trim_space, Bool-cases,
}

is_space-lower_byte : (c : ℕ) → is_space (lower_byte c) ≡ is_space c
unfolding is_space lower_byte
is_space-lower_byte c = ground arith

lower_byte_idem : (c : ℕ) → lower_byte (lower_byte c) ≡ lower_byte c
unfolding lower_byte
lower_byte_idem c = ground arith

to_lower_idem : (s : Bytes) → to_lower (to_lower s) ≡ to_lower s
unfolding to_lower
to_lower_idem [] = refl
to_lower_idem (c ∷ s) = cc (lower_byte_idem c, to_lower_idem s)

trim_left-to_lower : (s : Bytes) → trim_left (to_lower s) ≡ to_lower (trim_left s)
unfolding trim_left to_lower
trim_left-to_lower [] = refl
trim_left-to_lower (c ∷ s) = elim (Bool-cases (is_space c)) [
  | inl e ↦ rw (is_space-lower_byte c, e, trim_left) (trim_left-to_lower s)
  | inr e ↦ rw (is_space-lower_byte c, e, trim_left)
]

reverse-to_lower : (s : Bytes) → reverse (to_lower s) ≡ to_lower (reverse s)
unfolding to_lower
reverse-to_lower [] = refl
reverse-to_lower (c ∷ s) =
    reverse-cons (lower_byte c) (to_lower s)
    ∙ ap (λ (t : Bytes). t ++ lower_byte c ∷ []) (reverse-to_lower s)
    ∙ sym (ap to_lower (reverse-cons c s) ∙ map-append _ _ _)

trim_space-to_lower : (s : Bytes) → trim_space (to_lower s) ≡ to_lower (trim_space s)
unfolding trim_space
trim_space-to_lower s =
    rw
      (
        trim_left-to_lower s,
        reverse-to_lower (trim_left s),
        trim_left-to_lower (reverse (trim_left s)),
      )
      (reverse-to_lower _)

-- Empty, or starting with no space.
abbrev Bare : Bytes → Type 0
Bare [] = Unit
Bare (c ∷ _) = is_space c ≡ false

trim_left-Bare : (s : Bytes) → Bare (trim_left s)
unfolding trim_left
trim_left-Bare [] = tt
trim_left-Bare (c ∷ s) = ground (arith, trim_left-Bare s)

Bare-trim_left : (s : Bytes) → Bare s → trim_left s ≡ s
unfolding trim_left
Bare-trim_left [] b = refl
Bare-trim_left (c ∷ s) b = rw (b, trim_left)

trim_left_suffix : (s : Bytes) → (p : Bytes) × (s ≡ p ++ trim_left s)
unfolding trim_left
trim_left_suffix [] = ([], refl)
trim_left_suffix (c ∷ s) = elim (Bool-cases (is_space c)) [
  | inl e ↦ let (p, h) = trim_left_suffix s in (c ∷ p, rw (e, trim_left) (ap (◌∷◌ c) h))
  | inr e ↦ ([], rw (e, trim_left))
]

Bare-append : (a b : Bytes) → Bare (a ++ b) → Bare a
Bare-append [] b h = tt
Bare-append (c ∷ a) b h = h

trim_space-Bare : (s : Bytes) → Bare (trim_space s)
unfolding trim_space
trim_space-Bare s =
    let (p, h) = trim_left_suffix (reverse (trim_left s)) in
    let e : trim_left s ≡ reverse (trim_left (reverse (trim_left s))) ++ reverse p =
      sym (reverse-reverse (trim_left s)) ∙ ap reverse h ∙ reverse-append p _ in
    Bare-append _ (reverse p) (rw e at (trim_left-Bare s))

pub trim_space_idem : (s : Bytes) → trim_space (trim_space s) ≡ trim_space s
unfolding trim_space
trim_space_idem s =
    let w = trim_left (reverse (trim_left s)) in
    ap (λ (t : Bytes). reverse (trim_left (reverse t)))
      (Bare-trim_left (reverse w) (trim_space-Bare s))
    ∙ ap (λ (t : Bytes). reverse (trim_left t)) (reverse-reverse w)
    ∙ ap reverse (Bare-trim_left w (trim_left-Bare (reverse (trim_left s))))

pub normal_idem :
    (s : Bytes) → to_lower (trim_space (to_lower (trim_space s))) ≡ to_lower (trim_space s)
normal_idem s =
    ap to_lower (trim_space-to_lower (trim_space s) ∙ ap to_lower (trim_space_idem s))
    ∙ to_lower_idem (trim_space s)
