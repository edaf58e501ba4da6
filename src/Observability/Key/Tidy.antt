-- ===== src/Observability/Key/Tidy.antt =====
-- observability/attributes/attributes.go: dots are collapsed and trimmed once.
use go_dev_sdk.Prelude.{
  ℕ, ◌≡◌, refl, ap, ◌∙◌, inl, inr, Bool, true, false, ◌&&◌, not, Bool-cases, [], ◌∷◌, Bytes,
  is_empty, arith, All,
}
use go_dev_sdk.Observability.Key.{is_dot, collapse, trim_left_dots, trim_right_dots, tidy}

-- No dot follows a dot, of which one may stand before the text.
abbrev apart : Bool → Bytes → Bool
apart after_dot [] = true
apart after_dot (c ∷ s) = not (is_dot c && after_dot) && apart (is_dot c) s

abbrev leads_no_dot : Bytes → Bool
leads_no_dot [] = true
leads_no_dot (c ∷ s) = not (is_dot c)

collapse-apart : (b : Bool) (s : Bytes) → apart b (collapse b s) ≡ true
unfolding collapse
collapse-apart b [] = refl
collapse-apart b (c ∷ s) = ground (arith, collapse-apart (is_dot c) s, collapse-apart true s)

collapse_keeps : (b : Bool) (s : Bytes) → apart b s ≡ true → collapse b s ≡ s
unfolding collapse
collapse_keeps b [] h = refl
collapse_keeps b (c ∷ s) h = ground (arith, h, collapse_keeps (is_dot c) s)

apart_less : (s : Bytes) → apart true s ≡ true → apart false s ≡ true
apart_less [] h = refl
apart_less (c ∷ s) h = ground (arith, h)

trim_left_apart : (s : Bytes) → apart false s ≡ true → apart false (trim_left_dots s) ≡ true
unfolding trim_left_dots
trim_left_apart [] h = refl
trim_left_apart (c ∷ s) h = ground (arith, h, apart_less s, trim_left_apart s)

trim_right_apart : (b : Bool) (s : Bytes) → apart b s ≡ true → apart b (trim_right_dots s) ≡ true
unfolding trim_right_dots
trim_right_apart b [] h = refl
trim_right_apart b (c ∷ s) h = ground (arith, h, trim_right_apart (is_dot c) s)

trim_left_leads : (s : Bytes) → leads_no_dot (trim_left_dots s) ≡ true
unfolding trim_left_dots
trim_left_leads [] = refl
trim_left_leads (c ∷ s) = ground (arith, trim_left_leads s)

trim_left_keeps : (s : Bytes) → leads_no_dot s ≡ true → trim_left_dots s ≡ s
unfolding trim_left_dots
trim_left_keeps [] h = refl
trim_left_keeps (c ∷ s) h = ground (arith, h)

trim_right_leads : (s : Bytes) → leads_no_dot s ≡ true → leads_no_dot (trim_right_dots s) ≡ true
unfolding trim_right_dots
trim_right_leads [] h = refl
trim_right_leads (c ∷ s) h = ground (arith, h)

trim_right_idem : (s : Bytes) → trim_right_dots (trim_right_dots s) ≡ trim_right_dots s
unfolding trim_right_dots
trim_right_idem [] = refl
trim_right_idem (c ∷ s) = elim (Bool-cases (is_dot c && is_empty (trim_right_dots s))) [
  | inl e ↦ rw (e, trim_right_dots) refl
  | inr e ↦ rw (e, trim_right_dots) (ground (arith, e, trim_right_idem s))
]

pub tidy_idem : (s : Bytes) → tidy (tidy s) ≡ tidy s
unfolding tidy
tidy_idem s =
    let left = trim_left_dots (collapse false s) in
    let is_apart : apart false (trim_right_dots left) ≡ true =
      trim_right_apart false left (trim_left_apart (collapse false s) (collapse-apart false s)) in
    let leads : leads_no_dot (trim_right_dots left) ≡ true =
      trim_right_leads left (trim_left_leads (collapse false s)) in
    ap (λ (t : Bytes). trim_right_dots (trim_left_dots t))
      (collapse_keeps false (trim_right_dots left) is_apart)
    ∙ ap trim_right_dots (trim_left_keeps (trim_right_dots left) leads)
    ∙ trim_right_idem left

-- What holds of each byte of a text holds of each that is left.
module _ {ℓ} (P : ℕ → Type ℓ) where
  collapse-All : (b : Bool) (s : Bytes) → All P s → All P (collapse b s)
  unfolding collapse
  collapse-All b [] h = tt
  collapse-All b (c ∷ s) h = elim (Bool-cases (is_dot c && b)) [
    | inl e ↦ rw (e, collapse) (collapse-All (is_dot c) s h.1)
    | inr e ↦ rw (e, collapse) (h.0, collapse-All (is_dot c) s h.1)
  ]

  trim_left-All : (s : Bytes) → All P s → All P (trim_left_dots s)
  unfolding trim_left_dots
  trim_left-All [] h = tt
  trim_left-All (c ∷ s) h = elim (Bool-cases (is_dot c)) [
    | inl e ↦ rw (e, trim_left_dots) (trim_left-All s h.1)
    | inr e ↦ rw (e, trim_left_dots) h
  ]

  trim_right-All : (s : Bytes) → All P s → All P (trim_right_dots s)
  unfolding trim_right_dots
  trim_right-All [] h = tt
  trim_right-All (c ∷ s) h = elim (Bool-cases (is_dot c && is_empty (trim_right_dots s))) [
    | inl e ↦ rw (e, trim_right_dots) tt
    | inr e ↦ rw (e, trim_right_dots) (h.0, trim_right-All s h.1)
  ]

  pub tidy-All : (s : Bytes) → All P s → All P (tidy s)
  unfolding tidy
  tidy-All s h = trim_right-All _ (trim_left-All _ (collapse-All false s h))
