-- ===== src/Identity/Naming.antt =====
-- identity/identity.go: when the resolved identity names a service.
use go_dev_sdk.Prelude.{
  ◌≡◌, refl, ap, ◌∙◌, inl, inr, Bool, true, false, ◌&&◌, not, Bool-cases, List, [], ◌∷◌, Option,
  Bytes, codes, is_empty, trim_space, trim_left, is_space, arith,
}
use go_dev_sdk.Prelude.Normal.{trim_space_idem}
use go_dev_sdk.Identity.{first, get, attribute, resolve, is_named, or_placeholder}

-- Blank texts are those that have bytes, but none after trimming.
abbrev pub is_blank : Bytes → Bool
is_blank v = not (is_empty v) && is_empty (trim_space v)

trimmed_not_blank : (s : Bytes) → is_blank (trim_space s) ≡ false
trimmed_not_blank s =
    let same : trim_space (trim_space s) ≡ trim_space s = trim_space_idem s in
    ap (λ (t : Bytes). not (is_empty (trim_space s)) && is_empty t) same
    ∙ elim (Bool-cases (is_empty (trim_space s))) [ inl e ↦ rw e refl | inr e ↦ rw e refl ]

placeholder_not_blank : is_blank or_placeholder ≡ false
unfolding trim_space trim_left is_space
placeholder_not_blank = refl

abbrev pub named : Bytes → Bool
named v = not (is_empty (trim_space v))

blank_first :
    (v : Bytes) (vs : List Bytes)
    → is_blank v ≡ false
    → named (first vs) ≡ true
    → named (first (v ∷ vs)) ≡ true
unfolding first
blank_first v vs h n = elim (Bool-cases (is_empty v)) [
  | inl e ↦ rw (e, first) n
  | inr e ↦ rw (e, first) (ground (arith, h, e))
]

placeholder_last : named (first (or_placeholder ∷ [])) ≡ true
unfolding first trim_space trim_left is_space
placeholder_last = refl

-- A blank third candidate, when the first two are not set.
third_blank :
    (v : Bytes) (vs : List Bytes) → is_blank v ≡ true → named (first ([] ∷ [] ∷ v ∷ vs)) ≡ false
unfolding first
third_blank v vs h = elim (Bool-cases (is_empty v)) [
  | inl e ↦ absurd (ground (arith, h, e))
  | inr e ↦ rw (e, first) (ground (arith, h, e))
]

module _ (path_unescape : Bytes → Option Bytes) (lookup : Bytes → Bytes)
    (version build : Bytes) where
  get_not_blank : (key : Bytes) → is_blank (get path_unescape lookup version build key) ≡ false
  unfolding get
  get_not_blank key = trimmed_not_blank (lookup key)

  -- Unless service.name of OTEL_RESOURCE_ATTRIBUTES decodes to a blank text, the resolved identity passes
  -- Validate, whatever the environment.
  pub is_named-resolve :
      is_blank (attribute path_unescape lookup version build (codes "service.name")) ≡ false
      → is_named (resolve path_unescape lookup version build) ≡ true
  unfolding resolve is_named
  is_named-resolve h =
      let app = get path_unescape lookup version build (codes "APP_NAME") in
      let otel = get path_unescape lookup version build (codes "OTEL_SERVICE_NAME") in
      let service = attribute path_unescape lookup version build (codes "service.name") in
      blank_first app (otel ∷ service ∷ or_placeholder ∷ []) (get_not_blank (codes "APP_NAME")) (
        blank_first otel (service ∷ or_placeholder ∷ []) (get_not_blank (codes "OTEL_SERVICE_NAME"))
          (blank_first service (or_placeholder ∷ []) h placeholder_last))

  -- Where no variable names the service and service.name decodes to a blank text, Validate refuses the
  -- resolved identity: the placeholder is not used.
  pub blank_name-refused :
      get path_unescape lookup version build (codes "APP_NAME") ≡ []
      → get path_unescape lookup version build (codes "OTEL_SERVICE_NAME") ≡ []
      → is_blank (attribute path_unescape lookup version build (codes "service.name")) ≡ true
      → is_named (resolve path_unescape lookup version build) ≡ false
  unfolding resolve is_named
  blank_name-refused a o h =
      let service = attribute path_unescape lookup version build (codes "service.name") in
      let otel = get path_unescape lookup version build (codes "OTEL_SERVICE_NAME") in
      let rest = service ∷ or_placeholder ∷ [] in
      ap (λ (v : Bytes). named (first (v ∷ otel ∷ rest))) a
      ∙ ap (λ (v : Bytes). named (first ([] ∷ v ∷ rest))) o
      ∙ third_blank service (or_placeholder ∷ []) h
