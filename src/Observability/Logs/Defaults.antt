-- ===== src/Observability/Logs/Defaults.antt =====
-- observability/logs/config.go: which configs `New` takes.
use go_dev_sdk.Prelude.{
  not, ◌&&◌, if◌then◌else◌, ◌≡◌, ◌↔◌, ◌⊎◌, refl, inl, Bool, false, [], ◌∷◌, Bytes, codes, eq_bytes,
  eq_bytes_iff, is_empty, reports-nil_iff, arith,
}
use go_dev_sdk.Observability.Logs.{Config, set_defaults, checks, validate, level_invalid}

abbrev pub IsLevel : Bytes → Type 0
IsLevel v =
    (v ≡ []) ⊎ (v ≡ codes "debug") ⊎ (v ≡ codes "info") ⊎ (v ≡ codes "warn") ⊎ (v ≡ codes "error")

abbrev format_invalid : Bytes → Bool
format_invalid f = not (eq_bytes f (codes "text")) && not (eq_bytes f (codes "json"))

format_invalid_iff :
    (f : Bytes)
    → (format_invalid (if is_empty f then codes "text" else f) ≡ false)
      ↔ ((f ≡ []) ⊎ (f ≡ codes "text") ⊎ (f ≡ codes "json"))
unfolding eq_bytes
format_invalid_iff [] = (λ _. inl refl, λ _. refl)
format_invalid_iff (x ∷ f) =
    ground (arith, eq_bytes_iff (x ∷ f) (codes "text"), eq_bytes_iff (x ∷ f) (codes "json"))

level_invalid-IsLevel_iff :
    (v : Bytes) → (level_invalid (if is_empty v then codes "debug" else v) ≡ false) ↔ IsLevel v
unfolding eq_bytes
level_invalid-IsLevel_iff [] = (λ _. inl refl, λ _. refl)
level_invalid-IsLevel_iff (x ∷ v) = ground (
  arith,
  eq_bytes_iff (x ∷ v) (codes "debug"),
  eq_bytes_iff (x ∷ v) (codes "info"),
  eq_bytes_iff (x ∷ v) (codes "warn"),
  eq_bytes_iff (x ∷ v) (codes "error"),
)

-- `Validate` takes a config with its defaults exactly if the format is text, json or not given, and the level one of
-- the four or not given.
pub validate-set_defaults_iff :
    (c : Config)
    → (validate (set_defaults c) ≡ []) ↔ (
        ((c.format ≡ []) ⊎ (c.format ≡ codes "text") ⊎ (c.format ≡ codes "json")) × IsLevel c.level)
unfolding validate checks set_defaults
validate-set_defaults_iff c = ground (
  arith,
  reports-nil_iff (checks (set_defaults c)),
  format_invalid_iff c.format,
  level_invalid-IsLevel_iff c.level,
)
