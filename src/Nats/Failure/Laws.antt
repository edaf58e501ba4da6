-- ===== src/Nats/Failure/Laws.antt =====
-- nats/internal/wire/errortype.go: every error has a type.
use go_dev_sdk.Prelude.{
  ℕ, ◌≡◌, refl, inl, inr, false, Bool-cases, Option, none, some, Option-cases, Bytes, is_empty,
  arith, [],
}
use go_dev_sdk.Prelude.Int.{itoa_int, ℤ, pos, negsuc}
use go_dev_sdk.Prelude.StringLaws.{itoa_full}
use go_dev_sdk.Nats.Failure.{
  Err, panic_recovered, is_err, as_coded, as_api_error, api_code, error_type,
}

itoa_int_full : (k : ℤ) → is_empty (itoa_int k) ≡ false
itoa_int_full (pos n) = itoa_full n
itoa_int_full (negsuc n) = refl

api_code_full :
    (o : Option ℕ) (other : Bytes) → is_empty other ≡ false → is_empty (api_code o other) ≡ false
api_code_full none other h = h
api_code_full (some k) other h = ground (arith, itoa_full k)

pub error_type_full : (e : Err) → is_empty (error_type (some e)) ≡ false
unfolding error_type
error_type_full e = elim (Bool-cases (is_err e panic_recovered)) [
  | inl p ↦ rw (p, error_type) refl
  | inr p ↦ elim (Option-cases (as_coded e)) [
    | inl c ↦ rw (p, c, error_type) (api_code_full (as_api_error e) _ (ground arith))
    | inr (k, c) ↦ rw (p, c, error_type) (itoa_int_full k)
  ]
]

pub no_error_type : error_type none ≡ []
unfolding error_type
no_error_type = refl
