-- ===== src/Rest/Backoff/Bounds.antt =====
-- rest/client/middleware.go: `backoff` does not overflow.
use go_dev_sdk.Prelude.{
  ℕ, ◌-◌, ◌*◌, ◌/◌, ◌%◌, ◌^◌, ◌≤◌, ◌<◌, ◌≡◌, leb, leb→le, leb→lt, min, Bool, Bool-cases, inl, inr,
  arith, if◌then◌else◌, [], reports-nil_iff, Bytes,
}
use native.Mathlib.Nat.{le-div_iff_mul-le, div-lt_iff_lt-mul, mod-eq_of_lt, one-le-pow, mul-pos}
use go_dev_sdk.Prelude.Int.{pos_part}
use go_dev_sdk.Rest.Backoff.{Config, validate, checks, set_defaults, backoff_cap}

-- The bound with p for the power of two.
cap_at :
    (base limit p : ℕ)
    → 1 ≤ p
    → 1 ≤ base
    → base ≤ limit
    → limit < 2 ^ 63
    → let cap = if leb base (limit / p) then base * p % 2 ^ 64 else limit in
      (1 ≤ cap) × (cap ≤ limit) × (cap ≡ min limit (base * p))
cap_at base limit p pos_p pos_base le lt = elim (Bool-cases (leb base (limit / p))) [
  | inl fits ↦
      let small : base * p ≤ limit = (le-div_iff_mul-le pos_p).0 (leb→le base (limit / p) fits) in
      let exact : base * p % 2 ^ 64 ≡ base * p = mod-eq_of_lt (omega arith) in
      let big : 1 ≤ base * p = mul-pos pos_base pos_p in rw (fits, exact) (big, small, omega arith)
  | inr over ↦
      let large : limit < base * p = (div-lt_iff_lt-mul pos_p).0 (leb→lt base (limit / p) over) in
      rw over (omega arith, omega arith, omega arith)
]

cap_bounds :
    (base limit n : ℕ)
    → 1 ≤ base
    → base ≤ limit
    → limit < 2 ^ 63
    → (1 ≤ backoff_cap base limit n)
      × (backoff_cap base limit n ≤ limit)
      × (backoff_cap base limit n ≡ min limit (base * 2 ^ (n - 1)))
unfolding backoff_cap
cap_bounds base limit n pos_base le lt =
    cap_at base limit (2 ^ (n - 1)) (one-le-pow (n - 1) 2 (omega arith)) pos_base le lt

-- After `SetDefaults`, a config that passes `Validate` draws every delay below a positive bound of at
-- most BackoffMax, which is the smaller of BackoffMax and BackoffBase times 2 to the number of retries
-- before: the shift of the base never overflows.
pub backoff_cap-exact :
    (is_proxy : Bytes → Bool) (c : Config) (n : ℕ)
    → validate is_proxy (set_defaults c) ≡ []
    → pos_part (set_defaults c).backoff_max < 2 ^ 63
    → let base = pos_part (set_defaults c).backoff_base in
      let limit = pos_part (set_defaults c).backoff_max in
      (1 ≤ backoff_cap base limit n)
      × (backoff_cap base limit n ≤ limit)
      × (backoff_cap base limit n ≡ min limit (base * 2 ^ (n - 1)))
unfolding validate checks set_defaults
backoff_cap-exact is_proxy c n ok lt =
    let passed = (reports-nil_iff (checks is_proxy (set_defaults c))).0 ok in
    cap_bounds _ _ n (ground (arith, passed)) (ground (arith, passed)) lt
