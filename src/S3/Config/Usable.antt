-- ===== src/S3/Config/Usable.antt =====
-- s3/config.go: which configs pass.
use go_dev_sdk.Prelude.{
  append-nil_iff, eq_bytes_iff, if◌then◌else◌, ◌≡◌, ◌≢◌, ◌↔◌, ◌⊎◌, refl, inl, List, [], ◌∷◌, ◌++◌,
  Option, none, some, Bytes, codes, is_empty, reports, reports-nil_iff, arith,
}
use go_dev_sdk.Prelude.Int.{pos, ◌≤ℤ◌}
use go_dev_sdk.S3.Config.{
  Config, ConfigError, validate, account_checks, transfer_checks, endpoint_errors,
}

-- Both keys or neither, and both with a session token.
abbrev pub HasKeys : Config → Type 0
HasKeys c =
    ((c.access_key_id ≢ []) × (c.secret_access_key ≢ []))
    ⊎ ((c.access_key_id ≡ []) × (c.secret_access_key ≡ []) × (c.session_token ≡ []))

account_checks-HasKeys_iff :
    (c : Config) → (reports (account_checks c) ≡ []) ↔ ((c.region ≢ []) × HasKeys c)
unfolding account_checks
account_checks-HasKeys_iff c = ground (arith, reports-nil_iff (account_checks c))

abbrev pub IsTransfer : Config → Type 0
IsTransfer c =
    ((c.upload_part_size_bytes ≡ pos 0) ⊎ (pos 5242880 ≤ℤ c.upload_part_size_bytes))
    × (pos 0 ≤ℤ c.upload_multipart_threshold)
    × (pos 0 ≤ℤ c.transfer_concurrency)
    × (pos 1 ≤ℤ c.presign_default_expiry)

transfer_checks-IsTransfer_iff : (c : Config) → (reports (transfer_checks c) ≡ []) ↔ IsTransfer c
unfolding transfer_checks
transfer_checks-IsTransfer_iff c = ground (arith, reports-nil_iff (transfer_checks c))

endpoint_errors-nil_iff :
    (o : Option Bytes)
    → (endpoint_errors o ≡ []) ↔ ((o ≡ some (codes "http")) ⊎ (o ≡ some (codes "https")))
endpoint_errors-nil_iff none = (λ h. absurd (cc), λ h. absurd (ground (arith, h)))
endpoint_errors-nil_iff (some s) =
    ground (arith, eq_bytes_iff s (codes "http"), eq_bytes_iff s (codes "https"))

abbrev endpoint_part : (Bytes → Option Bytes) → Bytes → List ConfigError
endpoint_part scheme_of s = if is_empty s then [] else endpoint_errors (scheme_of s)

endpoint_part-nil_iff :
    (scheme_of : Bytes → Option Bytes) (s : Bytes)
    → (endpoint_part scheme_of s ≡ [])
      ↔ ((s ≡ []) ⊎ (scheme_of s ≡ some (codes "http")) ⊎ (scheme_of s ≡ some (codes "https")))
endpoint_part-nil_iff scheme_of [] = (λ _. inl refl, λ _. refl)
endpoint_part-nil_iff scheme_of (x ∷ s) =
    ground (arith, endpoint_errors-nil_iff (scheme_of (x ∷ s)))

-- `Validate` finds nothing exactly for a region, both keys or neither, and with a session token both, an
-- endpoint that is empty or one of http or https, a part size of zero or at least 5 MiB, no negative
-- threshold or concurrency, and a positive expiry.
pub validate-nil_iff :
    (scheme_of : Bytes → Option Bytes) (c : Config)
    → (validate scheme_of c ≡ []) ↔ (
        ((c.region ≢ []) × HasKeys c)
        × ((c.endpoint ≡ [])
            ⊎ (scheme_of c.endpoint ≡ some (codes "http"))
            ⊎ (scheme_of c.endpoint ≡ some (codes "https")))
        × IsTransfer c)
unfolding validate
validate-nil_iff scheme_of c =
    let front = reports (account_checks c) in
    let middle = endpoint_part scheme_of c.endpoint in
    let back = reports (transfer_checks c) in
    ground (
      arith,
      append-nil_iff front (middle ++ back),
      append-nil_iff middle back,
      account_checks-HasKeys_iff c,
      endpoint_part-nil_iff scheme_of c.endpoint,
      transfer_checks-IsTransfer_iff c,
    )
