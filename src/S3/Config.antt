-- ===== src/S3/Config.antt =====
-- s3/config.go. What url.Parse gives of an endpoint, its scheme or an error, is a parameter.
pub mod Usable
use go_dev_sdk.Prelude.{
  ◌*◌, Bool, true, false, ◌&&◌, ◌||◌, not, List, [], ◌∷◌, ◌++◌, Option, none, some, Bytes, codes,
  eq_bytes, is_empty, if◌then◌else◌, reports,
}
use go_dev_sdk.Prelude.Int.{ℤ, pos, ltb_ℤ, is_negative, not_positive, or_if_zero}

pub record Config : Type 0 where
  pub region : Bytes
  pub endpoint : Bytes
  pub access_key_id : Bytes
  pub secret_access_key : Bytes
  pub session_token : Bytes
  pub upload_part_size_bytes : ℤ
  pub upload_multipart_threshold : ℤ
  pub transfer_concurrency : ℤ
  pub presign_default_expiry : ℤ

unfoldable pub set_defaults : Config → Config
set_defaults c = record c {
  presign_default_expiry = or_if_zero c.presign_default_expiry (pos (900 * 1000000000));
}

pub data ConfigError : Type 0 where
  region_required half_credentials session_without_credentials : ConfigError
  endpoint_invalid endpoint_scheme negative_part_size part_size_too_small : ConfigError
  negative_threshold negative_concurrency expiry_not_positive : ConfigError

abbrev pub minimum_upload_part_size : ℤ
minimum_upload_part_size = pos (5 * (1024 * 1024))

abbrev is_web : Bytes → Bool
is_web s = eq_bytes s (codes "http") || eq_bytes s (codes "https")

abbrev pub endpoint_errors : Option Bytes → List ConfigError
endpoint_errors none = endpoint_invalid ∷ []
endpoint_errors (some s) = if is_web s then [] else endpoint_scheme ∷ []

abbrev differ : Bool → Bool → Bool
differ true b = not b
differ false b = b

unfoldable pub account_checks : Config → List (Bool × ConfigError)
account_checks c =
    (is_empty c.region, region_required)
    ∷ (differ (is_empty c.access_key_id) (is_empty c.secret_access_key), half_credentials)
    ∷ (
      not (is_empty c.session_token) && (is_empty c.access_key_id || is_empty c.secret_access_key),
      session_without_credentials,
    )
    ∷ []

unfoldable pub transfer_checks : Config → List (Bool × ConfigError)
transfer_checks c =
    (is_negative c.upload_part_size_bytes, negative_part_size)
    ∷ (
      ltb_ℤ (pos 0) c.upload_part_size_bytes
          && ltb_ℤ c.upload_part_size_bytes minimum_upload_part_size,
      part_size_too_small,
    )
    ∷ (is_negative c.upload_multipart_threshold, negative_threshold)
    ∷ (is_negative c.transfer_concurrency, negative_concurrency)
    ∷ (not_positive c.presign_default_expiry, expiry_not_positive)
    ∷ []

unfoldable pub validate : (Bytes → Option Bytes) → Config → List ConfigError
unfolding account_checks transfer_checks
validate scheme_of c =
    reports (account_checks c)
    ++ ((if is_empty c.endpoint then [] else endpoint_errors (scheme_of c.endpoint))
        ++ reports (transfer_checks c))
