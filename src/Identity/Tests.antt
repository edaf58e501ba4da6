-- ===== src/Identity/Tests.antt =====
-- identity: runs on a small environment, and the theorems at it.
use go_dev_sdk.Prelude.{
  ◌≡◌, refl, true, false, [], Option, some, Bytes, codes, eq_bytes, trim_space, trim_left, is_space,
  split_at, push_front, cut_at, if◌then◌else◌,
}
use go_dev_sdk.Identity.{
  value_of, resource_attributes, set_pairs, get, attribute, resolve, is_named,
}
use go_dev_sdk.Identity.Naming.{is_blank, blank_name-refused}

abbrev only_attributes : Bytes → Bytes → Bytes
only_attributes value key = if eq_bytes key (codes "OTEL_RESOURCE_ATTRIBUTES") then value else []

-- A stand-in for url.PathUnescape that knows %20 alone.
abbrev unescape : Bytes → Option Bytes
unescape raw = if eq_bytes raw (codes "%20") then some (codes " ") else some raw

abbrev spaced : Bytes → Bytes
spaced = only_attributes (codes "service.name=%20")

blank_attribute : is_blank (attribute unescape spaced [] [] (codes "service.name")) ≡ true
unfolding value_of resource_attributes set_pairs get eq_bytes trim_space trim_left is_space split_at
    push_front cut_at
blank_attribute = refl

refused : is_named (resolve unescape spaced [] []) ≡ false
unfolding get eq_bytes trim_space trim_left
refused = blank_name-refused unescape spaced [] [] refl refl blank_attribute
