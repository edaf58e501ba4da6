-- ===== src/Observability/Tests.antt =====
-- observability/attributes: runs on small maps, and the theorems at such inputs.
use go_dev_sdk.Prelude.{
  ◌≡◌, refl, [], ◌∷◌, List, Bytes, codes, to_lower, lower_byte, contains_byte, replace_byte,
  eq_bytes, All, itoa, arith,
}
use go_dev_sdk.Prelude.Int.{pos}
use go_dev_sdk.Observability.Key.{
  normalize_key, tidy, collapse, trim_left_dots, trim_right_dots, is_correlation_key, is_valid_key,
  all_key_bytes,
}
use go_dev_sdk.Observability.Key.Normal.{normalize_key_idem}
use go_dev_sdk.Observability.Convert.{
  Value, text, signed, unsigned, nil, convert_maps_to_kvs, merge_all, merge_one, put, less, entries,
  entry, convert_value, sort, insert,
}
use go_dev_sdk.Observability.Convert.Attributes.{IsSorted, IsGood, convert_maps_to_kvs-IsSorted}

normalized : normalize_key (codes "HTTP__Method_") ≡ codes "http.method"
unfolding normalize_key tidy collapse trim_left_dots trim_right_dots is_correlation_key to_lower
    lower_byte contains_byte replace_byte eq_bytes
normalized = refl

preserved : normalize_key (codes "http.status_code") ≡ codes "http.status_code"
unfolding normalize_key tidy collapse trim_left_dots trim_right_dots is_correlation_key to_lower
    lower_byte contains_byte replace_byte eq_bytes
preserved = refl

normalize_key_idem_example :
    normalize_key (normalize_key (codes "a_b")) ≡ normalize_key (codes "a_b")
normalize_key_idem_example = normalize_key_idem (codes "a_b")

-- The second map overrides the first, and a value that does not fit an int64 is a text.
abbrev maps : List (List (Bytes × Value))
maps =
    ((codes "b_c", signed (pos 1)) ∷ (codes "x y", signed (pos 2)) ∷ [])
    ∷ ((codes "B.C", unsigned 9223372036854775808) ∷ (codes "a", nil) ∷ [])
    ∷ []

converted : convert_maps_to_kvs maps ≡ (codes "b.c", text (codes "9223372036854775808")) ∷ []
unfolding convert_maps_to_kvs merge_all merge_one put less entries entry convert_value sort insert
    normalize_key tidy collapse trim_left_dots trim_right_dots is_correlation_key to_lower
    lower_byte contains_byte replace_byte eq_bytes is_valid_key all_key_bytes itoa
converted = refl

convert_maps_to_kvs-IsSorted_example :
    IsSorted (convert_maps_to_kvs maps) × All IsGood (convert_maps_to_kvs maps)
convert_maps_to_kvs-IsSorted_example =
    convert_maps_to_kvs-IsSorted maps ((omega arith, (omega arith, tt)), ((tt, (tt, tt)), tt))
