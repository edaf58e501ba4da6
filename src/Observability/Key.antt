-- ===== src/Observability/Key.antt =====
-- observability/attributes/attributes.go: the keys of attributes. A byte of 128 or more is kept by
-- strings.ToLower here.
pub mod Tidy
pub mod Normal
use go_dev_sdk.Prelude.{
  ℕ, leb, Bool, true, false, ◌&&◌, ◌||◌, not, ◌==◌, List, [], ◌∷◌, ◌++◌, Bytes, codes, eq_bytes,
  is_empty, to_lower, contains_byte, replace_byte, if◌then◌else◌,
}

abbrev pub is_dot : ℕ → Bool
is_dot c = c == b'.'

-- The loop of `collapseDots`; `after_dot` says whether the byte before is a dot. Without a run of dots
-- it copies the key.
unfoldable pub collapse : Bool → Bytes → Bytes
collapse after_dot [] = []
collapse after_dot (c ∷ s) =
    let rest = collapse (is_dot c) s in if is_dot c && after_dot then rest else c ∷ rest

-- strings.Trim(s, ".").
unfoldable pub trim_left_dots : Bytes → Bytes
trim_left_dots [] = []
trim_left_dots (c ∷ s) = let rest = trim_left_dots s in if is_dot c then rest else c ∷ s

unfoldable pub trim_right_dots : Bytes → Bytes
trim_right_dots [] = []
trim_right_dots (c ∷ s) =
    let rest = trim_right_dots s in if is_dot c && is_empty rest then [] else c ∷ rest

unfoldable pub tidy : Bytes → Bytes
unfolding collapse trim_left_dots trim_right_dots
tidy s = trim_right_dots (trim_left_dots (collapse false s))

unfoldable pub is_correlation_key : Bytes → Bool
is_correlation_key k =
    eq_bytes k (codes "trace_id")
    || eq_bytes k (codes "span_id")
    || eq_bytes k (codes "trace_flags")

unfoldable pub normalize_key : Bytes → Bytes
unfolding tidy is_correlation_key
normalize_key key =
    let k = tidy (to_lower key) in
    if is_correlation_key k
    then k
    else if contains_byte b'.' k
    then k
    else tidy (replace_byte b'_' (codes ".") k)

abbrev pub is_key_byte : ℕ → Bool
is_key_byte c =
    (leb b'a' c && leb c b'z')
    || (leb b'A' c && leb c b'Z')
    || (leb b'0' c && leb c b'9')
    || c == b'_'
    || c == b'.'
    || c == b'-'

unfoldable pub all_key_bytes : Bytes → Bool
all_key_bytes [] = true
all_key_bytes (c ∷ s) = is_key_byte c && all_key_bytes s

unfoldable pub is_valid_key : Bytes → Bool
unfolding all_key_bytes
is_valid_key key = not (is_empty key) && all_key_bytes key
