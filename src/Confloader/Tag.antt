-- ===== src/Confloader/Tag.antt =====
-- confloader/tag.go: `parseConfTag`. The loop over the pairs carries the two named results.
use go_dev_sdk.Prelude.{
  ◌≡◌, ◌≢◌, inl, inr, List, [], ◌∷◌, none, some, arith, Bytes, codes, is_empty, eq_bytes,
  trim_space, split_at, cut_at, if◌then◌else◌, Option-cases, Bool-cases, true, false,
}

pub data TagError : Type 0 where
  invalid_tag : Bytes → TagError
  unknown_option : Bytes → TagError
  missing_key missing_folder : TagError

pub data Parsed : Type 0 where
  parsed : Bytes → Bytes → Parsed
  refused : TagError → Parsed

-- The switch on the option's name; `next` is the rest of the loop.
abbrev set_option : (Bytes → Bytes → Parsed) → Bytes → Bytes → Bytes → Bytes → Parsed
set_option next k v folder key =
    if eq_bytes k (codes "folder")
    then next v key
    else if eq_bytes k (codes "key")
    then next folder v
    else refused (unknown_option k)

-- The checks after the loop.
abbrev finish : Bytes → Bytes → Parsed
finish folder key =
    if is_empty key
    then refused missing_key
    else if is_empty folder
    then refused missing_folder
    else parsed folder key

unfoldable pub parse_pairs : List Bytes → Bytes → Bytes → Parsed
parse_pairs [] folder key = finish folder key
parse_pairs (pair ∷ pairs) folder key = elim (is_empty (trim_space pair)) [
  | true ↦ parse_pairs pairs folder key
  | false ↦ elim (cut_at b'=' (trim_space pair)) [
    | none ↦ refused (invalid_tag (trim_space pair))
    | some (k, v) ↦ set_option (parse_pairs pairs) (trim_space k) (trim_space v) folder key
  ]
]

unfoldable pub parse_conf_tag : Bytes → Parsed
unfolding parse_pairs
parse_conf_tag tag =
    if is_empty (trim_space tag)
    then refused (invalid_tag [])
    else parse_pairs (split_at b',' (trim_space tag)) [] []

abbrev IsComplete : Parsed → Type 0
IsComplete (parsed folder key) = (folder ≢ []) × (key ≢ [])
IsComplete (refused e) = Unit

parse_pairs-IsComplete :
    (pairs : List Bytes) (folder key : Bytes) → IsComplete (parse_pairs pairs folder key)
unfolding parse_pairs
parse_pairs-IsComplete [] folder key = ground arith
parse_pairs-IsComplete (pair ∷ pairs) folder key = elim (Bool-cases (is_empty (trim_space pair))) [
  | inl e ↦ rw (e, parse_pairs) (parse_pairs-IsComplete pairs folder key)
  | inr e ↦ elim (Option-cases (cut_at b'=' (trim_space pair))) [
    | inl f ↦ rw (e, f, parse_pairs) tt
    | inr ((k, v), f) ↦
        rw (e, f, parse_pairs)
          (ground (
            arith,
            parse_pairs-IsComplete pairs (trim_space v) key,
            parse_pairs-IsComplete pairs folder (trim_space v),
          ))
  ]
]

-- A tag that is accepted names a folder and a key.
pub parse_conf_tag-named :
    (tag folder key : Bytes) → parse_conf_tag tag ≡ parsed folder key → (folder ≢ []) × (key ≢ [])
unfolding parse_conf_tag
parse_conf_tag-named tag folder key e =
    ground (arith, parse_pairs-IsComplete (split_at b',' (trim_space tag)) [] [])
