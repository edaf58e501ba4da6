-- ===== src/Nats/Subject.antt =====
-- nats/internal/wire/wire.go: `covers`, on the tokens that strings.Split gives, and the subjects of a
-- topic.
pub mod Matching
use go_dev_sdk.Prelude.{
  Bool, true, false, ◌&&◌, ◌||◌, not, List, [], ◌∷◌, ◌++◌, Bytes, codes, eq_bytes, split_at,
  if◌then◌else◌,
}

abbrev pub star : Bytes
star = codes "*"

abbrev pub full_wildcard : Bytes
full_wildcard = codes ">"

-- The loop over the tokens of the wide subject, and the test after it.
unfoldable pub covers_tokens : List Bytes → List Bytes → Bool
covers_tokens [] [] = true
covers_tokens [] (_ ∷ _) = false
covers_tokens (tok ∷ w) [] = false
covers_tokens (tok ∷ w) (t ∷ n) =
    let rest = covers_tokens w n in
    if eq_bytes tok full_wildcard
    then true
    else if eq_bytes t full_wildcard
    then false
    else if not (eq_bytes tok star) && not (eq_bytes tok t)
    then false
    else rest

unfoldable pub covers : Bytes → Bytes → Bool
unfolding covers_tokens
covers wide narrow = covers_tokens (split_at b'.' wide) (split_at b'.' narrow)

unfoldable pub data_subjects : Bytes → List Bytes
data_subjects topic = topic ∷ (topic ++ codes ".>") ∷ []

unfoldable pub schedule_wildcard : Bytes → Bytes
schedule_wildcard topic = codes "schedules." ++ (topic ++ codes ".>")
