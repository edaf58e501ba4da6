-- ===== src/Db/Statement/Operation.antt =====
-- db/db.go: `operationName`, with the matching of sqlOpRE as a scan: the leading blanks, comments and
-- parentheses, and then a word, which is as long as it can be since \b follows it. A letter is ASCII.
pub mod Verbs
use go_dev_sdk.Prelude.{
  ℕ, ◌-◌, leb, Bool, true, false, ◌&&◌, ◌||◌, ◌==◌, List, [], ◌∷◌, map, Option, none, some, Bytes,
  codes, eq_bytes, if◌then◌else◌,
}

-- Where the scan is: between pieces, after a first '/' or '-', in a line comment, in a block comment, or
-- after a '*' in one.
pub data Mode : Type 0 where
  start slash dash line block star : Mode

pub data Move : Type 0 where
  into : Mode → Move
  word_here no_match : Move

-- \s of RE2.
abbrev pub is_blank : ℕ → Bool
is_blank c = c == b' ' || c == 9 || c == 10 || c == 12 || c == 13

unfoldable pub move : Mode → ℕ → Move
move start c =
    if is_blank c || c == b'('
    then into start
    else if c == b'/'
    then into slash
    else if c == b'-'
    then into dash
    else word_here
move slash c = if c == b'*' then into block else no_match
move dash c = if c == b'-' then into line else no_match
move line c = if c == 10 then into start else into line
move block c = if c == b'*' then into star else into block
move star c = if c == b'/' then into start else if c == b'*' then into star else into block

abbrev pub at_end : Mode → Option Bytes
at_end start = some []
at_end slash = none
at_end dash = none
at_end line = none
at_end block = none
at_end star = none

-- The text from the word on, or none where the expression cannot match.
unfoldable pub skip_leading : Mode → Bytes → Option Bytes
unfolding move
skip_leading m [] = at_end m
skip_leading m (c ∷ s) = elim (move m c) [
  | into m' ↦ skip_leading m' s
  | word_here ↦ some (c ∷ s)
  | no_match ↦ none
]

abbrev pub upper_byte : ℕ → ℕ
upper_byte c = if leb b'a' c && leb c b'z' then c - 32 else c

-- `strings.ToUpper`.
unfoldable pub to_upper : Bytes → Bytes
to_upper s = map upper_byte s

abbrev pub is_word_byte : ℕ → Bool
is_word_byte c =
    (leb b'a' c && leb c b'z')
    || (leb b'A' c && leb c b'Z')
    || (leb b'0' c && leb c b'9')
    || c == b'_'

unfoldable pub first_word : Bytes → Bytes
first_word [] = []
first_word (c ∷ s) = let rest = first_word s in if is_word_byte c then c ∷ rest else []

abbrev pub verbs : List Bytes
verbs =
    codes "SELECT"
    ∷ codes "INSERT"
    ∷ codes "UPDATE"
    ∷ codes "DELETE"
    ∷ codes "WITH"
    ∷ codes "REPLACE"
    ∷ codes "MERGE"
    ∷ codes "CALL"
    ∷ codes "CREATE"
    ∷ codes "ALTER"
    ∷ codes "DROP"
    ∷ codes "TRUNCATE"
    ∷ codes "SET"
    ∷ codes "EXPLAIN"
    ∷ codes "SHOW"
    ∷ codes "DESCRIBE"
    ∷ codes "VACUUM"
    ∷ codes "ANALYZE"
    ∷ []

unfoldable pub is_among : Bytes → List Bytes → Bool
is_among w [] = false
is_among w (v ∷ vs) = eq_bytes w v || is_among w vs

abbrev pub or_verb : Bytes → Bytes → Bytes
or_verb op word = if is_among word verbs then word else op

abbrev pub named : Bytes → Option Bytes → Bytes
named op none = to_upper op
named op (some rest) = or_verb (to_upper op) (to_upper (first_word rest))

unfoldable pub operation_name : Bytes → Bytes → Bytes
unfolding skip_leading to_upper first_word is_among
operation_name op query = named op (skip_leading start query)
