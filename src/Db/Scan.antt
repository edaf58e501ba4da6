-- ===== src/Db/Scan.antt =====
-- db/bind.go: the literal-aware scanner. A position is a byte offset; each `for` over the query is
-- a `loop` whose fuel is the length of the query, and which returns that length when it runs out of
-- query, as the source does.
pub mod Bounds
pub mod Placeholders
pub mod Fuel
use go_dev_sdk.Prelude.{
  ℕ, ◌+◌, ◌-◌, Bool, true, false, ◌&&◌, ◌||◌, not, List, [], ◌∷◌, ◌++◌, Option, none, some, Bytes,
  byte_at, length, drop, slice, ltb, leb, ◌==◌, if◌then◌else◌, Next, goto, done, loop, index_of,
}
use go_dev_sdk.Db.Driver.{Dialect, is_mysql, is_postgres}

abbrev is_lower : ℕ → Bool
is_lower c = leb b'a' c && leb c b'z'

abbrev is_upper : ℕ → Bool
is_upper c = leb b'A' c && leb c b'Z'

abbrev is_digit : ℕ → Bool
is_digit c = leb b'0' c && leb c b'9'

abbrev is_high : ℕ → Bool
is_high c = leb 0x80 c && ltb c 256

unfoldable pub is_name_start : ℕ → Bool
is_name_start c = c == b'_' || is_lower c || is_upper c || is_high c

unfoldable pub is_dollar_tag_char : ℕ → Bool
is_dollar_tag_char c = c == b'_' || is_digit c || is_lower c || is_upper c || is_high c

unfoldable pub is_ident_char : ℕ → Bool
is_ident_char c = c == b'_' || c == b'$' || is_digit c || is_lower c || is_upper c || is_high c

unfoldable pub is_space_byte : ℕ → Bool
is_space_byte c = c == b' ' || c == 9 || c == 10 || c == 13 || c == 12 || c == 11

-- One round of the loop of `skipQuoted`.
unfoldable pub skip_quoted_step : Bytes → ℕ → Bool → ℕ → Unit {0} → Next (Unit {0}) ℕ
skip_quoted_step q quote backslash i _ =
    if backslash && byte_at q i == 0x5c
    then goto (i + 2) tt
    else if byte_at q i == quote
    then (if ltb (i + 1) (length q) && byte_at q (i + 1) == quote
        then goto (i + 2) tt
        else done (i + 1))
    else goto (i + 1) tt

unfoldable pub skip_quoted : Bytes → ℕ → ℕ → Bool → ℕ
unfolding skip_quoted_step
skip_quoted q start quote backslash =
    loop (length q) (λ _. length q) (skip_quoted_step q quote backslash) (length q) (start + 1) tt

-- `strings.IndexByte(s, '\n')` is `index_of` at one byte.
unfoldable pub skip_line_comment : Bytes → ℕ → ℕ
skip_line_comment q start = elim (index_of (10 ∷ []) (drop start q)) [
  | some i ↦ start + i + 1
  | none ↦ length q
]

-- One round of the loop of `skipBlockComment`; the state is `depth`, which is at least 1 here.
unfoldable pub skip_block_step : Bytes → Bool → ℕ → ℕ → Next ℕ ℕ
skip_block_step q nested i depth =
    if ltb (i + 1) (length q) && byte_at q i == b'*' && byte_at q (i + 1) == b'/'
    then (if depth - 1 == 0 then done (i + 2) else goto (i + 2) (depth - 1))
    else if nested && ltb (i + 1) (length q) && byte_at q i == b'/' && byte_at q (i + 1) == b'*'
    then goto (i + 2) (depth + 1)
    else goto (i + 1) depth

unfoldable pub skip_block_comment : Bytes → ℕ → Bool → ℕ
unfolding skip_block_step
skip_block_comment q start nested =
    loop (length q) (λ _. length q) (skip_block_step q nested) (length q) start 1

-- The loop of `skipDollarQuoted` over the tag: the first offset that holds no tag character.
unfoldable pub tag_end_step : Bytes → ℕ → Unit {0} → Next (Unit {0}) ℕ
unfolding is_dollar_tag_char
tag_end_step q j _ = if is_dollar_tag_char (byte_at q j) then goto (j + 1) tt else done j

unfoldable pub tag_end : Bytes → ℕ → ℕ
unfolding tag_end_step
tag_end q start = loop (length q) (λ _. length q) (tag_end_step q) (length q) (start + 1) tt

-- `tag != "" && tag[0] >= '0' && tag[0] <= '9'`.
abbrev pub starts_with_digit : Bytes → Bool
starts_with_digit [] = false
starts_with_digit (c ∷ _) = is_digit c

-- The search for the closing delimiter, which is query[start:j+1].
unfoldable pub dollar_body_end : Bytes → ℕ → ℕ → ℕ
dollar_body_end q start j = elim (index_of (slice start (j + 1) q) (drop (j + 1) q)) [
  | some k ↦ j + 1 + k + length (slice start (j + 1) q)
  | none ↦ length q
]

-- `none` is the second result false.
unfoldable pub skip_dollar_quoted : Bytes → ℕ → Option ℕ
unfolding is_ident_char tag_end dollar_body_end
skip_dollar_quoted q start =
    let j = tag_end q start in
    if ltb 0 start && is_ident_char (byte_at q (start - 1))
    then none
    else if leb (length q) j || not (byte_at q j == b'$')
    then none
    else if starts_with_digit (slice (start + 1) j q)
    then none
    else some (dollar_body_end q start j)

unfoldable pub is_escape_string : Bytes → ℕ → Dialect → Bool
unfolding is_ident_char
is_escape_string q i d =
    if not (is_postgres d) || i == 0
    then false
    else if not (byte_at q (i - 1) == b'E') && not (byte_at q (i - 1) == b'e')
    then false
    else if i == 1
    then true
    else not (is_ident_char (byte_at q (i - 2)))

unfoldable pub is_line_comment : Bytes → ℕ → Dialect → Bool
unfolding is_space_byte
is_line_comment q i d =
    if not (is_mysql d) then true else leb (length q) (i + 2) || is_space_byte (byte_at q (i + 2))

-- The tests that the two scanners share, each for a position i < len(query).
abbrev pub opens_line_comment : Bytes → ℕ → Dialect → Bool
opens_line_comment q i d =
    byte_at q i == b'-'
    && ltb (i + 1) (length q)
    && byte_at q (i + 1) == b'-'
    && is_line_comment q i d

abbrev pub opens_block_comment : Bytes → ℕ → Bool
opens_block_comment q i = byte_at q i == b'/' && ltb (i + 1) (length q) && byte_at q (i + 1) == b'*'

unfoldable pub literal_end : Bytes → ℕ → Dialect → ℕ
literal_end q i d =
    if byte_at q i == 0x27
    then skip_quoted q i 0x27 (is_mysql d || is_escape_string q i d)
    else if byte_at q i == 0x22
    then skip_quoted q i 0x22 (is_mysql d)
    else if byte_at q i == 0x60 && is_mysql d
    then skip_quoted q i 0x60 false
    else if byte_at q i == b'#' && is_mysql d
    then skip_line_comment q (i + 1)
    else if opens_line_comment q i d
    then skip_line_comment q (i + 2)
    else if opens_block_comment q i
    then skip_block_comment q (i + 2) (is_postgres d)
    else if byte_at q i == b'$' && is_postgres d
    then (elim (skip_dollar_quoted q i) [ some end ↦ end | none ↦ i ])
    else i

-- One round of the loop of `placeholderIndexes`; the state is `indexes`.
unfoldable pub placeholder_step : Bytes → Dialect → ℕ → List ℕ → Next (List ℕ) (List ℕ)
placeholder_step q d i indexes =
    if byte_at q i == 0x27
    then goto (skip_quoted q i 0x27 (is_mysql d || is_escape_string q i d)) indexes
    else if byte_at q i == 0x22
    then goto (skip_quoted q i 0x22 (is_mysql d)) indexes
    else if byte_at q i == 0x60 && is_mysql d
    then goto (skip_quoted q i 0x60 false) indexes
    else if byte_at q i == b'#' && is_mysql d
    then goto (skip_line_comment q (i + 1)) indexes
    else if opens_line_comment q i d
    then goto (skip_line_comment q (i + 2)) indexes
    else if opens_block_comment q i
    then goto (skip_block_comment q (i + 2) (is_postgres d)) indexes
    else if byte_at q i == b'$' && is_postgres d
    then (elim (skip_dollar_quoted q i) [
      | some end ↦ goto end indexes
      | none ↦ goto (i + 1) indexes
    ])
    else if byte_at q i == b'?'
    then goto (i + 1) (indexes ++ i ∷ [])
    else goto (i + 1) indexes

unfoldable pub placeholder_indexes : Bytes → Dialect → List ℕ
unfolding placeholder_step
placeholder_indexes q d = loop (length q) (λ s. s) (placeholder_step q d) (length q) 0 []
