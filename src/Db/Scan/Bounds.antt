-- ===== src/Db/Scan/Bounds.antt =====
-- db/bind.go: each skip of the scanner ends after its start and within the query.
use go_dev_sdk.Prelude.{
  ℕ, ◌+◌, ◌≤◌, ◌<◌, ◌≡◌, Bool, false, ◌||◌, List, [], ◌∷◌, ◌++◌, some, inl, inr, arith, Bytes,
  length, drop, length-drop, After, goto, loop_inv, index_of, Option-cases, slice, ltb, ◌==◌,
  byte_at, if◌then◌else◌,
}
use go_dev_sdk.Prelude.StringLaws.{index_of-le}
use go_dev_sdk.Db.Driver.{Dialect, is_mysql, is_postgres}
use go_dev_sdk.Db.Scan.{
  skip_quoted_step, skip_quoted, skip_line_comment, skip_block_step, skip_block_comment,
  tag_end_step, tag_end, dollar_body_end, skip_dollar_quoted, literal_end, is_escape_string,
  placeholder_step,
}

abbrev pub Within : Bytes → ℕ → ℕ → Type 0
Within q start r = (start < r) × (r ≤ length q)

skip_quoted_step-After :
    (q : Bytes) (quote : ℕ) (backslash : Bool) (start i : ℕ) (s : Unit {0})
    → i < length q
    → start < i
    → After (λ i _. start < i) (Within q start) i (skip_quoted_step q quote backslash i s)
unfolding skip_quoted_step
skip_quoted_step-After q quote backslash start i s lt h = ground arith

pub skip_quoted-Within :
    (q : Bytes) (start quote : ℕ) (backslash : Bool)
    → start < length q
    → Within q start (skip_quoted q start quote backslash)
unfolding skip_quoted
skip_quoted-Within q start quote backslash h =
    loop_inv (length q) _ (skip_quoted_step q quote backslash) (λ i _. start < i) (Within q start)
      (skip_quoted_step-After q quote backslash start) (λ i s end p. (h, omega arith)) (length q)
      (start + 1) tt (omega arith) (omega arith)

pub skip_line_comment-Within :
    (q : Bytes) (start i : ℕ) → i < start → i < length q → Within q i (skip_line_comment q start)
unfolding skip_line_comment
skip_line_comment-Within q start i h lt = elim (Option-cases (index_of (10 ∷ []) (drop start q))) [
  | inl e ↦ rw (e, skip_line_comment) (omega arith)
  | inr (k, e) ↦
      rw (e, skip_line_comment)
        (omega (arith, index_of-le (10 ∷ []) (drop start q) k e, length-drop start q))
]

skip_block_step-After :
    (q : Bytes) (nested : Bool) (start i depth : ℕ)
    → i < length q
    → start < i
    → After (λ i _. start < i) (Within q start) i (skip_block_step q nested i depth)
unfolding skip_block_step
skip_block_step-After q nested start i depth lt h = ground arith

pub skip_block_comment-Within :
    (q : Bytes) (start i : ℕ) (nested : Bool)
    → i < start
    → i < length q
    → Within q i (skip_block_comment q start nested)
unfolding skip_block_comment
skip_block_comment-Within q start i nested h lt =
    loop_inv (length q) _ (skip_block_step q nested) (λ j _. i < j) (Within q i)
      (skip_block_step-After q nested i) (λ j s end p. (lt, omega arith)) (length q) start 1
      (omega arith) h

tag_end_step-After :
    (q : Bytes) (start i : ℕ) (s : Unit {0})
    → i < length q
    → start < i
    → After (λ i _. start < i) (Within q start) i (tag_end_step q i s)
unfolding tag_end_step
tag_end_step-After q start i s lt h = ground arith

tag_end-Within : (q : Bytes) (start : ℕ) → start < length q → Within q start (tag_end q start)
unfolding tag_end
tag_end-Within q start h =
    loop_inv (length q) _ (tag_end_step q) (λ i _. start < i) (Within q start)
      (tag_end_step-After q start) (λ i s end p. (h, omega arith)) (length q) (start + 1) tt
      (omega arith) (omega arith)

dollar_body_end-Within :
    (q : Bytes) (start j : ℕ)
    → start < j
    → j < length q
    → Within q start (dollar_body_end q start j)
unfolding dollar_body_end
dollar_body_end-Within q start j h lt =
    elim (Option-cases (index_of (slice start (j + 1) q) (drop (j + 1) q))) [
      | inl e ↦ rw (e, dollar_body_end) (omega arith)
      | inr (k, e) ↦
          rw (e, dollar_body_end)
            (omega (
              arith,
              index_of-le (slice start (j + 1) q) (drop (j + 1) q) k e,
              length-drop (j + 1) q,
            ))
    ]

pub skip_dollar_quoted-Within :
    (q : Bytes) (start end : ℕ)
    → start < length q
    → skip_dollar_quoted q start ≡ some end
    → Within q start end
unfolding skip_dollar_quoted
skip_dollar_quoted-Within q start end h e =
    ground (arith, tag_end-Within q start h, dollar_body_end-Within q start (tag_end q start))

-- The ends that the two scanners jump to from position i, all at once.
pub skips :
    (q : Bytes) (i : ℕ) (d : Dialect)
    → i < length q
    → Within q i (skip_quoted q i 0x27 (is_mysql d || is_escape_string q i d))
      × Within q i (skip_quoted q i 0x22 (is_mysql d))
      × Within q i (skip_quoted q i 0x60 false)
      × Within q i (skip_line_comment q (i + 1))
      × Within q i (skip_line_comment q (i + 2))
      × Within q i (skip_block_comment q (i + 2) (is_postgres d))
skips q i d h = (
  skip_quoted-Within q i 0x27 _ h,
  skip_quoted-Within q i 0x22 _ h,
  skip_quoted-Within q i 0x60 _ h,
  skip_line_comment-Within q (i + 1) i (omega arith) h,
  skip_line_comment-Within q (i + 2) i (omega arith) h,
  skip_block_comment-Within q (i + 2) i _ (omega arith) h,
)

pub literal_end-le :
    (q : Bytes) (i : ℕ) (d : Dialect)
    → i < length q
    → (i ≤ literal_end q i d) × (literal_end q i d ≤ length q)
unfolding literal_end
literal_end-le q i d h = elim (Option-cases (skip_dollar_quoted q i)) [
  | inl e ↦ rw (e, literal_end) (ground (arith, skips q i d h))
  | inr (end, e) ↦
      rw (e, literal_end) (ground (arith, skips q i d h, skip_dollar_quoted-Within q i end h e))
]

-- Both scanners read the query alike: a round of the placeholder scan jumps to the end of the
-- construct that starts at the position, if one does, and else moves by one byte and records the
-- position exactly when it holds '?'.
pub placeholder_step-literal_end :
    (q : Bytes) (i : ℕ) (d : Dialect) (indexes : List ℕ)
    → i < length q
    → placeholder_step q d i indexes ≡ (
        if ltb i (literal_end q i d)
        then goto (literal_end q i d) indexes
        else goto (i + 1) (if byte_at q i == b'?' then indexes ++ i ∷ [] else indexes))
unfolding literal_end placeholder_step
placeholder_step-literal_end q i d indexes h = elim (Option-cases (skip_dollar_quoted q i)) [
  | inl e ↦ rw (e, literal_end, placeholder_step) (ground (arith, skips q i d h))
  | inr (end, e) ↦
      rw (e, literal_end, placeholder_step)
        (ground (arith, skips q i d h, skip_dollar_quoted-Within q i end h e))
]
