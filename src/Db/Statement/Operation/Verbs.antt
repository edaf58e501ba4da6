-- ===== src/Db/Statement/Operation/Verbs.antt =====
-- db/db.go: what the name of an operation can be, and what it does not depend on.
use go_dev_sdk.Prelude.{
  ℕ, ◌≡◌, ◌⊎◌, refl, ap, ◌∙◌, inl, inr, true, false, ◌==◌, Bool-cases, List, [], ◌∷◌, ◌++◌, Bytes,
  codes, contains_byte, arith, All, append_assoc, Option-cases,
}
use go_dev_sdk.Db.Statement.Operation.{
  start, line, block, is_blank, move, skip_leading, to_upper, first_word, verbs, is_among, or_verb,
  named, operation_name,
}

or_verb-among :
    (op word : Bytes) → (is_among (or_verb op word) verbs ≡ true) ⊎ (or_verb op word ≡ op)
or_verb-among op word = elim (Bool-cases (is_among word verbs)) [
  | inl e ↦ rw e (inl e)
  | inr e ↦ rw e (inr refl)
]

-- Whatever the query, the name of the operation is one of the 18 verbs or the caller's in capitals.
pub operation_name-among :
    (op query : Bytes)
    → (is_among (operation_name op query) verbs ≡ true) ⊎ (operation_name op query ≡ to_upper op)
unfolding operation_name
operation_name-among op query = elim (Option-cases (skip_leading start query)) [
  | inl e ↦ rw (e, operation_name) (inr refl)
  | inr (rest, e) ↦
      rw (e, operation_name) (or_verb-among (to_upper op) (to_upper (first_word rest)))
]

-- What may stand before the verb.
pub data Piece : Type 0 where
  blank : ℕ → Piece
  paren : Piece
  line_comment block_comment : Bytes → Piece

abbrev pub piece_text : Piece → Bytes
piece_text (blank c) = c ∷ []
piece_text paren = codes "("
piece_text (line_comment t) = codes "--" ++ (t ++ 10 ∷ [])
piece_text (block_comment t) = codes "/*" ++ (t ++ codes "*/")

-- A blank is a space, a tab or a line's end; a line comment has no line feed within, and a block comment
-- no star.
abbrev pub IsPiece : Piece → Type 0
IsPiece (blank c) = is_blank c ≡ true
IsPiece paren = Unit
IsPiece (line_comment t) = contains_byte 10 t ≡ false
IsPiece (block_comment t) = contains_byte b'*' t ≡ false

abbrev pub leading_text : List Piece → Bytes
leading_text [] = []
leading_text (p ∷ ps) = piece_text p ++ leading_text ps

skip_line :
    (t s : Bytes)
    → contains_byte 10 t ≡ false
    → skip_leading line (t ++ 10 ∷ s) ≡ skip_leading start s
unfolding skip_leading move contains_byte
skip_line [] s h = refl
skip_line (c ∷ t) s h = elim (Bool-cases (c == 10)) [
  | inl e ↦ absurd (ground (arith, h))
  | inr e ↦ rw (e, skip_leading, move) (skip_line t s (ground (arith, h)))
]

skip_block :
    (t s : Bytes)
    → contains_byte b'*' t ≡ false
    → skip_leading block (t ++ b'*' ∷ b'/' ∷ s) ≡ skip_leading start s
unfolding skip_leading move contains_byte
skip_block [] s h = refl
skip_block (c ∷ t) s h = elim (Bool-cases (c == b'*')) [
  | inl e ↦ absurd (ground (arith, h))
  | inr e ↦ rw (e, skip_leading, move) (skip_block t s (ground (arith, h)))
]

skip_piece :
    (p : Piece) (s : Bytes)
    → IsPiece p
    → skip_leading start (piece_text p ++ s) ≡ skip_leading start s
unfolding skip_leading move
skip_piece (blank c) s h = rw (h, skip_leading, move) refl
skip_piece paren s h = refl
skip_piece (line_comment t) s h =
    ap (skip_leading line) (append_assoc t (10 ∷ []) s) ∙ skip_line t s h
skip_piece (block_comment t) s h =
    ap (skip_leading block) (append_assoc t (codes "*/") s) ∙ skip_block t s h

skip_pieces :
    (ps : List Piece) (s : Bytes)
    → All IsPiece ps
    → skip_leading start (leading_text ps ++ s) ≡ skip_leading start s
skip_pieces [] s h = refl
skip_pieces (p ∷ ps) s h =
    ap (skip_leading start) (append_assoc (piece_text p) (leading_text ps) s)
    ∙ skip_piece p (leading_text ps ++ s) h.0
    ∙ skip_pieces ps s h.1

-- Blanks, parentheses, line comments and block comments without a star before a query do not change the
-- name of its operation.
pub operation_name-leading :
    (op query : Bytes) (ps : List Piece)
    → All IsPiece ps
    → operation_name op (leading_text ps ++ query) ≡ operation_name op query
unfolding operation_name
operation_name-leading op query ps h = ap (named op) (skip_pieces ps query h)
