-- ===== src/Db/Scan/Placeholders.antt =====
-- db/bind.go: what `placeholderIndexes` returns.
use go_dev_sdk.Prelude.{
  ℕ, suc, zero, ◌+◌, ◌-◌, ◌≤◌, ◌<◌, ◌≡◌, ◌↔◌, ◌⊎◌, inl, inr, List, [], ◌∷◌, ◌++◌, arith, Bytes,
  byte_at, length, ltb, ltb→lt, ltb→le, ◌==◌, if◌then◌else◌, goto, After, loop, loop_inv,
  Bool-cases,
}
use go_dev_sdk.Db.Driver.{Dialect}
use go_dev_sdk.Db.Scan.{placeholder_step, placeholder_indexes, literal_end}
use go_dev_sdk.Db.Scan.Bounds.{placeholder_step-literal_end, literal_end-le}

-- Offsets from lo on and below hi, rising, each of a '?' of the query.
abbrev pub Marks : Bytes → ℕ → ℕ → List ℕ → Type 0
Marks q lo hi [] = lo ≤ hi
Marks q lo hi (x ∷ xs) = (lo ≤ x) × (x < hi) × (byte_at q x ≡ b'?') × Marks q (x + 1) hi xs

Marks-widen :
    (q : Bytes) (lo hi hi' : ℕ) (xs : List ℕ) → hi ≤ hi' → Marks q lo hi xs → Marks q lo hi' xs
Marks-widen q lo hi hi' [] h m = omega arith
Marks-widen q lo hi hi' (x ∷ xs) h (a, b, c, m) =
    (a, omega arith, c, Marks-widen q (x + 1) hi hi' xs h m)

Marks-concat :
    (q : Bytes) (lo i : ℕ) (xs : List ℕ)
    → byte_at q i ≡ b'?'
    → Marks q lo i xs
    → Marks q lo (i + 1) (xs ++ i ∷ [])
Marks-concat q lo i [] e m = (m, omega arith, e, omega arith)
Marks-concat q lo i (x ∷ xs) e (a, b, c, m) = (a, omega arith, c, Marks-concat q (x + 1) i xs e m)

module _ (q : Bytes) (d : Dialect) where
  -- What the loop keeps: the offsets found lie below the position.
  abbrev Found : ℕ → List ℕ → Type 0
  Found i xs = (i ≤ length q) × Marks q 0 i xs

  placeholder_step-After :
      (i : ℕ) (xs : List ℕ)
      → i < length q
      → Found i xs
      → After Found (Marks q 0 (length q)) i (placeholder_step q d i xs)
  placeholder_step-After i xs lt (le, m) = rw (placeholder_step-literal_end q i d xs lt) (
      ground (
        arith,
        literal_end-le q i d lt,
        Marks-widen q 0 i (literal_end q i d) xs,
        Marks-widen q 0 i (i + 1) xs,
        Marks-concat q 0 i xs,
      ))

  -- The offsets rise, lie within the query and hold '?'.
  pub placeholder_indexes-Marks : Marks q 0 (length q) (placeholder_indexes q d)
  unfolding placeholder_indexes
  placeholder_indexes-Marks =
      loop_inv (length q) (λ s. s) (placeholder_step q d) Found (Marks q 0 (length q))
        placeholder_step-After (λ i xs end f. Marks-widen q 0 i (length q) xs f.0 f.1) (length q) 0
        [] (omega arith) (omega arith, omega arith)

  -- The position after i: the end of the construct that starts there, or the next byte.
  abbrev pub advance : ℕ → ℕ
  advance i = if ltb i (literal_end q i d) then literal_end q i d else i + 1

  -- A scan from i comes to x: it never starts inside a construct that it has met.
  pub data Visits (x : ℕ) : ℕ → Type 0 where
    here : {i : ℕ} → i ≡ x → Visits x i
    later : {i : ℕ} → i < length q → Visits x (advance i) → Visits x i

  abbrev pub IsMark : ℕ → ℕ → Type 0
  IsMark i x = Visits x i × (x < length q) × (byte_at q x ≡ b'?')

  literal_end_mark : (i : ℕ) → byte_at q i ≡ b'?' → literal_end q i d ≡ i
  unfolding literal_end
  literal_end_mark i e = ground arith

  abbrev noted : ℕ → List ℕ → List ℕ
  noted i s = if byte_at q i == b'?' then s ++ i ∷ [] else s

  placeholder_step_lem :
      (i : ℕ) (s : List ℕ) → i < length q → placeholder_step q d i s ≡ goto (advance i) (noted i s)
  placeholder_step_lem i s lt =
      rw (placeholder_step-literal_end q i d s lt) (ground (arith, literal_end_mark i))

abbrev pub In : ℕ → List ℕ → Type 0
In x [] = ⊥
In x (y ∷ ys) = (x ≡ y) ⊎ In x ys

In-concat : (x y : ℕ) (ys : List ℕ) → In x (ys ++ y ∷ []) ↔ (In x ys ⊎ (x ≡ y))
In-concat x y [] = ground arith
In-concat x y (z ∷ ys) = ground (arith, In-concat x y ys)

module _ (q : Bytes) (d : Dialect) (x : ℕ) where
  abbrev scan : ℕ → ℕ → List ℕ → List ℕ
  scan = loop (length q) (λ s. s) (placeholder_step q d)

  IsMark-lt : (i : ℕ) → IsMark q d i x → i < length q
  IsMark-lt i (here e, lt, _) = omega arith
  IsMark-lt i (later lt _, _, _) = lt

  In-noted : (i : ℕ) (s : List ℕ) → In x (noted q d i s) → In x s ⊎ ((i ≡ x) × (byte_at q i ≡ b'?'))
  In-noted i s h = ground (arith, In-concat x i s)

  noted-In : (i : ℕ) (s : List ℕ) → In x s ⊎ ((i ≡ x) × (byte_at q i ≡ b'?')) → In x (noted q d i s)
  noted-In i s h = ground (arith, In-concat x i s)

  advance-lt : (i : ℕ) → i < advance q d i
  advance-lt i = ground arith

  back :
      (i : ℕ) (s : List ℕ)
      → i < length q
      → In x (noted q d i s) ⊎ IsMark q d (advance q d i) x
      → In x s ⊎ IsMark q d i x
  back i s lt (inr (v, bound, mark)) = inr (later lt v, bound, mark)
  back i s lt (inl h) = elim (In-noted i s h) [
    | inl old ↦ inl old
    | inr (e, mark) ↦ inr (here e, rw e at lt, rw e at mark)
  ]

  forth :
      (i : ℕ) (s : List ℕ)
      → In x s ⊎ IsMark q d i x
      → In x (noted q d i s) ⊎ IsMark q d (advance q d i) x
  forth i s (inl h) = inl (noted-In i s (inl h))
  forth i s (inr (here e, bound, mark)) = inl (noted-In i s (inr (e, rw (← e) at mark)))
  forth i s (inr (later lt v, bound, mark)) = inr (v, bound, mark)

  scan_sound :
      (fuel i : ℕ) (s : List ℕ)
      → length q - i ≤ fuel
      → In x (scan fuel i s)
      → In x s ⊎ IsMark q d i x
  unfolding loop
  scan_sound zero i s m h = inl h
  scan_sound (suc fuel) i s m h = elim (Bool-cases (ltb i (length q))) [
    | inr over ↦ inl (rw (over, loop) at h)
    | inl more ↦
        let lt : i < length q = ltb→lt i (length q) more in
        let h' : In x (scan fuel (advance q d i) (noted q d i s)) =
          rw (more, loop, placeholder_step_lem q d i s lt) at h in
        back i s lt (scan_sound fuel (advance q d i) _ (omega (arith, advance-lt i)) h')
  ]

  scan_complete :
      (fuel i : ℕ) (s : List ℕ)
      → length q - i ≤ fuel
      → In x s ⊎ IsMark q d i x
      → In x (scan fuel i s)
  unfolding loop
  scan_complete zero i s m (inl h) = h
  scan_complete zero i s m (inr h) = absurd (omega (arith, IsMark-lt i h))
  scan_complete (suc fuel) i s m h = elim (Bool-cases (ltb i (length q))) [
    | inr over ↦
        rw (over, loop)
          (elim h [
            | inl old ↦ old
            | inr mark ↦ absurd (omega (arith, IsMark-lt i mark, ltb→le i (length q) over))
          ])
    | inl more ↦
        let lt : i < length q = ltb→lt i (length q) more in
        rw (more, loop, placeholder_step_lem q d i s lt)
          (scan_complete fuel (advance q d i) _ (omega (arith, advance-lt i)) (forth i s h))
  ]

  -- An offset is returned exactly when a scan that jumps over the quoted strings, identifiers and
  -- comments that it meets comes to it, and it holds '?'.
  pub placeholder_indexes-In :
      In x (placeholder_indexes q d) ↔ (Visits q d x 0 × (x < length q) × (byte_at q x ≡ b'?'))
  unfolding placeholder_indexes
  placeholder_indexes-In = (to, λ h. scan_complete (length q) 0 [] (omega arith) (inr h))
    where
      to : In x (scan (length q) 0 []) → IsMark q d 0 x
      to h = elim (scan_sound (length q) 0 [] (omega arith) h) [
        | inl old ↦ absurd old
        | inr mark ↦ mark
      ]
