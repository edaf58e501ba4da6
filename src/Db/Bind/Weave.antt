-- ===== src/Db/Bind/Weave.antt =====
-- db/bind.go: the writing loops copy the text between the placeholders and put a new text in place of
-- each. Byte by byte, that is `weave`.
use go_dev_sdk.Prelude.{
  ℕ, zero, suc, ◌+◌, ◌-◌, ◌≤◌, ◌<◌, ◌≡◌, refl, sym, ap, ◌∙◌, true, false, List, [], ◌∷◌, ◌++◌,
  arith, Bytes, byte_at, length, drop, slice, drop-get, slice-drop, ◌==◌,
}

-- New texts for offsets that rise from lo on and stay below n.
abbrev pub Rising : ℕ → ℕ → List (ℕ × Bytes) → Type 0
Rising n lo [] = Unit
Rising n lo ((m, t) ∷ ms) = (lo ≤ m) × (m < n) × Rising n (m + 1) ms

-- The text of a query from offset i on, with the byte at each listed offset replaced.
unfoldable pub weave : ℕ → Bytes → List (ℕ × Bytes) → Bytes
weave i [] ms = []
weave i (c ∷ s) [] = c ∷ s
weave i (c ∷ s) ((m, t) ∷ ms) = elim (i == m) [
  | true ↦ t ++ weave (i + 1) s ms
  | false ↦ c ∷ weave (i + 1) s ((m, t) ∷ ms)
]

unfoldable pub fill : Bytes → ℕ → List (ℕ × Bytes) → Bytes
fill q prev [] = drop prev q
fill q prev ((m, t) ∷ ms) = slice prev m q ++ (t ++ fill q (m + 1) ms)

pub weave_none : (i : ℕ) (s : Bytes) → weave i s [] ≡ s
unfolding weave
weave_none i [] = refl
weave_none i (c ∷ s) = refl

drop-next : (q : Bytes) (i : ℕ) → i < length q → drop i q ≡ byte_at q i ∷ drop (i + 1) q
drop-next q i h =
    drop-get i q 256 h
    ∙ ap (λ (n : ℕ). byte_at q i ∷ drop n q) (let e : suc i ≡ i + 1 = omega arith in e)

slice_self : (q : Bytes) (i : ℕ) → slice i i q ≡ []
slice_self q i = let e : i - i ≡ 0 = omega arith in rw e

-- Where the byte at m is c, the text from i on is what stands before m, c and the rest.
pub drop-split :
    (q : Bytes) (i m c : ℕ)
    → i ≤ m
    → m < length q
    → byte_at q m ≡ c
    → slice i m q ++ c ∷ drop (m + 1) q ≡ drop i q
drop-split q i m c le lt e =
    ap (λ (t : Bytes). slice i m q ++ t)
      (ap (λ (b : ℕ). b ∷ drop (m + 1) q) (sym e) ∙ sym (drop-next q m lt))
    ∙ slice-drop i m q le

slice_cons :
    (q : Bytes) (i m : ℕ) → i < m → m < length q → slice i m q ≡ byte_at q i ∷ slice (i + 1) m q
slice_cons q i m h lt =
    let e : m - i ≡ suc (m - (i + 1)) = omega arith in rw (e, drop-next q i (omega arith))

weave_at :
    (i : ℕ) (c : ℕ) (s t : Bytes) (ms : List (ℕ × Bytes))
    → weave i (c ∷ s) ((i, t) ∷ ms) ≡ t ++ weave (i + 1) s ms
unfolding weave
weave_at i c s t ms = let e : (i == i) ≡ true = ground arith in rw (e, weave)

weave_past :
    (i m : ℕ) (c : ℕ) (s t : Bytes) (ms : List (ℕ × Bytes))
    → i < m
    → weave i (c ∷ s) ((m, t) ∷ ms) ≡ c ∷ weave (i + 1) s ((m, t) ∷ ms)
unfolding weave
weave_past i m c s t ms h = let e : (i == m) ≡ false = ground arith in rw (e, weave)

module _ (q : Bytes) (m : ℕ) (t : Bytes) (ms : List (ℕ × Bytes)) where
  fill_here :
      m < length q
      → fill q (m + 1) ms ≡ weave (m + 1) (drop (m + 1) q) ms
      → fill q m ((m, t) ∷ ms) ≡ weave m (drop m q) ((m, t) ∷ ms)
  unfolding fill
  fill_here lt ih =
      rw (slice_self q m, drop-next q m lt, weave_at m (byte_at q m) (drop (m + 1) q) t ms, ih)

  fill_gap :
      (g i : ℕ)
      → i + g ≡ m
      → m < length q
      → fill q (m + 1) ms ≡ weave (m + 1) (drop (m + 1) q) ms
      → fill q i ((m, t) ∷ ms) ≡ weave i (drop i q) ((m, t) ∷ ms)
  unfolding fill
  fill_gap zero i e lt ih = let same : i ≡ m = omega arith in rw same (fill_here lt ih)
  fill_gap (suc g) i e lt ih =
      let more : i < m = omega arith in
      rw
        (
          slice_cons q i m more lt,
          drop-next q i (omega arith),
          weave_past i m (byte_at q i) (drop (i + 1) q) t ms more,
        )
        (ap (◌∷◌ (byte_at q i)) (fill_gap g (i + 1) (omega arith) lt ih))

pub fill-weave :
    (q : Bytes) (i : ℕ) (ms : List (ℕ × Bytes))
    → Rising (length q) i ms
    → fill q i ms ≡ weave i (drop i q) ms
unfolding fill
fill-weave q i [] r = sym (weave_none i (drop i q))
fill-weave q i ((m, t) ∷ ms) (le, lt, r) =
    fill_gap q m t ms (m - i) i (omega arith) lt (fill-weave q (m + 1) ms r)
