-- ===== src/Db/Bind/Rebinding.antt =====
-- db/bind.go: what `rebind` writes, byte by byte.
use go_dev_sdk.Prelude.{
  ℕ, ◌+◌, ◌≡◌, refl, sym, ap, ◌∙◌, List, [], ◌∷◌, ◌++◌, Bytes, length, drop, slice,
}
use go_dev_sdk.Db.Driver.{BindType, question, DriverSpec}
use go_dev_sdk.Db.Scan.{placeholder_indexes}
use go_dev_sdk.Db.Scan.Placeholders.{Marks, placeholder_indexes-Marks}
use go_dev_sdk.Db.Bind.{mark_text, rebind_loop, rebind}
use go_dev_sdk.Db.Bind.Weave.{Rising, weave, weave_none, fill, fill-weave, drop-split}

-- The k-th placeholder of a query, from k + 1 on, gets its number.
unfoldable pub numbered : BindType → ℕ → List ℕ → List (ℕ × Bytes)
unfolding mark_text
numbered b k [] = []
numbered b k (m ∷ ms) = (m, mark_text b (k + 1)) ∷ numbered b (k + 1) ms

numbered-Rising :
    (q : Bytes) (b : BindType) (k lo : ℕ) (ms : List ℕ)
    → Marks q lo (length q) ms
    → Rising (length q) lo (numbered b k ms)
unfolding numbered
numbered-Rising q b k lo [] h = tt
numbered-Rising q b k lo (m ∷ ms) (le, lt, _, h) =
    (le, lt, numbered-Rising q b (k + 1) (m + 1) ms h)

rebind_loop-fill :
    (q : Bytes) (b : BindType) (prev k : ℕ) (ms : List ℕ)
    → rebind_loop q b prev k ms ≡ fill q prev (numbered b k ms)
unfolding rebind_loop fill numbered
rebind_loop-fill q b prev k [] = refl
rebind_loop-fill q b prev k (m ∷ ms) =
    ap (λ (t : Bytes). slice prev m q ++ (mark_text b (k + 1) ++ t))
      (rebind_loop-fill q b (m + 1) (k + 1) ms)

-- A placeholder that is replaced by itself.
fill_question :
    (q : Bytes) (k lo : ℕ) (ms : List ℕ)
    → Marks q lo (length q) ms
    → fill q lo (numbered question k ms) ≡ drop lo q
unfolding fill numbered
fill_question q k lo [] h = refl
fill_question q k lo (m ∷ ms) (le, lt, e, h) =
    ap (λ (t : Bytes). slice lo m q ++ b'?' ∷ t) (fill_question q (k + 1) (m + 1) ms h)
    ∙ drop-split q lo m b'?' le lt e

module _ (q : Bytes) (d : DriverSpec) where
  rebind_loop-weave :
      (b : BindType) (ms : List ℕ)
      → Marks q 0 (length q) ms
      → rebind_loop q b 0 0 ms ≡ weave 0 q (numbered b 0 ms)
  rebind_loop-weave b ms h =
      rebind_loop-fill q b 0 0 ms ∙ fill-weave q 0 (numbered b 0 ms) (numbered-Rising q b 0 0 ms h)

  rebind_cases :
      (b : BindType) (ms : List ℕ)
      → d.bind_type ≡ b
      → placeholder_indexes q d.dialect ≡ ms
      → Marks q 0 (length q) ms
      → rebind q d ≡ weave 0 q (numbered b 0 ms)
  unfolding rebind numbered
  rebind_cases question ms eb em h =
      rw (eb, rebind)
        (sym (
          sym (fill-weave q 0 (numbered question 0 ms) (numbered-Rising q question 0 0 ms h))
          ∙ fill_question q 0 0 ms h))
  rebind_cases b [] eb em h = rw (eb, em, rebind) (sym (weave_none 0 q))
  rebind_cases b (m ∷ ms) eb em h = rw (eb, em, rebind) (rebind_loop-weave b (m ∷ ms) h)

  -- In every placeholder syntax the rebound query is the query with each placeholder, and nothing
  -- else, replaced by its numbered form, counted from 1 in the order of the text.
  pub rebind-weave :
      rebind q d ≡ weave 0 q (numbered d.bind_type 0 (placeholder_indexes q d.dialect))
  rebind-weave =
      rebind_cases d.bind_type (placeholder_indexes q d.dialect) refl refl
        (placeholder_indexes-Marks q d.dialect)
