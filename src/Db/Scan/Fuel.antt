-- ===== src/Db/Scan/Fuel.antt =====
-- db/bind.go: the loops end, each within as many rounds as the query has bytes.
use go_dev_sdk.Prelude.{
  ℕ, ◌+◌, ◌≤◌, ◌≡◌, Bool, [], arith, Bytes, length, loop, Progresses, loop_fuel,
}
use go_dev_sdk.Db.Driver.{Dialect}
use go_dev_sdk.Db.Scan.{
  skip_quoted_step, skip_quoted, skip_block_step, skip_block_comment, placeholder_step,
  placeholder_indexes,
}
use go_dev_sdk.Db.Scan.Bounds.{placeholder_step-literal_end}

skip_quoted_step-Progresses :
    (q : Bytes) (quote : ℕ) (b : Bool)
    → Progresses (length q) (λ _. length q) (skip_quoted_step q quote b)
unfolding skip_quoted_step
skip_quoted_step-Progresses q quote b i j s s' lt e = ground arith

skip_block_step-Progresses :
    (q : Bytes) (nested : Bool) → Progresses (length q) (λ _. length q) (skip_block_step q nested)
unfolding skip_block_step
skip_block_step-Progresses q nested i j s s' lt e = ground arith

placeholder_step-Progresses :
    (q : Bytes) (d : Dialect) → Progresses (length q) (λ s. s) (placeholder_step q d)
placeholder_step-Progresses q d i j s s' lt e =
    ground (arith, placeholder_step-literal_end q i d s lt)

-- The loops over quoted text, block comments and placeholders do not run out of their fuel, the length of
-- the query: with any more fuel each gives the same result.
pub scan_fuel :
    (q : Bytes) (d : Dialect) (start quote : ℕ) (b : Bool) (fuel : ℕ)
    → length q ≤ fuel
    → (loop (length q) (λ _. length q) (skip_quoted_step q quote b) fuel (start + 1) tt
        ≡ skip_quoted q start quote b)
      × (loop (length q) (λ _. length q) (skip_block_step q b) fuel start 1
          ≡ skip_block_comment q start b)
      × (loop (length q) (λ s. s) (placeholder_step q d) fuel 0 [] ≡ placeholder_indexes q d)
unfolding skip_quoted skip_block_comment placeholder_indexes
scan_fuel q d start quote b fuel h = (
  loop_fuel (length q) _ _ (skip_quoted_step-Progresses q quote b) fuel (length q) (start + 1) tt
      (omega arith) (omega arith),
  loop_fuel (length q) _ _ (skip_block_step-Progresses q b) fuel (length q) start 1 (omega arith)
      (omega arith),
  loop_fuel (length q) _ _ (placeholder_step-Progresses q d) fuel (length q) 0 [] (omega arith)
      (omega arith),
)
