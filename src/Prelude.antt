-- ===== src/Prelude.antt =====
-- The names that the other modules share: the libraries', passed on, and those of the children.
mod Tests
mod Lists
mod Loops
mod Strings
pub mod Int
pub mod StringLaws
pub mod Normal
pub use Tests.*
pub use Lists.*
unfoldable pub use Lists.{reports}
unfoldable pub use Loops.{loop}
pub use Loops.{Next, goto, done, resume, After, Progresses, loop_inv, loop_fuel}
unfoldable pub use Strings.{
  eq_bytes, lower_byte, is_space, trim_left, to_lower, trim_space, contains_byte, replace_byte,
  replace_pair, split_at, push_front, cut_at, cut_prefix, starts_with, index_of, itoa,
  join_host_port,
}
pub use Strings.{Bytes, codes, eq_bytes_iff, eq_bytes_self, byte_at, is_empty}
pub use Prim.Native.Nat.{ℕ, zero, suc, ◌+◌, ◌-◌, ◌*◌, ◌/◌, ◌%◌, ◌^◌, ◌≤◌, ◌<◌, min}
pub use mathlib.Core.Path.{◌≡◌, refl, sym, ap, ap₂, ◌∙◌}
pub use mathlib.Core.Logic.{◌≢◌, ◌↔◌, ◌⊎◌, inl, inr}
pub use mathlib.Core.Bool.{Bool, true, false, ◌&&◌, ◌||◌, not}
pub use mathlib.Core.Option.{Option, none, some}
pub use mathlib.Core.List.{List, [], ◌∷◌, ◌++◌, map, append-nil, append_assoc, map-append}
pub use native.Mathlib.Omega.{arith}
