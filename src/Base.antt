-- ===== src/Base.antt =====
-- Shared names: the libraries', passed on, with the tests on numbers, the list functions over the
-- native numbers and the ordered association lists that stand for `BTreeMap`.
mod Tests
mod Lists
pub mod Orders
pub mod Maps
pub mod Sort
pub use Tests.*
pub use Lists.*
pub use Orders.{Ord, then_with, cmp_bytes, cmp_bytes_refl, cmp_bytes-eq}
unfoldable pub use Orders.{nat_ord, pair_ord, bytes_ord}
pub use Prim.Native.Nat.{
  ℕ, zero, suc, ◌+◌, ◌-◌, ◌*◌, ◌/◌, ◌%◌, ◌^◌, ◌≤◌, ◌<◌, min, max, compare, Ordering,
}
pub use Prim.Native.Nat.Ordering.{lt, eq, gt}
pub use mathlib.Core.Path.{◌≡◌, refl, sym, ap, ◌∙◌, subst}
pub use mathlib.Core.Logic.{◌≢◌, ◌↔◌, ◌⊎◌, inl, inr}
pub use mathlib.Core.Bool.{Bool, true, false, not, ◌&&◌, ◌||◌}
pub use mathlib.Core.Option.{Option, none, some}
pub use mathlib.Core.List.{List, [], ◌∷◌, ◌++◌, map, append_assoc, append-nil}
pub use native.Mathlib.Omega.{arith}
