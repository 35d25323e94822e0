-- ===== src/Common.antt =====
-- The names that the other modules share: the libraries' own, passed on, and those of the
-- children (tests on numbers, lists over the native numbers, bytes, bits, association lists).
mod Tests
mod Lists
mod Encoding
pub mod Bits
pub mod Assoc
pub mod Int
pub mod Text
pub mod Sums
pub use Int.{ℤ, pos, negsuc, pos_part, neg_part, ◌≤ℤ◌, leb_ℤ, ltb_ℤ, eqb_ℤ, eqb_ℤ_iff, ◌<ℤ◌}
pub use Tests.*
pub use Lists.*
unfoldable pub use Encoding.*
pub use Prim.Native.Nat.{
  ℕ, zero, suc, ◌+◌, ◌-◌, ◌*◌, ◌/◌, ◌%◌, ◌^◌, ◌≤◌, ◌<◌, bit_and, bit_or, bit_xor, min,
}
pub use Prim.Native.String.{String}
pub use mathlib.Core.Path.{◌≡◌, refl, sym, ap, ap₂, ◌∙◌, subst}
pub use mathlib.Core.Logic.{◌≢◌, ◌↔◌, ◌⊎◌, inl, inr}
pub use mathlib.Core.Bool.{Bool, true, false, not, ◌&&◌, ◌||◌}
pub use mathlib.Core.Option.{Option, none, some}
pub use mathlib.Core.List.{List, [], ◌∷◌, ◌++◌, map, append-nil, append_assoc}
pub use native.Mathlib.Omega.{arith}
