-- ===== src/Common.antt =====
-- The names that the other modules share: the libraries', passed on, and those of the children.
mod Tests
mod Lists
mod Keyed
mod Values
mod Sorted
mod Order
pub mod Json
pub mod Texts
unfoldable pub use Tests.*
pub use Lists.*
unfoldable pub use Keyed.*
unfoldable pub use Values.*
pub use Sorted.*
pub use Order.*
pub use Prim.Native.Nat.{ℕ, zero, suc, ◌+◌, ◌-◌, ◌*◌, ◌/◌, ◌%◌, ◌^◌, ◌≤◌, ◌<◌, min, max}
pub use Prim.Native.String.{String}
pub use mathlib.Core.Path.{◌≡◌, refl, sym, ap, ◌∙◌, subst}
pub use mathlib.Core.Logic.{◌≢◌, ◌↔◌, ◌⊎◌, inl, inr, ite, if_pos, if_neg}
pub use mathlib.Core.Bool.{Bool, true, false, not, ◌&&◌, ◌||◌}
pub use mathlib.Core.Option.{Option, none, some}
pub use mathlib.Core.List.{List, [], ◌∷◌, ◌++◌, map, foldl, Memᴰ}
pub use native.Mathlib.Omega.{arith}
pub use text.Mathlib.TextEquality.{eq_iff}

-- `std::time::Instant` and `Duration` count nanoseconds.
abbrev pub secs : ℕ → ℕ
secs n = n * 1000000000
