-- ===== src/Base.antt =====
-- Shared names: the library's, passed on, with Boolean tests, lists and association maps.
mod Tests
mod Lists
mod Map
mod Outcome
pub use Tests.*
unfoldable pub use Lists.*
unfoldable pub use Map.*
pub use Outcome.{Search, found, nullptr, out_of_fuel, ◌>>=◌}
pub use Prim.Native.Nat.{ℕ, zero, suc, ◌+◌, ◌-◌, ◌*◌, ◌/◌, ◌%◌, ◌^◌, ◌≤◌, ◌<◌, min}
pub use mathlib.Core.Path.{◌≡◌, refl, sym, ap, subst, ◌∙◌}
pub use mathlib.Core.Logic.{◌≢◌, ◌↔◌, ◌⊎◌, inl, inr}
pub use mathlib.Core.Bool.{Bool, true, false, not, ◌&&◌, ◌||◌}
pub use mathlib.Core.Option.{Option, none, some}
pub use mathlib.Core.List.{
  List, [], ◌∷◌, ◌++◌, map, reverse, foldl, append-nil, append_assoc, reverse-cons,
}
pub use native.Mathlib.Omega.{arith}
