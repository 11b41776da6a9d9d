-- ===== src/Base.antt =====
-- The names that every module of the model shares: the library's, passed on, and those of the
-- children below (Boolean tests, lists, slices, integers, Go maps, error results).
mod Tests
mod Lists
mod Integers
mod Maps
mod Results
mod Slices
mod Bytes
pub use Tests.*
unfoldable pub use Lists.*
pub use Integers.*
unfoldable pub use Maps.*
pub use Results.*
unfoldable pub use Slices.*
unfoldable pub use Bytes.*
pub use Prim.Native.Nat.{ℕ, zero, suc, ◌+◌, ◌-◌, ◌*◌, ◌≤◌, ◌<◌}
pub use Prim.Native.String.{String}
pub use mathlib.Core.Path.{◌≡◌, refl, sym, ap, ◌∙◌, subst}
pub use mathlib.Core.Logic.{◌≢◌, ◌↔◌, ◌⊎◌, inl, inr}
pub use mathlib.Core.Bool.{Bool, true, false, not, ◌&&◌, ◌||◌}
pub use mathlib.Core.Option.{Option, none, some}
pub use mathlib.Core.List.{List, [], ◌∷◌, ◌++◌, map, append-nil, append_assoc}
pub use native.Mathlib.Omega.{arith}
pub use text.Mathlib.Text.{◌==◌}
pub use text.Mathlib.TextEquality.{eq_iff}
