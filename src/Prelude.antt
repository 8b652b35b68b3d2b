-- ===== src/Prelude.antt =====
-- The names that the modules share: numbers, Booleans, options and lists of the libraries, Boolean
-- tests on numbers, lists under native indices, maps as functions, and fixed-width integers.
mod Tests
mod Lists
mod Maps
mod Words
mod Arrays
pub use Tests.*
pub use Lists.*
pub use Maps.*
pub use Words.*
unfoldable pub use Arrays.*
pub use Prim.Native.Nat.{ℕ, zero, suc, ◌+◌, ◌-◌, ◌*◌, ◌/◌, ◌%◌, ◌^◌, ◌≤◌, ◌<◌, min}
pub use mathlib.Core.Path.{◌≡◌, refl, sym, ap, subst, fun_ext, ◌∙◌}
pub use mathlib.Core.Logic.{◌≢◌, ◌↔◌, ◌⊎◌, inl, inr}
pub use mathlib.Core.Bool.{Bool, true, false, not, ◌&&◌, ◌||◌}
pub use mathlib.Core.Option.{Option, none, some}
pub use mathlib.Core.List.{List, [], ◌∷◌, ◌++◌, map, append_assoc, append-nil, Mem, Perm}
pub use native.Mathlib.Omega.{arith}
unfoldable pub use native.Mathlib.Decide.{dec_lt, ℕ_discrete}
