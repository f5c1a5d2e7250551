-- ===== src/Common.antt =====
-- The names that the other modules share: the libraries', passed on, and those of the children.
mod Tests
mod Lists
mod Faults
mod Maps
mod Ints
use Prim.Native.Char.{code}
use Prim.Native.String
use Prim.Native.String.{String}
pub use Tests.*
pub use Lists.*
pub use Faults.*
pub use Maps.*
pub use Ints.*
unfoldable pub use Maps.{lookup, assign, erase}
unfoldable pub use Tests.{same}
pub use Prim.Native.Nat.{ℕ, zero, suc, ◌+◌, ◌-◌, ◌*◌, ◌/◌, ◌%◌, ◌^◌, ◌≤◌, ◌<◌, max, min}
pub use mathlib.Core.Path.{◌≡◌, refl, sym, ap, subst, ◌∙◌}
pub use mathlib.Core.Logic.{◌≢◌, ◌↔◌, ◌⊎◌, inl, inr}
pub use mathlib.Core.Bool.{Bool, true, false, not, ◌&&◌, ◌||◌}
pub use mathlib.Core.Option.{Option, none, some}
pub use mathlib.Core.List.{List, [], ◌∷◌, ◌++◌, map, append_assoc, append-nil}
pub use native.Mathlib.Omega.{arith}

-- Go strings and byte slices.
abbrev pub Bytes : Type 0
Bytes = List ℕ

-- The bytes of a text literal; every literal of the program that is used here is ASCII.
abbrev pub codes : String → Bytes
codes String.[] = []
codes (String.◌∷◌ c s) = code c ∷ codes s
