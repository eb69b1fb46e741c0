-- ===== src/Base.antt =====
-- The names that every other module shares: the libraries', and those of the children.
mod Tests
mod Equality
mod Lists
mod Outcome
mod Maps
mod Names
pub mod Int
pub use Tests.*
pub use Equality.*
pub use Lists.*
pub use Outcome.*
unfoldable pub use Names.{contains}
pub use Names.{Distinct, joined, contains-append, Distinct-append}
unfoldable pub use Maps.{Assoc, lookup, insert, remove, has, keys}
pub use Maps.{lookup-insert, lookup-remove, has-insert, assoc_laws}
pub use Prim.Native.Nat.{ℕ, zero, suc, ◌+◌, ◌-◌, ◌*◌, ◌/◌, ◌%◌, ◌^◌, ◌≤◌, ◌<◌}
pub use Prim.Native.String.{String}
pub use mathlib.Core.Path.{◌≡◌, refl, sym, ap, ◌∙◌}
pub use mathlib.Core.Logic.{◌≢◌, ◌↔◌, ◌⊎◌, inl, inr}
pub use mathlib.Core.Bool.{Bool, true, false, not, ◌&&◌, ◌||◌}
pub use mathlib.Core.Option.{Option, none, some}
pub use mathlib.Core.List.{List, [], ◌∷◌, ◌++◌, map, append-nil, append_assoc}
pub use native.Mathlib.Omega.{arith}
