-- ===== src/Prelude.antt =====
-- Names that the other modules share: the libraries', passed on, and those of the children.
mod Tests
mod Lists
mod Results
mod Texts
mod Maps
pub mod Patterns
pub mod Int
pub use Tests.*
pub use Maps.*
pub use Lists.*
pub use Results.*
unfoldable pub use Texts.{split, trim, trim_start, trim_end_matches, utf8}
pub use Texts.{
  Text, starts_with, ends_with, text_eq, text_eq_iff, text_eq_refl, contains_byte,
  contains_byte-append, starts_with-append, split-append, split_none, text_rules,
}
pub use Prim.Native.Nat.{ℕ, zero, suc, ◌+◌, ◌-◌, ◌*◌, ◌/◌, ◌%◌, ◌^◌, ◌≤◌, ◌<◌, min}
pub use Prim.Native.String.{String}
pub use mathlib.Core.Path.{◌≡◌, refl, sym, ap, ◌∙◌}
pub use mathlib.Core.Logic.{◌≢◌, ◌↔◌, ◌⊎◌, inl, inr}
pub use mathlib.Core.Bool.{Bool, true, false, not, ◌&&◌, ◌||◌}
pub use mathlib.Core.Option.{Option, none, some}
pub use mathlib.Core.List.{List, [], ◌∷◌, ◌++◌, map}
pub use native.Mathlib.Omega.{arith}
