-- ===== src/Prelude.antt =====
-- The names that every module shares: those of the libraries, passed on, and those of the children.
mod Tests
mod Lists
mod Maps
mod Sets
pub mod Exec
pub use Tests.*
pub use Lists.*
unfoldable pub use Maps.{HashMap, get, insert, remove, contains_key, entry_count}
pub use Maps.{
  get-nil, get-insert, get-remove, contains_key-get, contains_key-insert, contains_key-remove,
  contains_key-reinsert, entry_count-insert, entry_count-reinsert, entry_count-remove, map_laws,
}
unfoldable pub use Sets.{HashSet, contains, add, discard}
pub use Sets.{contains-nil, contains-add, contains-discard, contains-empty, set_laws}
pub use Prim.Native.Nat.{ℕ, zero, suc, ◌+◌, ◌-◌, ◌*◌, ◌/◌, ◌%◌, ◌^◌, ◌≤◌, ◌<◌, min}
pub use Prim.Native.String.{String}
pub use mathlib.Core.Path.{◌≡◌, refl, sym, ap, ◌∙◌, subst, fun_ext}
pub use mathlib.Core.Logic.{◌≢◌, ◌↔◌, ◌⊎◌, inl, inr}
pub use mathlib.Core.Bool.{Bool, true, false, ◌&&◌, ◌||◌, not}
pub use mathlib.Core.Option.{Option, none, some}
pub use mathlib.Core.List.{List, [], ◌∷◌, ◌++◌, map, append-nil, append_assoc}
pub use native.Mathlib.Omega.{arith}
