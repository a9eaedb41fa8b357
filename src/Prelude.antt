-- ===== src/Prelude.antt =====
-- The names that the other modules share: the libraries', passed on, and those of the children.
mod Tests
mod Lists
mod Outcome
mod Search
mod Closure
pub use Closure.{Star, done, step_then, Star-append, one-Star, same-Star}
pub use Tests.*
pub use Lists.*
pub use Search.{
  first_index_found, first_index_missed, last_index_found, last_index_missed,
  first_index-take_found, first_index-take_missed, first_index-take_earlier, first_index-take_eq,
}
unfoldable pub use Search.{first_index, last_index}
unfoldable pub use Tests.{holds_under}
unfoldable pub use Lists.{replicate}
pub use Outcome.{Result, ok, err, panics, Result-cases}
pub use Prim.Native.Nat.{ℕ, zero, suc, ◌+◌, ◌-◌, ◌*◌, ◌/◌, ◌%◌, ◌^◌, ◌≤◌, ◌<◌, min}
pub use mathlib.Core.Path.{◌≡◌, refl, sym, ap, subst, ◌∙◌}
pub use mathlib.Core.Logic.{◌≢◌, ◌↔◌, ◌⊎◌, inl, inr}
pub use mathlib.Core.Bool.{Bool, true, false, not, ◌&&◌, ◌||◌}
pub use mathlib.Core.Option.{Option, none, some}
pub use mathlib.Core.List.{List, [], ◌∷◌, ◌++◌, map, append-nil, append_assoc}
pub use native.Mathlib.Omega.{arith}
unfoldable pub use native.Mathlib.Decide.{dec_lt}

-- Byte strings, and the wire's fixed-width words as plain numbers.
abbrev pub Bytes : Type 0
Bytes = List ℕ
