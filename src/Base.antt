-- ===== src/Base.antt =====
-- The names that the components share: the libraries' names, passed on, and those of the children
-- (Boolean tests, lists indexed by native numbers).
mod Tests
mod Lists
mod Fault
pub mod Bits
pub mod Int
pub use Tests.*
pub use Lists.*
pub use Fault.*
pub use Prim.Native.Nat.{ℕ, zero, suc, ◌+◌, ◌-◌, ◌*◌, ◌/◌, ◌%◌, ◌^◌, ◌≤◌, ◌<◌}
pub use mathlib.Core.Path.{◌≡◌, refl, sym, ap, subst, ◌∙◌}
pub use mathlib.Core.Logic.{◌≢◌, ◌↔◌, ◌⊎◌, inl, inr}
pub use mathlib.Core.Bool.{Bool, true, false, not, ◌&&◌, ◌||◌}
pub use mathlib.Core.Option.{Option, none, some}
pub use mathlib.Core.List.{List, [], ◌∷◌, ◌++◌, append-nil, append_assoc}
pub use native.Mathlib.Omega.{arith}
unfoldable pub use native.Mathlib.Decide.{dec_lt, ℕ_discrete}
use Prim.Native.Nat.{ℕ}

-- Addresses. 0 is `NULL`, and in a test a number other than 0 is true.
abbrev pub Ptr : Type 0
Ptr = ℕ

abbrev pub null : Ptr
null = 0

-- A memory map changed at one place.
abbrev pub update {ℓ} : {A : Type ℓ} → (Ptr → A) → Ptr → A → Ptr → A
update f p v a = if a == p then v else f a
