-- ===== src/Array/Shape.antt =====
-- The representation invariant of `struct IO_Event_Array`, kept by every operation that changes it.
use io_event.Base.{ℕ, ◌≤◌, ◌<◌, ◌≡◌, Option, none, some, List, length, get_elem?}
use io_event.Array.{Array, maximum_count}

-- No element stands at or above `limit`.
abbrev pub ClearFrom : {E : Type 0} → ℕ → List (Option E) → Type 0
ClearFrom limit base = (i : ℕ) → limit ≤ i → i < length base → get_elem? base i ≡ some none

pub record IsValid {E : Type 0} (a : Array E) : Type 0 where
  pub allocated : length a.base ≡ a.count
  pub fits : a.count ≤ maximum_count
  pub limit_in : a.limit ≤ a.count
  pub clear : ClearFrom a.limit a.base
