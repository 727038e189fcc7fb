-- ===== src/Tests/OfList.antt =====
-- Lists of list.h with two items.
use io_event.Base.{
  ◌*◌, ◌%◌, ◌^◌, ◌≤◌, ◌≡◌, refl, ◌↔◌, true, Option, none, some, [], ◌∷◌, arith, Ptr, null, update,
  length,
}
use io_event.List.{Heap, pop, prepend, append, empty, memory_size, node_size}
use io_event.List.Shape.{IsList, IsDetached, SameOutside}
use io_event.List.Update.{append_before, attached_refused}
use io_event.List.Visit.{empty_iff_short, memory_size_lem}

-- The list 1 with the items 2 and 3; node 4 is in no list.
abbrev pub ring : Heap
ring = record {
  head = update (update (update (λ _. null) 1 3) 2 1) 3 2;
  tail = update (update (update (λ _. null) 1 2) 2 3) 3 1;
  type = λ _. 9;
}

pub ring-IsList : IsList ring 1 (2 ∷ 3 ∷ [])
ring-IsList = record { links = ground arith; distinct = ground arith; nonnull = refl }

pub ring-IsDetached : IsDetached ring 4
ring-IsDetached = record { nonnull = ground arith; head = refl; tail = refl }

append_before_example :
    (h : Heap) × (append 3 4 ring ≡ some (tt, h))
    × IsList h 1 (2 ∷ 4 ∷ 3 ∷ [])
    × SameOutside (4 ∷ 1 ∷ 2 ∷ 3 ∷ []) ring h
append_before_example = append_before (2 ∷ []) 3 [] ring-IsList ring-IsDetached refl

attached_refused_example : (append 1 2 ring ≡ none) × (prepend 1 2 ring ≡ none)
attached_refused_example = attached_refused [] 2 (3 ∷ []) 1 ring-IsList

empty_iff_short_example : (empty 1 ring ≡ true) ↔ (length {A = Ptr} (2 ∷ 3 ∷ []) ≤ 1)
empty_iff_short_example = empty_iff_short (2 ∷ 3 ∷ []) ring-IsList

memory_size_lem_example : memory_size 3 1 ring ≡ some ((2 * node_size) % 2 ^ 64)
memory_size_lem_example = memory_size_lem 3 ring-IsList (omega arith)

unlinked : Option (Option Ptr)
unfolding append pop
unlinked = elim (append 3 4 ring) [
  | none ↦ none
  | some (u, h) ↦ elim (pop 3 h) [ none ↦ none | some (v, g) ↦ some (some (g.tail 4)) ]
]

-- Marking the node before 3 and popping 3 leaves the mark before what follows.
unlinked_run : unlinked ≡ some (some 1)
unfolding unlinked append pop
unlinked_run = refl
