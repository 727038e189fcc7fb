-- ===== src/EPoll/Visit.antt =====
-- The walks of epoll.c for the garbage collector: `IO_Event_Selector_EPoll_Type_mark` and
-- `IO_Event_Selector_EPoll_Type_compact`, with their callbacks.
pub mod Reaches
use io_event.Base.{ℕ, Option, none, some, List, ◌∷◌, Ptr, update, ◌==◌, if◌then◌else◌}
use io_event.List.{immutable_each}
use io_event.Array.{each}
use io_event.Selector.{Selector}
use io_event.Selector.Visit.{mark, compact}
use io_event.EPoll.{EPoll}

-- `IO_Event_Selector_EPoll_Waiting_compact`; `location` is `rb_gc_location`.
abbrev pub waiting_compact : (ℕ → ℕ) → Ptr → (Ptr → ℕ) → Ptr → ℕ
waiting_compact location waiting fiber =
    if fiber waiting == 0 then fiber else update fiber waiting (location (fiber waiting))

-- An object is marked unless it is 0, on top of what is marked so far.
abbrev pub marking : ℕ → List ℕ → List ℕ
marking object marked = if object == 0 then marked else object ∷ marked

module _ {K : Type 0} where
  -- `IO_Event_Selector_EPoll_Waiting_mark`, on the objects that are marked so far, latest first.
  abbrev pub waiting_mark : EPoll K → Ptr → List ℕ → List ℕ
  waiting_mark e waiting marked = marking (e.fiber waiting) marked

  abbrev pub io_mark : EPoll K → Ptr → Option (List ℕ) → Option (List ℕ)
  io_mark e d none = none
  io_mark e d (some marked) = some (marking (e.io d) marked)

  -- `IO_Event_Selector_EPoll_Descriptor_mark`
  pub descriptor_mark : (fuel : ℕ) → EPoll K → Ptr → Option (List ℕ) → Option (List ℕ)
  descriptor_mark fuel e d none = none
  descriptor_mark fuel e d (some marked) =
      io_mark e d (immutable_each (waiting_mark e) fuel d e.links marked)

  -- `IO_Event_Selector_EPoll_Type_mark`
  pub type_mark : (fuel : ℕ) → Selector (EPoll K) → Option (List ℕ)
  unfolding descriptor_mark
  type_mark fuel s = elim (mark fuel s) [
    | none ↦ none
    | some marked ↦
        elim (each (descriptor_mark fuel s.outside) s.outside.descriptors (some marked)) [
          | none ↦ none
          | some r ↦ r
        ]
  ]

  abbrev io_compact : (ℕ → ℕ) → Ptr → EPoll K → Option (Ptr → ℕ) → Option (EPoll K)
  io_compact location d e none = none
  io_compact location d e (some fiber) = some (record e {
    fiber = fiber;
    io = if e.io d == 0 then e.io else update e.io d (location (e.io d));
  })

  -- `IO_Event_Selector_EPoll_Descriptor_compact`
  descriptor_compact : (location : ℕ → ℕ) (fuel : ℕ) → Ptr → Option (EPoll K) → Option (EPoll K)
  descriptor_compact location fuel d none = none
  descriptor_compact location fuel d (some e) =
      io_compact location d e (immutable_each (waiting_compact location) fuel d e.links e.fiber)

  abbrev poll_compact :
      (location : ℕ → ℕ) (fuel : ℕ) → Selector (EPoll K) → Option (Selector (EPoll K))
  poll_compact location fuel s =
      elim (each (descriptor_compact location fuel) s.outside.descriptors (some s.outside)) [
        | none ↦ none
        | some none ↦ none
        | some (some e) ↦ some (record s { outside = e })
      ]

  -- `IO_Event_Selector_EPoll_Type_compact`
  unfoldable type_compact :
      (location : ℕ → ℕ) (fuel : ℕ) → Selector (EPoll K) → Option (Selector (EPoll K))
  unfolding descriptor_compact
  type_compact location fuel s = elim (compact location fuel s) [
    | none ↦ none
    | some t ↦ poll_compact location fuel t
  ]
