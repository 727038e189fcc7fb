-- ===== src/Uring/Visit.antt =====
-- What the garbage collector visits of a selector of uring.c, how one is allocated, and
-- `IO_Event_Selector_URing_wakeup`.
use io_event.Interrupt.{signal, Checked, EventFd}
use io_event.Selector.{Selector}
use io_event.Base.{
  true, false, update, ◌∷◌, Bool, ℕ, Option, none, some, List, Ptr, null, ◌==◌, if◌then◌else◌,
}
use io_event.Array.{ok, err, Array, Result, each}
use io_event.Selector.Visit.{mark, compact}
use io_event.Array
use io_event.Fiber
use io_event.Interrupt
use io_event.List
use io_event.Selector
use io_event.Base.Int.{negsuc}
use io_event.Uring.Life.{completion_size}
use io_event.Uring.{Uring}

module _ {K : Type 0} where
  -- `IO_Event_Selector_URing_Completion_mark`, on the objects that are marked so far, latest first.
  abbrev pub completion_mark : Uring K → Ptr → List ℕ → List ℕ
  completion_mark s c marked =
      if s.waiting c == null then marked else s.fiber (s.waiting c) ∷ marked

  -- `IO_Event_Selector_URing_Type_mark`
  unfoldable type_mark : (fuel : ℕ) → Selector (Uring K) → Option (List ℕ)
  type_mark fuel s = elim (mark fuel s) [
    | none ↦ none
    | some marked ↦ each (completion_mark s.outside) s.outside.completions marked
  ]

  -- `IO_Event_Selector_URing_Completion_compact`; `location` is `rb_gc_location`.
  abbrev pub completion_compact : (location : ℕ → ℕ) → Ptr → Uring K → Uring K
  completion_compact location c s =
      if s.waiting c == null
      then s
      else (let w = s.waiting c in record s { fiber = update s.fiber w (location (s.fiber w)) })

  -- `IO_Event_Selector_URing_Type_compact`
  unfoldable type_compact :
      (location : ℕ → ℕ) (fuel : ℕ) → Selector (Uring K) → Option (Selector (Uring K))
  type_compact location fuel s = elim (compact location fuel s) [
    | none ↦ none
    | some t ↦ elim (each (completion_compact location) t.outside.completions t.outside) [
      | none ↦ none
      | some u ↦ some (record t { outside = u })
    ]
  ]

  abbrev with_array : Result (Array Ptr) → Selector (Uring K) → Result (Selector (Uring K))
  with_array (err e) s = err e
  with_array (ok array) s = ok (record s { outside = record s.outside { completions = array } })

  -- `IO_Event_Selector_URing_allocate`: `class` is its argument, which it passes on as the selector.
  unfoldable allocate :
      (granted : Bool) (class : ℕ) → Selector (Uring K) → Option (Result (Selector (Uring K)))
  allocate granted class s =
      let t = Selector.initialize class Fiber.nil s in
      let u = record t.outside {
        descriptor = negsuc 0;
        owner = 0;
        interrupt = negsuc 0;
        wakeup_registered = false;
      } in
      elim (List.initialize u.free_list u.links) [
        | none ↦ none
        | some (_, h) ↦ some (
            with_array (Array.initialize granted Array.default_count completion_size)
              (record t { outside = record u { links = h } }))
      ]

  -- `IO_Event_Selector_URing_wakeup`
  unfoldable wakeup : EventFd K → Selector (Uring K) → Bool × Checked × Selector (Uring K)
  wakeup fd s =
      let (c, k) = signal fd s.outside.kernel in
      if s.blocked == 0
      then (false, Interrupt.returned, s)
      else (true, c, record s { outside = record s.outside { kernel = k } })
