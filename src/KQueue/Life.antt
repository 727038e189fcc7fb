-- ===== src/KQueue/Life.antt =====
-- How a selector of kqueue.c begins and ends, and what the garbage collector visits of it.
use io_event.Base.Int.{negsuc, pos, ltb_ℤ}
use io_event.System.{success, failure, Call}
use io_event.Selector.{Selector}
use io_event.EPoll.Visit.{waiting_compact, marking}
use io_event.Base.{
  ℕ, ◌+◌, ◌%◌, ◌^◌, Bool, false, not, ◌||◌, Option, none, some, List, Ptr, ◌==◌, if◌then◌else◌,
}
use io_event.Array
use io_event.Array.{each, Result, ok, err}
use io_event.Fiber
use io_event.List.{immutable_each}
use io_event.Selector
use io_event.Selector.Visit.{mark, compact}
use io_event.KQueue.{KQueue, descriptor_free}

-- `sizeof(struct IO_Event_Selector_KQueue_Descriptor)`
abbrev pub descriptor_size : ℕ
descriptor_size = 40

-- `sizeof(struct IO_Event_Selector_KQueue)`
abbrev pub selector_size : ℕ
selector_size = 112

-- How `initialize` comes back: it returns, or `rb_sys_fail` raises.
pub data Initialized : Type 0 where
  initialized : Initialized
  sys_fail : ℕ → Initialized

module _ {K : Type 0} where
  -- `close_internal`, in the process `pid`: whether it closes the descriptor, and the selector.
  pub close_internal : (pid : ℕ) → KQueue K → Bool × KQueue K
  close_internal pid s =
      if ltb_ℤ s.descriptor (pos 0)
      then (false, s)
      else (s.owner == pid, record s { descriptor = negsuc 0 })

  -- `IO_Event_Selector_KQueue_closed_p`
  pub closed_p : (pid : ℕ) → KQueue K → Bool
  closed_p pid s = ltb_ℤ s.descriptor (pos 0) || not (s.owner == pid)

  abbrev free_element : Ptr → Option (KQueue K) → Option (KQueue K)
  free_element d none = none
  free_element d (some s) = elim (descriptor_free d s) [ none ↦ none | some (u, t) ↦ some t ]

  -- `IO_Event_Selector_KQueue_Type_free`
  unfoldable type_free : (pid : ℕ) → KQueue K → Option (Bool × KQueue K)
  unfolding close_internal
  type_free pid s =
      let (closed, t) = close_internal pid s in
      elim (Array.free free_element t.descriptors (some t)) [
        | none ↦ none
        | some (none, array) ↦ none
        | some (some u, array) ↦ some (closed, record u { descriptors = array })
      ]

  -- `IO_Event_Selector_KQueue_Type_size`
  unfoldable type_size : KQueue K → ℕ
  type_size s = (selector_size + Array.memory_size s.descriptors) % 2 ^ 64

  -- `IO_Event_Selector_KQueue_allocate`: `class` is its argument, which it passes on as the selector.
  unfoldable allocate :
      (granted : Bool) (class : ℕ) → Selector (KQueue K) → Result (Selector (KQueue K))
  allocate granted class s =
      let t = Selector.initialize class Fiber.nil s in
      elim (Array.initialize granted Array.default_count descriptor_size) [
        | err e ↦ err e
        | ok array ↦ ok (record t {
          outside = record t.outside { descriptor = negsuc 0; owner = 0; descriptors = array };
        })
      ]

  -- `IO_Event_Selector_KQueue_initialize`, in the process `pid`: `created` is what `kqueue` returns.
  unfoldable pub initialize :
      (created : Call) (pid self loop : ℕ) → Selector (KQueue K) → Initialized × Selector (KQueue K)
  initialize (failure e) pid self loop s = (sys_fail e, Selector.initialize self loop s)
  initialize (success n) pid self loop s =
      let t = Selector.initialize self loop s in
      (initialized, record t { outside = record t.outside { descriptor = pos n; owner = pid } })

  -- `IO_Event_Selector_KQueue_Waiting_mark`, on the objects that are marked so far, latest first.
  abbrev pub waiting_mark : KQueue K → Ptr → List ℕ → List ℕ
  waiting_mark q waiting marked = marking (q.fiber waiting) marked

  -- `IO_Event_Selector_KQueue_Descriptor_mark`
  pub descriptor_mark : (fuel : ℕ) → KQueue K → Ptr → Option (List ℕ) → Option (List ℕ)
  descriptor_mark fuel q d none = none
  descriptor_mark fuel q d (some marked) = immutable_each (waiting_mark q) fuel d q.links marked

  -- `IO_Event_Selector_KQueue_Type_mark`
  unfoldable type_mark : (fuel : ℕ) → Selector (KQueue K) → Option (List ℕ)
  unfolding descriptor_mark
  type_mark fuel s = elim (mark fuel s) [
    | none ↦ none
    | some marked ↦
        elim (each (descriptor_mark fuel s.outside) s.outside.descriptors (some marked)) [
          | none ↦ none
          | some r ↦ r
        ]
  ]

  abbrev fiber_compact : KQueue K → Option (Ptr → ℕ) → Option (KQueue K)
  fiber_compact q none = none
  fiber_compact q (some fiber) = some (record q { fiber = fiber })

  -- `IO_Event_Selector_KQueue_Descriptor_compact`
  pub descriptor_compact :
      (location : ℕ → ℕ) (fuel : ℕ) → Ptr → Option (KQueue K) → Option (KQueue K)
  descriptor_compact location fuel d none = none
  descriptor_compact location fuel d (some q) =
      fiber_compact q (immutable_each (waiting_compact location) fuel d q.links q.fiber)

  abbrev queue_compact :
      (location : ℕ → ℕ) (fuel : ℕ) → Selector (KQueue K) → Option (Selector (KQueue K))
  queue_compact location fuel s =
      elim (each (descriptor_compact location fuel) s.outside.descriptors (some s.outside)) [
        | none ↦ none
        | some none ↦ none
        | some (some q) ↦ some (record s { outside = q })
      ]

  -- `IO_Event_Selector_KQueue_Type_compact`
  unfoldable type_compact :
      (location : ℕ → ℕ) (fuel : ℕ) → Selector (KQueue K) → Option (Selector (KQueue K))
  unfolding descriptor_compact
  type_compact location fuel s = elim (compact location fuel s) [
    | none ↦ none
    | some t ↦ queue_compact location fuel t
  ]
