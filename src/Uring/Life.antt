-- ===== src/Uring/Life.antt =====
-- How a selector of uring.c begins and ends, and how another thread wakes it up.
use io_event.Selector.{Selector}
use io_event.Base.Int.{pos, negsuc, ltb_ℤ, ℤ}
use io_event.System.{einval, failure, success, Call}
use io_event.Array
use io_event.List
use io_event.Selector
use io_event.Uring.{Uring, cancel}
use io_event.Base.{
  inr, arith, inl, Bool-cases, ℕ, ◌+◌, ◌%◌, ◌^◌, ◌≡◌, Bool, true, false, not, ◌||◌, Option, none,
  some, Ptr, ◌==◌, if◌then◌else◌,
}

-- `sizeof(struct IO_Event_Selector_URing_Completion)`
abbrev pub completion_size : ℕ
completion_size = 32

-- `sizeof(struct IO_Event_Selector_URing)`
abbrev pub selector_size : ℕ
selector_size = 432

-- What is closed: the interrupt, and the ring.
pub record Closed : Type 0 where
  pub interrupt : Bool
  pub ring : Bool

abbrev pub is_open : ℤ → Bool
is_open descriptor = not (ltb_ℤ descriptor (pos 0))

-- How `initialize` comes back: it returns, or raises an error number.
pub data Initialized : Type 0 where
  initialized : Initialized
  init_failed : ℕ → Initialized
  open_failed : ℕ → Initialized

-- The setup of the ring: a second time without `IORING_SETUP_SUBMIT_ALL`, if the first is refused.
pub queue_init : (setup : (submit_all : Bool) → Call) → Call
queue_init setup = elim (setup true) [
  | success n ↦ success n
  | failure e ↦ if e == einval then setup false else failure e
]

module _ {K : Type 0} where
  -- `close_internal`, in the process `pid`.
  pub close_internal : (pid : ℕ) → Uring K → Closed × Uring K
  close_internal pid s =
      let t = record s { interrupt = negsuc 0; wakeup_registered = false } in
      let u = if is_open s.interrupt then t else s in
      let closed : Closed = record {
        interrupt = is_open s.interrupt;
        ring = is_open s.descriptor;
      } in
      if s.owner == pid
      then (
        closed,
        record u { descriptor = if is_open s.descriptor then negsuc 0 else s.descriptor },
      )
      else (record { interrupt = false; ring = false }, record t { descriptor = negsuc 0 })

  -- `IO_Event_Selector_URing_closed_p`
  pub closed_p : (pid : ℕ) → Uring K → Bool
  closed_p pid s = ltb_ℤ s.descriptor (pos 0) || not (s.owner == pid)

  abbrev free_element : Ptr → Uring K → Uring K
  free_element c s = cancel c s

  -- `IO_Event_Selector_URing_Type_free`
  unfoldable type_free : (pid : ℕ) → Uring K → Option (Closed × Uring K)
  unfolding close_internal cancel
  type_free pid s =
      let (closed, t) = close_internal pid s in
      elim (Array.free free_element t.completions t) [
        | none ↦ none
        | some (u, array) ↦ some (closed, record u { completions = array })
      ]

  -- `IO_Event_Selector_URing_Type_size`
  unfoldable type_size : (fuel : ℕ) → Uring K → Option ℕ
  type_size fuel s = elim (List.memory_size fuel s.free_list s.links) [
    | none ↦ none
    | some size ↦ some ((selector_size + Array.memory_size s.completions + size) % 2 ^ 64)
  ]

  -- `IO_Event_Selector_URing_initialize`, in the process `pid`: `opened` is what
  -- `IO_Event_Interrupt_open` makes of the interrupt.
  pub initialize :
      (setup : Bool → Call) (opened : Call) (pid self loop : ℕ)
      → Selector (Uring K)
      → Initialized × Selector (Uring K)
  unfolding queue_init Selector.initialize
  initialize setup opened pid self loop s =
      let t = Selector.initialize self loop s in
      elim (queue_init setup) [
        | failure e ↦ (init_failed e, t)
        | success n ↦
            let u = record t.outside { descriptor = pos n; owner = pid } in
            elim opened [
              | success i ↦ (initialized, record t { outside = record u { interrupt = pos i } })
              | failure e ↦ (
                open_failed e,
                record t { outside = record u { interrupt = negsuc 0; descriptor = negsuc 0 } },
              )
            ]
      ]

  -- Closing closes each descriptor that is open, in the process that opened it, and no other does; the
  -- selector is closed in any case, and closing it again closes nothing.
  pub close_internal_lem :
      (pid other : ℕ) (s : Uring K)
      → ((close_internal pid s).0.ring ≡ not (closed_p pid s))
        × ((close_internal pid s).0.interrupt ≡ true → s.owner ≡ pid)
        × (closed_p other (close_internal pid s).1 ≡ true)
        × ((close_internal other (close_internal pid s).1).0
            ≡ record { interrupt = false; ring = false })
  unfolding close_internal closed_p
  close_internal_lem pid other s = elim (Bool-cases (s.owner == pid)) [
    | inl mine ↦ elim (Bool-cases (ltb_ℤ s.interrupt (pos 0))) [
      | inl shut ↦ ground (arith, mine, shut)
      | inr open_still ↦ ground (arith, mine, open_still)
    ]
    | inr other_owner ↦ ground (arith, other_owner)
  ]
