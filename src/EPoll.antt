-- ===== src/EPoll.antt =====
-- ext/io/event/selector/epoll.c: the selector on Linux. A descriptor's state and a waiting fiber's
-- are nodes of one heap of lists, each with its own fields; the kernel and Ruby are parameters.
pub mod Flags
pub mod Update
pub mod Watchable
pub mod Waiting
pub mod Handle
pub mod Transfer
pub mod Wait
pub mod Life
pub mod Timeout
pub mod Select
pub mod Process
pub mod Visit
use io_event.Base.{
  ltb→lt, not_ltb→le, ==-refl, eq_nil_of_length, get_elem?-ge_length, dec_lt, ℕ_discrete,
  get_elem?-set, get_elem?-append_lt, get_elem?-append_ge, get_elem?-replicate, get_elem?-lt_length,
  append_assoc, ne_of_mem, and_then, subst, ne→==, append-nil, Cmd, ◌>>=◌, ◌>>◌, pure, assert,
  IsDistinct-insert, has-append_comm, IsDistinct-append_comm, IsDistinct-remove, ℕ, zero, suc, ◌+◌,
  ◌-◌, ◌*◌, ◌/◌, ◌%◌, ◌^◌, ◌≤◌, ◌<◌, ◌≡◌, refl, sym, ap, ◌∙◌, ◌≢◌, ◌↔◌, ◌⊎◌, inl, inr, Bool, true,
  false, not, ◌&&◌, ◌||◌, Option, none, some, List, [], ◌∷◌, ◌++◌, arith, Ptr, null, update, ltb,
  leb, ◌==◌, if◌then◌else◌, ==_iff, Bool-cases, Option-cases, length, get_elem?, get_or, set, take,
  drop, replicate, length-append, length-set, length-replicate, has, ◌∈◌, ◌∉◌, IsDistinct,
  has-append,
}
use Prim.Native.Nat.{bit_and, bit_or}
use io_event.Base.Int.{ℤ, pos, negsuc, ltb_ℤ}
use io_event.List
use io_event.List.{Heap}
use io_event.Array.{Array, Result, ok, err}
use io_event.Array
use io_event.System.{Call, success, failure, enoent, eexist}
use io_event.Time.{Timespec}

-- `enum IO_Event`, the events that a fiber can wait for on a descriptor.
abbrev pub readable : ℕ
readable = 1

abbrev pub priority : ℕ
priority = 2

abbrev pub writable : ℕ
writable = 4

-- The flags of epoll_ctl(2).
abbrev pub epollin : ℕ
epollin = 1

abbrev pub epollpri : ℕ
epollpri = 2

abbrev pub epollout : ℕ
epollout = 4

abbrev pub epollerr : ℕ
epollerr = 8

abbrev pub epollhup : ℕ
epollhup = 16

-- `flags |= flag` under a test of a mask.
abbrev pub add_if : (mask bits flag flags : ℕ) → ℕ
add_if mask bits flag flags = if bit_and mask bits == 0 then flags else bit_or flags flag

-- `epoll_flags_from_events`
pub epoll_flags_from_events : ℕ → ℕ
epoll_flags_from_events events =
    let flags =
      add_if events writable epollout
        (add_if events priority epollpri (add_if events readable epollin 0)) in
    bit_or (bit_or flags epollhup) epollerr

-- `events_from_epoll_flags`
unfoldable pub events_from_epoll_flags : ℕ → ℕ
events_from_epoll_flags flags = add_if flags epollout writable (
    add_if flags epollpri priority
      (add_if flags (bit_or (bit_or epollin epollhup) epollerr) readable 0))

-- `EPOLL_CTL_ADD`, `EPOLL_CTL_MOD`, `EPOLL_CTL_DEL`
pub data Operation : Type 0 where
  add modify delete : Operation

-- What a successful operation leaves in the interest list.
abbrev pub entry : Operation → ℕ → Option ℕ
entry add flags = some flags
entry modify flags = some flags
entry delete flags = none

-- The epoll instance, with what epoll_ctl(2) documents: `interest` gives the flags that a descriptor
-- is registered with.
pub record Kernel (K : Type 0) : Type 0 where
  pub epoll_ctl : Operation → (descriptor flags : ℕ) → K → Call × K
  pub interest : K → ℕ → Option ℕ
  pub control_done :
      (o : Operation) (descriptor flags n : ℕ) (k : K)
      → (epoll_ctl o descriptor flags k).0 ≡ success n
      → interest (epoll_ctl o descriptor flags k).1 descriptor ≡ entry o flags
  pub control_others :
      (o : Operation) (descriptor flags other : ℕ) (k : K)
      → other ≢ descriptor
      → interest (epoll_ctl o descriptor flags k).1 other ≡ interest k other
  pub control_failed :
      (o : Operation) (descriptor flags e : ℕ) (k : K)
      → (epoll_ctl o descriptor flags k).0 ≡ failure e
      → interest (epoll_ctl o descriptor flags k).1 descriptor ≡ interest k descriptor

-- `struct IO_Event_Selector_EPoll` without `backend` and `interrupt`; the fields of all `struct
-- IO_Event_Selector_EPoll_Waiting` and all `struct IO_Event_Selector_EPoll_Descriptor`, one map for
-- each, with the links of their lists; and the kernel.
pub record EPoll (K : Type 0) : Type 0 where
  pub descriptor : ℤ
  pub owner : ℕ
  pub idle_duration : Timespec
  pub descriptors : Array Ptr
  pub links : Heap
  pub events : Ptr → ℕ
  pub ready : Ptr → ℕ
  pub fiber : Ptr → ℕ
  pub io : Ptr → ℕ
  pub waiting_events : Ptr → ℕ
  pub registered_events : Ptr → ℕ
  pub kernel : K

-- The answers of the allocator to one call of `IO_Event_Array_lookup`.
pub record Answers : Type 0 where
  pub slots : Bool
  pub element : Bool
  pub fresh : Ptr

module _ {K : Type 0} where
  abbrev pub with_links : EPoll K → Option (Unit {0} × Heap) → Option (Unit {0} × EPoll K)
  with_links s none = none
  with_links s (some (u, h)) = some (u, record s { links = h })

  -- An operation of list.h on the links.
  abbrev pub on_links : Cmd Heap (Unit {0}) → Cmd (EPoll K) (Unit {0})
  on_links c s = with_links s (c s.links)

  -- `IO_Event_Selector_EPoll_Descriptor_initialize`
  pub descriptor_initialize : Ptr → Cmd (EPoll K) (Unit {0})
  descriptor_initialize element s = and_then (on_links (List.initialize element) s) λ _ t. some (
    tt,
    record t {
      io = update t.io element 0;
      waiting_events = update t.waiting_events element 0;
      registered_events = update t.registered_events element 0;
    },
  )

  -- `IO_Event_Selector_EPoll_Descriptor_free`
  pub descriptor_free : Ptr → Cmd (EPoll K) (Unit {0})
  descriptor_free element s = on_links (List.free element) s

  -- `IO_Event_Selector_EPoll_Descriptor_lookup`: an element that the array has just allocated is
  -- initialized.
  pub descriptor_lookup : Answers → (descriptor : ℕ) → Cmd (EPoll K) (Result Ptr)
  unfolding descriptor_initialize
  descriptor_lookup a descriptor s =
      let (found, array) = Array.lookup a.slots a.element a.fresh descriptor s.descriptors in
      let t = record s { descriptors = array } in
      elim found [
        | err e ↦ some (err e, t)
        | ok d ↦
            if d == a.fresh
            then and_then (descriptor_initialize d t) (λ _ u. some (ok d, u))
            else some (ok d, t)
      ]

  module _ (kernel : Kernel K) where
    abbrev pub control : Operation → (descriptor flags : ℕ) → EPoll K → Call × EPoll K
    control o descriptor flags s =
        let (r, k) = kernel.epoll_ctl o descriptor flags s.kernel in (r, record s { kernel = k })

    -- The second try of an operation that failed for what the kernel has registered already.
    abbrev pub retry : (descriptor flags : ℕ) → Call × EPoll K → Call × EPoll K
    retry descriptor flags (success n, s) = (success n, s)
    retry descriptor flags (failure e, s) =
        if e == enoent
        then control add descriptor flags s
        else (if e == eexist then control modify descriptor flags s else (failure e, s))

    abbrev pub registered : Ptr → Call × EPoll K → Call × EPoll K
    registered d (success n, s) = (
      success 1,
      record s { registered_events = update s.registered_events d (s.waiting_events d) },
    )
    registered d (failure e, s) = (failure e, s)

    -- The last part of `IO_Event_Selector_EPoll_Descriptor_update`: there are events to register.
    pub arm : (descriptor : ℕ) → Ptr → EPoll K → Call × EPoll K
    arm descriptor d s =
        let flags = epoll_flags_from_events (s.waiting_events d) in
        let operation = if s.registered_events d == 0 then add else modify in
        registered d (retry descriptor flags (control operation descriptor flags s))

    -- The part for a descriptor that nobody waits for.
    pub disarm : (descriptor : ℕ) → Ptr → EPoll K → Call × EPoll K
    disarm descriptor d s =
        let t =
          if s.registered_events d == 0
          then s
          else (let u = (control delete descriptor 0 s).1 in
              record u { registered_events = update u.registered_events d 0 }) in
        (success 0, record t { io = update t.io d 0 })

    pub rearm : (descriptor : ℕ) → Ptr → EPoll K → Call × EPoll K
    rearm descriptor d s =
        if s.waiting_events d == 0 then disarm descriptor d s else arm descriptor d s

    -- `IO_Event_Selector_EPoll_Descriptor_update`
    pub descriptor_update : (io descriptor : ℕ) → Ptr → EPoll K → Call × EPoll K
    descriptor_update io descriptor d s =
        if s.io d == io
        then (if s.registered_events d == s.waiting_events d
            then (success 0, s)
            else rearm descriptor d s)
        else rearm descriptor d
            (record s { registered_events = update s.registered_events d 0; io = update s.io d io })

    -- What follows the update in `IO_Event_Selector_EPoll_Waiting_register`.
    abbrev pub link : (d waiting : Ptr) → Call × EPoll K → Option (Call × EPoll K)
    link d waiting (failure e, s) = some (failure e, s)
    link d waiting (success n, s) =
        and_then (on_links (List.prepend d waiting) s) (λ _ t. some (success n, t))

    -- `IO_Event_Selector_EPoll_Waiting_register`, once the descriptor has been found.
    pub register_on : (io descriptor : ℕ) (d waiting : Ptr) → Cmd (EPoll K) Call
    register_on io descriptor d waiting s = link d waiting (
        descriptor_update io descriptor d (record s {
          waiting_events =
              update s.waiting_events d (bit_or (s.waiting_events d) (s.events waiting));
        }))

    -- `IO_Event_Selector_EPoll_Waiting_register`
    pub waiting_register :
        Answers → (io descriptor : ℕ) (waiting : Ptr) → Cmd (EPoll K) (Result Call)
    waiting_register a io descriptor waiting s =
        and_then (descriptor_lookup a descriptor s) λ found t. elim found [
          | err e ↦ some (err e, t)
          | ok d ↦ and_then (register_on io descriptor d waiting t) (λ r u. some (ok r, u))
        ]

  -- `IO_Event_Selector_EPoll_Waiting_cancel`
  unfoldable pub waiting_cancel : Ptr → Cmd (EPoll K) (Unit {0})
  waiting_cancel waiting s =
      and_then (on_links (List.pop waiting) s)
        λ _ t. some (tt, record t { fiber = update t.fiber waiting 0 })
