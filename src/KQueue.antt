-- ===== src/KQueue.antt =====
-- ext/io/event/selector/kqueue.c: the selector over kqueue(2), where the system has `EVFILT_USER`. A
-- descriptor's state and a waiting fiber are nodes of one heap of lists, each with its own fields; the
-- kernel and Ruby are parameters. A process is looked up in the same array as a descriptor is.
pub mod Transfer
pub mod Register
pub mod Handle
pub mod Select
pub mod Wait
pub mod Life
use io_event.Time.{Timespec}
use io_event.Base.Int.{ℤ}
use io_event.System.{failure, success, Call}
use io_event.Base.{
  and_then, Cmd, ℕ, ◌^◌, ◌≡◌, Bool, true, false, ◌&&◌, ◌||◌, Option, none, some, List, [], ◌∷◌, Ptr,
  update, ◌==◌, if◌then◌else◌,
}
use Prim.Native.Nat.{bit_and, bit_or}
use io_event.List
use io_event.List.{Heap}
use io_event.Array.{Array, Result, ok, err}
use io_event.Array
use io_event.EPoll.{readable, writable}

-- `IO_EVENT_EXIT`
abbrev pub exit : ℕ
exit = 32

-- `EVFILT_READ`, `EVFILT_WRITE`, `EVFILT_PROC`, `EVFILT_USER`
pub data Filter : Type 0 where
  evfilt_read evfilt_write evfilt_proc evfilt_user : Filter

-- `events_from_kevent_filter`
pub events_from_kevent_filter : Filter → ℕ
events_from_kevent_filter evfilt_read = readable
events_from_kevent_filter evfilt_write = writable
events_from_kevent_filter evfilt_proc = exit
events_from_kevent_filter evfilt_user = 0

-- Flags of kevent(2).
abbrev pub ev_add : ℕ
ev_add = 1

abbrev pub ev_oneshot : ℕ
ev_oneshot = 16

abbrev pub ev_clear : ℕ
ev_clear = 32

abbrev pub note_exit : ℕ
note_exit = 2 ^ 31

abbrev pub note_trigger : ℕ
note_trigger = 2 ^ 24

-- `struct kevent`
pub record Kevent : Type 0 where
  pub ident : ℕ
  pub filter : Filter
  pub flags : ℕ
  pub fflags : ℕ
  pub udata : Ptr

-- One filter asks for what another one does.
abbrev pub same_filter : Filter → Filter → Bool
same_filter f g = events_from_kevent_filter f == events_from_kevent_filter g

-- Whether some change of a list is about a filter of an identifier.
abbrev pub changes : ℕ → Filter → List Kevent → Bool
changes ident f [] = false
changes ident f (c ∷ cs) = ((c.ident == ident) && same_filter c.filter f) || changes ident f cs

-- The note that a filter has to carry to report anything.
abbrev pub note_of : Filter → ℕ
note_of evfilt_proc = note_exit
note_of f = 0

-- A change adds a filter that reports one event: `EV_ADD | EV_ONESHOT`, and for a process `NOTE_EXIT`.
abbrev pub asks_once : Kevent → Bool
asks_once c = (c.flags == bit_or ev_add ev_oneshot) && (c.fflags == note_of c.filter)

abbrev pub all_ask : List Kevent → Bool
all_ask [] = true
all_ask (c ∷ cs) = asks_once c && all_ask cs

-- The kernel's queue: `watches` says for which filters of which identifiers the next event is to be
-- reported, once. What kevent(2) documents of a list of changes that all add such filters; and that a
-- list of changes does not concern the filters that it does not name.
pub record Kernel (K : Type 0) : Type 0 where
  pub kevent : List Kevent → K → Call × K
  pub watches : K → ℕ → Filter → Bool
  pub kevent_done :
      (cs : List Kevent) (n ident : ℕ) (f : Filter) (k : K)
      → all_ask cs ≡ true
      → (kevent cs k).0 ≡ success n
      → watches (kevent cs k).1 ident f ≡ (changes ident f cs || watches k ident f)
  pub kevent_others :
      (cs : List Kevent) (ident : ℕ) (f : Filter) (k : K)
      → changes ident f cs ≡ false
      → watches (kevent cs k).1 ident f ≡ watches k ident f

-- `struct IO_Event_Selector_KQueue` without its `backend`; the fields of all `struct
-- IO_Event_Selector_KQueue_Waiting` and all `struct IO_Event_Selector_KQueue_Descriptor`, one map for
-- each, with the links of their lists; and the kernel.
pub record KQueue (K : Type 0) : Type 0 where
  pub descriptor : ℤ
  pub owner : ℕ
  pub idle_duration : Timespec
  pub descriptors : Array Ptr
  pub links : Heap
  pub events : Ptr → ℕ
  pub ready : Ptr → ℕ
  pub fiber : Ptr → ℕ
  pub waiting_events : Ptr → ℕ
  pub registered_events : Ptr → ℕ
  pub ready_events : Ptr → ℕ
  pub kernel : K

-- The answers of the allocator to one call of `IO_Event_Array_lookup`.
pub record Answers : Type 0 where
  pub slots : Bool
  pub element : Bool
  pub fresh : Ptr

-- The change that `IO_Event_Selector_KQueue_Descriptor_update` asks for, if an event is among those that
-- are waited for, and the changes after it.
abbrev pub change_if : (events event : ℕ) → Kevent → List Kevent → List Kevent
change_if events event change rest = if bit_and events event == 0 then rest else change ∷ rest

-- The list of changes of `IO_Event_Selector_KQueue_Descriptor_update`.
abbrev pub changes_of : (identifier : ℕ) (d : Ptr) (events : ℕ) → List Kevent
changes_of identifier d events =
    let oneshot = bit_or ev_add ev_oneshot in
    change_if events readable
      (record { ident = identifier; filter = evfilt_read; flags = oneshot; fflags = 0; udata = d })
      (change_if events writable
        (record {
          ident = identifier;
          filter = evfilt_write;
          flags = oneshot;
          fflags = 0;
          udata = d;
        })
        (change_if events exit
          (record {
            ident = identifier;
            filter = evfilt_proc;
            flags = oneshot;
            fflags = note_exit;
            udata = d;
          })
          []))

module _ {K : Type 0} where
  abbrev pub with_links : KQueue K → Option (Unit {0} × Heap) → Option (Unit {0} × KQueue K)
  with_links s none = none
  with_links s (some (u, h)) = some (u, record s { links = h })

  -- An operation of list.h on the links.
  abbrev pub on_links : Cmd Heap (Unit {0}) → Cmd (KQueue K) (Unit {0})
  on_links c s = with_links s (c s.links)

  -- `IO_Event_Selector_KQueue_Descriptor_initialize`
  pub descriptor_initialize : Ptr → Cmd (KQueue K) (Unit {0})
  descriptor_initialize element s = and_then (on_links (List.initialize element) s) λ _ t. some (
    tt,
    record t {
      waiting_events = update t.waiting_events element 0;
      registered_events = update t.registered_events element 0;
      ready_events = update t.ready_events element 0;
    },
  )

  -- `IO_Event_Selector_KQueue_Descriptor_free`
  pub descriptor_free : Ptr → Cmd (KQueue K) (Unit {0})
  descriptor_free element s = on_links (List.free element) s

  abbrev pub initialize_fresh : (fresh : Ptr) → Result Ptr → Cmd (KQueue K) (Result Ptr)
  initialize_fresh fresh (err e) s = some (err e, s)
  initialize_fresh fresh (ok d) s =
      if d == fresh
      then and_then (descriptor_initialize d s) (λ _ t. some (ok d, t))
      else some (ok d, s)

  -- `IO_Event_Selector_KQueue_Descriptor_lookup`: an element that the array has just allocated is
  -- initialized.
  pub descriptor_lookup : Answers → (identifier : ℕ) → Cmd (KQueue K) (Result Ptr)
  unfolding descriptor_initialize
  descriptor_lookup a identifier s =
      let (found, array) = Array.lookup a.slots a.element a.fresh identifier s.descriptors in
      initialize_fresh a.fresh found (record s { descriptors = array })

  module _ (kernel : Kernel K) where
    abbrev pub registered : Ptr → Call × K → KQueue K → Call × KQueue K
    registered d (success n, k) s = (
      success n,
      record s {
        registered_events = update s.registered_events d (s.waiting_events d);
        kernel = k;
      },
    )
    registered d (failure e, k) s = (failure e, record s { kernel = k })

    abbrev pub submit : Ptr → List Kevent → KQueue K → Call × KQueue K
    submit d [] s = (success 0, s)
    submit d (c ∷ cs) s = registered d (kernel.kevent (c ∷ cs) s.kernel) s

    -- `IO_Event_Selector_KQueue_Descriptor_update`
    pub descriptor_update : (identifier : ℕ) → Ptr → KQueue K → Call × KQueue K
    descriptor_update identifier d s = submit d (changes_of identifier d (s.waiting_events d)) s

    -- What follows the update in `IO_Event_Selector_KQueue_Waiting_register`.
    abbrev pub link : (d waiting : Ptr) → Call × KQueue K → Option (Call × KQueue K)
    link d waiting (failure e, s) = some (failure e, s)
    link d waiting (success n, s) =
        and_then (on_links (List.prepend d waiting) s) (λ _ t. some (success n, t))

    abbrev pub add_waiting : (d waiting : Ptr) → KQueue K → KQueue K
    add_waiting d waiting s = record s {
      waiting_events = update s.waiting_events d (bit_or (s.waiting_events d) (s.events waiting));
    }

    -- `IO_Event_Selector_KQueue_Waiting_register`, once the descriptor has been found.
    pub register_on : (identifier : ℕ) (d waiting : Ptr) → Cmd (KQueue K) Call
    unfolding descriptor_update
    register_on identifier d waiting s =
        link d waiting (descriptor_update identifier d (add_waiting d waiting s))

    pub register_found :
        (identifier : ℕ) (waiting : Ptr) → Result Ptr → Cmd (KQueue K) (Result Call)
    unfolding register_on
    register_found identifier waiting (err e) s = some (err e, s)
    register_found identifier waiting (ok d) s =
        and_then (register_on identifier d waiting s) (λ r t. some (ok r, t))

    -- `IO_Event_Selector_KQueue_Waiting_register`
    pub waiting_register : Answers → (identifier : ℕ) (waiting : Ptr) → Cmd (KQueue K) (Result Call)
    unfolding register_found descriptor_lookup
    waiting_register a identifier waiting s =
        and_then (descriptor_lookup a identifier s) (register_found identifier waiting)

  -- `IO_Event_Selector_KQueue_Waiting_cancel`
  pub waiting_cancel : Ptr → Cmd (KQueue K) (Unit {0})
  waiting_cancel waiting s =
      and_then (on_links (List.pop waiting) s)
        λ _ t. some (tt, record t { fiber = update t.fiber waiting 0 })
