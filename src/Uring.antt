-- ===== src/Uring.antt =====
-- ext/io/event/selector/uring.c: the state of the io_uring selector and its completions. A completion
-- and the fiber that waits for it point at each other; completions that are not in use are in a free
-- list.
pub mod Completions
pub mod Flags
pub mod Ring
pub mod Complete
pub mod Owned
pub mod Wait
pub mod Process
pub mod Select
pub mod Life
pub mod Visit
pub mod Transfer
use io_event.Base.{
  Cmd, and_then, ◌≡◌, ◌≢◌, ℕ, Bool, Option, none, some, List, Ptr, null, update, ◌==◌,
  if◌then◌else◌, ◌∈◌,
}
use io_event.Base.Int.{ℤ}
use io_event.System.{Call}
use io_event.Time.{Timespec}
use io_event.List
use io_event.List.{Heap}
use io_event.List.Shape.{IsList}
use io_event.Array
use io_event.Array.{Array, Result, ok, err}

-- `struct IO_Event_Selector_URing` without its `backend`, with the fields of `struct
-- IO_Event_Selector_URing_Completion` (`links`, `waiting`) and of `struct
-- IO_Event_Selector_URing_Waiting` (`completion`, `fiber`, `result`, `flags`) by address. `descriptor`
-- and `interrupt` are the descriptors of the ring and of the interrupt, `kernel` is all that lies
-- outside, the queues of the ring included.
pub record Uring (K : Type 0) : Type 0 where
  pub descriptor : ℤ
  pub owner : ℕ
  pub interrupt : ℤ
  pub wakeup_registered : Bool
  pub idle_duration : Timespec
  pub completions : Array Ptr
  pub free_list : Ptr
  pub links : Heap
  pub waiting : Ptr → Ptr
  pub completion : Ptr → Ptr
  pub fiber : Ptr → ℕ
  pub result : Ptr → Call
  pub flags : Ptr → ℕ
  pub kernel : K

-- The answers of the allocator to one call of `IO_Event_Array_push`.
pub record Answers : Type 0 where
  pub slots : Bool
  pub element : Bool
  pub fresh : Ptr

module _ {K : Type 0} where
  abbrev pub with_links : Uring K → Option (Unit {0} × Heap) → Option (Unit {0} × Uring K)
  with_links s none = none
  with_links s (some (u, h)) = some (u, record s { links = h })

  -- An operation of list.h on the links.
  abbrev on_links : Cmd Heap (Unit {0}) → Cmd (Uring K) (Unit {0})
  on_links c s = with_links s (c s.links)

  -- `IO_Event_Selector_URing_Completion_initialize`, with the address of the type.
  abbrev completion_initialize : (type : Ptr) → Ptr → Cmd (Uring K) (Unit {0})
  completion_initialize type element s =
      and_then (on_links (List.initialize element) s) λ _ t. on_links (List.set_type element type) t

  -- A completion and the fiber that waits are joined.
  abbrev pub join : (completion waiting : Ptr) → Uring K → Uring K
  join completion waiting s = record s {
    completion = update s.completion waiting completion;
    waiting = update s.waiting completion waiting;
  }

  -- A completion that the array has given is cleared.
  abbrev acquire_new :
      (type fresh waiting : Ptr) → Result Ptr × Array Ptr → Cmd (Uring K) (Result Ptr)
  acquire_new type fresh waiting (err e, array) s = some (err e, record s { completions = array })
  acquire_new type fresh waiting (ok c, array) s =
      let t = record s { completions = array } in
      let begun = if c == fresh then completion_initialize type c t else some (tt, t) in
      and_then begun
        λ _ u. and_then (on_links (List.clear c) u) (λ _ v. some (ok c, join c waiting v))

  -- A completion of the free list is taken off it.
  abbrev acquire_free : (waiting : Ptr) → Cmd (Uring K) (Result Ptr)
  acquire_free waiting s =
      let c = s.links.tail s.free_list in
      and_then (on_links (List.pop c) s) (λ _ t. some (ok c, join c waiting t))

  -- `IO_Event_Selector_URing_Completion_acquire`
  pub acquire : Answers → (type waiting : Ptr) → Cmd (Uring K) (Result Ptr)
  acquire a type waiting s =
      if List.empty s.free_list s.links
      then acquire_new type a.fresh waiting (Array.push a.slots a.element a.fresh s.completions) s
      else acquire_free waiting s

  -- `IO_Event_Selector_URing_Completion_cancel`
  unfoldable pub cancel : (completion : Ptr) → Uring K → Uring K
  cancel c s = if s.waiting c == null then s else record s {
    completion = update s.completion (s.waiting c) null;
    waiting = update s.waiting c null;
  }

  -- `IO_Event_Selector_URing_Completion_release`
  pub release : (completion : Ptr) → Cmd (Uring K) (Unit {0})
  unfolding cancel
  release c s = on_links (List.prepend s.free_list c) (cancel c s)

  -- `IO_Event_Selector_URing_Waiting_cancel`
  pub waiting_cancel : (waiting : Ptr) → Uring K → Uring K
  waiting_cancel w s =
      let t = if s.completion w == null then s else (record s {
        waiting = update s.waiting (s.completion w) null;
        completion = update s.completion w null;
      }) in
      record t { fiber = update t.fiber w 0 }

  -- `IO_Event_Selector_URing_Completion_free`
  unfoldable completion_free : (element : Ptr) → Uring K → Uring K
  unfolding cancel
  completion_free element s = cancel element s

  -- A completion and a fiber that waits for it point at each other, and the completions `free` of the
  -- free list are waited for by nobody.
  pub record IsSound (free : List Ptr) (s : Uring K) : Type 0 where
    pub list : IsList s.links s.free_list free
    pub of_waiting : (w : Ptr) → s.completion w ≢ null → s.waiting (s.completion w) ≡ w
    pub of_completion : (c : Ptr) → s.waiting c ≢ null → s.completion (s.waiting c) ≡ c
    pub of_null : (s.completion null ≡ null) × (s.waiting null ≡ null)
    pub idle : (c : Ptr) → c ∈ free → s.waiting c ≡ null
