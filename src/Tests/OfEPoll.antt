-- ===== src/Tests/OfEPoll.antt =====
-- A selector of epoll.c with one descriptor, 3, whose state is at 1, and the node 2 of a fiber.
use io_event.Base.{
  ◌==◌, ◌&&◌, false, ℕ, ◌≡◌, refl, ◌≢◌, inl, inr, true, Option, none, some, [], ◌∷◌, arith, null,
  update, Option-cases,
}
use io_event.System.{Call, success, failure, enoent, eexist}
use io_event.Base.Int.{pos}
use io_event.List.{Heap}
use io_event.List.Shape.{IsList}
use io_event.Fiber.{returned}
use io_event.Selector.{Selector}
use io_event.EPoll.Update.{Updated, update-Updated, succeeded}
use io_event.EPoll.Watchable.{IsWatchable, IsCorrected, update-succeeded}
use io_event.EPoll.Waiting.{IsWaiting, Registered, register_on-Registered}
use io_event.EPoll.Wait.{Cancelled, ensure_cancel, ensure_cancel-Cancelled}
use io_event.EPoll.{
  Operation, add, modify, delete, entry, Kernel, EPoll, descriptor_update, register_on, readable,
}

abbrev pub Interests : Type 0
Interests = ℕ → Option ℕ

-- `epoll_ctl` on a descriptor, for what is registered for it.
abbrev pub control : Operation → Option ℕ → (fd flags : ℕ) → Interests → Call × Interests
control add none fd flags k = (success 0, update k fd (some flags))
control add (some old) fd flags k = (failure eexist, k)
control modify none fd flags k = (failure enoent, k)
control modify (some old) fd flags k = (success 0, update k fd (some flags))
control delete none fd flags k = (failure enoent, k)
control delete (some old) fd flags k = (success 0, update k fd none)

pub control_done :
    (o : Operation) (present : Option ℕ) (fd flags n : ℕ) (k : Interests)
    → (control o present fd flags k).0 ≡ success n
    → (control o present fd flags k).1 fd ≡ entry o flags
control_done add none fd flags n k h = ground arith
control_done add (some old) fd flags n k h = ground (arith, h)
control_done modify none fd flags n k h = ground (arith, h)
control_done modify (some old) fd flags n k h = ground arith
control_done delete none fd flags n k h = ground (arith, h)
control_done delete (some old) fd flags n k h = ground arith

pub control_others :
    (o : Operation) (present : Option ℕ) (fd flags other : ℕ) (k : Interests)
    → other ≢ fd
    → (control o present fd flags k).1 other ≡ k other
control_others add none fd flags other k ne = ground (arith, ne)
control_others add (some old) fd flags other k ne = refl
control_others modify none fd flags other k ne = refl
control_others modify (some old) fd flags other k ne = ground (arith, ne)
control_others delete none fd flags other k ne = refl
control_others delete (some old) fd flags other k ne = ground (arith, ne)

pub control_failed :
    (o : Operation) (present : Option ℕ) (fd flags e : ℕ) (k : Interests)
    → (control o present fd flags k).0 ≡ failure e
    → (control o present fd flags k).1 fd ≡ k fd
control_failed add none fd flags e k h = ground (arith, h)
control_failed add (some old) fd flags e k h = refl
control_failed modify none fd flags e k h = refl
control_failed modify (some old) fd flags e k h = ground (arith, h)
control_failed delete none fd flags e k h = refl
control_failed delete (some old) fd flags e k h = ground (arith, h)

abbrev pub kernel : Kernel Interests
kernel = record {
  epoll_ctl = λ o fd flags k. control o (k fd) fd flags k;
  interest = λ k. k;
  control_done = λ o fd flags n k. control_done o (k fd) fd flags n k;
  control_others = λ o fd flags other k. control_others o (k fd) fd flags other k;
  control_failed = λ o fd flags e k. control_failed o (k fd) fd flags e k;
}

-- The kernel refuses only what it must.
pub watchable : IsWatchable kernel 3 1
watchable add flags e k h = elim (Option-cases (k 3)) [
  | inl free ↦ ground (arith, free, h)
  | inr (old, at) ↦ ground (arith, at, h)
]
watchable modify flags e k h = elim (Option-cases (k 3)) [
  | inl free ↦ ground (arith, free, h)
  | inr (old, at) ↦ ground (arith, at, h)
]
watchable delete flags e k h = elim (Option-cases (k 3)) [
  | inl free ↦ ground (arith, free, h)
  | inr (old, at) ↦ ground (arith, at, h)
]

-- The list 1 with the node 2; the nodes 4 and 8 are in no list.
abbrev pub one_item : Heap
one_item = record {
  head = update (update (λ _. null) 1 2) 2 1;
  tail = update (update (λ _. null) 1 2) 2 1;
  type = λ _. 9;
}

pub one_item-IsList : IsList one_item 1 (2 ∷ [])
one_item-IsList = record { links = ground arith; distinct = ground arith; nonnull = refl }

-- The fiber 7 waits for the events of node 2; nothing is registered yet.
abbrev pub poll : {K : Type 0} → (events waiting registered : ℕ) → K → EPoll K
poll events waiting registered interests = record {
  descriptor = pos 5;
  owner = 1000;
  idle_duration = record { tv_sec = pos 0; tv_nsec = pos 0 };
  descriptors = record { base = []; count = 0; limit = 0; element_size = 40 };
  links = one_item;
  events = update (λ _. readable) 2 events;
  ready = λ _. 0;
  fiber = update (λ _. 0) 2 7;
  io = update (λ _. 0) 1 30;
  waiting_events = update (λ _. 0) 1 waiting;
  registered_events = update (λ _. 0) 1 registered;
  kernel = interests;
}

abbrev pub nothing : Interests
nothing fd = none

abbrev pub reading : EPoll Interests
reading = poll readable readable 0 nothing

update-Updated_example : Updated kernel 3 1 reading (descriptor_update kernel 30 3 1 reading)
update-Updated_example = update-Updated kernel 3 1 30 reading (λ some_events. ground arith)

update-succeeded_example :
    (succeeded (descriptor_update kernel 30 3 1 reading).0 ≡ true)
    × (((reading.io 1 == 30) && (reading.registered_events 1 == reading.waiting_events 1)) ≡ false
        → IsCorrected kernel 3 1 reading (descriptor_update kernel 30 3 1 reading))
update-succeeded_example = update-succeeded kernel 3 1 watchable 30 reading

pub reading-IsWaiting : IsWaiting reading 1 (2 ∷ [])
reading-IsWaiting = record { list = one_item-IsList; covered = λ x i. ground arith }

register_on-Registered_example :
    Registered kernel 3 1 4 (2 ∷ []) (register_on kernel 30 3 1 4 reading)
register_on-Registered_example =
    register_on-Registered kernel 3 1 4 (2 ∷ []) 30 reading-IsWaiting (λ some_events. ground arith)
      refl (record { nonnull = ground arith; head = refl; tail = refl }) refl

abbrev pub process : {K : Type 0} → EPoll K → Selector (EPoll K)
process e = record {
  self = 1;
  loop = 50;
  blocked = 0;
  waiting = null;
  ready = null;
  head = λ _. null;
  tail = λ _. null;
  flags = λ _. 0;
  fiber = λ _. 0;
  outside = e;
}

ensure_cancel-Cancelled_example :
    Cancelled 1 2 []
      (returned 6)
      (process reading)
      (ensure_cancel 2 (some (returned 6, process reading)))
ensure_cancel-Cancelled_example = ensure_cancel-Cancelled 1 [] 2 [] (returned 6) reading-IsWaiting
