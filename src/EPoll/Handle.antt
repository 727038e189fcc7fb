-- ===== src/EPoll/Handle.antt =====
-- `IO_Event_Selector_EPoll_handle`: the fibers that wait for a reported event are resumed.
pub mod Visits
pub mod Once
pub mod Writer
use io_event.Base.{
  ltb→lt, not_ltb→le, ==-refl, eq_nil_of_length, get_elem?-ge_length, dec_lt, ℕ_discrete,
  get_elem?-set, get_elem?-append_lt, get_elem?-append_ge, get_elem?-replicate, get_elem?-lt_length,
  append_assoc, ne_of_mem, and_then, subst, ne→==, append-nil, Cmd, ◌>>=◌, ◌>>◌, pure, assert,
  IsDistinct-insert, has-append_comm, IsDistinct-append_comm, IsDistinct-remove, ℕ, zero, suc, ◌+◌,
  ◌-◌, ◌*◌, ◌/◌, ◌%◌, ◌^◌, ◌≤◌, ◌<◌, ◌≡◌, refl, sym, ap, ◌∙◌, ◌≢◌, ◌↔◌, ◌⊎◌, inl, inr, Bool, true,
  false, not, ◌&&◌, ◌||◌, Option, none, some, List, [], ◌∷◌, ◌++◌, arith, Ptr, null, update, ltb,
  leb, ◌==◌, if◌then◌else◌, ==_iff, Bool-cases, Option-cases, length, get_elem?, get_or, set, take,
  drop, replicate, length-append, length-set, length-replicate, has, ◌∈◌, ◌∉◌, IsDistinct,
  has-append,
}
use Prim.Native.Nat.{bit_and, bit_or}
use io_event.List
use io_event.Fiber.{Outcome, returned, raised, Ruby}
use io_event.Selector.{Selector, loop_resume}
use io_event.System.{Call}
use io_event.Array.{Error, Result, ok, err}
use io_event.EPoll.{
  Kernel, EPoll, Answers, on_links, descriptor_lookup, descriptor_update, events_from_epoll_flags,
}

-- How the loop ends: at the sentinel, by an exception that a fiber lets through, or (in the model
-- alone) by the end of its fuel.
pub data Looped : Type 0 where
  ended : Looped
  interrupted : ℕ → Looped
  out_of_fuel : Looped

-- How `IO_Event_Selector_EPoll_handle` comes back: with the result of the update, with an error of
-- the lookup, or as the loop does.
pub data Handled : Type 0 where
  updated : Call → Handled
  not_found : Error → Handled
  stopped : Looped → Handled

module _ {K : Type 0} where
  abbrev pub with_poll :
      {A : Type 0} → Selector (EPoll K) → Option (A × EPoll K) → Option (A × Selector (EPoll K))
  with_poll s none = none
  with_poll s (some (a, e)) = some (a, record s { outside = e })

  -- A command of the selector for epoll, in the state with the `backend`.
  abbrev pub on_poll : {A : Type 0} → Cmd (EPoll K) A → Cmd (Selector (EPoll K)) A
  on_poll c s = with_poll s (c s.outside)

  -- The branch of the loop for a fiber that still waits.
  abbrev pub still_waiting : (list node : Ptr) → Selector (EPoll K) → Selector (EPoll K)
  still_waiting list node s = record s {
    outside = record s.outside {
      waiting_events =
          update s.outside.waiting_events list
            (bit_or (s.outside.waiting_events list) (s.outside.events node));
    };
  }

  abbrev pub set_ready : (node : Ptr) (matching : ℕ) → Selector (EPoll K) → Selector (EPoll K)
  set_ready node matching s = record s {
    outside = record s.outside { ready = update s.outside.ready node matching };
  }

  -- The start of a turn in the loop.
  abbrev pub reset_waiting : Ptr → Selector (EPoll K) → Selector (EPoll K)
  reset_waiting d s = record s {
    outside = record s.outside { waiting_events = update s.outside.waiting_events d 0 };
  }

  abbrev pub after_resume :
      Option (Outcome × Selector (EPoll K))
      → Cmd (Selector (EPoll K)) Looped
      → Option (Looped × Selector (EPoll K))
  after_resume none k = none
  after_resume (some (returned v, s)) k = k s
  after_resume (some (raised e, s)) k = some (interrupted e, s)

  module _ (ruby : Ruby (Selector (EPoll K))) (list saved : Ptr) (ready_events : ℕ) where
    -- The loop of `IO_Event_Selector_EPoll_handle`, on fuel.
    pub handle_loop : ℕ → (node : Ptr) → Cmd (Selector (EPoll K)) Looped
    handle_loop zero node s = some (out_of_fuel, s)
    handle_loop (suc fuel) node s =
        let matching_events = bit_and (s.outside.events node) ready_events in
        let pass = handle_loop fuel (s.outside.links.tail node) (still_waiting list node s) in
        let turn = and_then (on_poll (on_links (List.append node saved)) s) λ _ t.
          after_resume
            (loop_resume ruby (t.outside.fiber node) [] (set_ready node matching_events t))
            λ u.
              and_then (on_poll (on_links (List.pop saved)) u)
                λ _ v. handle_loop fuel (u.outside.links.tail saved) v in
        if node == list then some (ended, s) else (if matching_events == 0 then pass else turn)

  abbrev pub finish :
      Kernel K → (descriptor : ℕ) (d : Ptr) → Looped → Cmd (Selector (EPoll K)) Handled
  finish kernel descriptor d ended s =
      let (r, e) = descriptor_update kernel (s.outside.io d) descriptor d s.outside in
      some (updated r, record s { outside = e })
  finish kernel descriptor d how s = some (stopped how, s)

  module _ (ruby : Ruby (Selector (EPoll K))) (kernel : Kernel K) (fuel : ℕ) where
    -- The function from the lookup on.
    pub handle_on : (descriptor flags : ℕ) (d saved : Ptr) → Cmd (Selector (EPoll K)) Handled
    unfolding handle_loop
    handle_on descriptor flags d saved s =
        and_then
          (handle_loop ruby d saved (events_from_epoll_flags flags) fuel (s.outside.links.tail d)
            (reset_waiting d s))
          (finish kernel descriptor d)

    -- `IO_Event_Selector_EPoll_handle`
    pub handle : Answers → (descriptor flags : ℕ) (saved : Ptr) → Cmd (Selector (EPoll K)) Handled
    handle a descriptor flags saved s =
        and_then (on_poll (descriptor_lookup a descriptor) s) λ found t. elim found [
          | err e ↦ some (not_found e, t)
          | ok d ↦ handle_on descriptor flags d saved t
        ]
