-- ===== src/KQueue/Handle.antt =====
-- `IO_Event_Selector_KQueue_handle`: the fibers that wait for a reported event are resumed.
pub mod Passed
use io_event.Selector.{loop_resume, Selector}
use io_event.System.{success, Call}
use io_event.Fiber.{raised, returned, Outcome, Ruby}
use io_event.Base.{
  and_then, Cmd, ℕ, zero, suc, ◌-◌, Option, none, some, [], Ptr, update, ◌==◌, if◌then◌else◌,
}
use Prim.Native.Nat.{bit_and, bit_or}
use io_event.List
use io_event.KQueue.{KQueue, Kernel, on_links, descriptor_update}

-- How the loop ends: at the sentinel, by an exception that a fiber lets through, or (in the model
-- alone) by the end of its fuel.
pub data Looped : Type 0 where
  ended : Looped
  interrupted : ℕ → Looped
  out_of_fuel : Looped

-- How `IO_Event_Selector_KQueue_handle` comes back: with the result of the update, or as the loop does.
pub data Handled : Type 0 where
  updated : Call → Handled
  stopped : Looped → Handled

module _ {K : Type 0} where
  abbrev pub with_queue :
      {A : Type 0} → Selector (KQueue K) → Option (A × KQueue K) → Option (A × Selector (KQueue K))
  with_queue s none = none
  with_queue s (some (a, q)) = some (a, record s { outside = q })

  -- A command of the selector for kqueue, in the state with the `backend`.
  abbrev pub on_queue : {A : Type 0} → Cmd (KQueue K) A → Cmd (Selector (KQueue K)) A
  on_queue c s = with_queue s (c s.outside)

  -- The branch of the loop for a fiber that still waits.
  abbrev pub still_waiting : (list node : Ptr) → Selector (KQueue K) → Selector (KQueue K)
  still_waiting list node s = record s {
    outside = record s.outside {
      waiting_events =
          update s.outside.waiting_events list
            (bit_or (s.outside.waiting_events list) (s.outside.events node));
    };
  }

  abbrev pub set_ready : (node : Ptr) (matching : ℕ) → Selector (KQueue K) → Selector (KQueue K)
  set_ready node matching s = record s {
    outside = record s.outside { ready = update s.outside.ready node matching };
  }

  -- The events of a round are taken, and what was registered for them has fired; `a - bit_and a b` is
  -- the source's `a & ~b`.
  abbrev pub take_ready : Ptr → Selector (KQueue K) → Selector (KQueue K)
  take_ready d s =
      let registered = s.outside.registered_events d in
      record s {
        outside = record s.outside {
          ready_events = update s.outside.ready_events d 0;
          registered_events =
              update s.outside.registered_events d
                (registered - bit_and registered (s.outside.ready_events d));
          waiting_events = update s.outside.waiting_events d 0;
        };
      }

  abbrev pub after_resume :
      Option (Outcome × Selector (KQueue K))
      → Cmd (Selector (KQueue K)) Looped
      → Option (Looped × Selector (KQueue K))
  after_resume none k = none
  after_resume (some (returned v, s)) k = k s
  after_resume (some (raised e, s)) k = some (interrupted e, s)

  module _ (ruby : Ruby (Selector (KQueue K))) (list saved : Ptr) (ready_events : ℕ) where
    -- A turn of the loop for a fiber that waits for one of the events; `rest` goes on from a node.
    abbrev pub turn :
        (rest : (node : Ptr) → Cmd (Selector (KQueue K)) Looped)
        → (node : Ptr) → Cmd (Selector (KQueue K)) Looped
    turn rest node s = and_then (on_queue (on_links (List.append node saved)) s) λ _ t.
        after_resume
          (loop_resume ruby (t.outside.fiber node) []
            (set_ready node (bit_and (t.outside.events node) ready_events) t))
          λ u.
            and_then (on_queue (on_links (List.pop saved)) u)
              (λ _ v. rest (u.outside.links.tail saved) v)

    -- The loop of `IO_Event_Selector_KQueue_handle`, on fuel.
    pub handle_loop : ℕ → (node : Ptr) → Cmd (Selector (KQueue K)) Looped
    handle_loop zero node s = some (out_of_fuel, s)
    handle_loop (suc fuel) node s =
        if node == list
        then some (ended, s)
        else (if bit_and (s.outside.events node) ready_events == 0
            then handle_loop fuel (s.outside.links.tail node) (still_waiting list node s)
            else turn (handle_loop fuel) node s)

  abbrev pub finish :
      Kernel K → (identifier : ℕ) (d : Ptr) → Looped → Cmd (Selector (KQueue K)) Handled
  finish kernel identifier d ended s =
      let (r, q) = descriptor_update kernel identifier d s.outside in
      some (updated r, record s { outside = q })
  finish kernel identifier d how s = some (stopped how, s)

  module _ (ruby : Ruby (Selector (KQueue K))) (kernel : Kernel K) (fuel : ℕ) where
    -- `IO_Event_Selector_KQueue_handle`
    pub handle : (identifier : ℕ) (d saved : Ptr) → Cmd (Selector (KQueue K)) Handled
    unfolding handle_loop
    handle identifier d saved s =
        if s.outside.ready_events d == 0
        then some (updated (success 0), s)
        else and_then
            (handle_loop ruby d saved (s.outside.ready_events d) fuel (s.outside.links.tail d)
              (take_ready d s))
            (finish kernel identifier d)
