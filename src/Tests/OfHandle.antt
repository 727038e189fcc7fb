-- ===== src/Tests/OfHandle.antt =====
-- The handler of epoll.c, on a report for the descriptor 3.
use io_event.Base.{subst, ℕ, ◌≡◌, refl, sym, true, Option, none, some, [], ◌∷◌, arith, null, update}
use io_event.List.{Heap, append, pop}
use io_event.Fiber
use io_event.Fiber.{Outcome, returned, Ruby}
use io_event.System.{success}
use io_event.Selector.{Selector, loop_resume}
use io_event.EPoll.{
  EPoll, on_links, waiting_cancel, events_from_epoll_flags, readable, writable, epollin, epollerr,
}
use io_event.EPoll.Handle.{handle_on, reset_waiting, set_ready, on_poll, updated}
use io_event.EPoll.Handle.Visits.{sub_nil, Visits, done, turned}
use io_event.EPoll.Handle.Once.{Done, handle_on_once}
use io_event.EPoll.Handle.Writer.{Untouched, writers_passed}
use io_event.Tests.OfEPoll.{
  Interests, kernel, one_item, one_item-IsList, poll, nothing, process, reading,
}

abbrev State : Type 0
State = Selector (EPoll Interests)

-- Ruby, where the fiber that is resumed stops waiting.
abbrev came_back : Option (Unit {0} × State) → Option (Outcome × State)
came_back none = none
came_back (some (u, s)) = some (returned 6, s)

abbrev stops_waiting : Ruby State
stops_waiting = record {
  is_fiber = λ _. true;
  fiber_alive = λ _ _. true;
  fiber_transfer = λ _ _ s. came_back (on_poll (waiting_cancel 2) s);
  fiber_raise = λ _ _ s. came_back (on_poll (waiting_cancel 2) s);
  alive = λ _ _. true;
  transfer = λ _ _ s. came_back (on_poll (waiting_cancel 2) s);
  current = λ _. 50;
}

abbrev start : State
start = reset_waiting 1 (process reading)

abbrev with_heap : Heap → State → State
with_heap h s = record s { outside = record s.outside { links = h } }

-- With the mark 8 before node 2.
abbrev marked : Heap
marked = record one_item {
  tail = update (update one_item.tail 8 2) 1 8;
  head = update (update one_item.head 8 1) 2 8;
}

mark : on_poll (on_links (append 2 8)) start ≡ some (tt, with_heap marked start)
unfolding append
mark = refl

-- After the fiber has cancelled its node.
abbrev cancelled : Heap
cancelled = record marked {
  tail = update (update marked.tail 8 1) 2 null;
  head = update (update marked.head 1 8) 2 null;
}

abbrev resumed_state : State
resumed_state =
    let t = set_ready 2 1 (with_heap cancelled start) in
    record t { outside = record t.outside { fiber = update t.outside.fiber 2 0 } }

resumes :
    loop_resume stops_waiting 7 [] (set_ready 2 1 (with_heap marked start))
    ≡ some (returned 6, resumed_state)
unfolding loop_resume Fiber.transfer waiting_cancel pop
resumes = refl

-- After the mark is out of the list.
abbrev emptied : Heap
emptied = record cancelled {
  tail = update (update cancelled.tail 1 1) 8 null;
  head = update (update cancelled.head 1 1) 8 null;
}

unmark : on_poll (on_links (pop 8)) resumed_state ≡ some (tt, with_heap emptied resumed_state)
unfolding pop
unmark = refl

abbrev in_ready : ℕ
in_ready = events_from_epoll_flags epollin

in_ready_run : in_ready ≡ readable
unfolding events_from_epoll_flags
in_ready_run = refl

course :
    Visits stops_waiting 1 8 readable start []
      (2 ∷ [])
      (2 ∷ [])
      (with_heap emptied resumed_state)
      []
course =
    turned one_item-IsList refl mark
      (record {
        value = 6;
        run = resumes;
        list = record { links = ground arith; distinct = ground arith; nonnull = refl };
        left = sub_nil;
        events = λ y i. refl;
        covered = λ c y i. ground arith;
      })
      unmark (done (record { links = ground arith; distinct = ground arith; nonnull = refl }))

reported_course :
    Visits stops_waiting 1 8 in_ready start []
      (2 ∷ [])
      (2 ∷ [])
      (with_heap emptied resumed_state)
      []
reported_course =
    subst
      (λ e.
        Visits stops_waiting 1 8 e start [] (2 ∷ []) (2 ∷ []) (with_heap emptied resumed_state) [])
      (sym in_ready_run) course

handle_on_once_example :
    Done stops_waiting kernel 3 epollin 1 8
      (2 ∷ [])
      (2 ∷ [])
      (process reading)
      (with_heap emptied resumed_state)
      []
      (handle_on stops_waiting kernel 2 3 epollin 1 8 (process reading))
handle_on_once_example =
    handle_on_once stops_waiting kernel 3 epollin 1 8 2 (2 ∷ []) one_item-IsList reported_course
      (record { nonnull = ground arith; head = refl; tail = refl }) (omega arith)
      (λ some_events. ground arith)

-- The fiber waits for writability, and the kernel reports an error.
abbrev writing : State
writing = process (poll writable writable writable nothing)

writers_passed_example :
    (t : State) × (handle_on stops_waiting kernel 2 3 epollerr 1 8 writing
      ≡ some (updated (success 0), t))
    × Untouched stops_waiting 1 8 writing t
writers_passed_example =
    writers_passed stops_waiting 1 8 kernel 3 epollerr 2 2 [] writing one_item-IsList
      (λ y i. ground arith) refl (omega arith) refl (omega arith)
