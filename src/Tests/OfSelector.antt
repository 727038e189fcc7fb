-- ===== src/Tests/OfSelector.antt =====
-- Ready queues of selector.c with one or two nodes.
use io_event.Base.{ℕ, ◌≡◌, refl, true, some, [], ◌∷◌, arith, Ptr, null, update, length}
use io_event.Fiber
use io_event.Fiber.{Outcome, returned, Ruby}
use io_event.Selector.{
  Selector, queue_fiber, queue_internal, queue_push, queue_pop, new_node, loop_resume, resume,
}
use io_event.Selector.Queue.{IsQueue, SameNodes, queue_pop-IsQueue}
use io_event.Selector.Resume.{Waited, resume-Waited}
use io_event.Selector.Visit.{mark, mark_lem, fibers}
use io_event.Selector.Flush.{counted, out_of_fuel, ready_flush}
use io_event.Selector.Flush.Once.{Turns, done, internal, flush_once}
use io_event.Selector.Flush.Starve.{asking, IsAsking, ready_flush_starves}

abbrev idle : Selector Unit
idle = record {
  self = 1;
  loop = 50;
  blocked = 0;
  waiting = null;
  ready = null;
  head = λ _. null;
  tail = λ _. null;
  flags = λ _. 0;
  fiber = λ _. 0;
  outside = tt;
}

idle-IsQueue : IsQueue idle []
idle-IsQueue = record { links = ground arith; distinct = ground arith }

-- The node 10, for the fiber 7.
abbrev one_queued : ℕ → Selector Unit
one_queued flags = record idle {
  waiting = 10;
  ready = 10;
  head = update idle.head 10 null;
  tail = update idle.tail 10 null;
  flags = update idle.flags 10 flags;
  fiber = update idle.fiber 10 7;
}

one_queued-IsQueue : (flags : ℕ) → IsQueue (one_queued flags) (10 ∷ [])
one_queued-IsQueue flags = record { links = ground arith; distinct = ground arith }

-- Behind it the node 20.
abbrev two_queued : Selector Unit
two_queued = record (one_queued queue_internal) {
  waiting = 20;
  head = update idle.head 10 20;
  tail = update idle.tail 20 10;
  fiber = update (update idle.fiber 10 7) 20 8;
}

two_queued-IsQueue : IsQueue two_queued (10 ∷ 20 ∷ [])
two_queued-IsQueue = record { links = ground arith; distinct = ground arith }

-- Ruby, where every fiber comes back at once.
abbrev calm : Ruby (Selector Unit)
calm = record {
  is_fiber = λ _. true;
  fiber_alive = λ _ _. true;
  fiber_transfer = λ _ _ s. some (returned 6, s);
  fiber_raise = λ _ _ s. some (returned 6, s);
  alive = λ _ _. true;
  transfer = λ _ _ s. some (returned 6, s);
  current = λ _. 7;
}

calm_resumes : (fiber : ℕ) (s : Selector Unit) → loop_resume calm fiber [] s ≡ some (returned 6, s)
unfolding loop_resume Fiber.transfer
calm_resumes fiber s = refl

enters : queue_push 10 (new_node 10 queue_fiber 7 idle) ≡ some (tt, one_queued queue_fiber)
unfolding queue_push
enters = refl

queue_pop-IsQueue_example :
    IsQueue (queue_pop 10 two_queued) (20 ∷ [])
    × (((queue_pop 10 two_queued).head 10 ≡ null) × ((queue_pop 10 two_queued).tail 10 ≡ null))
    × SameNodes (10 ∷ 20 ∷ []) two_queued (queue_pop 10 two_queued)
queue_pop-IsQueue_example = queue_pop-IsQueue [] 10 (20 ∷ []) two_queued-IsQueue

resume-Waited_example :
    Waited 10 7 [] [] (one_queued queue_fiber) (returned 6) (resume calm 10 (40 ∷ []) idle)
resume-Waited_example =
    resume-Waited calm 10 idle-IsQueue (ground arith) refl enters [] [] (returned 6)
      (one_queued-IsQueue queue_fiber) 40 [] (calm_resumes 40 (one_queued queue_fiber))

one_gone-IsQueue : IsQueue (queue_pop 10 (one_queued queue_internal)) []
one_gone-IsQueue = (queue_pop-IsQueue [] 10 [] (one_queued-IsQueue queue_internal)).0

one_turn :
    Turns calm
      (one_queued queue_internal)
      (10 ∷ [])
      []
      (queue_pop 10 (one_queued queue_internal))
      []
one_turn =
    internal (one_queued-IsQueue queue_internal) refl
      (calm_resumes 7 (queue_pop 10 (one_queued queue_internal))) (done one_gone-IsQueue)

flush_once_example :
    (ready_flush calm 2 (one_queued queue_internal)
      ≡ some (counted (length {A = Ptr} (10 ∷ [])), queue_pop 10 (one_queued queue_internal)))
    × IsQueue (queue_pop 10 (one_queued queue_internal)) []
flush_once_example = flush_once calm 2 (10 ∷ []) one_turn (omega arith)

two_queued-IsAsking : IsAsking 10 20 7 two_queued
two_queued-IsAsking = record { queue = two_queued-IsQueue; internal = refl }

ready_flush_starves_example :
    (u : Selector Unit) × (ready_flush (asking 10 20 7) 100 two_queued ≡ some (out_of_fuel, u))
ready_flush_starves_example = ready_flush_starves 10 20 7 100 two_queued two_queued-IsAsking

mark_lem_example : mark 3 two_queued ≡ some (1 ∷ 50 ∷ fibers two_queued.fiber (10 ∷ 20 ∷ []))
mark_lem_example = mark_lem 3 two_queued-IsQueue (omega arith)
