-- ===== src/Selector/Flush/Starve.antt =====
-- A fiber that asks again and again to wait for a file that the kernel cannot watch: each time it
-- pushes itself on the ready queue and yields (`io_wait`, on `EPERM`).
use Prim.Native.Nat.{bit_and}
use io_event.Base.{
  and_then, Cmd, ℕ, zero, suc, ◌+◌, ◌≡◌, refl, ap, ◌∙◌, true, false, some, [], ◌∷◌, arith, Ptr,
  ◌==◌,
}
use io_event.Fiber
use io_event.Fiber.{Outcome, returned, Ruby}
use io_event.Selector.{
  Selector, queue_internal, queue_fiber, queue_push, queue_pop, new_node, ready_push, loop_resume,
  ready_pop, outcome,
}
use io_event.Selector.Queue.{IsQueue, queue_pop-IsQueue, enqueue_lem}
use io_event.Selector.Resume.{ready_push-IsQueue}
use io_event.Selector.Flush.Once.{pop_internal, round}
use io_event.Selector.Flush.{out_of_fuel, flush_loop, ready_flush}

module _ {R : Type 0} (i w : Ptr) (fiber : ℕ) where
  -- The fiber comes back from its yield (its own node `w` leaves the queue), pushes itself on the
  -- queue with the node `i` that the allocator hands out again, and yields once more.
  pub ask_again : Cmd (Selector R) Outcome
  ask_again s = and_then (ready_push i fiber (queue_pop w s)) λ _ t.
      and_then (queue_push w (new_node w queue_fiber fiber t)) λ _ u. some (returned Fiber.nil, u)

  -- Ruby, where the one fiber does this whenever it is resumed.
  abbrev pub asking : Ruby (Selector R)
  asking = record {
    is_fiber = λ _. true;
    fiber_alive = λ _ _. true;
    fiber_transfer = λ _ _. ask_again;
    fiber_raise = λ _ _. ask_again;
    alive = λ _ _. true;
    transfer = λ _ _. ask_again;
    current = λ _. fiber;
  }

  -- The queue between two turns: the node of the push, and behind it the node of the yield.
  pub record IsAsking (s : Selector R) : Type 0 where
    pub queue : IsQueue s (i ∷ w ∷ [])
    pub internal : s.flags i ≡ queue_internal

  again-IsAsking :
      {s : Selector R}
      → IsAsking s
      → (u : Selector R) × (ready_pop asking i s ≡ some (outcome (returned Fiber.nil), u))
        × IsAsking u
  unfolding loop_resume Fiber.transfer ask_again
  again-IsAsking {s} a =
      let (one, off, _) = queue_pop-IsQueue [] i (w ∷ []) a.queue in
      let (none_left, off_w, _) = queue_pop-IsQueue [] w [] one in
      let (t, run_t, is_t, flags_t, fiber_t, same_t) =
        ready_push-IsQueue i fiber none_left (ground (arith, a.queue.distinct)) (ground arith) in
      let (u, run_u, is_u, same_u) =
        enqueue_lem w queue_fiber fiber is_t (ground (arith, a.queue.distinct))
          (ground (arith, a.queue.distinct)) in
      (
        u,
        pop_internal asking s i (ap (λ f. bit_and f queue_internal == 0) a.internal)
            (rw (run_t, run_u)),
        record { queue = is_u; internal = ground (arith, same_u.flags i, a.queue.distinct) },
      )

  -- While a fiber asks again on each turn, a flush never ends: its guard, which looks for the newest
  -- node of the start, does not see that node leave the queue with the fiber that yielded.
  flush_loop_starves :
      (fuel count : ℕ) (s : Selector R)
      → IsAsking s
      → (u : Selector R) × (flush_loop asking fuel w count s ≡ some (out_of_fuel, u))
  unfolding flush_loop
  flush_loop_starves zero count s a = (s, refl)
  flush_loop_starves (suc fuel) count s a =
      let (t, run, again) = again-IsAsking a in
      let (u, rest) = flush_loop_starves fuel (count + 1) t again in
      let other : (i == w) ≡ false = ground (arith, a.queue.distinct) in
      (u, round asking fuel w count a.queue run ∙ rw other rest)

  -- No fuel is enough for the flush of such a queue.
  pub ready_flush_starves :
      (fuel : ℕ) (s : Selector R)
      → IsAsking s
      → (u : Selector R) × (ready_flush asking fuel s ≡ some (out_of_fuel, u))
  unfolding ready_flush
  ready_flush_starves fuel s a =
      let (u, run) = flush_loop_starves fuel 0 s a in
      (u, ap (λ p. flush_loop asking fuel p 0 s) a.queue.links.2.2.1 ∙ run)
