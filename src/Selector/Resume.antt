-- ===== src/Selector/Resume.antt =====
-- `IO_Event_Selector_resume`, `IO_Event_Selector_raise` and `IO_Event_Selector_ready_push`: the node
-- of a waiting fiber is in the queue while others run, and leaves it on every way out.
use io_event.Base.{subst, ℕ, ◌≡◌, ◌≢◌, Option, some, List, [], ◌∷◌, ◌++◌, arith, Ptr, null, ◌∉◌}
use io_event.Fiber.{Outcome, Ruby}
use io_event.Selector.{
  Selector, Reply, outcome, queue_fiber, queue_internal, queue_push, queue_pop, new_node,
  ready_push, loop_resume, resume, raise,
}
use io_event.Selector.Queue.{IsQueue, enqueue_lem, queue_pop-IsQueue}

-- `IO_Event_Selector_ready_push` puts the fiber behind all others, marked as the selector's own.
pub ready_push-IsQueue :
    {R : Type 0} {s : Selector R} {q : List Ptr} (node : Ptr) (fiber : ℕ)
    → IsQueue s q
    → node ≢ null
    → node ∉ q
    → (t : Selector R) × (ready_push node fiber s ≡ some (tt, t))
      × IsQueue t (q ++ node ∷ [])
      × (t.flags node ≡ queue_internal)
      × (t.fiber node ≡ fiber)
      × ((p : Ptr) → p ≢ node → (t.flags p ≡ s.flags p) × (t.fiber p ≡ s.fiber p))
unfolding ready_push
ready_push-IsQueue node fiber is ne out =
    let (t, run, is', same) = enqueue_lem node queue_internal fiber is ne out in
    (
      t,
      run,
      is',
      ground (arith, same.flags node),
      ground (arith, same.fiber node),
      λ p other. (ground (arith, same.flags p), ground (arith, same.fiber p)),
    )

-- What is true when a call that waits in the queue has come back with `o`: the current fiber waited
-- behind the others while the rest ran, and its node is gone.
abbrev pub Waited :
    {R : Type 0}
    → Ptr
    → ℕ
    → List Ptr
    → List Ptr
    → Selector R
    → Outcome
    → Option (Reply × Selector R)
    → Type 0
Waited {R} node fiber q rest during o result =
    IsQueue during (q ++ node ∷ [])
    × (during.flags node ≡ queue_fiber)
    × (during.fiber node ≡ fiber)
    × ((u : Selector R) × (result ≡ some (outcome o, u))
        × IsQueue u rest
        × (u.head node ≡ null)
        × (u.tail node ≡ null))

module _ {R : Type 0} (ruby : Ruby (Selector R)) {s during after : Selector R} {q : List Ptr}
    (node : Ptr) (is : IsQueue s q) (ne : node ≢ null) (out : node ∉ q)
    (enters : queue_push node (new_node node queue_fiber (ruby.current s) s) ≡ some (tt, during))
    (xs ys : List Ptr) (o : Outcome) (then_is : IsQueue after (xs ++ node ∷ ys)) where
  waited :
      {result : Option (Reply × Selector R)}
      → result ≡ some (outcome o, queue_pop node after)
      → Waited node (ruby.current s) q (xs ++ ys) during o result
  waited e =
      let (t, run, is', same) = enqueue_lem node queue_fiber (ruby.current s) is ne out in
      let at : t ≡ during = ground (arith, run, enters) in
      let (gone, off, _) = queue_pop-IsQueue xs node ys then_is in
      (
        subst (λ t. IsQueue t (q ++ node ∷ [])) at is',
        ground (arith, same.flags node),
        ground (arith, same.fiber node),
        (queue_pop node after, e, gone, off.0, off.1),
      )

  -- Resuming a fiber: whatever the fiber did to the other nodes, and whether it returned or raised,
  -- exactly the node of the caller is taken out.
  pub resume-Waited :
      (fiber : ℕ) (argv : List ℕ)
      → loop_resume ruby fiber argv during ≡ some (o, after)
      → Waited node (ruby.current s) q (xs ++ ys) during o (resume ruby node (fiber ∷ argv) s)
  unfolding resume
  resume-Waited fiber argv run = waited (rw (enters, run))

  -- The same for raising an exception on a fiber.
  pub raise-Waited :
      (fiber exception : ℕ) (argv : List ℕ)
      → ruby.fiber_raise fiber (exception ∷ argv) during ≡ some (o, after)
      → Waited node
          (ruby.current s)
          q
          (xs ++ ys)
          during
          o
          (raise ruby node (fiber ∷ exception ∷ argv) s)
  unfolding raise
  raise-Waited fiber exception argv run = waited (rw (enters, run))
