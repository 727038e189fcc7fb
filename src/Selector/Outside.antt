-- ===== src/Selector/Outside.antt =====
-- The ready queue of selector.c and what it does not touch: a property of the rest of the selector is
-- kept by the operations that queue and yield, as far as the fibers keep it that run meanwhile.
use io_event.Selector.{
  queue_push, queue_pop, unlink_head, unlink_tail, resume, yield, loop_yield, loop_resume,
  ensure_pop, new_node, queue_fiber, Selector,
}
use io_event.Fiber.{Outcome, Ruby}
use io_event.Base.{
  subst, sym, refl, ◌∙◌, ◌≡◌, and_then, ℕ, inl, inr, ◌&&◌, Option, none, some, [], Ptr, null, ◌==◌,
  Bool-cases,
}

module _ {R : Type 0} where
  unlink_head-outside : (node : Ptr) (s : Selector R) → (unlink_head node s).outside ≡ s.outside
  unlink_head-outside node s = elim (Bool-cases (s.head node == null)) [
    | inl e ↦ simp e refl
    | inr e ↦ simp e refl
  ]

  unlink_tail-outside : (node : Ptr) (s : Selector R) → (unlink_tail node s).outside ≡ s.outside
  unlink_tail-outside node s = elim (Bool-cases (s.tail node == null)) [
    | inl e ↦ simp e refl
    | inr e ↦ simp e refl
  ]

module _ {R : Type 0} (P : R → Type 0) where
  -- Whatever a call returns, the property holds of the rest of the selector.
  abbrev pub After : {A : Type 0} → Option (A × Selector R) → Type 0
  After none = Unit
  After (some (a, s)) = P s.outside

  queue_pop-outside : (node : Ptr) (s : Selector R) → P s.outside → P (queue_pop node s).outside
  unfolding queue_pop
  queue_pop-outside node s p =
      subst P (sym (unlink_tail-outside node (unlink_head node s) ∙ unlink_head-outside node s)) p

  queue_push-After : (node : Ptr) (s : Selector R) → P s.outside → After (queue_push node s)
  unfolding queue_push
  queue_push-After node s p = elim (Bool-cases ((s.head node == null) && (s.tail node == null))) [
    | inl free ↦ elim (Bool-cases (s.waiting == null)) [
      | inl e ↦ simp (free, e) p
      | inr e ↦ simp (free, e) p
    ]
    | inr queued ↦ simp queued tt
  ]

  module _ (ruby : Ruby (Selector R))
      (fibers : (fiber : ℕ) (s : Selector R)
        → P s.outside
        → After (loop_resume ruby fiber [] s)) where
    ensure_pop-After :
        (node : Ptr) (o : Option (Outcome × Selector R)) → After o → After (ensure_pop ruby node o)
    ensure_pop-After node none p = tt
    ensure_pop-After node (some (o, s)) p = queue_pop-outside node s p

    pushed-After :
        (node : Ptr) (fiber : ℕ) (o : Option (Unit {0} × Selector R))
        → After o
        → After (and_then o (λ _ t. ensure_pop ruby node (loop_resume ruby fiber [] t)))
    pushed-After node fiber none p = tt
    pushed-After node fiber (some (_, s)) p =
        ensure_pop-After node (loop_resume ruby fiber [] s) (fibers fiber s p)

    -- `IO_Event_Selector_yield`
    pub yield-After : (node : Ptr) (s : Selector R) → P s.outside → After (yield ruby node s)
    unfolding yield resume
    yield-After node s p =
        let t = new_node node queue_fiber (ruby.current s) s in
        pushed-After node s.loop (queue_push node t) (queue_push-After node t p)

    -- `IO_Event_Selector_loop_yield`
    pub loop_yield-After : (s : Selector R) → P s.outside → After (loop_yield ruby s)
    unfolding loop_yield loop_resume
    loop_yield-After s p = elim (Bool-cases (s.loop == ruby.current s)) [
      | inl e ↦ simp e p
      | inr e ↦ simp e (fibers s.loop s p)
    ]
