-- ===== src/Uring/Wait/Return.antt =====
-- The end of `IO_Event_Selector_URing_io_wait`: from the moment at which the fiber is suspended to that
-- at which it returns.
use io_event.Uring.Complete.Settle.{Owned}
use io_event.Uring.Complete.Loop.{OwnedAfter, HasOwners}
use io_event.Selector.Outside.{yield-After, loop_yield-After}
use io_event.Uring.Wait.Reserve.{poll_sqe, io_wait-Suspended}
use io_event.Uring.Wait.{
  poll_answer, await, outcome_of, ensure_canceled, ended, io_wait, cancel_operation, Waited,
  answered, failed, raised_in, not_found, not_submitted,
}
use io_event.Uring.Flags.{poll_flags_from_events}
use io_event.Uring.Completions.{waiting_cancel-IsSound}
use io_event.Uring.Owned.{IsOwned, IsRing}
use io_event.Uring.Ring.Keeps.{submit_entry-Owned}
use io_event.Uring.Ring.{
  async_cancel, nothing, submitted, syserr_fail, stopped, out_of_fuel, Submitted, Liburing,
}
use io_event.Selector.{loop_resume, yield, loop_yield, Selector}
use io_event.Fiber.{Outcome, Ruby}
use io_event.System.{Call}
use io_event.Base.{
  ℕ, suc, ◌≡◌, ◌≢◌, refl, sym, ap, ◌∙◌, subst, inl, inr, Option, none, some, List, [], ◌∷◌, arith,
  Ptr, null, ◌==◌, Bool-cases, and_then,
}
use io_event.Uring.{Answers, Uring, waiting_cancel}

module _ {K : Type 0} where
  -- A fiber that gives its completion up.
  waiting_cancel-IsOwned :
      {n : Ptr → ℕ} {free : List Ptr} {s : Uring K} (w : Ptr)
      → IsOwned n free s
      → IsOwned n free (waiting_cancel w s)
  unfolding waiting_cancel
  waiting_cancel-IsOwned {n} {free} {s} w is = elim (Bool-cases (s.completion w == null)) [
    | inl e ↦ record {
      sound = waiting_cancel-IsSound w is.sound;
      idle = is.idle;
      single = is.single;
      apart = simp e is.apart;
    }
    | inr e ↦ record {
      sound = waiting_cancel-IsSound w is.sound;
      idle = is.idle;
      single = is.single;
      apart = simp e is.apart;
    }
  ]

  given_up : (w : Ptr) (s : Uring K) → (waiting_cancel w s).completion w ≡ null
  unfolding waiting_cancel
  given_up w s = ground arith

  cancel_kernel : (w : Ptr) (s : Uring K) → (waiting_cancel w s).kernel ≡ s.kernel
  unfolding waiting_cancel
  cancel_kernel w s = ground arith

  module _ (ring : Liburing K) (holds : Ptr → K → ℕ) where
    -- How a wait of `w` ends: every completion has one owner, and unless a submission did not come back,
    -- none points at `w` any more.
    abbrev pub Ended : {A : Type 0} → Ptr → Option (Waited A × Selector (Uring K)) → Type 0
    Ended w none = Unit
    Ended w (some (not_submitted how, s)) = (free : List Ptr) × Owned ring holds free s
    Ended w (some (r, s)) =
        (free : List Ptr) × Owned ring holds free s × ((c : Ptr) → s.outside.waiting c ≢ w)

    forget-Owned :
        (w : Ptr) (free : List Ptr) (s : Selector (Uring K))
        → Owned ring holds free s
        → Owned ring holds free (record s { outside = waiting_cancel w s.outside })
    forget-Owned w free s is =
        subst (λ k. IsOwned (λ c. holds c k) free (waiting_cancel w s.outside))
          (sym (cancel_kernel w s.outside)) (waiting_cancel-IsOwned w is)

    unbound :
        (w : Ptr)
        → w ≢ null
        → (free : List Ptr) (s : Selector (Uring K)) → Owned ring holds free s
        → (c : Ptr) → (waiting_cancel w s.outside).waiting c ≢ w
    unbound w nonnull free s is c points =
        let sound = (forget-Owned w free s is).sound in
        let waits : (waiting_cancel w s.outside).waiting c ≢ null = λ z. nonnull (sym points ∙ z) in
        let zero : c ≡ null =
          sym (sound.of_completion c waits)
          ∙ ap (waiting_cancel w s.outside).completion points
          ∙ given_up w s.outside in
        waits (ap (waiting_cancel w s.outside).waiting zero ∙ sound.of_null.1)

    module _ (laws : IsRing ring holds) (ruby : Ruby (Selector (Uring K))) (fuel : ℕ) (node : Ptr)
        (fibers : (fiber : ℕ) (free : List Ptr) (s : Selector (Uring K))
          → Owned ring holds free s
          → OwnedAfter ring holds (loop_resume ruby fiber [] s)) where
      pub yields :
          (free : List Ptr) (s : Selector (Uring K))
          → Owned ring holds free s
          → OwnedAfter ring holds (yield ruby node s)
      yields free s is =
          yield-After (HasOwners ring holds) ruby (λ fiber t p. fibers fiber p.0 t p.1) node s
            (free, is)

      pub loop_yields :
          (free : List Ptr) (s : Selector (Uring K))
          → Owned ring holds free s
          → OwnedAfter ring holds (loop_yield ruby s)
      loop_yields free s is =
          loop_yield-After (HasOwners ring holds) ruby (λ fiber t p. fibers fiber p.0 t p.1) s
            (free, is)

      cancel_operation-Owned :
          (w : Ptr) (free : List Ptr) (s : Selector (Uring K))
          → Owned ring holds free s
          → OwnedAfter ring holds (cancel_operation ruby ring fuel node w s)
      unfolding cancel_operation
      cancel_operation-Owned w free s is = elim (Bool-cases (s.outside.completion w == null)) [
        | inl e ↦ simp e (free, is)
        | inr e ↦ simp e (
            submit_entry-Owned ring holds laws ruby fuel node yields
              (record { operation = async_cancel (s.outside.completion w); user_data = nothing })
              (λ c. refl) free s is)
      ]

      module _ (w : Ptr) (nonnull : w ≢ null) where
        -- `Waiting_cancel`, once the operation has been cancelled.
        ended-Ended :
            {A : Type 0} (r : Waited A) (o : Option (Submitted × Selector (Uring K)))
            → OwnedAfter ring holds o
            → Ended w (ended ruby ring fuel node w r o)
        ended-Ended r none is = tt
        ended-Ended (answered a) (some (submitted, s)) (free, is) =
            (free, forget-Owned w free s is, unbound w nonnull free s is)
        ended-Ended (failed e) (some (submitted, s)) (free, is) =
            (free, forget-Owned w free s is, unbound w nonnull free s is)
        ended-Ended (raised_in x) (some (submitted, s)) (free, is) =
            (free, forget-Owned w free s is, unbound w nonnull free s is)
        ended-Ended (not_found e) (some (submitted, s)) (free, is) =
            (free, forget-Owned w free s is, unbound w nonnull free s is)
        ended-Ended (not_submitted h) (some (submitted, s)) (free, is) =
            (free, forget-Owned w free s is)
        ended-Ended r (some (syserr_fail e, s)) is = is
        ended-Ended r (some (stopped q, s)) is = is
        ended-Ended r (some (out_of_fuel, s)) is = is

        pub ensure_canceled-Ended :
            {A : Type 0} (o : Option (Waited A × Selector (Uring K)))
            → OwnedAfter ring holds o
            → Ended w (ensure_canceled ruby ring fuel node w o)
        ensure_canceled-Ended none is = tt
        ensure_canceled-Ended (some (r, s)) (free, is) =
            ended-Ended r (cancel_operation ruby ring fuel node w s)
              (cancel_operation-Owned w free s is)

        pub awaited-Owned :
            {A : Type 0} (answer : Call → Waited A) (o : Option (Outcome × Selector (Uring K)))
            → OwnedAfter ring holds o
            → OwnedAfter ring holds (and_then o (λ r t. some (outcome_of answer w r t, t)))
        awaited-Owned answer none is = tt
        awaited-Owned answer (some (r, s)) is = is

        -- A fiber that is suspended for an operation, up to the end of its `rb_ensure`.
        await-Ended :
            {A : Type 0} (answer : Call → Waited A) (free : List Ptr) (s : Selector (Uring K))
            → Owned ring holds free s
            → Ended w (ensure_canceled ruby ring fuel node w (await ruby ring fuel node answer w s))
        await-Ended answer free s is =
            ensure_canceled-Ended (await ruby ring fuel node answer w s)
              (awaited-Owned answer (loop_yield ruby s) (loop_yields free s is))

    -- A fiber that waits on a descriptor, while two completions are free and the submission queue has
    -- room: if liburing keeps its laws, and the fibers that run meanwhile keep that every completion has
    -- one owner, whatever else they do, then this holds when the call is left, with an answer or an
    -- exception, and no completion points at the `waiting` on the fiber's stack, unless the cancellation
    -- of its operation could not be submitted.
    pub io_wait-Ended :
        (laws : IsRing ring holds) (ruby : Ruby (Selector (Uring K))) (node : Ptr)
        (fibers : (fiber : ℕ) (free : List Ptr) (s : Selector (Uring K))
          → Owned ring holds free s
          → OwnedAfter ring holds (loop_resume ruby fiber [] s))
        (fuel : ℕ) (free : List Ptr) (a : Answers) (type x y w : Ptr) (fiber descriptor events : ℕ)
        (k : K) (s : Selector (Uring K))
        → Owned ring holds (x ∷ y ∷ free) s
        → s.outside.completion w ≡ null
        → w ≢ null
        → ring.get_sqe (poll_sqe x descriptor events) s.outside.kernel ≡ some k
        → Ended w (io_wait ruby ring (suc fuel) node a type w fiber descriptor events s)
    io_wait-Ended laws ruby node fibers fuel free a type x y w fiber descriptor events k s is idle
          nonnull room =
        let (t, suspended, run) =
          io_wait-Suspended ring holds laws ruby node fuel free a type x y w fiber descriptor events
            k s is idle nonnull room in
        subst (Ended w) (sym run) (
          await-Ended laws ruby (suc fuel) node fibers w nonnull
            (poll_answer ruby ring (suc fuel) node (poll_flags_from_events events)) (y ∷ free) t
            suspended.owned)
