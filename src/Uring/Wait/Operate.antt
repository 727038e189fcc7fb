-- ===== src/Uring/Wait/Operate.antt =====
-- `io_read` and `io_write` of uring.c from the call of a fiber to its return: one operation on the ring.
use io_event.Uring.Complete.Settle.{Owned}
use io_event.Uring.Complete.Loop.{OwnedAfter}
use io_event.Uring.Wait.Reserve.{new_waiting-IsOwned}
use io_event.Uring.Wait.Return.{Ended, ensure_canceled-Ended, awaited-Owned, yields, loop_yields}
use io_event.Uring.Wait.{
  await, if_submitted, operation_ensured, io_read, io_write, answered, Waited,
}
use io_event.Uring.Transfer.{nbytes}
use io_event.Uring.Owned.{unlinked, acquire-IsOwned, IsRing}
use io_event.Uring.Ring.Keeps.{submit_now-Owned}
use io_event.Uring.Ring.{
  get_sqe_room, submit_now, set_kernel, completing, read, write, submitted, syserr_fail, stopped,
  out_of_fuel, Operation, Submitted, Sqe, Liburing,
}
use io_event.Selector.{loop_yield, loop_resume, Selector}
use io_event.Fiber.{Ruby}
use io_event.System.{Call}
use io_event.Base.Int.{ℤ}
use io_event.Base.{
  Cmd, ℕ, suc, ◌≡◌, ◌≢◌, refl, ap, ◌∙◌, Bool, true, false, Option, none, some, List, [], ◌∷◌, arith,
  Ptr, null, if◌then◌else◌,
}
use io_event.Uring.{Answers, Uring}

-- The entry that carries the completion `c`.
abbrev pub carrying : (c : Ptr) → Operation → Sqe
carrying c operation = record { operation = operation; user_data = completing c }

module _ {K : Type 0} (ring : Liburing K) (holds : Ptr → K → ℕ) (laws : IsRing ring holds)
    (ruby : Ruby (Selector (Uring K))) (node : Ptr)
    (fibers : (fiber : ℕ) (free : List Ptr) (s : Selector (Uring K))
      → Owned ring holds free s
      → OwnedAfter ring holds (loop_resume ruby fiber [] s)) where
  if_submitted-Owned :
      {A : Type 0} (fuel : ℕ) (rest : Cmd (Selector (Uring K)) (Waited A))
      (o : Option (Submitted × Selector (Uring K)))
      → ((free : List Ptr) (s : Selector (Uring K))
          → Owned ring holds free s
          → OwnedAfter ring holds (rest s))
      → OwnedAfter ring holds o
      → OwnedAfter ring holds (if_submitted ruby ring fuel node o rest)
  if_submitted-Owned fuel rest none later is = tt
  if_submitted-Owned fuel rest (some (submitted, s)) later (free, is) = later free s is
  if_submitted-Owned fuel rest (some (syserr_fail e, s)) later is = is
  if_submitted-Owned fuel rest (some (stopped r, s)) later is = is
  if_submitted-Owned fuel rest (some (out_of_fuel, s)) later is = is

  module _ (fuel : ℕ) (w : Ptr) (nonnull : w ≢ null) where
    await-Owned :
        {A : Type 0} (answer : Call → Waited A) (free : List Ptr) (s : Selector (Uring K))
        → Owned ring holds free s
        → OwnedAfter ring holds (await ruby ring fuel node answer w s)
    await-Owned answer free s is =
        awaited-Owned ring holds laws ruby fuel node fibers w nonnull answer (loop_yield ruby s)
          (loop_yields ring holds laws ruby fuel node fibers free s is)

    -- The entry has been queued, and is submitted at once or later.
    queued-Owned :
        {A : Type 0} (now : Bool) (answer : Call → Waited A) (free : List Ptr)
        (s : Selector (Uring K))
        → Owned ring holds free s
        → OwnedAfter ring holds (
            if_submitted ruby ring fuel node
              (if now then submit_now ruby ring fuel node s else some (submitted, s))
              (await ruby ring fuel node answer w))
    queued-Owned true answer free s is =
        if_submitted-Owned fuel (await ruby ring fuel node answer w)
          (submit_now ruby ring fuel node s) (await-Owned answer)
          (submit_now-Owned ring holds laws ruby fuel node
            (yields ring holds laws ruby fuel node fibers) free s is)
    queued-Owned false answer free s is = await-Owned answer free s is

  -- An operation of a fiber, while two completions are free and the submission queue has room.
  operation-Ended :
      (now : Bool) (fuel : ℕ) (free : List Ptr) (a : Answers) (type x y w : Ptr) (fiber : ℕ)
      (operation : Operation) (k : K) (s : Selector (Uring K))
      → Owned ring holds (x ∷ y ∷ free) s
      → s.outside.completion w ≡ null
      → w ≢ null
      → ring.get_sqe (carrying x operation) s.outside.kernel ≡ some k
      → Ended ring holds w
          (operation_ensured ruby ring (suc fuel) node now operation a type w fiber s)
  operation-Ended now fuel free a type x y w fiber operation k s is idle nonnull room =
      let (u, run, kept, points, back, rest) =
        acquire-IsOwned {m = λ d. holds d k} a type x y w (new_waiting-IsOwned w fiber s is idle)
          (ground arith) nonnull (λ d. laws.get_sqe _ _ _ d room) in
      let t = set_kernel k (record s { outside = u }) in
      let owned : Owned ring holds (y ∷ free) t =
        unlinked u.wakeup_registered u.fiber u.result u.flags k kept (λ c. refl) in
      rw
        (
          run,
          points,
          get_sqe_room ruby ring (suc fuel) node fuel (carrying x operation) k
              (record s { outside = u }) (ap (ring.get_sqe (carrying x operation)) rest.3 ∙ room),
        )
        (ensure_canceled-Ended ring holds laws ruby (suc fuel) node fibers w nonnull _
          (queued-Owned (suc fuel) w nonnull now (λ r. answered (some r)) (y ∷ free) t owned))

  -- A read or a write of a fiber, while two completions are free and the submission queue has room: if
  -- liburing keeps its laws, and the fibers that run meanwhile, while it submits and while it waits, keep
  -- that every completion has one owner, then this holds when the call is left, with a result, an
  -- exception or an error of the submission, and no completion points at the `waiting` on the fiber's
  -- stack, unless a submission did not come back.
  pub read_write-Ended :
      (fuel : ℕ) (free : List Ptr) (a : Answers) (type x y w : Ptr) (fiber descriptor : ℕ)
      (buffer : Ptr) (length : ℕ) (offset : ℤ) (k k' : K) (s : Selector (Uring K))
      → Owned ring holds (x ∷ y ∷ free) s
      → s.outside.completion w ≡ null
      → w ≢ null
      → ring.get_sqe (carrying x (read descriptor buffer (nbytes length) offset)) s.outside.kernel
        ≡ some k
      → ring.get_sqe (carrying x (write descriptor buffer (nbytes length) offset)) s.outside.kernel
        ≡ some k'
      → Ended ring holds w
          (io_read ruby ring (suc fuel) node a type w fiber descriptor buffer length offset s)
        × Ended ring holds w
            (io_write ruby ring (suc fuel) node a type w fiber descriptor buffer length offset s)
  unfolding io_read io_write
  read_write-Ended fuel free a type x y w fiber descriptor buffer length offset k k' s is idle
        nonnull room room' =
      (
        operation-Ended true fuel free a type x y w fiber
            (read descriptor buffer (nbytes length) offset) k s is idle nonnull room,
        operation-Ended false fuel free a type x y w fiber
            (write descriptor buffer (nbytes length) offset) k' s is idle nonnull room',
      )
