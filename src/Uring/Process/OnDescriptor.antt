-- ===== src/Uring/Process/OnDescriptor.antt =====
-- `IO_Event_Selector_URing_process_wait` of uring.c, where the system has no `waitid` on a ring: the
-- fiber waits for the descriptor that pidfd_open(2) gives.
use io_event.Uring.Wait.{new_waiting, raised_in, answered, forget, not_found, not_submitted, Waited}
use io_event.Uring.Complete.{on_ring}
use io_event.Uring.Ring.{
  get_sqe, completing, poll_add, submitted, syserr_fail, stopped, out_of_fuel, Submitted, Liburing,
}
use io_event.Uring.{Answers, Uring, acquire, waiting_cancel}
use io_event.EPoll.Process.{Processes}
use io_event.System.{success, failure, Call}
use io_event.Selector.{loop_yield, Selector}
use io_event.Array.{Result, ok, err}
use io_event.Fiber.{raised, returned, Outcome, Ruby}
use io_event.Base.{
  null, arith, and_then, Cmd, ℕ, zero, suc, ◌+◌, ◌≡◌, refl, Option, none, some, List, [], ◌∷◌, Ptr,
}

-- How the call comes back: with what the fallback on a thread returns, for a pid that is not positive;
-- with the error of pidfd_open(2); or as a wait does, with the descriptors that have been closed.
pub data Answer : Type 0 where
  delegated : Answer
  open_failed : ℕ → Answer
  waited : Waited ℕ → (closed : List ℕ) → Answer

-- `POLLIN|POLLHUP|POLLERR`
abbrev pub poll_exit : ℕ
poll_exit = 1 + 16 + 8

module _ {K : Type 0} (processes : Processes (Selector (Uring K))) where
  -- `process_wait_transfer`, on the result of the operation.
  abbrev pub reaped : (pid flags : ℕ) → Call → Selector (Uring K) → Waited ℕ × Selector (Uring K)
  reaped pid flags (success zero) s = (answered none, s)
  reaped pid flags (success (suc n)) s =
      let (st, t) = processes.reap pid flags s in (answered (some st), t)
  reaped pid flags (failure e) s =
      let (st, t) = processes.reap pid flags s in (answered (some st), t)

  abbrev pub exit_of :
      (pid flags : ℕ) (w : Ptr) → Outcome → Selector (Uring K) → Waited ℕ × Selector (Uring K)
  exit_of pid flags w (returned v) s = reaped pid flags (s.outside.result w) s
  exit_of pid flags w (raised x) s = (raised_in x, s)

  -- `rb_ensure` with `process_wait_ensure`
  abbrev pub ensure_descriptor_closed :
      (pid flags descriptor : ℕ) (w : Ptr)
      → Option (Outcome × Selector (Uring K))
      → Option (Answer × Selector (Uring K))
  ensure_descriptor_closed pid flags descriptor w none = none
  ensure_descriptor_closed pid flags descriptor w (some (o, s)) =
      let (r, t) = exit_of pid flags w o s in forget w (waited r (descriptor ∷ [])) t

  module _ (ruby : Ruby (Selector (Uring K))) (ring : Liburing K) (fuel : ℕ) (node : Ptr) where
    -- What follows `io_get_sqe`.
    abbrev pub polled :
        (pid flags descriptor : ℕ) (w : Ptr)
        → Option (Submitted × Selector (Uring K))
        → Option (Answer × Selector (Uring K))
    polled pid flags descriptor w none = none
    polled pid flags descriptor w (some (submitted, s)) =
        ensure_descriptor_closed pid flags descriptor w (loop_yield ruby s)
    polled pid flags descriptor w (some (how, s)) = some (waited (not_submitted how) [], s)

    -- What follows `IO_Event_Selector_URing_Completion_acquire`.
    abbrev pub acquired :
        (pid flags descriptor : ℕ) (w : Ptr) → Result Ptr → Cmd (Selector (Uring K)) Answer
    acquired pid flags descriptor w (err e) s = some (waited (not_found e) [], s)
    acquired pid flags descriptor w (ok c) s = polled pid flags descriptor w (
        get_sqe ruby ring fuel node fuel
          (record { operation = poll_add descriptor poll_exit; user_data = completing c }) s)

    -- What follows pidfd_open(2).
    unfoldable pidfd_opened :
        Answers → (type w : Ptr) (fiber pid flags : ℕ) → Call → Cmd (Selector (Uring K)) Answer
    pidfd_opened a type w fiber pid flags (failure e) s = some (open_failed e, s)
    pidfd_opened a type w fiber pid flags (success descriptor) s =
        and_then (on_ring ring (acquire a type w) (new_waiting w fiber s))
          (acquired pid flags descriptor w)

    -- `IO_Event_Selector_URing_process_wait`; `none` stands for a pid that is not positive.
    pub process_wait_pidfd :
        Answers
        → (type w : Ptr) (fiber : ℕ) (pid : Option ℕ) (flags : ℕ) → Cmd (Selector (Uring K)) Answer
    unfolding pidfd_opened
    process_wait_pidfd a type w fiber none flags s = some (delegated, s)
    process_wait_pidfd a type w fiber (some pid) flags s =
        let (r, t) = processes.pidfd_open pid s in pidfd_opened a type w fiber pid flags r t

    -- What a call that has opened `descriptor` and has come back has closed, and whose completion is
    -- given up.
    abbrev pub Ended : (descriptor : ℕ) (w : Ptr) → Option (Answer × Selector (Uring K)) → Type 0
    Ended descriptor w none = Unit
    Ended descriptor w (some (delegated, s)) = ⊥
    Ended descriptor w (some (open_failed e, s)) = ⊥
    Ended descriptor w (some (waited (not_found e) closed, s)) = closed ≡ []
    Ended descriptor w (some (waited (not_submitted how) closed, s)) = closed ≡ []
    Ended descriptor w (some (waited r closed, s)) =
        (closed ≡ descriptor ∷ []) × (s.outside.completion w ≡ null)

    given_up : (w : Ptr) (s : Uring K) → (waiting_cancel w s).completion w ≡ null
    unfolding waiting_cancel
    given_up w s = ground arith

    reaped-Ended :
        (pid flags descriptor : ℕ) (w : Ptr) (c : Call) (s : Selector (Uring K))
        → Ended descriptor w
            (let (r, t) = reaped pid flags c s in forget w (waited r (descriptor ∷ [])) t)
    reaped-Ended pid flags descriptor w (success zero) s = (refl, given_up w s.outside)
    reaped-Ended pid flags descriptor w (success (suc n)) s =
        (refl, given_up w (processes.reap pid flags s).1.outside)
    reaped-Ended pid flags descriptor w (failure e) s =
        (refl, given_up w (processes.reap pid flags s).1.outside)

    yielded-Ended :
        (pid flags descriptor : ℕ) (w : Ptr) (r : Option (Outcome × Selector (Uring K)))
        → Ended descriptor w (ensure_descriptor_closed pid flags descriptor w r)
    yielded-Ended pid flags descriptor w none = tt
    yielded-Ended pid flags descriptor w (some (returned v, s)) =
        reaped-Ended pid flags descriptor w (s.outside.result w) s
    yielded-Ended pid flags descriptor w (some (raised x, s)) = (refl, given_up w s.outside)

    polled-Ended :
        (pid flags descriptor : ℕ) (w : Ptr) (r : Option (Submitted × Selector (Uring K)))
        → Ended descriptor w (polled pid flags descriptor w r)
    polled-Ended pid flags descriptor w none = tt
    polled-Ended pid flags descriptor w (some (submitted, s)) =
        yielded-Ended pid flags descriptor w (loop_yield ruby s)
    polled-Ended pid flags descriptor w (some (syserr_fail e, s)) = refl
    polled-Ended pid flags descriptor w (some (stopped r, s)) = refl
    polled-Ended pid flags descriptor w (some (out_of_fuel, s)) = refl

    acquired-Ended :
        (pid flags descriptor : ℕ) (w : Ptr) (r : Option (Result Ptr × Selector (Uring K)))
        → Ended descriptor w (and_then r (acquired pid flags descriptor w))
    acquired-Ended pid flags descriptor w none = tt
    acquired-Ended pid flags descriptor w (some (err e, s)) = refl
    acquired-Ended pid flags descriptor w (some (ok c, s)) = polled-Ended pid flags descriptor w _

    -- A wait for one process through a descriptor, where pidfd_open(2) has given one: once the fiber has
    -- waited, however it was resumed, the descriptor has been closed, once, and the completion is given
    -- up; if instead no completion could be had, or the entry could not be queued, nothing was closed.
    pub process_wait_pidfd-Ended :
        (a : Answers) (type w : Ptr) (fiber pid flags descriptor : ℕ) (s : Selector (Uring K))
        → (processes.pidfd_open pid s).0 ≡ success descriptor
        → Ended descriptor w (process_wait_pidfd a type w fiber (some pid) flags s)
    unfolding process_wait_pidfd pidfd_opened
    process_wait_pidfd-Ended a type w fiber pid flags descriptor s opens =
        simp opens (acquired-Ended pid flags descriptor w _)
