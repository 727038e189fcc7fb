-- ===== src/Uring/Wait.antt =====
-- The operations of uring.c that a fiber waits for: `io_wait`, one `read` or `write`, `process_wait`.
pub mod Reserve
pub mod Return
pub mod Finish
pub mod Operate
use Prim.Native.Nat.{bit_and}
use io_event.Uring.Complete.{on_ring}
use io_event.Uring.Transfer.{nbytes}
use io_event.Uring.Flags.{poll_flags_from_events, events_from_poll_flags}
use io_event.Base.Int.{ℤ}
use io_event.Uring.{Uring, acquire, Answers, waiting_cancel}
use io_event.Uring.Ring.{
  async_cancel, submitted, write, poll_add, submit_now, nothing, close, read, completing, get_sqe,
  Operation, Sqe, after_submit, Liburing, Submitted,
}
use io_event.Fiber.{Ruby, Outcome, raised, returned}
use io_event.Selector.{Selector, loop_yield}
use io_event.Array.{ok, err, Error}
use io_event.System.{success, failure, Call}
use io_event.Base.{
  and_then, Cmd, ℕ, Bool, true, false, Option, none, some, Ptr, null, update, ◌==◌, if◌then◌else◌,
  length,
}

-- How a wait comes back: with a value, `none` for `Qfalse`, with the exception that the fiber was resumed
-- with, with an error of its own, or as a submission does.
pub data Waited (A : Type 0) : Type 0 where
  answered : Option A → Waited A
  failed : ℕ → Waited A
  raised_in : ℕ → Waited A
  not_found : Error → Waited A
  not_submitted : Submitted → Waited A

module _ {K : Type 0} where
  -- The `waiting` on the stack.
  abbrev pub new_waiting : (waiting : Ptr) (fiber : ℕ) → Selector (Uring K) → Selector (Uring K)
  new_waiting w fiber s = record s {
    outside = record s.outside {
      completion = update s.outside.completion w null;
      fiber = update s.outside.fiber w fiber;
      result = update s.outside.result w (success 0);
      flags = update s.outside.flags w 0;
    };
  }

  -- `IO_Event_Selector_URing_Waiting_cancel`, at the end of an `rb_ensure`.
  abbrev pub forget : {A : Type 0} → Ptr → A → Selector (Uring K) → Option (A × Selector (Uring K))
  forget w a s = some (a, record s { outside = waiting_cancel w s.outside })

  -- What came of the operation, once the fiber has been resumed.
  abbrev pub outcome_of :
      {A : Type 0} → (Call → Waited A) → (w : Ptr) → Outcome → Selector (Uring K) → Waited A
  outcome_of answer w (returned v) s = answer (s.outside.result w)
  outcome_of answer w (raised x) s = raised_in x

module _ {K : Type 0} (ruby : Ruby (Selector (Uring K))) (ring : Liburing K) (fuel : ℕ)
    (node : Ptr) where
  -- The operation is to be cancelled, if it is still in progress.
  pub cancel_operation : (waiting : Ptr) → Cmd (Selector (Uring K)) Submitted
  cancel_operation w s =
      let sqe : Sqe = record {
        operation = async_cancel (s.outside.completion w);
        user_data = nothing;
      } in
      if s.outside.completion w == null
      then some (submitted, s)
      else after_submit (get_sqe ruby ring fuel node fuel sqe s) (submit_now ruby ring fuel node)

  abbrev pub ended :
      {A : Type 0}
      → Ptr
      → Waited A
      → Option (Submitted × Selector (Uring K))
      → Option (Waited A × Selector (Uring K))
  ended w r none = none
  ended w r (some (submitted, s)) = forget w r s
  ended w r (some (how, s)) = some (not_submitted how, s)

  -- `rb_ensure` with `io_wait_ensure`, `io_read_ensure` or `io_write_ensure`.
  abbrev pub ensure_canceled :
      {A : Type 0}
      → Ptr
      → Option (Waited A × Selector (Uring K))
      → Option (Waited A × Selector (Uring K))
  ensure_canceled w none = none
  ensure_canceled w (some (r, s)) = ended w r (cancel_operation w s)

  -- The fiber waits for its operation.
  abbrev pub await :
      {A : Type 0} → (Call → Waited A) → (w : Ptr) → Cmd (Selector (Uring K)) (Waited A)
  await answer w s = and_then (loop_yield ruby s) (λ o t. some (outcome_of answer w o t, t))

  abbrev pub if_submitted :
      {A : Type 0}
      → Option (Submitted × Selector (Uring K))
      → Cmd (Selector (Uring K)) (Waited A)
      → Option (Waited A × Selector (Uring K))
  if_submitted none k = none
  if_submitted (some (submitted, s)) k = k s
  if_submitted (some (how, s)) k = some (not_submitted how, s)

  -- `IO_Event_Selector_URing_Completion_acquire`, and what is done with the completion.
  abbrev pub with_completion :
      {A : Type 0}
      → Answers
      → (type w : Ptr) → (Ptr → Cmd (Selector (Uring K)) (Waited A))
      → Cmd (Selector (Uring K)) (Waited A)
  with_completion a type w body s =
      and_then (on_ring ring (acquire a type w) s)
        λ r t. elim r [ err e ↦ some (not_found e, t) | ok c ↦ body c t ]

  -- `io_wait_transfer`, on the result.
  abbrev pub poll_answer : (flags : ℕ) → Call → Waited ℕ
  poll_answer flags (failure e) = failed e
  poll_answer flags (success n) =
      if n == 0 then answered none else answered (some (events_from_poll_flags (bit_and n flags)))

  -- `IO_Event_Selector_URing_io_wait`
  pub io_wait :
      Answers → (type w : Ptr) (fiber descriptor events : ℕ) → Cmd (Selector (Uring K)) (Waited ℕ)
  unfolding cancel_operation
  io_wait a type w fiber descriptor events s =
      let flags = poll_flags_from_events events in
      with_completion a type w
        (λ c t.
          if_submitted
            (get_sqe ruby ring fuel node fuel
              (record { operation = poll_add descriptor flags; user_data = completing c }) t)
            (λ u. ensure_canceled w (await (poll_answer flags) w u)))
        (new_waiting w fiber s)

  -- `io_read_submit` and `io_write_submit`: the first submits at once, the other later.
  abbrev pub operation_submit :
      (now : Bool) → Operation → (w : Ptr) → Cmd (Selector (Uring K)) (Waited Call)
  operation_submit now operation w s =
      let sqe : Sqe = record {
        operation = operation;
        user_data = completing (s.outside.completion w);
      } in
      if_submitted (get_sqe ruby ring fuel node fuel sqe s) λ t.
        if_submitted (if now then submit_now ruby ring fuel node t else some (submitted, t))
          (await (λ r. answered (some r)) w)

  abbrev pub operation_ensured :
      (now : Bool)
      → Operation
      → Answers
      → (type w : Ptr) (fiber : ℕ) → Cmd (Selector (Uring K)) (Waited Call)
  operation_ensured now operation a type w fiber s =
      with_completion a type w (λ c t. ensure_canceled w (operation_submit now operation w t))
        (new_waiting w fiber s)

  -- `io_read`, with `io_read_submit` and `io_read_ensure`
  pub io_read :
      Answers
      → (type w : Ptr) (fiber descriptor : ℕ) (buffer : Ptr) (length : ℕ) (offset : ℤ)
      → Cmd (Selector (Uring K)) (Waited Call)
  unfolding cancel_operation
  io_read a type w fiber descriptor buffer length offset =
      operation_ensured true (read descriptor buffer (nbytes length) offset) a type w fiber

  -- `io_write`, with `io_write_submit` and `io_write_ensure`
  pub io_write :
      Answers
      → (type w : Ptr) (fiber descriptor : ℕ) (buffer : Ptr) (length : ℕ) (offset : ℤ)
      → Cmd (Selector (Uring K)) (Waited Call)
  unfolding cancel_operation
  io_write a type w fiber descriptor buffer length offset =
      operation_ensured false (write descriptor buffer (nbytes length) offset) a type w fiber

  -- `IO_Event_Selector_URing_io_close`, which closes asynchronously.
  pub io_close : (descriptor : ℕ) → Cmd (Selector (Uring K)) Submitted
  io_close descriptor s =
      after_submit
        (get_sqe ruby ring fuel node fuel
          (record { operation = close descriptor; user_data = nothing }) s)
        (submit_now ruby ring fuel node)
