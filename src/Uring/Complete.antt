-- ===== src/Uring/Complete.antt =====
-- `select_process_completions` of uring.c: what the completion queue holds is handed to the fibers.
pub mod Settle
pub mod Loop
use io_event.Uring.{release, Uring}
use io_event.Selector.{loop_resume, Selector}
use io_event.Fiber.{raised, returned, Outcome, Ruby}
use io_event.Uring.Ring.{
  UserData, interrupted, timeout, completing, nothing, set_kernel, Cqe, Liburing,
}
use io_event.System.{ecanceled, failure, success, Call}
use io_event.Base.{
  and_then, Cmd, ℕ, zero, suc, ◌+◌, Bool, false, Option, none, some, [], Ptr, null, update, ◌==◌,
  if◌then◌else◌,
}

-- How the loop ends: with the number of completions, by an exception that a fiber lets through, or (in
-- the model alone) by the end of its fuel.
pub data Processed : Type 0 where
  completed : ℕ → Processed
  raised_by : ℕ → Processed
  out_of_fuel : Processed

-- `waiting->result == -ECANCELED`
abbrev pub is_canceled : Call → Bool
is_canceled (success n) = false
is_canceled (failure e) = e == ecanceled

module _ {K : Type 0} (ring : Liburing K) where
  abbrev pub advance : Selector (Uring K) → Selector (Uring K)
  advance s = set_kernel (ring.cq_advance s.outside.kernel) s

  -- The result and the flags of the entry, for the fiber that waits, if one does.
  abbrev pub deliver : Cqe → (waiting : Ptr) → Selector (Uring K) → Selector (Uring K)
  deliver cqe waiting s = if waiting == null then s else record s {
    outside = record s.outside {
      result = update s.outside.result waiting cqe.res;
      flags = update s.outside.flags waiting cqe.flags;
    };
  }

  -- The fiber that is to be resumed, 0 for none.
  abbrev pub fiber_of : (waiting : Ptr) → Selector (Uring K) → ℕ
  fiber_of waiting s = if waiting == null then 0 else s.outside.fiber waiting

  abbrev pub with_ring :
      {A : Type 0} → Selector (Uring K) → Option (A × Uring K) → Option (A × Selector (Uring K))
  with_ring s none = none
  with_ring s (some (a, u)) = some (a, record s { outside = u })

  -- A command of the completions, in the state with the `backend`.
  abbrev pub on_ring : {A : Type 0} → Cmd (Uring K) A → Cmd (Selector (Uring K)) A
  on_ring c s = with_ring s (c s.outside)

  -- A turn of the loop for an entry with a completion, up to the resumption: the fiber.
  pub settle : Cqe → (completion : Ptr) → Cmd (Selector (Uring K)) ℕ
  settle cqe c s =
      let waiting = s.outside.waiting c in
      let t = advance (deliver cqe waiting s) in
      let fiber = fiber_of waiting t in
      let released = and_then (on_ring (release c) t) (λ _ u. some (fiber, u)) in
      if fiber == 0
      then released
      else (if is_canceled (t.outside.result waiting) then none else released)

  abbrev pub after_resume :
      Option (Outcome × Selector (Uring K))
      → Cmd (Selector (Uring K)) Processed
      → Option (Processed × Selector (Uring K))
  after_resume none k = none
  after_resume (some (returned v, s)) k = k s
  after_resume (some (raised x, s)) k = some (raised_by x, s)

  module _ (ruby : Ruby (Selector (Uring K))) where
    -- The end of a turn: the fiber is resumed, if there is one; `rest` is what follows.
    abbrev pub resume_fiber :
        (rest : Cmd (Selector (Uring K)) Processed) → ℕ → Cmd (Selector (Uring K)) Processed
    resume_fiber rest fiber s =
        if fiber == 0 then rest s else after_resume (loop_resume ruby fiber [] s) rest

    -- A turn of the loop, for an entry that carries `mark`.
    pub turn :
        (rest : Cmd (Selector (Uring K)) Processed)
        → Cqe
        → (mark : UserData) → Cmd (Selector (Uring K)) Processed
    unfolding settle
    turn rest cqe nothing s = rest (advance s)
    turn rest cqe timeout s = rest (advance s)
    turn rest cqe interrupted s =
        rest (advance (record s { outside = record s.outside { wakeup_registered = false } }))
    turn rest cqe (completing c) s = and_then (settle cqe c s) (resume_fiber rest)

    pub after_peek :
        (count : ℕ) (rest : Cmd (Selector (Uring K)) Processed)
        → Option Cqe
        → Cmd (Selector (Uring K)) Processed
    unfolding turn
    after_peek count rest none s = some (completed count, s)
    after_peek count rest (some cqe) s = turn rest cqe cqe.user_data s

    -- The loop, on fuel; `count` is `completed`.
    pub process_loop : (fuel count : ℕ) → Cmd (Selector (Uring K)) Processed
    unfolding after_peek
    process_loop zero count s = some (out_of_fuel, s)
    process_loop (suc fuel) count s =
        after_peek count (process_loop fuel (count + 1)) (ring.peek s.outside.kernel) s

    -- `select_process_completions`
    pub process_completions : (fuel : ℕ) → Cmd (Selector (Uring K)) Processed
    unfolding process_loop
    process_completions fuel s = process_loop fuel 0 s
