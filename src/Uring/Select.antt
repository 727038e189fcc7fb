-- ===== src/Uring/Select.antt =====
-- `IO_Event_Selector_URing_select`: one round of the event loop on a ring.
use io_event.Base.Int.{pos}
use io_event.EPoll.Timeout.{select_blocking_allowed, make_timeout, Duration}
use io_event.Uring.{Uring}
use io_event.Uring.Complete.{completed, process_completions, Processed}
use io_event.Selector.{Selector}
use io_event.Time.{elapsed, Timespec}
use io_event.System.{etime, eintr, failure, success, Call}
use io_event.Fiber.{Ruby}
use io_event.Uring.Ring.{
  interrupted, submit_flush, get_sqe, read_interrupt, set_kernel, Sqe, after_submit, submitted,
  Liburing, Submitted,
}
use io_event.Selector.Flush.{counted, ready_flush, Flushed}
use io_event.Base.{
  and_then, Cmd, ℕ, Bool, true, false, ◌&&◌, ◌||◌, Option, none, some, Ptr, null, ◌==◌,
  if◌then◌else◌,
}

-- The monotonic clock, and whether `rb_nogvl` leaves out the call for an interrupt that is pending.
pub record Waiter (K : Type 0) : Type 0 where
  pub now : K → Timespec
  pub pending_interrupt : K → Bool

-- What the wait gives: whether there are completions, `rb_syserr_fail`, or a submission that did not
-- come back.
pub data Found : Type 0 where
  found : Bool → Found
  wait_failed : ℕ → Found
  not_submitted : Submitted → Found

-- How the call comes back: with the number of completions, or otherwise.
pub data Selected : Type 0 where
  selected : ℕ → Selected
  flush_stopped : Flushed → Selected
  find_stopped : Found → Selected
  process_stopped : Processed → Selected

-- The result of `io_uring_wait_cqe_timeout`.
abbrev pub checked : Call → Found
checked (success n) = found true
checked (failure e) = if (e == etime) || (e == eintr) then found false else wait_failed e

module _ {K : Type 0} where
  abbrev pub set_idle : Timespec → Selector (Uring K) → Selector (Uring K)
  set_idle duration s = record s { outside = record s.outside { idle_duration = duration } }

  -- `io_uring_get_events`, where task work is pending.
  abbrev pub get_events : Liburing K → Selector (Uring K) → Selector (Uring K)
  get_events ring s =
      if ring.taskrun s.outside.kernel then set_kernel (ring.get_events s.outside.kernel) s else s

module _ {K : Type 0} (ruby : Ruby (Selector (Uring K))) (ring : Liburing K) (waiter : Waiter K)
    (fuel : ℕ) (node : Ptr) where
  -- `IO_Event_Selector_blocking_operation` with `select_internal`: `blocked` is set while the call runs.
  pub select_internal : Option Timespec → Selector (Uring K) → Call × Selector (Uring K)
  select_internal timeout s =
      let k = s.outside.kernel in
      let (r, k') =
        if waiter.pending_interrupt k
        then (failure eintr, k)
        else ring.wait_cqe_timeout timeout k in
      (r, record (set_kernel k' s) { blocked = 0 })

  abbrev pub interrupt_sqe : Selector (Uring K) → Sqe
  interrupt_sqe s = record {
    operation = read_interrupt s.outside.interrupt;
    user_data = interrupted;
  }

  -- The read of the interrupt, unless one is registered.
  pub register_wakeup : Cmd (Selector (Uring K)) Submitted
  register_wakeup s =
      if s.outside.wakeup_registered
      then some (submitted, s)
      else after_submit (get_sqe ruby ring fuel node fuel (interrupt_sqe s) s) λ t.
        some (submitted, record t { outside = record t.outside { wakeup_registered = true } })

  abbrev pub after_wait : Call × Selector (Uring K) → Found × Selector (Uring K)
  after_wait (r, s) = (checked r, s)

  abbrev pub if_flushed :
      Option (Submitted × Selector (Uring K))
      → Cmd (Selector (Uring K)) Found
      → Option (Found × Selector (Uring K))
  if_flushed none k = none
  if_flushed (some (submitted, s)) k = k s
  if_flushed (some (how, s)) k = some (not_submitted how, s)

  -- `select_internal_without_gvl`
  pub select_internal_without_gvl : Option Timespec → Cmd (Selector (Uring K)) Found
  unfolding select_internal register_wakeup
  select_internal_without_gvl timeout s =
      if_flushed (after_submit (register_wakeup s) (submit_flush ruby ring fuel node))
        λ t. some (after_wait (select_internal timeout (record t { blocked = 1 })))

  -- The end of `IO_Event_Selector_URing_select`: the completions that the wait has brought.
  abbrev pub answered : Processed → Selected
  answered (completed n) = selected n
  answered p = process_stopped p

  abbrev pub process : Cmd (Selector (Uring K)) Selected
  process s = and_then (process_completions ring ruby fuel s) (λ p t. some (answered p, t))

  abbrev pub after_found :
      Cmd (Selector (Uring K)) Found → Timespec → Cmd (Selector (Uring K)) Selected
  after_found wait start s = and_then (wait s) λ f t.
      let u = set_idle (elapsed start (waiter.now t.outside.kernel)) t in
      elim f [
        | found true ↦ process u
        | found false ↦ some (selected 0, u)
        | wait_failed e ↦ some (find_stopped (wait_failed e), t)
        | not_submitted how ↦ some (find_stopped (not_submitted how), t)
      ]

  -- What follows when there was nothing to do so far.
  pub select_blocking : Duration → Cmd (Selector (Uring K)) Selected
  unfolding select_internal_without_gvl
  select_blocking duration s =
      let timeout = make_timeout duration in
      if (s.ready == null) && select_blocking_allowed timeout
      then after_found (select_internal_without_gvl timeout) (waiter.now s.outside.kernel) s
      else some (selected 0, s)

  -- What follows the first look at the completion queue.
  abbrev pub after_process : Duration → (ready : ℕ) → Processed → Cmd (Selector (Uring K)) Selected
  after_process duration ready (completed n) s =
      if ((ready == 0) && (n == 0)) && (s.ready == null)
      then select_blocking duration s
      else some (selected n, s)
  after_process duration ready p s = some (process_stopped p, s)

  abbrev pub after_flush : Duration → Flushed → Cmd (Selector (Uring K)) Selected
  after_flush duration (counted ready) s =
      and_then (process_completions ring ruby fuel s) (after_process duration ready)
  after_flush duration how s = some (flush_stopped how, s)

  abbrev pub after_pending : Duration → Submitted → Cmd (Selector (Uring K)) Selected
  after_pending duration submitted s =
      and_then (ready_flush ruby fuel (get_events ring s)) (after_flush duration)
  after_pending duration how s = some (find_stopped (not_submitted how), s)

  -- `IO_Event_Selector_URing_select`
  pub select : Duration → Cmd (Selector (Uring K)) Selected
  unfolding select_blocking
  select duration s =
      let start = set_idle (record { tv_sec = pos 0; tv_nsec = pos 0 }) s in
      and_then (submit_flush ruby ring fuel node start) (after_pending duration)
