-- ===== src/Uring/Ring.antt =====
-- The submission queue of uring.c: `io_uring_submit_all`, `io_get_sqe` and their callers. liburing is a
-- parameter, a record of the calls that the selector makes, over the state of the ring in the kernel.
pub mod Submit
pub mod Keeps
use io_event.Uring.{Uring}
use io_event.Time.{Timespec}
use io_event.System.{failure, success, eagain, Call, ebusy}
use io_event.Base.Int.{ℤ}
use io_event.Selector.{outcome, yield, Selector, Reply}
use io_event.Fiber.{returned, Ruby}
use io_event.Base.{
  ap, ◌≡◌, Cmd, ℕ, zero, suc, Bool, true, false, ◌||◌, Option, none, some, Ptr, ◌==◌, if◌then◌else◌,
}

-- What an entry of the ring carries back to the selector: nothing, the mark of liburing's own timeouts,
-- the address of the interrupt, or a completion.
pub data UserData : Type 0 where
  nothing : UserData
  timeout : UserData
  interrupted : UserData
  completing : Ptr → UserData

-- The operations that the selector prepares. An offset of -1 is the position of the file.
pub data Operation : Type 0 where
  poll_add : (descriptor flags : ℕ) → Operation
  read : (descriptor : ℕ) (buffer : Ptr) (length : ℕ) (offset : ℤ) → Operation
  write : (descriptor : ℕ) (buffer : Ptr) (length : ℕ) (offset : ℤ) → Operation
  read_interrupt : (descriptor : ℤ) → Operation
  waitid : (idtype id : ℕ) (siginfo : Ptr) (options : ℕ) → Operation
  async_cancel : (completion : Ptr) → Operation
  close : (descriptor : ℕ) → Operation

-- `struct io_uring_sqe`
pub record Sqe : Type 0 where
  pub operation : Operation
  pub user_data : UserData

-- `struct io_uring_cqe`
pub record Cqe : Type 0 where
  pub user_data : UserData
  pub res : Call
  pub flags : ℕ

-- liburing. `get_sqe` is `io_uring_get_sqe` with what the selector writes into the entry, `none` if the
-- queue is full; `peek` is the test of `io_uring_for_each_cqe`; `taskrun` is `IORING_SQ_TASKRUN`.
pub record Liburing (K : Type 0) : Type 0 where
  pub sq_ready : K → ℕ
  pub submit : K → Call × K
  pub get_sqe : Sqe → K → Option K
  pub peek : K → Option Cqe
  pub cq_advance : K → K
  pub wait_cqe_timeout : Option Timespec → K → Call × K
  pub get_events : K → K
  pub taskrun : K → Bool

-- How a submission comes back: it returns, `rb_syserr_fail` raises, a fiber lets an exception through
-- the yield, or (in the model alone) the fuel ends.
pub data Submitted : Type 0 where
  submitted : Submitted
  syserr_fail : ℕ → Submitted
  stopped : Reply → Submitted
  out_of_fuel : Submitted

module _ {K : Type 0} where
  abbrev pub set_kernel : K → Selector (Uring K) → Selector (Uring K)
  set_kernel k s = record s { outside = record s.outside { kernel = k } }

  -- What follows `IO_Event_Selector_yield`.
  abbrev pub after_yield :
      Option (Reply × Selector (Uring K))
      → Cmd (Selector (Uring K)) Submitted
      → Option (Submitted × Selector (Uring K))
  after_yield none k = none
  after_yield (some (outcome (returned v), s)) k = k s
  after_yield (some (r, s)) k = some (stopped r, s)

  -- What follows a submission that has to succeed.
  abbrev pub after_submit :
      Option (Submitted × Selector (Uring K))
      → Cmd (Selector (Uring K)) Submitted
      → Option (Submitted × Selector (Uring K))
  after_submit none k = none
  after_submit (some (submitted, s)) k = k s
  after_submit (some (syserr_fail e, s)) k = some (syserr_fail e, s)
  after_submit (some (stopped r, s)) k = some (stopped r, s)
  after_submit (some (out_of_fuel, s)) k = some (out_of_fuel, s)

-- `result == -EBUSY || result == -EAGAIN`
abbrev pub is_busy : ℕ → Bool
is_busy e = (e == ebusy) || (e == eagain)

module _ {K : Type 0} (ruby : Ruby (Selector (Uring K))) (ring : Liburing K) (fuel : ℕ)
    (node : Ptr) where
  -- The end of a round of `io_uring_submit_all`; `node` is the node of the ready queue for a yield.
  abbrev pub after_round :
      (yields : Bool) (rest : Cmd (Selector (Uring K)) Submitted)
      → Call
      → Cmd (Selector (Uring K)) Submitted
  after_round yields rest (success n) s = rest s
  after_round yields rest (failure e) s =
      if is_busy e
      then (if yields then after_yield (yield ruby node s) rest else rest s)
      else some (syserr_fail e, s)

  -- The loop of `io_uring_submit_all`
  pub submit_all : (rounds : ℕ) (yields : Bool) → Cmd (Selector (Uring K)) Submitted
  submit_all zero yields s = some (out_of_fuel, s)
  submit_all (suc rounds) yields s =
      let (r, k) = ring.submit s.outside.kernel in
      if ring.sq_ready s.outside.kernel == 0
      then some (submitted, s)
      else after_round yields (submit_all rounds yields) r (set_kernel k s)

  -- `io_uring_submit_flush`
  pub submit_flush : Cmd (Selector (Uring K)) Submitted
  unfolding submit_all
  submit_flush s = submit_all fuel false s

  -- `io_uring_submit_now`
  pub submit_now : Cmd (Selector (Uring K)) Submitted
  unfolding submit_all
  submit_now s = submit_all fuel true s

  -- What follows `io_uring_get_sqe`; `wait` is for a queue that is full.
  abbrev pub after_get_sqe :
      (wait : Cmd (Selector (Uring K)) Submitted) → Option K → Cmd (Selector (Uring K)) Submitted
  after_get_sqe wait none s = wait s
  after_get_sqe wait (some k) s = some (submitted, set_kernel k s)

  -- `io_get_sqe`, with the entry that the caller prepares.
  pub get_sqe : (rounds : ℕ) → Sqe → Cmd (Selector (Uring K)) Submitted
  unfolding submit_now
  get_sqe zero e s = some (out_of_fuel, s)
  get_sqe (suc rounds) e s =
      after_get_sqe (λ t. after_submit (submit_now t) (get_sqe rounds e))
        (ring.get_sqe e s.outside.kernel) s

  -- While there is room in the submission queue, an entry is queued and nothing else happens.
  pub get_sqe_room :
      (rounds : ℕ) (e : Sqe) (k : K) (s : Selector (Uring K))
      → ring.get_sqe e s.outside.kernel ≡ some k
      → get_sqe (suc rounds) e s ≡ some (submitted, set_kernel k s)
  unfolding get_sqe
  get_sqe_room rounds e k s room =
      ap (λ o. after_get_sqe (λ t. after_submit (submit_now t) (get_sqe rounds e)) o s) room
