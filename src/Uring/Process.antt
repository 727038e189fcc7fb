-- ===== src/Uring/Process.antt =====
-- `IO_Event_Selector_URing_process_wait` of uring.c, where the system has `waitid` on a ring and Ruby
-- `rb_process_status_for`.
pub mod Decode
pub mod OnDescriptor
use io_event.Uring.Wait.{
  new_waiting, raised_in, if_submitted, answered, forget, with_completion, Waited,
}
use io_event.System.{success, failure, Call}
use io_event.Uring.Ring.{get_sqe, completing, waitid, Sqe, Liburing}
use io_event.Uring.{Answers, Uring}
use io_event.Selector.{loop_yield, Selector}
use io_event.Base.Int.{negsuc, pos, ℤ}
use io_event.Fiber.{raised, returned, Outcome, Ruby}
use Prim.Native.Nat.{bit_or, bit_and}
use io_event.Base.{and_then, Cmd, ℕ, zero, suc, ◌*◌, Option, none, some, Ptr}

-- `idtype_t`: `P_ALL`, `P_PID`, `P_PGID`
abbrev pub p_all : ℕ
p_all = 0

abbrev pub p_pid : ℕ
p_pid = 1

abbrev pub p_pgid : ℕ
p_pgid = 2

-- `WEXITED`
abbrev pub wexited : ℕ
wexited = 4

-- `process_waitid_type`: the type and the id.
pub process_waitid_type : (pid : ℤ) → ℕ × ℕ
process_waitid_type (pos zero) = (p_pgid, 0)
process_waitid_type (pos (suc n)) = (p_pid, suc n)
process_waitid_type (negsuc zero) = (p_all, 0)
process_waitid_type (negsuc (suc n)) = (p_pgid, suc (suc n))

-- `si_code`, as far as the source tells it apart.
pub data Code : Type 0 where
  exited killed dumped other : Code

-- The fields of `siginfo_t` that the source reads.
pub record Siginfo : Type 0 where
  pub pid : ℕ
  pub code : Code
  pub status : ℕ

-- `process_wait_status_exited`
pub status_exited : ℕ → ℕ
status_exited exit_status = bit_and exit_status 255 * 256

-- `process_wait_status_signaled`
pub status_signaled : ℕ → ℕ
status_signaled term_signal = bit_and term_signal 127

-- `process_wait_status_from_siginfo`
pub status_from_siginfo : Siginfo → ℕ
unfolding status_exited status_signaled
status_from_siginfo i = elim i.code [
  | exited ↦ status_exited i.status
  | killed ↦ status_signaled i.status
  | dumped ↦ bit_or (status_signaled i.status) 128
  | other ↦ 0
]

-- `rb_process_status_for`: the pid, `none` for -1, the wait status and the error.
pub record Status : Type 0 where
  pub pid : Option ℕ
  pub status : ℕ
  pub error : ℕ

module _ {K : Type 0} (ruby : Ruby (Selector (Uring K))) (ring : Liburing K) (fuel : ℕ) (node : Ptr)
    (siginfo : Ptr → K → Siginfo) where
  -- `process_wait_transfer`, on the result of the operation.
  abbrev pub status_answer : (info : Ptr) → Call → K → Waited Status
  unfolding status_from_siginfo
  status_answer info (failure e) k = answered (some (record { pid = none; status = 0; error = e }))
  status_answer info (success n) k =
      let i = siginfo info k in
      answered (some (record { pid = some i.pid; status = status_from_siginfo i; error = 0 }))

  abbrev pub status_of : (info w : Ptr) → Outcome → Selector (Uring K) → Waited Status
  unfolding status_from_siginfo
  status_of info w (returned v) s = status_answer info (s.outside.result w) s.outside.kernel
  status_of info w (raised x) s = raised_in x

  -- `rb_ensure` with `process_wait_ensure`.
  abbrev pub ensure_forgotten :
      Ptr
      → Option (Waited Status × Selector (Uring K))
      → Option (Waited Status × Selector (Uring K))
  ensure_forgotten w none = none
  ensure_forgotten w (some (r, s)) = forget w r s

  -- The entry for the ring; `info` is the `siginfo` on the stack.
  abbrev pub waitid_sqe : (info c : Ptr) (pid : ℤ) → Sqe
  unfolding process_waitid_type
  waitid_sqe info c pid =
      let (idtype, id) = process_waitid_type pid in
      record { operation = waitid idtype id info wexited; user_data = completing c }

  -- `IO_Event_Selector_URing_process_wait`
  unfoldable pub process_wait :
      Answers → (type w info : Ptr) (fiber : ℕ) (pid : ℤ) → Cmd (Selector (Uring K)) (Waited Status)
  unfolding status_from_siginfo process_waitid_type
  process_wait a type w info fiber pid s =
      with_completion ruby ring fuel node a type w
        (λ c t.
          if_submitted ruby ring fuel node
            (get_sqe ruby ring fuel node fuel (waitid_sqe info c pid) t)
            (λ u.
              ensure_forgotten w
                (and_then (loop_yield ruby u) (λ o v. some (status_of info w o v, v)))))
        (new_waiting w fiber s)
