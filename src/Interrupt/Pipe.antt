-- ===== src/Interrupt/Pipe.antt =====
-- ext/io/event/interrupt.c where the system has no eventfd: a pipe, of which each signal writes one byte.
use io_event.Interrupt.{check, EventFd, Checked, returned, sys_fail}
use io_event.Interrupt
use Prim.Native.Nat.{min}
use io_event.System.{Call, Call-cases, success, failure, try_again}
use io_event.Base.{ℕ, ◌+◌, ◌-◌, ◌<◌, ◌≤◌, ◌≡◌, inl, inr, refl, ap, Bool-cases, arith, true}

-- The size of the buffer of `IO_Event_Interrupt_clear`.
abbrev pub buffer_size : ℕ
buffer_size = 128

-- The system calls on a pipe whose ends are not blocking, with what pipe(7) documents: a write of one
-- byte adds it unless the pipe is full, and a read of at most `size` bytes takes as many as there are.
pub record PipeFd (K : Type 0) : Type 0 where
  pub write_byte : K → Call × K
  pub read : (size : ℕ) → K → Call × K
  pub pending : K → ℕ
  pub write_adds :
      (n : ℕ) (k : K) → (write_byte k).0 ≡ success n → pending (write_byte k).1 ≡ pending k + 1
  pub write_full :
      (e : ℕ) (k : K)
      → (write_byte k).0 ≡ failure e
      → try_again e ≡ true
      → (0 < pending k) × (pending (write_byte k).1 ≡ pending k)
  pub read_takes :
      (size n : ℕ) (k : K)
      → (read size k).0 ≡ success n
      → (n ≡ min size (pending k)) × (pending (read size k).1 + n ≡ pending k)
  pub read_empty :
      (size e : ℕ) (k : K)
      → (read size k).0 ≡ failure e
      → try_again e ≡ true
      → (pending k ≡ 0) × (pending (read size k).1 ≡ pending k)

check-state : {K : Type 0} (r : Call × K) → (check r).1 ≡ r.1
check-state (success n, k) = refl
check-state (failure e, k) = elim (Bool-cases (try_again e)) [
  | inl again ↦ simp again refl
  | inr other ↦ simp other refl
]

module _ {K : Type 0} (fd : PipeFd K) where
  -- `IO_Event_Interrupt_signal`, over a pipe
  unfoldable pub signal_pipe : K → Checked × K
  signal_pipe k = check (fd.write_byte k)

  -- `IO_Event_Interrupt_clear`, over a pipe
  unfoldable pub clear_pipe : K → Checked × K
  clear_pipe k = check (fd.read buffer_size k)

  -- A signal over a pipe that returns leaves it readable, also when the pipe was full.
  pub signal_pipe-readable :
      (k : K) → (signal_pipe k).0 ≡ returned → 0 < fd.pending (signal_pipe k).1
  unfolding signal_pipe
  signal_pipe-readable k ok = elim (Call-cases (fd.write_byte k).0) [
    | inl (n, e) ↦ ground (arith, e, fd.write_adds n k e)
    | inr (error, e) ↦ ground (arith, e, fd.write_full error k e)
  ]

  -- Clearing takes at most 128 signals from a pipe.
  pub clear_pipe-pending :
      (k : K)
      → (clear_pipe k).0 ≡ returned
      → fd.pending (clear_pipe k).1 ≡ fd.pending k - buffer_size
  unfolding clear_pipe
  clear_pipe-pending k ok = elim (Call-cases (fd.read buffer_size k).0) [
    | inl (n, e) ↦ omega (
      arith,
      fd.read_takes buffer_size n k e,
      ap fd.pending (check-state (fd.read buffer_size k)),
    )
    | inr (error, e) ↦ ground (arith, e, fd.read_empty buffer_size error k e)
  ]

  -- An eventfd and a pipe serve the selector alike: a signal that returns leaves either readable, and a
  -- clear that returns leaves neither readable, if the pipe holds no more signals than one read takes.
  pub variants_agree :
      {J : Type 0} (event : EventFd J) (k : K) (j : J)
      → ((signal_pipe k).0 ≡ returned)
      → ((Interrupt.signal event j).0 ≡ returned)
      → ((clear_pipe k).0 ≡ returned)
      → ((Interrupt.clear event j).0 ≡ returned)
      → fd.pending k ≤ buffer_size
      → ((0 < fd.pending (signal_pipe k).1) × (0 < event.counter (Interrupt.signal event j).1))
        × (fd.pending (clear_pipe k).1 ≡ 0)
        × (event.counter (Interrupt.clear event j).1 ≡ 0)
  variants_agree event k j ps es pc ec few = (
    (signal_pipe-readable k ps, Interrupt.signal-readable event j es),
    omega (arith, clear_pipe-pending k pc),
    Interrupt.clear-unreadable event j ec,
  )
