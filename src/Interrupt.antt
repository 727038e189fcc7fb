-- ===== src/Interrupt.antt =====
-- ext/io/event/interrupt.c over an eventfd. The kernel is a parameter: a state `K`, and what `write`
-- and `read` of eight bytes do to it.
pub mod Pipe
use io_event.Base.{ℕ, ◌+◌, ◌<◌, ◌≡◌, inl, inr, true, arith, if◌then◌else◌}
use io_event.System.{Call, Call-cases, success, failure, try_again}

-- How a call of the library comes back: it returns, or `rb_sys_fail` raises with an error number.
pub data Checked : Type 0 where
  returned : Checked
  sys_fail : ℕ → Checked

-- The system calls, with what eventfd(2) documents: a counter that a write adds to unless that would
-- overflow, and that a read takes whole unless it is 0.
pub record EventFd (K : Type 0) : Type 0 where
  pub write : ℕ → K → Call × K
  pub read : K → Call × K
  pub counter : K → ℕ
  pub write_adds :
      (v n : ℕ) (k : K) → (write v k).0 ≡ success n → counter (write v k).1 ≡ counter k + v
  pub write_full :
      (v e : ℕ) (k : K)
      → (write v k).0 ≡ failure e
      → try_again e ≡ true
      → (0 < counter k) × (counter (write v k).1 ≡ counter k)
  pub read_takes : (n : ℕ) (k : K) → (read k).0 ≡ success n → counter (read k).1 ≡ 0
  pub read_empty :
      (e : ℕ) (k : K)
      → (read k).0 ≡ failure e
      → try_again e ≡ true
      → (counter k ≡ 0) × (counter (read k).1 ≡ counter k)

abbrev pub check : {K : Type 0} → Call × K → Checked × K
check (success n, k) = (returned, k)
check (failure e, k) = if try_again e then (returned, k) else (sys_fail e, k)

module _ {K : Type 0} (fd : EventFd K) where
  -- `IO_Event_Interrupt_signal`
  unfoldable pub signal : K → Checked × K
  signal k = check (fd.write 1 k)

  -- `IO_Event_Interrupt_clear`
  unfoldable pub clear : K → Checked × K
  clear k = check (fd.read k)

  -- A signal that returns leaves the descriptor readable, also when the counter was full.
  pub signal-readable : (k : K) → (signal k).0 ≡ returned → 0 < fd.counter (signal k).1
  unfolding signal
  signal-readable k ok = elim (Call-cases (fd.write 1 k).0) [
    | inl (n, e) ↦ ground (arith, e, fd.write_adds 1 n k e)
    | inr (error, e) ↦ ground (arith, e, fd.write_full 1 error k e)
  ]

  -- Clearing takes all signals at once: when it returns, the descriptor is not readable, however many
  -- signals came before.
  pub clear-unreadable : (k : K) → (clear k).0 ≡ returned → fd.counter (clear k).1 ≡ 0
  unfolding clear
  clear-unreadable k ok = elim (Call-cases (fd.read k).0) [
    | inl (n, e) ↦ ground (arith, e, fd.read_takes n k e)
    | inr (error, e) ↦ ground (arith, e, fd.read_empty error k e)
  ]
