-- ===== src/Tests/OfInterrupt.antt =====
-- An eventfd, and two time stamps.
use io_event.Base.{ℕ, ◌+◌, ◌-◌, ◌^◌, ◌<◌, ◌≡◌, refl, true, arith, ltb, ◌==◌, if◌then◌else◌}
use io_event.System.{Call, success, failure, eagain, einval, try_again}
use io_event.Base.Int.{pos, ◌+ℤ◌, ◌-ℤ◌}
use io_event.Time.{Timespec, elapsed}
use io_event.Interrupt.{EventFd, signal, clear}
use io_event.Interrupt.Pipe.{PipeFd, signal_pipe, clear_pipe, variants_agree}
use Prim.Native.Nat.{min}
use io_event.Interrupt

-- An eventfd whose state is its counter.
abbrev pub write_counter : ℕ → ℕ → Call × ℕ
write_counter v k =
    if ltb v (2 ^ 64 - 1)
    then (if ltb (k + v) (2 ^ 64 - 1) then (success 8, k + v) else (failure eagain, k))
    else (failure einval, k)

abbrev pub read_counter : ℕ → Call × ℕ
read_counter k = if k == 0 then (failure eagain, k) else (success 8, 0)

pub write_adds : (v n k : ℕ) → (write_counter v k).0 ≡ success n → (write_counter v k).1 ≡ k + v
write_adds v n k h = ground arith

pub write_full :
    (v e k : ℕ)
    → (write_counter v k).0 ≡ failure e
    → try_again e ≡ true
    → (0 < k) × ((write_counter v k).1 ≡ k)
write_full v e k h again = ground (arith, h, again)

pub read_takes : (n k : ℕ) → (read_counter k).0 ≡ success n → (read_counter k).1 ≡ 0
read_takes n k h = ground arith

pub read_empty :
    (e k : ℕ)
    → (read_counter k).0 ≡ failure e
    → try_again e ≡ true
    → (k ≡ 0) × ((read_counter k).1 ≡ k)
read_empty e k h again = ground arith

abbrev pub counter_fd : EventFd ℕ
counter_fd = record {
  write = write_counter;
  read = read_counter;
  counter = λ k. k;
  write_adds = write_adds;
  write_full = write_full;
  read_takes = read_takes;
  read_empty = read_empty;
}

-- A pipe of 65536 bytes whose state is the number of bytes in it.
abbrev pub write_pipe : ℕ → Call × ℕ
write_pipe k = if ltb k 65536 then (success 1, k + 1) else (failure eagain, k)

abbrev pub read_pipe : (size : ℕ) → ℕ → Call × ℕ
read_pipe size k = if k == 0 then (failure eagain, 0) else (success (min size k), k - min size k)

pub pipe_adds : (n k : ℕ) → (write_pipe k).0 ≡ success n → (write_pipe k).1 ≡ k + 1
pipe_adds n k h = ground arith

pub pipe_full :
    (e k : ℕ) → (write_pipe k).0 ≡ failure e → try_again e ≡ true → (0 < k) × ((write_pipe k).1 ≡ k)
pipe_full e k h again = ground arith

pub pipe_takes :
    (size n k : ℕ)
    → (read_pipe size k).0 ≡ success n
    → (n ≡ min size k) × ((read_pipe size k).1 + n ≡ k)
pipe_takes size n k h = ground (arith, h)

pub pipe_empty :
    (size e k : ℕ)
    → (read_pipe size k).0 ≡ failure e
    → try_again e ≡ true
    → (k ≡ 0) × ((read_pipe size k).1 ≡ k)
pipe_empty size e k h again = ground (arith, h)

abbrev pub counter_pipe : PipeFd ℕ
counter_pipe = record {
  write_byte = write_pipe;
  read = read_pipe;
  pending = λ k. k;
  write_adds = pipe_adds;
  write_full = pipe_full;
  read_takes = pipe_takes;
  read_empty = pipe_empty;
}

signalled : (signal counter_fd 5).0 ≡ Interrupt.returned
unfolding signal
signalled = refl

cleared : (clear counter_fd 5).0 ≡ Interrupt.returned
unfolding clear
cleared = refl

pipe_signalled : (signal_pipe counter_pipe 100).0 ≡ Interrupt.returned
unfolding signal_pipe
pipe_signalled = refl

pipe_cleared : (clear_pipe counter_pipe 100).0 ≡ Interrupt.returned
unfolding clear_pipe
pipe_cleared = refl

-- 300 signals are more than a clear takes.
many : clear_pipe counter_pipe 300 ≡ (Interrupt.returned, 172)
unfolding clear_pipe
many = refl

variants_agree_example :
    ((0 < (signal_pipe counter_pipe 100).1) × (0 < (signal counter_fd 5).1))
    × ((clear_pipe counter_pipe 100).1 ≡ 0)
    × ((clear counter_fd 5).1 ≡ 0)
variants_agree_example =
    variants_agree counter_pipe counter_fd 100 5 pipe_signalled signalled pipe_cleared cleared
      (omega arith)

-- From 1.9 s to 4.2 s.
abbrev start_time : Timespec
start_time = record { tv_sec = pos 1; tv_nsec = pos 900000000 }

abbrev stop_time : Timespec
stop_time = record { tv_sec = pos 4; tv_nsec = pos 200000000 }

elapsed_run : elapsed start_time stop_time ≡ record { tv_sec = pos 2; tv_nsec = pos 300000000 }
unfolding elapsed ◌+ℤ◌ ◌-ℤ◌
elapsed_run = refl
