-- ===== src/Tests/OfReturn.antt =====
-- Fibers that wait on the ring of OfUring, up to the end of their calls.
use io_event.Base.{refl, arith, some, [], ◌∷◌}
use io_event.System.{success}
use io_event.EPoll.Process.{Processes}
use io_event.Tests.OfUring.{
  State, completed_as, ring, holds, read_done, busy, calm, granted, ring-IsRing, busy-Owned,
  calm_keeps,
}
use io_event.Uring.Wait.{io_wait, io_read, io_write}
use io_event.Uring.Wait.Operate.{carrying, read_write-Ended}
use io_event.Uring.Ring.{read, write}
use io_event.Base.Int.{negsuc}
use io_event.Uring.Wait.Reserve.{poll_sqe}
use io_event.Uring.Wait.Return
use io_event.Uring.Wait.Return.{io_wait-Ended}
use io_event.Uring.Process.OnDescriptor.{process_wait_pidfd, process_wait_pidfd-Ended}
use io_event.Uring.Process.OnDescriptor

io_wait-Ended_example : Return.Ended ring holds 30 (io_wait calm ring 3 80 granted 9 30 8 5 1 busy)
io_wait-Ended_example =
    io_wait-Ended ring holds ring-IsRing calm 80 calm_keeps 2 [] granted 9 2 6 30 8 5 1
      (completed_as (poll_sqe 2 5 1) ∷ read_done ∷ []) busy busy-Owned refl (ground arith) refl

read_write-Ended_example :
    Return.Ended ring holds 30 (io_read calm ring 3 80 granted 9 30 8 5 700 64 (negsuc 0) busy)
    × Return.Ended ring holds 30 (io_write calm ring 3 80 granted 9 30 8 5 700 64 (negsuc 0) busy)
read_write-Ended_example =
    read_write-Ended ring holds ring-IsRing calm 80 calm_keeps 2 [] granted 9 2 6 30 8 5 700 64
      (negsuc 0) (completed_as (carrying 2 (read 5 700 64 (negsuc 0))) ∷ read_done ∷ [])
      (completed_as (carrying 2 (write 5 700 64 (negsuc 0))) ∷ read_done ∷ []) busy busy-Owned refl
      (ground arith) refl refl

-- The process 31 has the descriptor 9 and has exited.
abbrev exited : Processes State
exited = record { pidfd_open = λ pid s. (success 9, s); reap = λ pid flags s. (4321, s) }

process_wait_pidfd-Ended_example :
    OnDescriptor.Ended exited calm ring 3 80 9 30
      (process_wait_pidfd exited calm ring 3 80 granted 9 30 8 (some 31) 0 busy)
process_wait_pidfd-Ended_example =
    process_wait_pidfd-Ended exited calm ring 3 80 granted 9 30 8 31 0 9 busy refl
