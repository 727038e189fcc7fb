-- ===== src/Tests/OfAgreement.antt =====
-- A read or a write of 4 bytes or more, of a buffer of 10, from the byte 2 on: the first call would block,
-- the others transfer 3 bytes and 5.
use io_event.Agreement.{transfers_agree}
use io_event.Agreement.Loops.{moved_option, answer, moved}
use io_event.System.{success, eagain, failure, Call}
use io_event.Base.{◌≡◌, List, [], ◌∷◌, arith}
use io_event.EPoll.Transfer
use io_event.KQueue.Transfer as Kq
use io_event.Uring.Transfer as Ur

abbrev results : List Call
results = failure eagain ∷ success 3 ∷ success 5 ∷ []

transfers_agree_example :
    ((Kq.io_read results 2 4 10 0 (λ f. f) ≡ Transfer.io_read results 2 4 10 0 (λ f. f))
      × (Ur.io_read results 2 4 10 ≡ moved 2 (answer (Transfer.io_read results 2 4 10 0 (λ f. f)))))
    × ((Kq.io_write results 2 4 10 0 (λ f. f) ≡ Transfer.io_write results 2 4 10 0 (λ f. f))
        × (Ur.io_write results 2 4 10
            ≡ moved_option 2 (Transfer.io_write results 2 4 10 0 (λ f. f))))
transfers_agree_example =
    transfers_agree results 2 4 10 0 (λ f. f) (omega arith, (omega arith, tt)) (omega arith)
