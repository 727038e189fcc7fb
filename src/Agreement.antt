-- ===== src/Agreement.antt =====
-- The three selectors transfer data in the same way: `io_read` and `io_write` of epoll.c, kqueue.c and
-- uring.c, which are written three times.
pub mod Loops
use io_event.Agreement.Loops.{ring_same, uring_loop, kqueue_transfer, answer, moved, moved_option}
use io_event.EPoll.Transfer.{minus}
use io_event.EPoll.Transfer.Sound.{IsAnswered}
use io_event.System.{Call}
use io_event.Base.{
  ℕ, ◌+◌, ◌-◌, ◌^◌, ◌<◌, ◌≡◌, refl, ap, inl, inr, false, some, List, arith, ltb, ◌==◌, Bool-cases,
}
use io_event.EPoll
use io_event.KQueue
use io_event.Uring
use io_event.EPoll.Transfer
use io_event.KQueue.Transfer as Kq
use io_event.Uring.Transfer as Ur

io_read_same :
    (results : List Call) (offset minimum size flags : ℕ) (meanwhile : ℕ → ℕ)
    → IsAnswered results (size - offset)
    → size < 2 ^ 32
    → (Kq.io_read results offset minimum size flags meanwhile
        ≡ Transfer.io_read results offset minimum size flags meanwhile)
      × (Ur.io_read results offset minimum size
          ≡ moved offset (answer (Transfer.io_read results offset minimum size flags meanwhile)))
unfolding Kq.io_read Transfer.io_read Ur.io_read Transfer.transfer
io_read_same results offset minimum size flags meanwhile ok small =
    elim (Bool-cases (ltb size offset)) [
      | inl e ↦ simp e (refl, refl)
      | inr e ↦ elim (Bool-cases (offset == size)) [
        | inl e' ↦ simp (e, e') (refl, refl)
        | inr e' ↦
            let room : (size - offset == 0) ≡ false = ground (arith, e, e') in
            let whole : offset + (size - offset) ≡ size = ground (arith, e) in
            let left : minus size offset ≡ size - offset = omega (arith, whole) in
            simp (e, e')
              (
                kqueue_transfer results minimum (size - offset) (minus size offset) flags meanwhile
                    left,
                ring_same results offset minimum size ok whole room small,
              )
      ]
    ]

io_write_same :
    (results : List Call) (offset minimum size flags : ℕ) (meanwhile : ℕ → ℕ)
    → IsAnswered results (size - offset)
    → size < 2 ^ 32
    → (Kq.io_write results offset minimum size flags meanwhile
        ≡ Transfer.io_write results offset minimum size flags meanwhile)
      × (Ur.io_write results offset minimum size
          ≡ moved_option offset (Transfer.io_write results offset minimum size flags meanwhile))
unfolding Kq.io_write Transfer.io_write Ur.io_write Transfer.transfer
io_write_same results offset minimum size flags meanwhile ok small =
    elim (Bool-cases (ltb size minimum)) [
      | inl z ↦ simp z (refl, refl)
      | inr z ↦ elim (Bool-cases (ltb size offset)) [
        | inl e ↦ simp (z, e) (refl, refl)
        | inr e ↦ elim (Bool-cases (offset == size)) [
          | inl e' ↦ simp (z, e, e') (refl, refl)
          | inr e' ↦
              let whole : offset + (size - offset) ≡ size = ground (arith, e) in
              let left : minus size offset ≡ size - offset = omega (arith, whole) in
              simp (z, e, e')
                (
                  ap some (
                      kqueue_transfer results minimum (size - offset) (minus size offset) flags
                        meanwhile left),
                  ap some (
                      uring_loop results offset 0 offset minimum size (size - offset) ok
                        (omega arith) whole small),
                )
        ]
      ]
    ]

-- On a buffer of less than 2 ^ 32 bytes, and whatever the calls return, as long as none transfers more
-- than it was asked for: `io_read` of epoll.c and of kqueue.c make the same calls, end in the same way
-- and leave the file with the same flags, and so do the two `io_write`. Those of uring.c ask for the
-- same bytes in the same order and end in the same way.
pub transfers_agree :
    (results : List Call) (offset minimum size flags : ℕ) (meanwhile : ℕ → ℕ)
    → IsAnswered results (size - offset)
    → size < 2 ^ 32
    → ((Kq.io_read results offset minimum size flags meanwhile
          ≡ Transfer.io_read results offset minimum size flags meanwhile)
        × (Ur.io_read results offset minimum size
            ≡ moved offset (answer (Transfer.io_read results offset minimum size flags meanwhile))))
      × ((Kq.io_write results offset minimum size flags meanwhile
            ≡ Transfer.io_write results offset minimum size flags meanwhile)
          × (Ur.io_write results offset minimum size
              ≡ moved_option offset
                  (Transfer.io_write results offset minimum size flags meanwhile)))
transfers_agree results offset minimum size flags meanwhile ok small = (
  io_read_same results offset minimum size flags meanwhile ok small,
  io_write_same results offset minimum size flags meanwhile ok small,
)
