-- ===== src/Agreement/Loops.antt =====
-- The loops of `io_read` and `io_write` in epoll.c, kqueue.c and uring.c, compared.
use io_event.System.{try_again, failure, success, Call}
use io_event.EPoll.Transfer.Sound.{IsAnswered}
use io_event.EPoll.Transfer.{
  ensured, nonblock_set, Transferred, failed, transferred, minus, log, Ending, Request,
}
use io_event.Base.{
  none, some, Option, true, false, sym, ◌∙◌, ◌-◌, ℕ, ◌+◌, ◌%◌, ◌^◌, ◌<◌, ◌≡◌, refl, ap, inl, inr,
  ◌&&◌, List, [], ◌∷◌, arith, ltb, leb, ◌==◌, if◌then◌else◌, Bool-cases,
}
use io_event.EPoll.Transfer
use io_event.KQueue.Transfer as Kq
use io_event.Uring.Transfer as Ur

-- The end of a loop and its requests, with the flags of the file around them.
abbrev pub at_flags : Ending × List Request → (flags : ℕ) (meanwhile : ℕ → ℕ) → Transferred
at_flags (ending, requests) flags meanwhile =
    let (saved, during) = nonblock_set flags in
    record { ending = ending; requests = requests; flags = ensured ending saved (meanwhile during) }

abbrev pub answer : Transferred → Ending × List Request
answer t = (t.ending, t.requests)

-- The same requests, relative to a buffer that begins `k` bytes earlier.
abbrev pub shift : ℕ → List Request → List Request
shift k [] = []
shift k (r ∷ rs) = record { offset = k + r.offset; size = r.size } ∷ shift k rs

abbrev pub moved : ℕ → Ending × List Request → Ending × List Request
moved k (e, rs) = (e, shift k rs)

abbrev pub moved_option : ℕ → Option Transferred → Option (Ending × List Request)
moved_option k none = none
moved_option k (some t) = some (moved k (answer t))

log-moved :
    (k total offset size : ℕ) {r : Ending × List Request} (r' : Ending × List Request)
    → offset ≡ k + total
    → r ≡ moved k r'
    → log offset size r ≡ moved k (log total size r')
log-moved k total offset size r' same at =
    ap (log offset size) at ∙ ap (λ o. log o size (moved k r')) same

kqueue_loop :
    (results : List Call) (total minimum m : ℕ)
    → Kq.transfer_loop results total minimum m ≡ Transfer.transfer_loop results total minimum m
unfolding Kq.transfer_loop Transfer.transfer_loop
kqueue_loop [] total minimum m = refl
kqueue_loop (success n ∷ results) total minimum m =
    ap
      (λ (rest : Ending × List Request).
        if m == 0
        then (transferred total, [])
        else log total m (
            if n == 0
            then (transferred total, [])
            else (if leb minimum n then (transferred ((total + n) % 2 ^ 64), []) else rest)))
      (kqueue_loop results ((total + n) % 2 ^ 64) (minus minimum n) (minus m n))
kqueue_loop (failure e ∷ results) total minimum m =
    ap
      (λ (rest : Ending × List Request).
        if m == 0
        then (transferred total, [])
        else log total m (if ltb 0 minimum && try_again e then rest else (failed e, [])))
      (kqueue_loop results total minimum m)

pub uring_loop :
    (results : List Call) (k total offset minimum size m : ℕ)
    → IsAnswered results m
    → offset ≡ k + total
    → offset + m ≡ size
    → size < 2 ^ 32
    → Ur.ring_loop results total offset minimum size m
      ≡ moved k (Transfer.transfer_loop results total minimum m)
unfolding Ur.ring_loop Transfer.transfer_loop
uring_loop [] k total offset minimum size m ok at end small = elim (Bool-cases (m == 0)) [
  | inl e ↦ simp e refl
  | inr e ↦ simp e refl
]
uring_loop (success n ∷ results) k total offset minimum size m ok at end small =
    let fits : m % 2 ^ 32 ≡ m = omega (arith, end, small) in
    elim (Bool-cases (m == 0)) [
      | inl e ↦ simp e refl
      | inr e ↦ elim (Bool-cases (n == 0)) [
        | inl e' ↦ simp (e, e', fits) (log-moved k total offset m (transferred total, []) at refl)
        | inr e' ↦ elim (Bool-cases (leb minimum n)) [
          | inl e'' ↦
              simp (e, e', e'', fits)
                (log-moved k total offset m (transferred ((total + n) % 2 ^ 64), []) at refl)
          | inr e'' ↦
              let room : minus m n ≡ m - n = omega (arith, ok.0) in
              let rest : ℕ → Ending × List Request =
                λ l. Transfer.transfer_loop results ((total + n) % 2 ^ 64) (minus minimum n) l in
              let ih =
                uring_loop results k ((total + n) % 2 ^ 64) ((offset + n) % 2 ^ 64)
                  (minus minimum n) size (m - n) ok.1 (omega (arith, ok.0)) (omega (arith, ok.0))
                  small in
              simp (e, e', e'', fits)
                (log-moved k total offset m (rest (minus m n)) at (
                  ap
                    (Ur.ring_loop results ((total + n) % 2 ^ 64) ((offset + n) % 2 ^ 64)
                      (minus minimum n) size)
                    (omega (arith, ok.0))
                  ∙ ih
                  ∙ ap (λ l. moved k (rest l)) (sym room)))
        ]
      ]
    ]
uring_loop (failure e ∷ results) k total offset minimum size m ok at end small =
    let fits : m % 2 ^ 32 ≡ m = omega (arith, end, small) in
    elim (Bool-cases (m == 0)) [
      | inl z ↦ simp z refl
      | inr z ↦ elim (Bool-cases (ltb 0 minimum && try_again e)) [
        | inl again ↦
            simp (z, again, fits)
              (log-moved k total offset m (Transfer.transfer_loop results total minimum m) at (
                ap (Ur.ring_loop results total offset minimum size) (omega arith)
                ∙ uring_loop results k total offset minimum size m ok at end small))
        | inr stop ↦ simp (z, stop, fits) (log-moved k total offset m (failed e, []) at refl)
      ]
    ]

-- The one read of uring.c where nothing is asked for is the loop of epoll.c.
read_once_same :
    (results : List Call) (offset m : ℕ)
    → IsAnswered results m
    → (m == 0) ≡ false
    → m < 2 ^ 64
    → Ur.read_once results offset m ≡ moved offset (Transfer.transfer_loop results 0 0 m)
unfolding Transfer.transfer_loop
read_once_same [] offset m ok some_room small = simp some_room refl
read_once_same (success n ∷ results) offset m ok some_room small = elim (Bool-cases (n == 0)) [
  | inl e ↦
      let same : n ≡ 0 = ground (arith, e) in
      simp (some_room, e)
        (ap (λ k. log offset m (transferred k, [])) same
          ∙ log-moved offset 0 offset m (transferred 0, []) (omega arith) refl)
  | inr e ↦
      let low : leb 0 n ≡ true = ground arith in
      let short : (0 + n) % 2 ^ 64 ≡ n = omega (arith, ok.0) in
      simp (some_room, e, low, short)
        (log-moved offset 0 offset m (transferred n, []) (omega arith) refl)
]
read_once_same (failure e ∷ results) offset m ok some_room small =
    simp some_room (log-moved offset 0 offset m (failed e, []) (omega arith) refl)

pub kqueue_transfer :
    (results : List Call) (minimum m m' flags : ℕ) (meanwhile : ℕ → ℕ)
    → m' ≡ m
    → at_flags (Kq.transfer_loop results 0 minimum m') flags meanwhile
      ≡ at_flags (Transfer.transfer_loop results 0 minimum m) flags meanwhile
unfolding Kq.transfer_loop Transfer.transfer_loop
kqueue_transfer results minimum m m' flags meanwhile same =
    ap (λ (r : Ending × List Request). at_flags r flags meanwhile)
      (ap (Kq.transfer_loop results 0 minimum) same ∙ kqueue_loop results 0 minimum m)

-- `io_read` of uring.c, with room in the buffer.
pub ring_same :
    (results : List Call) (offset minimum size : ℕ)
    → IsAnswered results (size - offset)
    → offset + (size - offset) ≡ size
    → (size - offset == 0) ≡ false
    → size < 2 ^ 32
    → (if minimum == 0
        then Ur.read_once results offset (size - offset)
        else Ur.ring_loop results 0 offset minimum size (size - offset))
      ≡ moved offset (Transfer.transfer_loop results 0 minimum (size - offset))
unfolding Ur.ring_loop Transfer.transfer_loop
ring_same results offset minimum size ok whole room small = elim (Bool-cases (minimum == 0)) [
  | inl e ↦ rw e (
      read_once_same results offset (size - offset) ok room (omega arith)
      ∙ ap (λ n. moved offset (Transfer.transfer_loop results 0 n (size - offset)))
          (ground (arith, e)))
  | inr e ↦
      rw e (
        uring_loop results offset 0 offset minimum size (size - offset) ok (omega arith) whole
          small)
]
