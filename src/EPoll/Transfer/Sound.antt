-- ===== src/EPoll/Transfer/Sound.antt =====
-- What `io_read` and the loop of epoll.c below it promise, and the flags of a file that is shared.
use io_event.EPoll.Transfer.{
  blocked, o_nonblock, failed, minus, transferred, nonblock_restore, Ending, transfer_loop,
  Transferred, Request, nonblock_set,
}
use io_event.Base.{
  ==-refl, subst, ℕ, ◌+◌, ◌-◌, ◌%◌, ◌^◌, ◌≤◌, ◌<◌, ◌≡◌, ◌≢◌, refl, ◌∙◌, ◌⊎◌, inl, inr, Bool, true,
  false, ◌&&◌, ◌||◌, List, [], ◌∷◌, arith, ltb, leb, ◌==◌, Bool-cases,
}
use Prim.Native.Nat.{bit_and, bit_or}
use io_event.Base.Bits.{or_right, and_comm}
use io_event.System.{Call, success, failure, try_again, einval}

-- read(2) and write(2) transfer no more than they are asked for.
abbrev pub IsAnswered : List Call → (maximum_size : ℕ) → Type 0
IsAnswered [] m = Unit
IsAnswered (success n ∷ results) m = (n ≤ m) × IsAnswered results (m - n)
IsAnswered (failure e ∷ results) m = IsAnswered results m

-- One of the results is the end of the file.
abbrev pub has_end : List Call → Bool
has_end [] = false
has_end (success n ∷ results) = (n == 0) || has_end results
has_end (failure e ∷ results) = has_end results

-- One of the results is the error `e`.
abbrev pub has_failure : ℕ → List Call → Bool
has_failure e [] = false
has_failure e (success n ∷ results) = has_failure e results
has_failure e (failure e' ∷ results) = (e == e') || has_failure e results

-- The requests are for the rest of a buffer of `size` bytes, each from where the bytes end that the
-- results of those before it moved, on top of `total`.
abbrev pub Follows : (total size : ℕ) → List Request → List Call → Type 0
Follows total size [] results = Unit
Follows total size (r ∷ rs) [] = ⊥
Follows total size (r ∷ rs) (success n ∷ results) =
    (r.offset ≡ total) × (r.offset + r.size ≡ size) × Follows (total + n) size rs results
Follows total size (r ∷ rs) (failure e ∷ results) =
    (r.offset ≡ total) × (r.offset + r.size ≡ size) × Follows total size rs results

-- The bytes that the answered requests moved.
abbrev pub bytes_moved : List Request → List Call → ℕ
bytes_moved [] results = 0
bytes_moved (r ∷ rs) [] = 0
bytes_moved (r ∷ rs) (success n ∷ results) = n + bytes_moved rs results
bytes_moved (r ∷ rs) (failure e ∷ results) = bytes_moved rs results

-- How a transfer can end after the requests: with the number of bytes that they moved, on top of
-- `total`, which are all that there is room for, or at least the minimum, or the file has ended; with an
-- error of one of the calls; or waiting, while the file has not ended.
abbrev pub Ends :
    (results : List Call) (requests : List Request) (total minimum maximum_size : ℕ)
    → Ending
    → Type 0
Ends results rs total minimum m (transferred k) =
    (k ≡ total + bytes_moved rs results)
    × (k ≤ total + m)
    × ((k ≡ total + m) ⊎ ((total + minimum ≤ k) ⊎ (has_end results ≡ true)))
Ends results rs total minimum m (failed e) = has_failure e results ≡ true
Ends results rs total minimum m blocked = has_end results ≡ false

Ends-later :
    (results : List Call) (q : Request) (rs : List Request) (n total minimum m : ℕ) (r : Ending)
    → n ≤ m
    → (n == 0) ≡ false
    → leb minimum n ≡ false
    → Ends results rs (total + n) (minimum - n) (m - n) r
    → Ends (success n ∷ results) (q ∷ rs) total minimum m r
Ends-later results q rs n total minimum m (transferred k) le some_bytes more (sum, high, why) =
    (omega (arith, sum), omega (arith, high, le), ground (arith, why, le, some_bytes, more))
Ends-later results q rs n total minimum m (failed e) le some_bytes more h = h
Ends-later results q rs n total minimum m blocked le some_bytes more h = rw some_bytes h

Ends-retry :
    (results : List Call) (q : Request) (rs : List Request) (e total minimum m : ℕ) (r : Ending)
    → Ends results rs total minimum m r
    → Ends (failure e ∷ results) (q ∷ rs) total minimum m r
Ends-retry results q rs e total minimum m (transferred k) h = h
Ends-retry results q rs e total minimum m (failed e') h = ground (arith, h)
Ends-retry results q rs e total minimum m blocked h = h

-- A transfer into or out of a buffer of less than 2 ^ 64 bytes: all calls ask for the rest of the
-- buffer, from where the last one stopped, and the loop ends as it may.
pub transfer_loop_lem :
    (results : List Call) (total minimum maximum_size : ℕ)
    → IsAnswered results maximum_size
    → total + maximum_size < 2 ^ 64
    → minimum < 2 ^ 64
    → Follows total
        (total + maximum_size)
        (transfer_loop results total minimum maximum_size).1
        results
      × Ends results
          (transfer_loop results total minimum maximum_size).1
          total
          minimum
          maximum_size
          (transfer_loop results total minimum maximum_size).0
unfolding transfer_loop
transfer_loop_lem [] total minimum m ok small short = elim (Bool-cases (m == 0)) [
  | inl e ↦ simp e (tt, (omega arith, omega arith, inl (ground (arith, e))))
  | inr e ↦ simp e (tt, refl)
]
transfer_loop_lem (success n ∷ results) total minimum m ok small short =
    elim (Bool-cases (m == 0)) [
      | inl e ↦ simp e (tt, (omega arith, omega arith, inl (ground (arith, e))))
      | inr e ↦ elim (Bool-cases (n == 0)) [
        | inl e' ↦
            simp (e, e') ((refl, refl, tt), (ground (arith, e'), omega arith, inr (inr refl)))
        | inr e' ↦
            let sum : (total + n) % 2 ^ 64 ≡ total + n = omega (arith, ok.0) in
            elim (Bool-cases (leb minimum n)) [
              | inl e'' ↦
                  simp (e, e', e'', sum)
                    (
                      (refl, refl, tt),
                      (omega arith, omega (arith, ok.0), inr (inl (ground (arith, e'')))),
                    )
              | inr e'' ↦
                  let left : minus minimum n ≡ minimum - n = ground (arith, e'') in
                  let room : minus m n ≡ m - n = omega (arith, ok.0) in
                  let (inside, ends) =
                    transfer_loop_lem results (total + n) (minimum - n) (m - n) ok.1
                      (omega (arith, ok.0)) (omega arith) in
                  let r = transfer_loop results (total + n) (minimum - n) (m - n) in
                  let whole : total + n + (m - n) ≡ total + m = omega (arith, ok.0) in
                  simp (e, e', e'', sum, left, room)
                    (
                      (refl, refl, subst (λ z. Follows (total + n) z r.1 results) whole inside),
                      Ends-later results (record { offset = total; size = m }) r.1 n total minimum m
                          r.0 ok.0 e' e'' ends,
                    )
            ]
      ]
    ]
transfer_loop_lem (failure e ∷ results) total minimum m ok small short =
    elim (Bool-cases (m == 0)) [
      | inl z ↦ simp z (tt, (omega arith, omega arith, inl (ground (arith, z))))
      | inr z ↦ elim (Bool-cases (ltb 0 minimum && try_again e)) [
        | inl again ↦
            let (inside, ends) = transfer_loop_lem results total minimum m ok small short in
            let r = transfer_loop results total minimum m in
            simp (z, again)
              (
                (refl, refl, inside),
                Ends-retry results (record { offset = total; size = m }) r.1 e total minimum m r.0
                    ends,
              )
        | inr stop ↦ simp (z, stop) ((refl, refl, tt), rw (==-refl e) refl)
      ]
    ]

-- The loop has asked for what it should, has restored the flags, and ends as it may.
pub record IsSound (results : List Call) (offset minimum size flags : ℕ) (t : Transferred)
    : Type 0 where
  pub inside : Follows 0 (size - offset) t.requests results
  pub flags_restored : t.ending ≢ blocked → t.flags ≡ flags
  pub ends : offset < size → Ends results t.requests 0 minimum (size - offset) t.ending
  pub refused : size < offset → t.ending ≡ failed einval

-- Two fibers use a file that was blocking. If the one that began last ends first, the file has its
-- flags back in the end. If the one that began first ends first, it makes the file blocking again
-- while the other, which found it nonblocking and does not restore anything, still uses it.
pub nonblock_overlaps :
    (flags : ℕ)
    → bit_and flags o_nonblock ≡ 0
    → (nonblock_restore (nonblock_set flags).0 (
          nonblock_restore
            (nonblock_set (nonblock_set flags).1).0
            (nonblock_set (nonblock_set flags).1).1)
        ≡ flags)
      × ((bit_and (nonblock_set (nonblock_set flags).1).0 o_nonblock == 0) ≡ false)
      × (bit_and
            (nonblock_restore (nonblock_set flags).0 (nonblock_set (nonblock_set flags).1).1)
            o_nonblock
          ≡ 0)
unfolding nonblock_set nonblock_restore
nonblock_overlaps flags blocking =
    let on : bit_and (bit_or flags o_nonblock) o_nonblock ≡ o_nonblock =
      and_comm (bit_or flags o_nonblock) o_nonblock ∙ or_right flags o_nonblock in
    simp (blocking, on) (refl, refl, refl)
