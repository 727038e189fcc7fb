-- ===== src/EPoll/Transfer.antt =====
-- `io_read_loop` and `io_write_loop` of epoll.c, which are one loop over two system calls. The
-- results of `read` or `write` are an argument, one for each round.
pub mod Sound
use io_event.Base.{
  ==-refl, subst, ℕ, ◌+◌, ◌-◌, ◌%◌, ◌^◌, ◌≤◌, ◌<◌, ◌≡◌, refl, ◌∙◌, ◌⊎◌, inl, inr, Bool, true, false,
  ◌&&◌, ◌||◌, Option, none, some, List, [], ◌∷◌, arith, ltb, leb, ◌==◌, if◌then◌else◌, Bool-cases,
}
use Prim.Native.Nat.{bit_and, bit_or}
use io_event.Base.Bits.{or_right, and_comm}
use io_event.System.{Call, success, failure, try_again, einval}

-- How the loop ends: with the result of `rb_fiber_scheduler_io_result`, a number of bytes or an error
-- number; or while it waits for the descriptor, after the last of the results.
pub data Ending : Type 0 where
  transferred : ℕ → Ending
  failed : ℕ → Ending
  blocked : Ending

-- One call: how many bytes it was asked for, from which offset.
pub record Request : Type 0 where
  pub offset : ℕ
  pub size : ℕ

abbrev pub log : (offset size : ℕ) → Ending × List Request → Ending × List Request
log offset size (e, rs) = (e, record { offset = offset; size = size } ∷ rs)

-- `size_t` subtraction.
abbrev pub minus : ℕ → ℕ → ℕ
minus a b = (a + 2 ^ 64 - b) % 2 ^ 64

-- The loop: how it ends, and the calls that it makes, `minimum` for the source's `length`. Where the
-- source waits for the descriptor, the next result is the one after the wait.
unfoldable pub transfer_loop :
    (results : List Call) (total minimum maximum_size : ℕ) → Ending × List Request
transfer_loop [] total minimum maximum_size =
    if maximum_size == 0 then (transferred total, []) else (blocked, [])
transfer_loop (success n ∷ results) total minimum maximum_size =
    let total' = (total + n) % 2 ^ 64 in
    let rest = transfer_loop results total' (minus minimum n) (minus maximum_size n) in
    if maximum_size == 0
    then (transferred total, [])
    else log total maximum_size (
        if n == 0
        then (transferred total, [])
        else (if leb minimum n then (transferred total', []) else rest))
transfer_loop (failure e ∷ results) total minimum maximum_size =
    let rest = transfer_loop results total minimum maximum_size in
    if maximum_size == 0
    then (transferred total, [])
    else log total maximum_size (if ltb 0 minimum && try_again e then rest else (failed e, []))

abbrev pub o_nonblock : ℕ
o_nonblock = 2048

-- `IO_Event_Selector_nonblock_set`, on the flags of the file: what it returns, and the flags then.
pub nonblock_set : (flags : ℕ) → ℕ × ℕ
nonblock_set flags =
    (flags, if bit_and flags o_nonblock == 0 then bit_or flags o_nonblock else flags)

-- `IO_Event_Selector_nonblock_restore`, with what the other returned, on the flags now.
pub nonblock_restore : (flags now : ℕ) → ℕ
nonblock_restore flags now = if bit_and flags o_nonblock == 0 then flags else now

-- How `io_read` and `io_write` come back, and the flags of the file then.
pub record Transferred : Type 0 where
  pub ending : Ending
  pub requests : List Request
  pub flags : ℕ

-- The flags of the file: as `rb_ensure` restores them at the end, or as they are while the loop waits.
abbrev pub ensured : Ending → (saved now : ℕ) → ℕ
unfolding nonblock_restore
ensured (transferred n) saved now = nonblock_restore saved now
ensured (failed e) saved now = nonblock_restore saved now
ensured blocked saved now = now

-- `rb_ensure` around the loop: `meanwhile` is what others make of the flags while it waits.
unfoldable pub transfer :
    (results : List Call) (offset minimum size flags : ℕ) (meanwhile : ℕ → ℕ) → Transferred
unfolding transfer_loop nonblock_set ensured
transfer results offset minimum size flags meanwhile =
    let (saved, during) = nonblock_set flags in
    let (ending, requests) = transfer_loop results 0 minimum (size - offset) in
    record { ending = ending; requests = requests; flags = ensured ending saved (meanwhile during) }

-- `IO_Event_Selector_EPoll_io_read` on a buffer of `size` bytes; the requests are relative to `offset`.
unfoldable pub io_read :
    (results : List Call) (offset minimum size flags : ℕ) (meanwhile : ℕ → ℕ) → Transferred
unfolding transfer
io_read results offset minimum size flags meanwhile =
    if ltb size offset
    then record { ending = failed einval; requests = []; flags = flags }
    else (if offset == size
        then record { ending = transferred 0; requests = []; flags = flags }
        else transfer results offset minimum size flags meanwhile)

-- `IO_Event_Selector_EPoll_io_write`; `none` is the `RuntimeError` on the length.
unfoldable pub io_write :
    (results : List Call) (offset minimum size flags : ℕ) (meanwhile : ℕ → ℕ) → Option Transferred
unfolding transfer
io_write results offset minimum size flags meanwhile =
    if ltb size minimum
    then none
    else (if ltb size offset
        then some (record { ending = failed einval; requests = []; flags = flags })
        else (if offset == size
            then some (record { ending = transferred 0; requests = []; flags = flags })
            else some (transfer results offset minimum size flags meanwhile)))
