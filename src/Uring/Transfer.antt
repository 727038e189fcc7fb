-- ===== src/Uring/Transfer.antt =====
-- `IO_Event_Selector_URing_io_read`, `io_write`, `io_pread` and `io_pwrite` of uring.c. What each `io_read`
-- or `io_write` on the ring gives is an argument, one result for each round.
use io_event.System.{try_again, failure, success, einval, Call}
use io_event.EPoll.Transfer.{log, minus, blocked, transferred, failed, Ending, Request}
use io_event.Base.{
  ℕ, ◌+◌, ◌-◌, ◌%◌, ◌^◌, ◌&&◌, Option, none, some, List, [], ◌∷◌, ltb, leb, ◌==◌, if◌then◌else◌,
}

-- The `unsigned nbytes` of `io_uring_prep_read` and `io_uring_prep_write`, from a `size_t`.
abbrev pub nbytes : ℕ → ℕ
nbytes length = length % 2 ^ 32

-- The loop of `io_read`, and of `io_write`; `minimum` is the source's `length`. Requests are relative to
-- the buffer. Where the source waits for the descriptor, the next result is the one after the wait.
unfoldable pub ring_loop :
    (results : List Call) (total offset minimum size maximum_size : ℕ) → Ending × List Request
ring_loop [] total offset minimum size maximum_size =
    if maximum_size == 0 then (transferred total, []) else (blocked, [])
ring_loop (success n ∷ results) total offset minimum size maximum_size =
    let total' = (total + n) % 2 ^ 64 in
    let offset' = (offset + n) % 2 ^ 64 in
    let rest = ring_loop results total' offset' (minus minimum n) size (minus size offset') in
    if maximum_size == 0
    then (transferred total, [])
    else log offset (nbytes maximum_size) (
        if n == 0
        then (transferred total, [])
        else (if leb minimum n then (transferred total', []) else rest))
ring_loop (failure e ∷ results) total offset minimum size maximum_size =
    let rest = ring_loop results total offset minimum size (minus size offset) in
    if maximum_size == 0
    then (transferred total, [])
    else log offset (nbytes maximum_size)
        (if ltb 0 minimum && try_again e then rest else (failed e, []))

-- The branch of `io_read` for a minimum of 0: one `read`, with the file made nonblocking for it.
abbrev pub read_once : (results : List Call) (offset maximum_size : ℕ) → Ending × List Request
read_once [] offset maximum_size = (blocked, [])
read_once (success n ∷ results) offset maximum_size = log offset maximum_size (transferred n, [])
read_once (failure e ∷ results) offset maximum_size = log offset maximum_size (failed e, [])

-- `IO_Event_Selector_URing_io_read` on a buffer of `size` bytes.
unfoldable pub io_read : (results : List Call) (offset minimum size : ℕ) → Ending × List Request
unfolding ring_loop
io_read results offset minimum size =
    if ltb size offset
    then (failed einval, [])
    else (if offset == size
        then (transferred 0, [])
        else (if minimum == 0
            then read_once results offset (size - offset)
            else ring_loop results 0 offset minimum size (size - offset)))

-- `IO_Event_Selector_URing_io_write`; `none` is the `RuntimeError` on the length.
unfoldable pub io_write :
    (results : List Call) (offset minimum size : ℕ) → Option (Ending × List Request)
unfolding ring_loop
io_write results offset minimum size =
    if ltb size minimum
    then none
    else (if ltb size offset
        then some (failed einval, [])
        else (if offset == size
            then some (transferred 0, [])
            else some (ring_loop results 0 offset minimum size (size - offset))))

-- A request at a position of the file.
pub record Positioned : Type 0 where
  pub request : Request
  pub from : ℕ

abbrev pub log_at : (offset size from : ℕ) → Ending × List Positioned → Ending × List Positioned
log_at offset size from (e, rs) =
    (e, record { request = record { offset = offset; size = size }; from = from } ∷ rs)

-- The loop of `io_pread`, and of `io_pwrite`.
pub positioned_loop :
    (results : List Call) (total offset from minimum size maximum_size : ℕ)
    → Ending × List Positioned
positioned_loop [] total offset from minimum size maximum_size =
    if maximum_size == 0 then (transferred total, []) else (blocked, [])
positioned_loop (success n ∷ results) total offset from minimum size maximum_size =
    let total' = (total + n) % 2 ^ 64 in
    let offset' = (offset + n) % 2 ^ 64 in
    let rest =
      positioned_loop results total' offset' (from + n) (minus minimum n) size
        (minus size offset') in
    if maximum_size == 0
    then (transferred total, [])
    else log_at offset (nbytes maximum_size) from (
        if n == 0
        then (transferred total, [])
        else (if leb minimum n then (transferred total', []) else rest))
positioned_loop (failure e ∷ results) total offset from minimum size maximum_size =
    let rest = positioned_loop results total offset from minimum size (minus size offset) in
    if maximum_size == 0
    then (transferred total, [])
    else log_at offset (nbytes maximum_size) from
        (if ltb 0 minimum && try_again e then rest else (failed e, []))

-- `IO_Event_Selector_URing_io_pread`
pub io_pread : (results : List Call) (offset from minimum size : ℕ) → Ending × List Positioned
unfolding positioned_loop
io_pread results offset from minimum size =
    if ltb size offset
    then (failed einval, [])
    else (if offset == size
        then (transferred 0, [])
        else positioned_loop results 0 offset from minimum size (size - offset))

-- `IO_Event_Selector_URing_io_pwrite`
pub io_pwrite :
    (results : List Call) (offset from minimum size : ℕ) → Option (Ending × List Positioned)
unfolding positioned_loop
io_pwrite results offset from minimum size =
    if ltb size minimum
    then none
    else (if ltb size offset
        then some (failed einval, [])
        else (if offset == size
            then some (transferred 0, [])
            else some (positioned_loop results 0 offset from minimum size (size - offset))))
