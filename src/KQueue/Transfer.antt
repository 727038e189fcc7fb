-- ===== src/KQueue/Transfer.antt =====
-- `io_read_loop` and `io_write_loop` of kqueue.c, and `IO_Event_Selector_KQueue_io_read` and
-- `IO_Event_Selector_KQueue_io_write` around them. The results of `read` or `write` are an argument.
use io_event.System.{einval, try_again, failure, success, Call}
use io_event.EPoll.Transfer.{
  Transferred, failed, log, minus, blocked, transferred, Request, ensured, Ending, nonblock_set,
}
use io_event.Base.{
  ℕ, ◌+◌, ◌%◌, ◌^◌, ◌&&◌, Option, none, some, List, [], ◌∷◌, ltb, leb, ◌==◌, if◌then◌else◌,
}

-- The loop: how it ends, and the calls that it makes, `minimum` for the source's `length`.
unfoldable pub transfer_loop :
    (results : List Call) (total minimum maximum_size : ℕ) → Ending × List Request
transfer_loop [] total minimum maximum_size =
    if maximum_size == 0 then (transferred total, []) else (blocked, [])
transfer_loop (success n ∷ results) total minimum maximum_size =
    let total' = (total + n) % 2 ^ 64 in
    let rest = transfer_loop results total' (minus minimum n) (minus maximum_size n) in
    if maximum_size == 0
    then (transferred total, [])
    else log total maximum_size (
        if n == 0
        then (transferred total, [])
        else (if leb minimum n then (transferred total', []) else rest))
transfer_loop (failure e ∷ results) total minimum maximum_size =
    let rest = transfer_loop results total minimum maximum_size in
    if maximum_size == 0
    then (transferred total, [])
    else log total maximum_size (if ltb 0 minimum && try_again e then rest else (failed e, []))

-- `rb_ensure` around the loop: `meanwhile` is what others make of the flags while it waits.
abbrev transfer : (results : List Call) (minimum size flags : ℕ) (meanwhile : ℕ → ℕ) → Transferred
unfolding transfer_loop
transfer results minimum size flags meanwhile =
    let (saved, during) = nonblock_set flags in
    let (ending, requests) = transfer_loop results 0 minimum size in
    record { ending = ending; requests = requests; flags = ensured ending saved (meanwhile during) }

-- `IO_Event_Selector_KQueue_io_read`
unfoldable pub io_read :
    (results : List Call) (offset minimum size flags : ℕ) (meanwhile : ℕ → ℕ) → Transferred
unfolding transfer_loop
io_read results offset minimum size flags meanwhile =
    if ltb size offset
    then record { ending = failed einval; requests = []; flags = flags }
    else (if offset == size
        then record { ending = transferred 0; requests = []; flags = flags }
        else transfer results minimum (minus size offset) flags meanwhile)

-- `IO_Event_Selector_KQueue_io_write`; `none` is the `RuntimeError` on the length.
unfoldable pub io_write :
    (results : List Call) (offset minimum size flags : ℕ) (meanwhile : ℕ → ℕ) → Option Transferred
unfolding transfer_loop
io_write results offset minimum size flags meanwhile =
    if ltb size minimum
    then none
    else (if ltb size offset
        then some (record { ending = failed einval; requests = []; flags = flags })
        else (if offset == size
            then some (record { ending = transferred 0; requests = []; flags = flags })
            else some (transfer results minimum (minus size offset) flags meanwhile)))
