-- ===== src/Lib.antt =====
-- io-event: event loop primitives of Ruby's io-event gem, the extension in C under ext/io/event.
--
-- The program. A fiber that has to wait calls the selector of its event loop, which runs others until
-- the event that it waits for occurs. Below the selectors lie an intrusive list (list.h) and a growable
-- array (array.h). The part that all selectors share is a ready queue (selector/selector.c) of fibers
-- that can go on; the epoll selector (selector/epoll.c) keeps, for each descriptor, a list of the fibers
-- that wait on it and the union of their events, registers that union with the kernel, and resumes
-- fibers on a report. The kqueue selector (selector/kqueue.c) does the same with filters that fire once,
-- for descriptors and processes alike. The io_uring selector (selector/uring.c) queues an operation for
-- each fiber that waits, with a completion that points back at the fiber, and resumes it when the entry
-- of the operation comes back. An interrupt (interrupt.c) wakes up a selector that blocks, from another thread.
-- The worker pool (worker_pool.c) executes blocking operations on threads of its own.
--
-- The files, and the code that each models:
--   Base: shared names, tests on the native numbers, lists, masks, integers, commands that may fault.
--   Links: doubly linked chains over two address maps, for the list and the ready queue.
--   List (list.h): `IO_Event_List_append` is `append`, and so on. Shape has the invariant `IsList`,
--     Update what the operations do to it, Visit the traversals.
--   Array (array.h): `IO_Event_Array_lookup` is `lookup`, and so on. Shape has the invariant, Grow
--     and Slots the growth, Lookup the map that an array stands for, Truncate and Release the elements.
--   System, Time (time.c), Interrupt (interrupt.c over an eventfd; its Pipe over a pipe), Fiber (fiber.c).
--   Selector (selector/selector.c, selector/selector.h): the ready queue. Queue has its invariant,
--     Resume the calls that wait in it, Flush the loop over it, Visit the walks of the collector, Outside
--     what it leaves alone.
--   WorkerPool (worker_pool.c): Queue has the work queue, Steps the threads as a transition system and
--     its invariant, Progress what becomes of queued work, Call the wait of a caller, Statistics.
--   EPoll (selector/epoll.c): Flags, Update, Watchable and Waiting for the registration of events,
--     Handle for `IO_Event_Selector_EPoll_handle`, Wait for `io_wait`, Process for `process_wait`,
--     Transfer for `io_read` and `io_write`, Life for open, close and wakeup, Timeout and Select for
--     `select`, Visit for the walks of the collector.
--   KQueue (selector/kqueue.c): Register for what the kernel watches, Handle for
--     `IO_Event_Selector_KQueue_handle`, Select for `select` and wakeup, Wait for `io_wait` and
--     `process_wait`, Transfer for `io_read` and `io_write`, Life for open, close and the collector.
--   Uring (selector/uring.c): the completions; Completions and Owned have what is kept of them. Ring has
--     the submission queue (`io_uring_submit_all`, `io_get_sqe`), Complete `select_process_completions`,
--     Wait the operations that a fiber waits for (Reserve up to the suspension, Finish and Return after it), Process `process_wait` over waitid and, in OnDescriptor,
--     over a pidfd, Select `select`, Transfer
--     `io_read`, `io_write`, `io_pread` and `io_pwrite`, Flags the flags of poll, Life open and close,
--     Visit the walks of the collector and wakeup.
--   Agreement: the transfers of the three selectors, compared.
--   Tests: concrete runs.
--
-- How state is modelled. Addresses are numbers, 0 is `NULL`; a struct that is linked by pointers is one
-- map from addresses for each field, and a read or write through `NULL` or a failed assertion of list.h
-- is `none`. Numbers of a machine width wrap as they do in C. Ruby's runtime (fibers, exceptions, the
-- allocator), the kernel (epoll_ctl, epoll_wait, kevent, eventfd, read, write, the clock), liburing and the
-- threads of the pool are parameters: records of functions with the laws that their manuals state, or answers
-- that are given as arguments. A fiber that is resumed may change the whole state.
--
-- Fuel. A loop that the source writes with `while` takes fuel: one round for each node and one more for
-- the loops over a list or a queue, 64 for the doubling of an array, which has as many rounds as a
-- `size_t` has bits; a submission of the ring, one round for each entry and for each time at which the
-- ring is busy, and one more. A loop over results of the kernel is a recursion on the list of them.
--
-- Not modelled: on io_uring, the wait for a process with `WNOWAIT`; on kqueue, the variant with an
-- interrupt instead of `EVFILT_USER`; times as floats, the methods that only unwrap Ruby objects, class
-- initialisation, and the Ruby library.
pub mod Base
pub mod Links
pub mod List
pub mod Array
pub mod System
pub mod Time
pub mod Interrupt
pub mod Fiber
pub mod Selector
pub mod WorkerPool
pub mod EPoll
pub mod Uring
pub mod KQueue
pub mod Agreement
pub mod Tests
