-- ===== src/EPoll/Select.antt =====
-- `IO_Event_Selector_EPoll_select`: one round of the event loop.
pub mod Blocks
use io_event.Base.{
  ltb→lt, not_ltb→le, ==-refl, eq_nil_of_length, get_elem?-ge_length, dec_lt, ℕ_discrete,
  get_elem?-set, get_elem?-append_lt, get_elem?-append_ge, get_elem?-replicate, get_elem?-lt_length,
  append_assoc, ne_of_mem, and_then, subst, ne→==, append-nil, Cmd, ◌>>=◌, ◌>>◌, pure, assert,
  IsDistinct-insert, has-append_comm, IsDistinct-append_comm, IsDistinct-remove, ℕ, zero, suc, ◌+◌,
  ◌-◌, ◌*◌, ◌/◌, ◌%◌, ◌^◌, ◌≤◌, ◌<◌, ◌≡◌, refl, sym, ap, ◌∙◌, ◌≢◌, ◌↔◌, ◌⊎◌, inl, inr, Bool, true,
  false, not, ◌&&◌, ◌||◌, Option, none, some, List, [], ◌∷◌, ◌++◌, arith, Ptr, null, update, ltb,
  leb, ◌==◌, if◌then◌else◌, ==_iff, Bool-cases, Option-cases, length, get_elem?, get_or, set, take,
  drop, replicate, length-append, length-set, length-replicate, has, ◌∈◌, ◌∉◌, IsDistinct,
  has-append,
}
use io_event.Base.Int.{ℤ, pos}
use io_event.EPoll.Timeout.{Duration, make_timeout, select_blocking_allowed, make_timeout_ms}
use io_event.List
use io_event.System.{Call, success, failure, eintr, enosys}
use io_event.Time.{Timespec, elapsed}
use io_event.Array.{Error}
use io_event.Interrupt.{EventFd, Checked, clear}
use io_event.Interrupt
use io_event.Fiber.{Ruby}
use io_event.Selector.{Selector, Reply}
use io_event.Selector.Flush.{Flushed, counted, ready_flush}
use io_event.Selector.Flush
use io_event.EPoll.{EPoll, Kernel, Answers, on_links}
use io_event.EPoll.Handle.{Handled, updated, not_found, stopped, handle, on_poll}
use io_event.EPoll.Handle

-- `struct epoll_event`: the descriptor, `none` for the -1 of the interrupt, and the flags.
pub record Event : Type 0 where
  pub fd : Option ℕ
  pub flags : ℕ

-- What epoll_wait(2) returns: at most the events asked for, or an error number.
pub data Polled : Type 0 where
  events : List Event → Polled
  error : ℕ → Polled

-- `enosys_error`
unfoldable enosys_error : Polled → Bool
enosys_error (events es) = false
enosys_error (error e) = e == enosys

-- What a wait of the selector gives it: the events, none after `EINTR`, or `rb_syserr_fail`.
pub data Found : Type 0 where
  found : List Event → Found
  syserr_fail : ℕ → Found

abbrev pub checked : Polled → Found
checked (events es) = found es
checked (error e) = if e == eintr then found [] else syserr_fail e

-- epoll_pwait2(2), epoll_wait(2), the monotonic clock, and whether `rb_nogvl` leaves out the call for
-- an interrupt that is pending.
pub record Poller (K : Type 0) : Type 0 where
  pub epoll_pwait2 : Option Timespec → K → Polled × K
  pub epoll_wait : (timeout : ℤ) → K → Polled × K
  pub now : K → Timespec
  pub pending_interrupt : K → Bool

-- How `IO_Event_Selector_EPoll_select` comes back: with the number of events, or otherwise.
pub data Selected : Type 0 where
  selected : ℕ → Selected
  flush_stopped : Flushed → Selected
  poll_failed : ℕ → Selected
  handle_stopped : Handled → Selected
  clear_failed : ℕ → Selected

module _ {K : Type 0} where
  -- `select_internal`, where the system has `epoll_pwait2`
  pub select_internal : Poller K → Option Timespec → K → Polled × K
  unfolding enosys_error
  select_internal poller timeout k =
      let (r, k') = poller.epoll_pwait2 timeout k in
      if enosys_error r then poller.epoll_wait (make_timeout_ms timeout) k' else (r, k')

  abbrev pub set_kernel : K → Selector (EPoll K) → Selector (EPoll K)
  set_kernel k s = record s { outside = record s.outside { kernel = k } }

  -- `select_internal_with_gvl`
  pub select_internal_with_gvl :
      Poller K → Option Timespec → Selector (EPoll K) → Found × Selector (EPoll K)
  select_internal_with_gvl poller timeout s =
      let (r, k) = select_internal poller timeout s.outside.kernel in (checked r, set_kernel k s)

  -- `select_internal_without_gvl` with `IO_Event_Selector_blocking_operation`: `blocked` is set while
  -- the call runs.
  pub select_internal_without_gvl :
      Poller K → Option Timespec → Selector (EPoll K) → Found × Selector (EPoll K)
  select_internal_without_gvl poller timeout s =
      let t = record s { blocked = 1 } in
      let (r, k) =
        if poller.pending_interrupt t.outside.kernel
        then (error eintr, t.outside.kernel)
        else select_internal poller timeout t.outside.kernel in
      (checked r, record (set_kernel k t) { blocked = 0 })

  abbrev pub set_idle : Timespec → Selector (EPoll K) → Selector (EPoll K)
  set_idle duration s = record s { outside = record s.outside { idle_duration = duration } }

  -- How long the second wait took, unless it has failed, which raises before that.
  abbrev pub set_elapsed :
      Poller K → (start_time : Timespec) → Found × Selector (EPoll K) → Found × Selector (EPoll K)
  set_elapsed poller start_time (found es, s) =
      (found es, set_idle (elapsed start_time (poller.now s.outside.kernel)) s)
  set_elapsed poller start_time (syserr_fail e, s) = (syserr_fail e, s)

  -- The second wait of `IO_Event_Selector_EPoll_select`, if it is entered, and how long it took.
  pub select_blocking : Poller K → Duration → Selector (EPoll K) → Found × Selector (EPoll K)
  unfolding select_internal_without_gvl
  select_blocking poller duration s =
      let timeout = make_timeout duration in
      let start_time = poller.now s.outside.kernel in
      if select_blocking_allowed timeout
      then set_elapsed poller start_time (select_internal_without_gvl poller timeout s)
      else (found [], s)

  -- Whether the flush and the first wait leave nothing to do.
  abbrev pub is_idle : (ready : ℕ) → List Event → Selector (EPoll K) → Bool
  is_idle ready [] s = (ready == 0) && (s.ready == null)
  is_idle ready es s = false

  -- What follows the first wait.
  abbrev pub after_poll :
      Poller K → Duration → (ready : ℕ) → Found × Selector (EPoll K) → Found × Selector (EPoll K)
  after_poll poller duration ready (found es, s) =
      if is_idle ready es s then select_blocking poller duration s else (found es, s)
  after_poll poller duration ready (syserr_fail e, s) = (syserr_fail e, s)

  -- Both waits.
  pub select_events :
      Poller K → Duration → (ready : ℕ) → Selector (EPoll K) → Found × Selector (EPoll K)
  unfolding select_internal_with_gvl
  select_events poller duration ready s =
      let zero_timeout : Timespec = record { tv_sec = pos 0; tv_nsec = pos 0 } in
      after_poll poller duration ready (select_internal_with_gvl poller (some zero_timeout) s)

  module _ (ruby : Ruby (Selector (EPoll K))) (kernel : Kernel K) (fd : EventFd K) (fuel : ℕ)
      (saved : Ptr) where
    -- The loop of `select_handle_events` over the events, with the answers of the allocator for each;
    -- `count` is `arguments->result`.
    pub select_handle_events :
        (ℕ → Answers) → (i count : ℕ) → List Event → Cmd (Selector (EPoll K)) Selected
    select_handle_events answers i count [] s = some (selected count, s)
    select_handle_events answers i count (event ∷ es) s = elim event.fd [
      | some descriptor ↦
          and_then (handle ruby kernel fuel (answers i) descriptor event.flags saved s) λ r t.
            elim r [
              | updated c ↦ select_handle_events answers (i + 1) count es t
              | not_found e ↦ some (handle_stopped (not_found e), t)
              | stopped how ↦ some (handle_stopped (stopped how), t)
            ]
      | none ↦
          let (c, k) = clear fd s.outside.kernel in
          elim c [
            | Interrupt.returned ↦ select_handle_events answers (i + 1) count es (set_kernel k s)
            | Interrupt.sys_fail e ↦ some (clear_failed e, set_kernel k s)
          ]
    ]

    -- `rb_ensure` with `select_handle_events_ensure`: the mark leaves whatever list it stands in.
    abbrev pub ensure_unmarked :
        Option (Selected × Selector (EPoll K)) → Option (Selected × Selector (EPoll K))
    ensure_unmarked none = none
    ensure_unmarked (some (r, s)) =
        and_then (on_poll (on_links (List.free saved)) s) (λ _ t. some (r, t))

    -- The end of `IO_Event_Selector_EPoll_select`.
    abbrev pub handle_found :
        (ℕ → Answers) → Found × Selector (EPoll K) → Option (Selected × Selector (EPoll K))
    handle_found answers (found [], s) = some (selected 0, s)
    handle_found answers (found (e ∷ es), s) =
        ensure_unmarked (select_handle_events answers 0 (length (e ∷ es)) (e ∷ es) s)
    handle_found answers (syserr_fail e, s) = some (poll_failed e, s)

    abbrev pub clear_mark : Selector (EPoll K) → Selector (EPoll K)
    clear_mark s = record s {
      outside = record s.outside {
        links = record s.outside.links {
          head = update s.outside.links.head saved null;
          tail = update s.outside.links.tail saved null;
        };
      };
    }

    -- What follows the flush.
    abbrev pub after_flush :
        Poller K → Duration → (ℕ → Answers) → Flushed → Cmd (Selector (EPoll K)) Selected
    after_flush poller duration answers (counted ready) s =
        handle_found answers (select_events poller duration ready (clear_mark s))
    after_flush poller duration answers how s = some (flush_stopped how, s)

    -- `IO_Event_Selector_EPoll_select`; `saved` is the mark on the stack.
    pub select : Poller K → Duration → (ℕ → Answers) → Cmd (Selector (EPoll K)) Selected
    select poller duration answers s =
        let start = set_idle (record { tv_sec = pos 0; tv_nsec = pos 0 }) s in
        and_then (ready_flush ruby fuel start) (after_flush poller duration answers)
