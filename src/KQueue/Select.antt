-- ===== src/KQueue/Select.antt =====
-- `IO_Event_Selector_KQueue_select`: one round of the event loop; and `IO_Event_Selector_KQueue_wakeup`.
use io_event.Base.Int.{pos}
use io_event.KQueue.Handle.{stopped, updated, on_queue, Handled, handle}
use io_event.Selector.Flush.{ready_flush, counted, Flushed}
use io_event.Fiber.{Ruby}
use io_event.Time.{elapsed, Timespec}
use io_event.Selector.{Selector}
use io_event.System.{success, failure, eintr, Call}
use io_event.EPoll.Timeout.{select_blocking_allowed, make_timeout, Duration}
use io_event.Base.{
  and_then, Cmd, ℕ, Bool, true, false, ◌&&◌, Option, none, some, List, [], ◌∷◌, Ptr, null, update,
  ◌==◌, if◌then◌else◌, length,
}
use Prim.Native.Nat.{bit_or}
use io_event.List
use io_event.KQueue.{
  note_trigger, ev_clear, evfilt_user, ev_add, Kevent, KQueue, Kernel, on_links, Filter,
  events_from_kevent_filter,
}

-- `struct kevent`, as far as the selector reads it of an event; `udata` is `NULL` for a wakeup.
pub record Event : Type 0 where
  pub ident : ℕ
  pub filter : Filter
  pub udata : Ptr

-- What kevent(2) returns of a wait: at most the events asked for, or an error number.
pub data Polled : Type 0 where
  events : List Event → Polled
  error : ℕ → Polled

-- What a wait of the selector gives it: the events, none after `EINTR`, or `rb_syserr_fail`.
pub data Found : Type 0 where
  found : List Event → Found
  syserr_fail : ℕ → Found

-- The test of `arguments->result` after a wait.
abbrev pub checked : Polled → Found
checked (events es) = found es
checked (error e) = if e == eintr then found [] else syserr_fail e

-- kevent(2) without changes, the monotonic clock, and whether `rb_nogvl` leaves out the call for an
-- interrupt that is pending.
pub record Poller (K : Type 0) : Type 0 where
  pub wait : (timeout : Option Timespec) (count : ℕ) → K → Polled × K
  pub now : K → Timespec
  pub pending_interrupt : K → Bool

-- `KQUEUE_MAX_EVENTS`
abbrev pub max_events : ℕ
max_events = 64

-- How `IO_Event_Selector_KQueue_select` comes back: with the number of events, or otherwise.
pub data Selected : Type 0 where
  selected : ℕ → Selected
  flush_stopped : Flushed → Selected
  poll_failed : ℕ → Selected
  handle_stopped : Handled → Selected

-- A turn of the first loop of `select_handle_events`.
abbrev pub mark_event : Event → (Ptr → ℕ) → Ptr → ℕ
mark_event event ready =
    if event.udata == null
    then ready
    else update ready event.udata
        (bit_or (ready event.udata) (events_from_kevent_filter event.filter))

-- The first loop: what is ready on each descriptor.
pub mark_events : List Event → (Ptr → ℕ) → Ptr → ℕ
mark_events [] ready = ready
mark_events (event ∷ es) ready = mark_events es (mark_event event ready)

-- How `IO_Event_Selector_KQueue_wakeup` comes back: whether the selector was blocked, or with
-- `rb_sys_fail`.
pub data Woken : Type 0 where
  woken : Bool → Woken
  wakeup_failed : ℕ → Woken

abbrev trigger : (flags fflags : ℕ) → Kevent
trigger flags fflags = record {
  ident = 0;
  filter = evfilt_user;
  flags = flags;
  fflags = fflags;
  udata = null;
}

module _ {K : Type 0} where
  abbrev pub set_kernel : K → Selector (KQueue K) → Selector (KQueue K)
  set_kernel k s = record s { outside = record s.outside { kernel = k } }

  -- `select_internal`
  abbrev pub select_internal : Poller K → Option Timespec → K → Polled × K
  select_internal poller timeout k = poller.wait timeout max_events k

  -- `select_internal_with_gvl`
  pub select_internal_with_gvl :
      Poller K → Option Timespec → Selector (KQueue K) → Found × Selector (KQueue K)
  select_internal_with_gvl poller timeout s =
      let (r, k) = select_internal poller timeout s.outside.kernel in (checked r, set_kernel k s)

  -- `select_internal_without_gvl` with `IO_Event_Selector_blocking_operation`: `blocked` is set while
  -- the call runs.
  pub select_internal_without_gvl :
      Poller K → Option Timespec → Selector (KQueue K) → Found × Selector (KQueue K)
  select_internal_without_gvl poller timeout s =
      let k = s.outside.kernel in
      let (r, k') =
        if poller.pending_interrupt k then (error eintr, k) else select_internal poller timeout k in
      (checked r, record (set_kernel k' s) { blocked = 0 })

  abbrev pub set_idle : Timespec → Selector (KQueue K) → Selector (KQueue K)
  set_idle duration s = record s { outside = record s.outside { idle_duration = duration } }

  -- How long the second wait took, unless it has failed, which raises before that.
  abbrev pub set_elapsed :
      Poller K → (start_time : Timespec) → Found × Selector (KQueue K) → Found × Selector (KQueue K)
  set_elapsed poller start_time (found es, s) =
      (found es, set_idle (elapsed start_time (poller.now s.outside.kernel)) s)
  set_elapsed poller start_time (syserr_fail e, s) = (syserr_fail e, s)

  -- The second wait of `IO_Event_Selector_KQueue_select`, if it is entered, and how long it took.
  pub select_blocking : Poller K → Duration → Selector (KQueue K) → Found × Selector (KQueue K)
  unfolding select_internal_without_gvl
  select_blocking poller duration s =
      let timeout = make_timeout duration in
      let start_time = poller.now s.outside.kernel in
      if select_blocking_allowed timeout
      then set_elapsed poller start_time (select_internal_without_gvl poller timeout s)
      else (found [], s)

  -- Whether the flush and the first wait leave nothing to do.
  abbrev pub is_idle : (ready : ℕ) → List Event → Selector (KQueue K) → Bool
  is_idle ready [] s = (ready == 0) && (s.ready == null)
  is_idle ready es s = false

  -- What follows the first wait.
  abbrev pub after_poll :
      Poller K → Duration → (ready : ℕ) → Found × Selector (KQueue K) → Found × Selector (KQueue K)
  after_poll poller duration ready (found es, s) =
      if is_idle ready es s then select_blocking poller duration s else (found es, s)
  after_poll poller duration ready (syserr_fail e, s) = (syserr_fail e, s)

  -- Both waits.
  pub select_events :
      Poller K → Duration → (ready : ℕ) → Selector (KQueue K) → Found × Selector (KQueue K)
  unfolding select_internal_with_gvl
  select_events poller duration ready s =
      let zero_timeout : Timespec = record { tv_sec = pos 0; tv_nsec = pos 0 } in
      after_poll poller duration ready (select_internal_with_gvl poller (some zero_timeout) s)

  module _ (ruby : Ruby (Selector (KQueue K))) (kernel : Kernel K) (fuel : ℕ) (saved : Ptr) where
    -- What follows `IO_Event_Selector_KQueue_handle` in the second loop, which ignores its result.
    abbrev pub after_handle :
        Cmd (Selector (KQueue K)) Selected → Handled → Cmd (Selector (KQueue K)) Selected
    after_handle rest (updated c) s = rest s
    after_handle rest (stopped how) s = some (handle_stopped (stopped how), s)

    -- The second loop; `count` is `arguments->result`.
    pub handle_events : (count : ℕ) → List Event → Cmd (Selector (KQueue K)) Selected
    handle_events count [] s = some (selected count, s)
    handle_events count (event ∷ es) s =
        if event.udata == null
        then handle_events count es s
        else and_then (handle ruby kernel fuel event.ident event.udata saved s)
            (after_handle (handle_events count es))

    -- `select_handle_events`
    pub select_handle_events : List Event → Cmd (Selector (KQueue K)) Selected
    unfolding handle_events mark_events
    select_handle_events es s = handle_events (length es) es (record s {
      outside = record s.outside { ready_events = mark_events es s.outside.ready_events };
    })

    -- `rb_ensure` with `select_handle_events_ensure`: the mark leaves whatever list it stands in.
    abbrev pub ensure_unmarked :
        Option (Selected × Selector (KQueue K)) → Option (Selected × Selector (KQueue K))
    ensure_unmarked none = none
    ensure_unmarked (some (r, s)) =
        and_then (on_queue (on_links (List.free saved)) s) (λ _ t. some (r, t))

    -- The end of `IO_Event_Selector_KQueue_select`.
    abbrev pub handle_found : Found × Selector (KQueue K) → Option (Selected × Selector (KQueue K))
    handle_found (found [], s) = some (selected 0, s)
    handle_found (found (e ∷ es), s) = ensure_unmarked (select_handle_events (e ∷ es) s)
    handle_found (syserr_fail e, s) = some (poll_failed e, s)

    abbrev pub clear_mark : Selector (KQueue K) → Selector (KQueue K)
    clear_mark s = record s {
      outside = record s.outside {
        links = record s.outside.links {
          head = update s.outside.links.head saved null;
          tail = update s.outside.links.tail saved null;
        };
      };
    }

    -- What follows the flush.
    abbrev pub after_flush : Poller K → Duration → Flushed → Cmd (Selector (KQueue K)) Selected
    after_flush poller duration (counted ready) s =
        handle_found (select_events poller duration ready (clear_mark s))
    after_flush poller duration how s = some (flush_stopped how, s)

    -- `IO_Event_Selector_KQueue_select`; `saved` is the mark on the stack.
    unfoldable pub select : Poller K → Duration → Cmd (Selector (KQueue K)) Selected
    select poller duration s =
        let start = set_idle (record { tv_sec = pos 0; tv_nsec = pos 0 }) s in
        and_then (ready_flush ruby fuel start) (after_flush poller duration)

  abbrev triggered : Kernel K → Call × K → Selector (KQueue K) → Woken × Selector (KQueue K)
  triggered kernel (failure e, k) s = (wakeup_failed e, set_kernel k s)
  triggered kernel (success n, k) s =
      let (r, k') = kernel.kevent (trigger 0 note_trigger ∷ []) k in
      elim r [
        | failure e ↦ (wakeup_failed e, set_kernel k' s)
        | success m ↦ (woken true, set_kernel k' s)
      ]

  -- `IO_Event_Selector_KQueue_wakeup`
  unfoldable pub wakeup : Kernel K → Selector (KQueue K) → Woken × Selector (KQueue K)
  wakeup kernel s =
      if s.blocked == 0
      then (woken false, s)
      else triggered kernel
          (kernel.kevent (trigger (bit_or ev_add ev_clear) 0 ∷ []) s.outside.kernel) s
