-- ===== src/EPoll/Select/Blocks.antt =====
-- When `IO_Event_Selector_EPoll_select` does not block.
use io_event.Base.{
  subst, ne→==, ℕ, ◌≡◌, ◌≢◌, refl, sym, inl, inr, false, ◌&&◌, some, [], ◌∷◌, null, ◌==◌,
  Bool-cases, if◌then◌else◌,
}
use io_event.System.{eintr, enosys}
use io_event.Base.Int.{pos}
use io_event.Time.{Timespec}
use io_event.Selector.{Selector}
use io_event.EPoll.{EPoll}
use io_event.EPoll.Timeout.{Duration, make_timeout, make_timeout_ms_zero, select_blocking_allowed}
use io_event.EPoll.Select.{
  Found, found, syserr_fail, Poller, select_internal_with_gvl, select_internal_without_gvl,
  select_blocking, select_events, after_poll, is_idle, set_elapsed, set_kernel, select_internal,
  enosys_error, checked, Polled, events, error,
}

abbrev pub zero_timeout : Timespec
zero_timeout = record { tv_sec = pos 0; tv_nsec = pos 0 }

module _ {K : Type 0} where
  set_elapsed-blocked :
      (poller : Poller K) (start_time : Timespec) (r : Found × Selector (EPoll K))
      → (set_elapsed poller start_time r).1.blocked ≡ r.1.blocked
  set_elapsed-blocked poller start_time (found es, s) = refl
  set_elapsed-blocked poller start_time (syserr_fail e, s) = refl

  select_blocking-blocked :
      (poller : Poller K) (duration : Duration) (s : Selector (EPoll K))
      → s.blocked ≡ 0
      → (select_blocking poller duration s).1.blocked ≡ 0
  unfolding select_blocking select_internal_without_gvl
  select_blocking-blocked poller duration s free =
      let timeout = make_timeout duration in
      elim (Bool-cases (select_blocking_allowed timeout)) [
        | inl e ↦ simp e (
            set_elapsed-blocked poller (poller.now s.outside.kernel)
              (select_internal_without_gvl poller timeout s))
        | inr e ↦ simp e free
      ]

  -- The last step of `select_events`.
  after_poll-blocked :
      (poller : Poller K) (duration : Duration) (ready : ℕ) (r : Found × Selector (EPoll K))
      → r.1.blocked ≡ 0
      → (after_poll poller duration ready r).1.blocked ≡ 0
  after_poll-blocked poller duration ready (syserr_fail e, t) free = free
  after_poll-blocked poller duration ready (found es, t) free =
      elim (Bool-cases (is_idle ready es t)) [
        | inl e ↦ simp e (select_blocking-blocked poller duration t free)
        | inr e ↦ simp e free
      ]

  -- The flush resumed a fiber, or one is in the ready queue: then the selector polls, and the events
  -- are those of the poll.
  busy :
      (poller : Poller K) (duration : Duration) (ready : ℕ) (t : Selector (EPoll K)) (r : Found)
      → ((ready == 0) && (t.ready == null)) ≡ false
      → after_poll poller duration ready (r, t) ≡ (r, t)
  busy poller duration ready t (syserr_fail e) work = refl
  busy poller duration ready t (found []) work = simp work refl
  busy poller duration ready t (found (e ∷ es)) work = refl

  -- What one system call, with what it answers, is to make of the state: its events; none if it was
  -- interrupted; an error otherwise.
  abbrev pub IsPolled : Polled × K → Selector (EPoll K) → Found × Selector (EPoll K) → Type 0
  IsPolled (events es, k) s r = r ≡ (found es, set_kernel k s)
  IsPolled (error e, k) s r =
      (e ≡ eintr → r ≡ (found [], set_kernel k s))
      × (e ≢ eintr → r ≡ (syserr_fail e, set_kernel k s))

  -- A wait of no time: epoll_pwait2(2) with the time 0, and if the system does not have that,
  -- epoll_wait(2) with 0 milliseconds after it.
  abbrev pub PollsOnce :
      Poller K → Polled × K → Selector (EPoll K) → Found × Selector (EPoll K) → Type 0
  PollsOnce poller (events es, k) s r = IsPolled (events es, k) s r
  PollsOnce poller (error e, k) s r =
      (e ≡ enosys → IsPolled (poller.epoll_wait (pos 0) k) s r)
      × (e ≢ enosys → IsPolled (error e, k) s r)

  checked-IsPolled :
      (p : Polled × K) (s : Selector (EPoll K)) → IsPolled p s (checked p.0, set_kernel p.1 s)
  checked-IsPolled (events es, k) s = refl
  checked-IsPolled (error e, k) s = (λ same. rw same refl, λ other. simp (ne→== other) refl)

  PollsOnce-select :
      (poller : Poller K) (p : Polled × K) (s : Selector (EPoll K))
      → PollsOnce poller p s (
          let r = if enosys_error p.0 then poller.epoll_wait (pos 0) p.1 else p in
          (checked r.0, set_kernel r.1 s))
  unfolding enosys_error
  PollsOnce-select poller (events es, k) s = refl
  PollsOnce-select poller (error e, k) s = (
    λ same. simp same (checked-IsPolled (poller.epoll_wait (pos 0) k) s),
    λ other. simp (ne→== other) (checked-IsPolled (error e, k) s),
  )

  -- The waits of a selector that is not blocked leave it not blocked; and if the flush resumed a fiber,
  -- or one is in the ready queue, all that is done is to ask the kernel once for the events that there
  -- are, without waiting, and these are the result; an interrupted call gives none, another error is
  -- raised.
  pub select_events_lem :
      (poller : Poller K) (duration : Duration) (ready : ℕ) (s : Selector (EPoll K))
      → s.blocked ≡ 0
      → ((select_events poller duration ready s).1.blocked ≡ 0)
        × (((ready == 0) && (s.ready == null)) ≡ false
            → PollsOnce poller
                (poller.epoll_pwait2 (some zero_timeout) s.outside.kernel)
                s
                (select_events poller duration ready s))
  unfolding select_events select_internal_with_gvl select_internal
  select_events_lem poller duration ready s free =
      let (r, t) = select_internal_with_gvl poller (some zero_timeout) s in
      (
        after_poll-blocked poller duration ready (r, t) free,
        λ work.
            subst (PollsOnce poller (poller.epoll_pwait2 (some zero_timeout) s.outside.kernel) s)
              (sym (busy poller duration ready t r work))
              (rw make_timeout_ms_zero (
                PollsOnce-select poller (poller.epoll_pwait2 (some zero_timeout) s.outside.kernel)
                  s)),
      )
