-- ===== src/Tests/OfIo.antt =====
-- Transfers, timeouts, and the life of a selector of epoll.c.
use io_event.Base.{◌≡◌, refl, false, ◌&&◌, some, List, [], ◌∷◌, arith, null, ◌==◌}
use Prim.Native.Nat.{bit_and}
use io_event.System.{Call, success, failure, eagain}
use io_event.EPoll.{epoll_flags_from_events, events_from_epoll_flags, epollhup}
use io_event.EPoll.Flags.{events_of_report, reported}
use io_event.EPoll.Transfer.{nonblock_set, nonblock_restore, o_nonblock}
use io_event.EPoll.Transfer.Sound.{nonblock_overlaps}
use io_event.EPoll.Timeout.{integer}
use io_event.EPoll.Select.{events, Poller, select_events}
use io_event.EPoll.Select.Blocks.{PollsOnce, zero_timeout, select_events_lem}
use io_event.Tests.OfEPoll.{Interests, process, reading}

-- 4 of 10 bytes, no data for a while, then the rest.
abbrev answers : List Call
answers = success 4 ∷ failure eagain ∷ success 6 ∷ []

nonblock_overlaps_example :
    (nonblock_restore
        (nonblock_set 1).0
        (nonblock_restore (nonblock_set (nonblock_set 1).1).0 (nonblock_set (nonblock_set 1).1).1)
      ≡ 1)
    × ((bit_and (nonblock_set (nonblock_set 1).1).0 o_nonblock == 0) ≡ false)
    × (bit_and (nonblock_restore (nonblock_set 1).0 (nonblock_set (nonblock_set 1).1).1) o_nonblock
        ≡ 0)
nonblock_overlaps_example = nonblock_overlaps 1 refl

events_of_report_example :
    events_from_epoll_flags (bit_and epollhup (epoll_flags_from_events 4)) ≡ reported 4 epollhup
events_of_report_example = events_of_report 4 epollhup (omega arith) (omega arith)

-- A kernel without events, in which time stands still.
abbrev quiet : Poller Interests
quiet = record {
  epoll_pwait2 = λ _ k. (events [], k);
  epoll_wait = λ _ k. (events [], k);
  now = λ _. zero_timeout;
  pending_interrupt = λ _. false;
}

select_events_lem_example :
    ((select_events quiet (integer 1) 2 (process reading)).1.blocked ≡ 0)
    × (((2 == 0) && (null == null)) ≡ false
        → PollsOnce quiet
            (quiet.epoll_pwait2 (some zero_timeout) (process reading).outside.kernel)
            (process reading)
            (select_events quiet (integer 1) 2 (process reading)))
select_events_lem_example = select_events_lem quiet (integer 1) 2 (process reading) refl
