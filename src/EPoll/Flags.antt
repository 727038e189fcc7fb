-- ===== src/EPoll/Flags.antt =====
-- The two translations between the events of a fiber and the flags of epoll_wait(2).
use io_event.Base.Bits.{all_below_lem, all_below}
use io_event.Base.{
  ℕ, ◌<◌, ◌≡◌, refl, Bool, true, not, ◌||◌, Bool-cases, inl, inr, arith, ◌==◌, if◌then◌else◌,
  ==_iff,
}
use Prim.Native.Nat.{bit_and, bit_or}
use io_event.EPoll.{
  readable, writable, priority, epollin, epollpri, epollout, epollerr, epollhup,
  epoll_flags_from_events, events_from_epoll_flags,
}

-- A law of two small masks that holds at each of them.
abbrev all_masks : (ℕ → ℕ → Bool) → Bool
all_masks p = all_below 8 (λ e. all_below 32 (λ f. p e f))

module _ (p : ℕ → ℕ → Bool) (all : all_masks p ≡ true) (e f : ℕ) (small : e < 8)
    (short : f < 32) where
  at_masks : p e f ≡ true
  at_masks =
      all_below_lem 32 (λ f. p e f) f (all_below_lem 8 (λ e. all_below 32 (λ f. p e f)) e all small)
        short

-- The flags ask the kernel for `EPOLLIN`, `EPOLLPRI` and `EPOLLOUT` just if the events have
-- `IO_EVENT_READABLE`, `IO_EVENT_PRIORITY` and `IO_EVENT_WRITABLE`, always for `EPOLLHUP` and `EPOLLERR`,
-- and for nothing else.
abbrev pub Asks : (flags events : ℕ) → Type 0
Asks flags events =
    ((bit_and flags epollin == 0) ≡ (bit_and events readable == 0))
    × ((bit_and flags epollpri == 0) ≡ (bit_and events priority == 0))
    × ((bit_and flags epollout == 0) ≡ (bit_and events writable == 0))
    × (bit_and flags 24 ≡ bit_or epollhup epollerr)
    × (flags < 32)

pub flags-Asks : (events : ℕ) → Asks (epoll_flags_from_events events) events
unfolding epoll_flags_from_events
flags-Asks events = elim (Bool-cases (bit_and events readable == 0)) [
  | inl r ↦ elim (Bool-cases (bit_and events priority == 0)) [
    | inl p ↦ elim (Bool-cases (bit_and events writable == 0)) [
      | inl w ↦ simp (r, p, w) (refl, refl, refl, refl, omega arith)
      | inr w ↦ simp (r, p, w) (refl, refl, refl, refl, omega arith)
    ]
    | inr p ↦ elim (Bool-cases (bit_and events writable == 0)) [
      | inl w ↦ simp (r, p, w) (refl, refl, refl, refl, omega arith)
      | inr w ↦ simp (r, p, w) (refl, refl, refl, refl, omega arith)
    ]
  ]
  | inr r ↦ elim (Bool-cases (bit_and events priority == 0)) [
    | inl p ↦ elim (Bool-cases (bit_and events writable == 0)) [
      | inl w ↦ simp (r, p, w) (refl, refl, refl, refl, omega arith)
      | inr w ↦ simp (r, p, w) (refl, refl, refl, refl, omega arith)
    ]
    | inr p ↦ elim (Bool-cases (bit_and events writable == 0)) [
      | inl w ↦ simp (r, p, w) (refl, refl, refl, refl, omega arith)
      | inr w ↦ simp (r, p, w) (refl, refl, refl, refl, omega arith)
    ]
  ]
]

-- Either nothing was wrong with the descriptor, or `EPOLLHUP` or `EPOLLERR` was reported.
abbrev pub troubled : ℕ → Bool
troubled flags = not (bit_and flags (bit_or epollhup epollerr) == 0)

-- The events of a report on a descriptor that is watched for `e`: those of `e` that are reported, and
-- `IO_EVENT_READABLE` if there was trouble.
abbrev pub reported : (e flags : ℕ) → ℕ
reported e flags = bit_or (bit_and e flags) (if troubled flags then readable else 0)

abbrev exact : ℕ → ℕ → Bool
unfolding epoll_flags_from_events events_from_epoll_flags
exact e f = events_from_epoll_flags (bit_and f (epoll_flags_from_events e)) == reported e f

abbrev blind : ℕ → ℕ → Bool
unfolding events_from_epoll_flags
blind e f = not (bit_and f epollout == 0) || (bit_and writable (events_from_epoll_flags f) == 0)

-- Whatever the kernel reports of the flags that a set of events asks for, and of `EPOLLHUP` and
-- `EPOLLERR`, the events of the report are exactly the events asked for that are in it, and
-- `IO_EVENT_READABLE` if there was trouble.
pub events_of_report :
    (e f : ℕ)
    → e < 8
    → f < 32
    → events_from_epoll_flags (bit_and f (epoll_flags_from_events e)) ≡ reported e f
unfolding epoll_flags_from_events events_from_epoll_flags
events_of_report e f small short = (==_iff _ _).0 (at_masks exact refl e f small short)

-- A report without `EPOLLOUT`, also one with `EPOLLHUP` or `EPOLLERR`, has nothing for a fiber that
-- waits for writability alone.
pub writer_unnoticed :
    (f : ℕ) → f < 32 → bit_and f epollout ≡ 0 → bit_and writable (events_from_epoll_flags f) ≡ 0
unfolding events_from_epoll_flags
writer_unnoticed f short out =
    let b = at_masks blind refl 0 f (omega arith) short in ground (arith, b)
