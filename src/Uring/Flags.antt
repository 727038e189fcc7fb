-- ===== src/Uring/Flags.antt =====
-- `poll_flags_from_events` and `events_from_poll_flags` of uring.c.
use io_event.EPoll.{writable, priority, readable}
use Prim.Native.Nat.{bit_or, bit_and}
use io_event.EPoll.Flags.{Asks}
use io_event.Base.{ℕ, ◌<◌, ◌≡◌, refl, inl, inr, Bool-cases, arith, ◌==◌, if◌then◌else◌}

abbrev pub pollin : ℕ
pollin = 1

abbrev pub pollpri : ℕ
pollpri = 2

abbrev pub pollout : ℕ
pollout = 4

abbrev pub pollerr : ℕ
pollerr = 8

abbrev pub pollhup : ℕ
pollhup = 16

-- `poll_flags_from_events`
unfoldable pub poll_flags_from_events : ℕ → ℕ
poll_flags_from_events events =
    let a = if bit_and events readable == 0 then 0 else pollin in
    let b = if bit_and events priority == 0 then a else bit_or a pollpri in
    let c = if bit_and events writable == 0 then b else bit_or b pollout in
    bit_or (bit_or c pollhup) pollerr

-- `events_from_poll_flags`
unfoldable pub events_from_poll_flags : ℕ → ℕ
events_from_poll_flags flags =
    let a = if bit_and flags (bit_or (bit_or pollin pollhup) pollerr) == 0 then 0 else readable in
    let b = if bit_and flags pollpri == 0 then a else bit_or a priority in
    if bit_and flags pollout == 0 then b else bit_or b writable

-- The flags of poll(2) have the numbers of those of epoll_ctl(2).
pub poll_flags-Asks : (events : ℕ) → Asks (poll_flags_from_events events) events
unfolding poll_flags_from_events
poll_flags-Asks events = elim (Bool-cases (bit_and events readable == 0)) [
  | inl r ↦ elim (Bool-cases (bit_and events priority == 0)) [
    | inl p ↦ elim (Bool-cases (bit_and events writable == 0)) [
      | inl w ↦ simp (r, p, w) (refl, refl, refl, refl, omega arith)
      | inr w ↦ simp (r, p, w) (refl, refl, refl, refl, omega arith)
    ]
    | inr p ↦ elim (Bool-cases (bit_and events writable == 0)) [
      | inl w ↦ simp (r, p, w) (refl, refl, refl, refl, omega arith)
      | inr w ↦ simp (r, p, w) (refl, refl, refl, refl, omega arith)
    ]
  ]
  | inr r ↦ elim (Bool-cases (bit_and events priority == 0)) [
    | inl p ↦ elim (Bool-cases (bit_and events writable == 0)) [
      | inl w ↦ simp (r, p, w) (refl, refl, refl, refl, omega arith)
      | inr w ↦ simp (r, p, w) (refl, refl, refl, refl, omega arith)
    ]
    | inr p ↦ elim (Bool-cases (bit_and events writable == 0)) [
      | inl w ↦ simp (r, p, w) (refl, refl, refl, refl, omega arith)
      | inr w ↦ simp (r, p, w) (refl, refl, refl, refl, omega arith)
    ]
  ]
]

-- The events are `IO_EVENT_READABLE` just if there is `POLLIN`, `POLLHUP` or `POLLERR` among the flags,
-- `IO_EVENT_PRIORITY` just if there is `POLLPRI`, `IO_EVENT_WRITABLE` just if there is `POLLOUT`, and no
-- others.
abbrev pub Reports : (flags events : ℕ) → Type 0
Reports flags events =
    ((bit_and events readable == 0) ≡ (bit_and flags 25 == 0))
    × ((bit_and events priority == 0) ≡ (bit_and flags pollpri == 0))
    × ((bit_and events writable == 0) ≡ (bit_and flags pollout == 0))
    × (events < 8)

pub events-Reports : (flags : ℕ) → Reports flags (events_from_poll_flags flags)
unfolding events_from_poll_flags
events-Reports flags = elim (Bool-cases (bit_and flags 25 == 0)) [
  | inl r ↦ elim (Bool-cases (bit_and flags pollpri == 0)) [
    | inl p ↦ elim (Bool-cases (bit_and flags pollout == 0)) [
      | inl w ↦ simp (r, p, w) (refl, refl, refl, omega arith)
      | inr w ↦ simp (r, p, w) (refl, refl, refl, omega arith)
    ]
    | inr p ↦ elim (Bool-cases (bit_and flags pollout == 0)) [
      | inl w ↦ simp (r, p, w) (refl, refl, refl, omega arith)
      | inr w ↦ simp (r, p, w) (refl, refl, refl, omega arith)
    ]
  ]
  | inr r ↦ elim (Bool-cases (bit_and flags pollpri == 0)) [
    | inl p ↦ elim (Bool-cases (bit_and flags pollout == 0)) [
      | inl w ↦ simp (r, p, w) (refl, refl, refl, omega arith)
      | inr w ↦ simp (r, p, w) (refl, refl, refl, omega arith)
    ]
    | inr p ↦ elim (Bool-cases (bit_and flags pollout == 0)) [
      | inl w ↦ simp (r, p, w) (refl, refl, refl, omega arith)
      | inr w ↦ simp (r, p, w) (refl, refl, refl, omega arith)
    ]
  ]
]
