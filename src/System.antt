-- ===== src/System.antt =====
-- The error numbers of Linux that the sources name, and `IO_Event_try_again` of selector.h.
use io_event.Base.{ℕ, ◌≡◌, refl, ◌⊎◌, inl, inr, Bool, ◌||◌, ◌==◌}

abbrev pub eperm : ℕ
eperm = 1

abbrev pub enoent : ℕ
enoent = 2

abbrev pub esrch : ℕ
esrch = 3

abbrev pub eintr : ℕ
eintr = 4

abbrev pub eagain : ℕ
eagain = 11

abbrev pub ewouldblock : ℕ
ewouldblock = 11

abbrev pub ebusy : ℕ
ebusy = 16

abbrev pub eexist : ℕ
eexist = 17

abbrev pub einval : ℕ
einval = 22

abbrev pub enosys : ℕ
enosys = 38

abbrev pub etime : ℕ
etime = 62

abbrev pub ecanceled : ℕ
ecanceled = 125

-- How a system call comes back: with a number that is not -1, or with -1 and `errno`.
pub data Call : Type 0 where
  success : ℕ → Call
  failure : ℕ → Call

pub Call-cases : (c : Call) → ((n : ℕ) × (c ≡ success n)) ⊎ ((e : ℕ) × (c ≡ failure e))
Call-cases (success n) = inl (n, refl)
Call-cases (failure e) = inr (e, refl)

-- `IO_Event_try_again`
abbrev pub try_again : ℕ → Bool
try_again error = (error == eagain) || (error == ewouldblock)
