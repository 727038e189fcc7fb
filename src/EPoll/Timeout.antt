-- ===== src/EPoll/Timeout.antt =====
-- The timeouts of `IO_Event_Selector_EPoll_select`.
use io_event.Base.{
  refl, ℕ, suc, ◌+◌, ◌-◌, ◌*◌, ◌/◌, ◌%◌, ◌^◌, ◌≤◌, ◌<◌, ◌≡◌, Bool, false, not, ◌&&◌, Option, none,
  some, arith, ltb, ◌==◌, if◌then◌else◌,
}
use io_event.Base.Int.{ℤ, pos, negsuc, sub_ℕ, ◌+ℤ◌}
use io_event.Time.{Timespec}

-- A `duration` from Ruby: `nil`, an integer, or the seconds and nanoseconds that the source computes
-- from a float.
pub data Duration : Type 0 where
  nil : Duration
  integer : ℕ → Duration
  float : Timespec → Duration

-- `make_timeout`, `none` for `NULL`.
pub make_timeout : Duration → Option Timespec
make_timeout nil = none
make_timeout (integer n) = some (record { tv_sec = pos n; tv_nsec = pos 0 })
make_timeout (float t) = some t

abbrev pub is_zero : ℤ → Bool
is_zero (pos n) = n == 0
is_zero (negsuc n) = false

-- `timeout_is_nonblocking`
pub timeout_is_nonblocking : Option Timespec → Bool
timeout_is_nonblocking none = false
timeout_is_nonblocking (some t) = is_zero t.tv_sec && is_zero t.tv_nsec

-- `select_blocking_allowed`
pub select_blocking_allowed : Option Timespec → Bool
unfolding timeout_is_nonblocking
select_blocking_allowed t = not (timeout_is_nonblocking t)

-- Products with a number, and quotients that C rounds towards 0.
abbrev scale : ℤ → ℕ → ℤ
scale (pos n) k = pos (n * k)
scale (negsuc n) k = sub_ℕ 0 ((n + 1) * k)

abbrev quotient : ℤ → (below : ℕ) → ℤ
quotient (pos n) k = pos (n / suc k)
quotient (negsuc n) k = sub_ℕ 0 ((n + 1) / suc k)

-- The conversion to a 32-bit `int`.
abbrev residue : ℤ → ℕ
residue (pos n) = n % 2 ^ 32
residue (negsuc n) = 2 ^ 32 - 1 - n % 2 ^ 32

abbrev to_int : ℤ → ℤ
to_int a = if ltb (residue a) (2 ^ 31) then pos (residue a) else sub_ℕ (residue a) (2 ^ 32)

-- `make_timeout_ms`
pub make_timeout_ms : Option Timespec → ℤ
unfolding timeout_is_nonblocking
make_timeout_ms none = negsuc 0
make_timeout_ms (some t) =
    if timeout_is_nonblocking (some t)
    then pos 0
    else to_int (scale t.tv_sec 1000 +ℤ quotient t.tv_nsec 999999)

pub make_timeout_ms_zero :
    make_timeout_ms (some (record { tv_sec = pos 0; tv_nsec = pos 0 })) ≡ pos 0
unfolding make_timeout_ms timeout_is_nonblocking
make_timeout_ms_zero = refl

-- A timeout that is not negative and fits in milliseconds is rounded down to a millisecond.
pub make_timeout_ms_lem :
    (seconds nanoseconds : ℕ)
    → nanoseconds < 1000000000
    → seconds * 1000 + 1000 ≤ 2 ^ 31
    → (ms : ℕ) × (make_timeout_ms
          (some (record { tv_sec = pos seconds; tv_nsec = pos nanoseconds }))
        ≡ pos ms)
      × (ms * 1000000 ≤ seconds * 1000000000 + nanoseconds)
      × (seconds * 1000000000 + nanoseconds < (ms + 1) * 1000000)
unfolding make_timeout_ms timeout_is_nonblocking ◌+ℤ◌
make_timeout_ms_lem seconds nanoseconds normal fits =
    (seconds * 1000 + nanoseconds / 1000000, ground arith, omega arith, omega arith)
