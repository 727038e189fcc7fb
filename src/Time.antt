-- ===== src/Time.antt =====
-- ext/io/event/time.c: differences of time stamps. The functions that return a `float` are not
-- modelled.
use io_event.Base.{not_ltb→le, ltb→lt, ◌+◌, ◌*◌, ◌≡◌, inl, inr, arith, if◌then◌else◌, Bool-cases}
use io_event.Base.Int.{
  ℤ, pos, pos_part, neg_part, ◌+ℤ◌, ◌-ℤ◌, ◌≤ℤ◌, ◌<ℤ◌, ltb_ℤ, +ℤ_parts, -ℤ_parts,
}

-- `struct timespec`
pub record Timespec : Type 0 where
  pub tv_sec : ℤ
  pub tv_nsec : ℤ

-- `IO_Event_Time_elapsed`
unfoldable pub elapsed : (start stop : Timespec) → Timespec
elapsed start stop =
    if ltb_ℤ (stop.tv_nsec -ℤ start.tv_nsec) (pos 0)
    then record {
      tv_sec = stop.tv_sec -ℤ start.tv_sec -ℤ pos 1;
      tv_nsec = stop.tv_nsec -ℤ start.tv_nsec +ℤ pos 1000000000;
    }
    else record { tv_sec = stop.tv_sec -ℤ start.tv_sec; tv_nsec = stop.tv_nsec -ℤ start.tv_nsec }

-- The nanoseconds are in the range of one second.
abbrev pub IsNormal : Timespec → Type 0
IsNormal t = (pos 0 ≤ℤ t.tv_nsec) × (t.tv_nsec <ℤ pos 1000000000)

-- The time that `a` stands for and `b` after it are the time `c`, in nanoseconds.
abbrev pub Adds : (a b c : Timespec) → Type 0
Adds a b c =
    (pos_part a.tv_sec + pos_part b.tv_sec + neg_part c.tv_sec) * 1000000000
      + (pos_part a.tv_nsec + pos_part b.tv_nsec + neg_part c.tv_nsec)
    ≡ (neg_part a.tv_sec + neg_part b.tv_sec + pos_part c.tv_sec) * 1000000000
      + (neg_part a.tv_nsec + neg_part b.tv_nsec + pos_part c.tv_nsec)

-- The elapsed time added to the start gives the stop, and it is normal if both stamps are.
pub elapsed-Adds :
    (start stop : Timespec)
    → IsNormal start
    → IsNormal stop
    → Adds start (elapsed start stop) stop × IsNormal (elapsed start stop)
unfolding elapsed
elapsed-Adds start stop n m = elim (Bool-cases (ltb_ℤ (stop.tv_nsec -ℤ start.tv_nsec) (pos 0))) [
  | inl borrow ↦ rw borrow (omega (arith, +ℤ_parts, -ℤ_parts, ltb→lt _ _ borrow))
  | inr plain ↦ rw plain (omega (arith, -ℤ_parts, not_ltb→le _ _ plain))
]
