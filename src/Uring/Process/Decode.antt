-- ===== src/Uring/Process/Decode.antt =====
-- What `waitpid(2)` and Ruby read in the wait status that uring.c makes of a `siginfo_t`.
use io_event.Base.{
  false, ap, true, ◌*◌, ℕ, ◌+◌, ◌/◌, ◌%◌, ◌<◌, ◌≡◌, refl, Bool, arith, ◌==◌, if◌then◌else◌, ==_iff,
}
use Prim.Native.Nat.{bit_and, bit_or}
use io_event.Base.Bits.{all_below_lem}
use io_event.Uring.Process.{
  status_signaled, other, dumped, killed, status_exited, status_from_siginfo, exited, Code,
}

-- `WIFEXITED`, `WEXITSTATUS`, `WTERMSIG` and `WCOREDUMP` of the system.
abbrev pub wif_exited : ℕ → Bool
wif_exited status = status % 128 == 0

abbrev pub wexitstatus : ℕ → ℕ
wexitstatus status = status / 256 % 256

abbrev pub wtermsig : ℕ → ℕ
wtermsig status = status % 128

abbrev pub wcoredump : ℕ → Bool
wcoredump status = status / 128 % 2 == 1

-- How a process has ended, as the macros tell it.
abbrev pub decode : ℕ → Code × ℕ
decode status =
    if wif_exited status
    then (exited, wexitstatus status)
    else (if wcoredump status then dumped else killed, wtermsig status)

-- What waitid(2) reports with `WEXITED`: an exit status of a byte, or the number of a signal.
abbrev pub IsReported : Code → (status : ℕ) → Type 0
IsReported exited status = status < 256
IsReported killed status = (0 < status) × (status < 127)
IsReported dumped status = (0 < status) × (status < 127)
IsReported other status = ⊥

byte : (n : ℕ) → n < 256 → bit_and n 255 ≡ n
byte n small = (==_iff _ _).0 (all_below_lem 256 (λ n. bit_and n 255 == n) n refl small)

signal : (n : ℕ) → n < 128 → bit_and n 127 ≡ n
signal n small = (==_iff _ _).0 (all_below_lem 128 (λ n. bit_and n 127 == n) n refl small)

core : (n : ℕ) → n < 128 → bit_or n 128 ≡ n + 128
core n small = (==_iff _ _).0 (all_below_lem 128 (λ n. bit_or n 128 == n + 128) n refl small)

-- However a process has ended, the wait status that is made of what the ring reports tells it: whether it
-- has exited or was killed by a signal, with or without a core, and the exit status or the signal.
pub status_from_siginfo-decode :
    (pid : ℕ) (code : Code) (status : ℕ)
    → IsReported code status
    → decode (status_from_siginfo (record { pid = pid; code = code; status = status }))
      ≡ (code, status)
unfolding status_from_siginfo status_exited status_signaled
status_from_siginfo-decode pid exited status small =
    let ended : (status * 256 % 128 == 0) ≡ true = ground arith in
    let code : status * 256 / 256 % 256 ≡ status = omega arith in
    rw (byte status small) (simp ended (ap (λ n. (exited, n)) code))
status_from_siginfo-decode pid killed status (some_signal, small) =
    let ended : (status % 128 == 0) ≡ false = ground (arith, some_signal, small) in
    let no_core : (status / 128 % 2 == 1) ≡ false = ground (arith, small) in
    let number : status % 128 ≡ status = omega (arith, small) in
    rw (signal status (omega (arith, small))) (simp (ended, no_core) (ap (λ n. (killed, n)) number))
status_from_siginfo-decode pid dumped status (some_signal, small) =
    let ended : ((status + 128) % 128 == 0) ≡ false = ground (arith, some_signal, small) in
    let has_core : ((status + 128) / 128 % 2 == 1) ≡ true = ground (arith, small) in
    let number : (status + 128) % 128 ≡ status = omega (arith, small) in
    rw (signal status (omega (arith, small)), core status (omega (arith, small)))
      (simp (ended, has_core) (ap (λ n. (dumped, n)) number))
status_from_siginfo-decode pid other status small = absurd small
