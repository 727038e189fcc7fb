-- ===== src/Uring/Ring/Submit.antt =====
-- The end of `io_uring_submit_all`.
use io_event.Fiber.{Ruby}
use io_event.Selector.{Selector}
use io_event.System.{failure, success, Call}
use io_event.Uring.Ring.{
  syserr_fail, set_kernel, is_busy, after_round, submitted, Submitted, submit_all, Liburing,
}
use io_event.Base.{
  Cmd, ℕ, zero, suc, ◌+◌, ◌≤◌, ◌<◌, ◌≡◌, refl, ◌⊎◌, inl, inr, false, Option, some, arith, Ptr, ◌==◌,
  ==_iff, Bool-cases,
}
use io_event.Uring.{Uring}

module _ {K : Type 0} (ring : Liburing K) (delay : K → ℕ) where
  -- What a submission makes of a queue that is not empty: it takes an entry at least; or it fails, and
  -- either not because the ring is busy, or it comes closer to the moment at which it no longer is.
  abbrev pub Advances : K → Call × K → Type 0
  Advances k (success n, k') = (ring.sq_ready k' < ring.sq_ready k) × (delay k' ≤ delay k)
  Advances k (failure e, k') =
      (ring.sq_ready k' ≤ ring.sq_ready k) × ((is_busy e ≡ false) ⊎ (delay k' < delay k))

  -- How the loop can end: with the queue empty, or with an error that is raised.
  abbrev pub Ends : Selector (Uring K) → Option (Submitted × Selector (Uring K)) → Type 0
  Ends s r =
      (k : K) × (((r ≡ some (submitted, set_kernel k s)) × (ring.sq_ready k ≡ 0))
        ⊎ ((e : ℕ) × (r ≡ some (syserr_fail e, set_kernel k s)) × (is_busy e ≡ false)))

  module _ (ruby : Ruby (Selector (Uring K))) (node : Ptr)
      (advances : (k : K) → 0 < ring.sq_ready k → Advances k (ring.submit k)) where
    after_round-Ends :
        (fuel rounds : ℕ) (rest : Cmd (Selector (Uring K)) Submitted) (s : Selector (Uring K))
        (o : Call × K)
        → Advances s.outside.kernel o
        → ring.sq_ready s.outside.kernel + delay s.outside.kernel < suc rounds
        → ((t : Selector (Uring K))
            → ring.sq_ready t.outside.kernel + delay t.outside.kernel < rounds
            → Ends t (rest t))
        → Ends s (after_round ruby ring fuel node false rest o.0 (set_kernel o.1 s))
    after_round-Ends fuel rounds rest s (success n, k) step enough later =
        later (set_kernel k s) (omega (arith, step.0, step.1))
    after_round-Ends fuel rounds rest s (failure e, k) step enough later =
        elim (Bool-cases (is_busy e)) [
          | inl busy ↦ rw busy (
              later (set_kernel k s) (elim step.1 [
                | inl other ↦ absurd (ground (arith, busy, other))
                | inr less ↦ omega (arith, step.0, less, enough)
              ]))
          | inr other ↦ (k, inr (e, simp other refl, other))
        ]

    -- Submitting without yielding comes back, if each submission takes an entry or fails, and the ring is
    -- busy only so many times: with a round for each entry and each of these times, and one more, either
    -- the queue is empty afterwards, or an error that is not that the ring is busy is raised; and nothing
    -- but the ring has changed.
    pub submit_all-Ends :
        (fuel rounds : ℕ) (s : Selector (Uring K))
        → ring.sq_ready s.outside.kernel + delay s.outside.kernel < rounds
        → Ends s (submit_all ruby ring fuel node rounds false s)
    unfolding submit_all
    submit_all-Ends fuel zero s enough = absurd (omega (arith, enough))
    submit_all-Ends fuel (suc rounds) s enough =
        elim (Bool-cases (ring.sq_ready s.outside.kernel == 0)) [
          | inl e ↦
              (s.outside.kernel, inl (simp e refl, (==_iff (ring.sq_ready s.outside.kernel) 0).0 e))
          | inr e ↦
              let some_left : 0 < ring.sq_ready s.outside.kernel = ground (arith, e) in
              rw e (
                after_round-Ends fuel rounds (submit_all ruby ring fuel node rounds false) s
                  (ring.submit s.outside.kernel) (advances s.outside.kernel some_left) enough
                  (submit_all-Ends fuel rounds))
        ]
