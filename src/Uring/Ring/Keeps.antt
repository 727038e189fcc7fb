-- ===== src/Uring/Ring/Keeps.antt =====
-- What submissions of uring.c keep: every completion has one owner, whatever the fibers do that run
-- while the ring is busy, as long as they keep it.
use io_event.Uring.Complete.Settle.{Owned}
use io_event.Uring.Complete.Loop.{OwnedAfter}
use io_event.Uring.Owned.{unlinked, IsRing, carries}
use io_event.Uring.Ring.{
  get_sqe, submit_all, submit_now, after_round, after_yield, after_submit, after_get_sqe,
  set_kernel, is_busy, submitted, syserr_fail, stopped, out_of_fuel, Submitted, Sqe, Liburing,
}
use io_event.Selector.{yield, outcome, arity_error, unknown_queue_type, Reply, Selector}
use io_event.Fiber.{returned, raised, Ruby}
use io_event.System.{success, failure, Call}
use io_event.Base.{
  Cmd, ℕ, zero, suc, ◌≡◌, refl, sym, inl, inr, true, Option, none, some, List, arith, Ptr, ◌==◌,
  Bool-cases,
}
use io_event.Uring.{Uring}

module _ {K : Type 0} where
  module _ (ring : Liburing K) (holds : Ptr → K → ℕ) (laws : IsRing ring holds)
      (ruby : Ruby (Selector (Uring K))) (fuel : ℕ) (node : Ptr)
      (yields : (free : List Ptr) (s : Selector (Uring K))
        → Owned ring holds free s
        → OwnedAfter ring holds (yield ruby node s)) where
    -- A command of the ring keeps that every completion has one owner.
    abbrev pub Keeps : {A : Type 0} → Cmd (Selector (Uring K)) A → Type 0
    Keeps c =
        (free : List Ptr) (s : Selector (Uring K))
        → Owned ring holds free s
        → OwnedAfter ring holds (c s)

    after_yield-Owned :
        (rest : Cmd (Selector (Uring K)) Submitted) (o : Option (Reply × Selector (Uring K)))
        → Keeps rest
        → OwnedAfter ring holds o
        → OwnedAfter ring holds (after_yield o rest)
    after_yield-Owned rest none later is = tt
    after_yield-Owned rest (some (outcome (returned v), s)) later (free, is) = later free s is
    after_yield-Owned rest (some (outcome (raised x), s)) later is = is
    after_yield-Owned rest (some (arity_error, s)) later is = is
    after_yield-Owned rest (some (unknown_queue_type, s)) later is = is

    after_submit-Owned :
        (rest : Cmd (Selector (Uring K)) Submitted) (o : Option (Submitted × Selector (Uring K)))
        → Keeps rest
        → OwnedAfter ring holds o
        → OwnedAfter ring holds (after_submit o rest)
    after_submit-Owned rest none later is = tt
    after_submit-Owned rest (some (submitted, s)) later (free, is) = later free s is
    after_submit-Owned rest (some (syserr_fail e, s)) later is = is
    after_submit-Owned rest (some (stopped r, s)) later is = is
    after_submit-Owned rest (some (out_of_fuel, s)) later is = is

    after_round-Owned :
        (rest : Cmd (Selector (Uring K)) Submitted) (c : Call)
        → Keeps rest
        → Keeps (after_round ruby ring fuel node true rest c)
    after_round-Owned rest (success n) later free s is = later free s is
    after_round-Owned rest (failure e) later free s is = elim (Bool-cases (is_busy e)) [
      | inl busy ↦ simp busy (after_yield-Owned rest (yield ruby node s) later (yields free s is))
      | inr other ↦ simp other (free, is)
    ]

    -- The ring in the state of the selector changes, and holds the same completions.
    kernel-Owned :
        (free : List Ptr) (k : K) (s : Selector (Uring K))
        → Owned ring holds free s
        → ((c : Ptr) → holds c s.outside.kernel ≡ holds c k)
        → Owned ring holds free (set_kernel k s)
    kernel-Owned free k s is same =
        unlinked s.outside.wakeup_registered s.outside.fiber s.outside.result s.outside.flags k is
          same

    submit_all-Owned : (rounds : ℕ) → Keeps (submit_all ruby ring fuel node rounds true)
    unfolding submit_all
    submit_all-Owned zero free s is = (free, is)
    submit_all-Owned (suc rounds) free s is =
        elim (Bool-cases (ring.sq_ready s.outside.kernel == 0)) [
          | inl e ↦ simp e (free, is)
          | inr e ↦
              let (r, k) = ring.submit s.outside.kernel in
              simp e (
                after_round-Owned (submit_all ruby ring fuel node rounds true) r
                  (submit_all-Owned rounds) free (set_kernel k s)
                  (kernel-Owned free k s is (λ c. sym (laws.submit s.outside.kernel c))))
        ]

    pub submit_now-Owned : Keeps (submit_now ruby ring fuel node)
    unfolding submit_now
    submit_now-Owned = submit_all-Owned fuel

    after_get_sqe-Owned :
        (wait : Cmd (Selector (Uring K)) Submitted) (e : Sqe) (o : Option K) (free : List Ptr)
        (s : Selector (Uring K))
        → Keeps wait
        → Owned ring holds free s
        → ring.get_sqe e s.outside.kernel ≡ o
        → ((c : Ptr) → carries c e.user_data ≡ 0)
        → OwnedAfter ring holds (after_get_sqe ruby ring fuel node wait o s)
    after_get_sqe-Owned wait e none free s later is got empty = later free s is
    after_get_sqe-Owned wait e (some k) free s later is got empty = (
      free,
      kernel-Owned free k s is
          (λ c. omega (arith, laws.get_sqe e s.outside.kernel k c got, empty c)),
    )

    -- An entry without a completion is queued.
    get_sqe-Owned :
        (rounds : ℕ) (e : Sqe)
        → ((c : Ptr) → carries c e.user_data ≡ 0)
        → Keeps (get_sqe ruby ring fuel node rounds e)
    unfolding get_sqe
    get_sqe-Owned zero e empty free s is = (free, is)
    get_sqe-Owned (suc rounds) e empty free s is =
        after_get_sqe-Owned
          (λ t.
            after_submit (submit_now ruby ring fuel node t) (get_sqe ruby ring fuel node rounds e))
          e (ring.get_sqe e s.outside.kernel) free s
          (λ more t are.
            after_submit-Owned (get_sqe ruby ring fuel node rounds e)
              (submit_now ruby ring fuel node t) (get_sqe-Owned rounds e empty)
              (submit_now-Owned more t are))
          is refl empty

    -- An entry without a completion is queued and submitted.
    pub submit_entry-Owned :
        (e : Sqe)
        → ((c : Ptr) → carries c e.user_data ≡ 0)
        → Keeps (λ s.
          after_submit (get_sqe ruby ring fuel node fuel e s) (submit_now ruby ring fuel node))
    submit_entry-Owned e empty free s is =
        after_submit-Owned (submit_now ruby ring fuel node) (get_sqe ruby ring fuel node fuel e s)
          submit_now-Owned (get_sqe-Owned fuel e empty free s is)
