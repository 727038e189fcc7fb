-- ===== src/Tests/OfUring.antt =====
-- A ring of uring.c that completes each entry at once, latest first: the completion 4 is in it, 2 is free
-- and so is 6, and the fiber 7 waits at 20.
use io_event.List.Shape.{IsDetached}
use io_event.Uring.Process.{dumped, status_from_siginfo}
use io_event.Uring.Complete.{settle, process_completions}
use io_event.Base.Int.{pos}
use io_event.Uring.Ring.{submit_all, completing, Liburing, Sqe, Cqe}
use io_event.System.{ebusy, failure, success, Call}
use io_event.Uring.Complete.Settle.{settle-Settled, Settled, Owned, is_refused}
use io_event.Uring.Owned.{carries, IsRing}
use io_event.Fiber.{returned, Ruby}
use io_event.Uring.Process.Decode.{status_from_siginfo-decode, decode}
use io_event.Selector.{loop_resume, Selector}
use io_event.Uring.Ring.Submit.{Ends, submit_all-Ends, Advances}
use io_event.List.{Heap}
use io_event.Uring.Complete.Loop.{
  process_completions-Owned, OwnedAfter, ExactlyOwned, ExactlyOwnedAfter, Accounted,
}
use io_event.Base.{
  ◌∉◌, subst, ℕ, zero, suc, ◌+◌, ◌-◌, ◌<◌, ◌≡◌, refl, sym, ap, ◌⊎◌, inl, inr, true, false, Option,
  none, some, List, [], ◌∷◌, arith, Ptr, null, update,
}
use io_event.Fiber
use io_event.Uring.{Answers, Uring}

abbrev pub State : Type 0
State = Selector (Uring (List Cqe))

abbrev pub completed_as : Sqe → Cqe
completed_as e = record { user_data = e.user_data; res = success 1; flags = 0 }

abbrev first : List Cqe → Option Cqe
first [] = none
first (x ∷ xs) = some x

abbrev rest : List Cqe → List Cqe
rest [] = []
rest (x ∷ xs) = xs

abbrev pub ring : Liburing (List Cqe)
ring = record {
  sq_ready = λ _. 0;
  submit = λ k. (success 0, k);
  get_sqe = λ e k. some (completed_as e ∷ k);
  peek = first;
  cq_advance = rest;
  wait_cqe_timeout = λ _ k. (success 0, k);
  get_events = λ k. k;
  taskrun = λ _. false;
}

abbrev pub holds : Ptr → List Cqe → ℕ
holds c [] = 0
holds c (x ∷ xs) = holds c xs + carries c x.user_data

peeked :
    (k : List Cqe) (cqe : Cqe) (c : Ptr)
    → first k ≡ some cqe
    → holds c k ≡ holds c (rest k) + carries c cqe.user_data
peeked [] cqe c next = absurd (cc next)
peeked (x ∷ xs) cqe c next =
    let same : x ≡ cqe = cc next in ap (λ (y : Cqe). holds c xs + carries c y.user_data) same

queued :
    (e : Sqe) (k k' : List Cqe) (c : Ptr)
    → some (completed_as e ∷ k) ≡ some k'
    → holds c k' ≡ holds c k + carries c e.user_data
queued e k k' c taken = let same : completed_as e ∷ k ≡ k' = cc taken in sym (ap (holds c) same)

pub ring-IsRing : IsRing ring holds
ring-IsRing = record { peek = peeked; get_sqe = queued; submit = λ k c. refl }

-- The sentinel 1, with 2 and 6 free.
abbrev two_free : Heap
two_free = record {
  head = update (update (update (λ _. null) 2 1) 6 2) 1 6;
  tail = update (update (update (λ _. null) 1 2) 2 6) 6 1;
  type = λ _. 9;
}

abbrev pub read_done : Cqe
read_done = record { user_data = completing 4; res = success 12; flags = 0 }

abbrev pub busy : State
busy = record {
  self = 60;
  loop = 50;
  blocked = 0;
  waiting = null;
  ready = null;
  head = λ _. null;
  tail = λ _. null;
  flags = λ _. 0;
  fiber = λ _. 0;
  outside = record {
    descriptor = pos 6;
    owner = 1000;
    interrupt = pos 5;
    wakeup_registered = true;
    idle_duration = record { tv_sec = pos 0; tv_nsec = pos 0 };
    completions = record {
      base = some 2 ∷ some 4 ∷ some 6 ∷ [];
      count = 3;
      limit = 3;
      element_size = 32;
    };
    free_list = 1;
    links = two_free;
    waiting = update (λ _. null) 4 20;
    completion = update (λ _. null) 20 4;
    fiber = update (λ _. 0) 20 7;
    result = λ _. success 0;
    flags = λ _. 0;
    kernel = read_done ∷ [];
  };
}

pub busy-Owned : Owned ring holds (2 ∷ 6 ∷ []) busy
busy-Owned = record {
  sound = record {
    list = record { links = ground arith; distinct = ground arith; nonnull = ground arith };
    of_waiting = λ w points. ground (arith, points);
    of_completion = λ c points. ground (arith, points);
    of_null = (refl, refl);
    idle = λ c i. ground (arith, i);
  };
  idle = λ c i. ground (arith, i);
  single = λ c. ground arith;
  apart = λ c held.
      let at : c ≡ 4 = ground (arith, held) in
      subst (λ p. IsDetached two_free p × p ∉ 1 ∷ 2 ∷ 6 ∷ []) (sym at)
        (record { nonnull = ground arith; head = refl; tail = refl }, refl);
}

abbrev pub calm : Ruby State
calm = record {
  is_fiber = λ _. true;
  fiber_alive = λ _ _. true;
  fiber_transfer = λ _ _ s. some (returned 6, s);
  fiber_raise = λ _ _ s. some (returned 6, s);
  alive = λ _ _. true;
  transfer = λ _ _ s. some (returned 6, s);
  current = λ _. 7;
}

pub calm_keeps :
    (fiber : ℕ) (free : List Ptr) (s : State)
    → Owned ring holds free s
    → OwnedAfter ring holds (loop_resume calm fiber [] s)
unfolding loop_resume Fiber.transfer
calm_keeps fiber free s is = (free, is)

calm_keeps_all :
    (fiber : ℕ) (free : List Ptr) (s : State)
    → ExactlyOwned ring holds free s
    → ExactlyOwnedAfter ring holds (loop_resume calm fiber [] s)
unfolding loop_resume Fiber.transfer
calm_keeps_all fiber free s is = (free, is)

settle-Settled_example :
    ((is_refused ring holds read_done 4 busy ≡ true) × (settle ring read_done 4 busy ≡ none))
    ⊎ ((is_refused ring holds read_done 4 busy ≡ false)
        × (t : State) × Settled ring holds (2 ∷ 6 ∷ []) read_done 4 busy t)
settle-Settled_example =
    settle-Settled ring holds ring-IsRing (2 ∷ 6 ∷ []) read_done 4 busy busy-Owned refl refl

busy-Accounted : Accounted ring holds (2 ∷ 6 ∷ []) busy.outside
busy-Accounted zero c at = inl (ground (arith, at))
busy-Accounted (suc zero) c at = inr (ground (arith, at))
busy-Accounted (suc (suc zero)) c at = inl (ground (arith, at))
busy-Accounted (suc (suc (suc i))) c at = ground (arith, at)

process_completions-Owned_example :
    ExactlyOwnedAfter ring holds (process_completions ring calm 3 busy)
process_completions-Owned_example =
    process_completions-Owned ring holds ring-IsRing calm calm_keeps_all 3 (2 ∷ 6 ∷ []) busy
      (busy-Owned, busy-Accounted)

abbrev pub granted : Answers
granted = record { slots = true; element = true; fresh = 16 }

-- A ring with three entries to submit that is busy twice.
abbrev submit_one : ℕ × ℕ → Call × (ℕ × ℕ)
submit_one (n, zero) = (success 1, (n - 1, 0))
submit_one (n, suc b) = (failure ebusy, (n, b))

abbrev slow_ring : Liburing (ℕ × ℕ)
slow_ring = record {
  sq_ready = λ k. k.0;
  submit = submit_one;
  get_sqe = λ e k. some (k.0 + 1, k.1);
  peek = λ _. none;
  cq_advance = λ k. k;
  wait_cqe_timeout = λ _ k. (success 0, k);
  get_events = λ k. k;
  taskrun = λ _. false;
}

slow-Advances : (k : ℕ × ℕ) → 0 < k.0 → Advances slow_ring (λ k. k.1) k (submit_one k)
slow-Advances (n, zero) some_left = (omega (arith, some_left), omega arith)
slow-Advances (n, suc b) some_left = (omega arith, inr (omega arith))

abbrev full : Selector (Uring (ℕ × ℕ))
full = record {
  self = 60;
  loop = 50;
  blocked = 0;
  waiting = null;
  ready = null;
  head = λ _. null;
  tail = λ _. null;
  flags = λ _. 0;
  fiber = λ _. 0;
  outside = record {
    descriptor = pos 6;
    owner = 1000;
    interrupt = pos 5;
    wakeup_registered = true;
    idle_duration = record { tv_sec = pos 0; tv_nsec = pos 0 };
    completions = record { base = []; count = 0; limit = 0; element_size = 32 };
    free_list = 1;
    links = two_free;
    waiting = λ _. null;
    completion = λ _. null;
    fiber = λ _. 0;
    result = λ _. success 0;
    flags = λ _. 0;
    kernel = (3, 2);
  };
}

abbrev silent : Ruby (Selector (Uring (ℕ × ℕ)))
silent = record {
  is_fiber = λ _. true;
  fiber_alive = λ _ _. true;
  fiber_transfer = λ _ _ s. some (returned 6, s);
  fiber_raise = λ _ _ s. some (returned 6, s);
  alive = λ _ _. true;
  transfer = λ _ _ s. some (returned 6, s);
  current = λ _. 7;
}

submit_all-Ends_example :
    Ends slow_ring (λ k. k.1) full (submit_all silent slow_ring 6 80 6 false full)
submit_all-Ends_example =
    submit_all-Ends slow_ring (λ k. k.1) silent 80 slow-Advances 6 6 full (omega arith)

status_from_siginfo-decode_example :
    decode (status_from_siginfo (record { pid = 12; code = dumped; status = 11 })) ≡ (dumped, 11)
status_from_siginfo-decode_example =
    status_from_siginfo-decode 12 dumped 11 (omega arith, omega arith)
