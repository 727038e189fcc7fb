-- ===== src/EPoll/Process.antt =====
-- `IO_Event_Selector_EPoll_process_wait`, with `process_wait_transfer` and `process_wait_ensure`.
pub mod Stale
use io_event.Base.{
  and_then, Cmd, ℕ, ◌≡◌, refl, ◌≢◌, inl, inr, Option, none, some, List, ◌∷◌, Ptr, ◌==◌,
  if◌then◌else◌, Bool-cases, [],
}
use io_event.Fiber
use io_event.Fiber.{Outcome, returned, raised, Ruby}
use io_event.System.{Call, success, failure}
use io_event.Array.{Error, Result, ok, err}
use io_event.Selector.{Selector, loop_yield}
use io_event.EPoll.{EPoll, Kernel, Answers, readable, waiting_register, waiting_cancel}
use io_event.EPoll.Handle.{on_poll}
use io_event.EPoll.Wait.{new_waiting}

-- The calls on processes: pidfd_open(2), and `IO_Event_Selector_process_status_reap`, which returns
-- `nil` while the process runs.
pub record Processes (S : Type 0) : Type 0 where
  pub pidfd_open : (pid : ℕ) → S → Call × S
  pub reap : (pid flags : ℕ) → S → ℕ × S

-- How the call comes back: with a status, `Qfalse` if the fiber was resumed without an event, with an
-- exception, with an error of its own, or with what the fallback on a thread returns.
pub data Waited : Type 0 where
  status : ℕ → Waited
  not_ready : Waited
  interrupted : ℕ → Waited
  not_found : Error → Waited
  sys_fail : ℕ → Waited
  delegated : Waited

module _ {K : Type 0} (processes : Processes (Selector (EPoll K))) where
  -- `process_wait_transfer`, once `IO_Event_Selector_loop_yield` has come back.
  abbrev pub transferred :
      (pid flags : ℕ) (w : Ptr) → Outcome → Selector (EPoll K) → Waited × Selector (EPoll K)
  transferred pid flags w (returned v) s =
      let (st, t) = processes.reap pid flags s in
      if s.outside.ready w == 0 then (not_ready, s) else (status st, t)
  transferred pid flags w (raised x) s = (interrupted x, s)

  -- `rb_ensure` with `process_wait_ensure`; with the descriptors that are closed.
  abbrev pub ensure_closed :
      (pid flags descriptor : ℕ) (w : Ptr)
      → Option (Outcome × Selector (EPoll K))
      → Option ((Waited × List ℕ) × Selector (EPoll K))
  ensure_closed pid flags descriptor w none = none
  ensure_closed pid flags descriptor w (some (o, s)) =
      let (r, t) = transferred pid flags w o s in
      and_then (on_poll (waiting_cancel w) t) (λ _ u. some ((r, descriptor ∷ []), u))

  module _ (ruby : Ruby (Selector (EPoll K))) (kernel : Kernel K) where
    -- What follows the registration.
    abbrev pub registered :
        (pid flags descriptor : ℕ) (w : Ptr)
        → Result Call
        → Cmd (Selector (EPoll K)) (Waited × List ℕ)
    registered pid flags descriptor w (err e) s = some ((not_found e, []), s)
    registered pid flags descriptor w (ok (failure e)) s = some ((sys_fail e, descriptor ∷ []), s)
    registered pid flags descriptor w (ok (success n)) s =
        ensure_closed pid flags descriptor w (loop_yield ruby s)

    -- What follows pidfd_open(2); `value` is the pid as a Ruby object.
    unfoldable opened :
        Answers
        → (w type : Ptr) (fiber value pid flags : ℕ) → Call
        → Cmd (Selector (EPoll K)) (Waited × List ℕ)
    opened a w type fiber value pid flags (failure e) s = some ((sys_fail e, []), s)
    opened a w type fiber value pid flags (success descriptor) s =
        let (st, t) = processes.reap pid flags s in
        let waits =
          and_then
            (on_poll (waiting_register kernel a value descriptor w)
              (new_waiting w type fiber readable t))
            (registered pid flags descriptor w) in
        if st == Fiber.nil then waits else some ((status st, descriptor ∷ []), t)

    -- `IO_Event_Selector_EPoll_process_wait`: the answer, and the descriptors that it has closed; `none`
    -- for `pid` stands for a pid that is not positive.
    pub process_wait :
        Answers
        → (w type : Ptr) (fiber value : ℕ) (pid : Option ℕ) (flags : ℕ)
        → Cmd (Selector (EPoll K)) (Waited × List ℕ)
    unfolding opened
    process_wait a w type fiber value none flags s = some ((delegated, []), s)
    process_wait a w type fiber value (some pid) flags s =
        let (r, t) = processes.pidfd_open pid s in opened a w type fiber value pid flags r t

    -- What a call that has come back has closed.
    abbrev pub Closes : (descriptor : ℕ) → Option ((Waited × List ℕ) × Selector (EPoll K)) → Type 0
    Closes descriptor none = Unit
    Closes descriptor (some ((not_found e, closed), s)) = closed ≡ []
    Closes descriptor (some ((r, closed), s)) = closed ≡ descriptor ∷ []

    Closes-cancel :
        (descriptor : ℕ) (r : Waited × Selector (EPoll K))
        (c : Option (Unit {0} × Selector (EPoll K)))
        → ((e : Error) → r.0 ≢ not_found e)
        → Closes descriptor (and_then c (λ _ u. some ((r.0, descriptor ∷ []), u)))
    Closes-cancel descriptor r none other = tt
    Closes-cancel descriptor (status st, s) (some (u, t)) other = refl
    Closes-cancel descriptor (not_ready, s) (some (u, t)) other = refl
    Closes-cancel descriptor (interrupted x, s) (some (u, t)) other = refl
    Closes-cancel descriptor (not_found e, s) (some (u, t)) other = absurd (other e refl)
    Closes-cancel descriptor (sys_fail e, s) (some (u, t)) other = refl
    Closes-cancel descriptor (delegated, s) (some (u, t)) other = refl

    transferred-answer :
        (pid flags : ℕ) (w : Ptr) (o : Outcome) (s : Selector (EPoll K)) (e : Error)
        → (transferred pid flags w o s).0 ≢ not_found e
    transferred-answer pid flags w (returned v) s e h = elim (Bool-cases (s.outside.ready w == 0)) [
      | inl z ↦ cc (simp z at h)
      | inr z ↦ cc (simp z at h)
    ]
    transferred-answer pid flags w (raised x) s e h = cc h

    ensure_closed-Closes :
        (pid flags descriptor : ℕ) (w : Ptr) (r : Option (Outcome × Selector (EPoll K)))
        → Closes descriptor (ensure_closed pid flags descriptor w r)
    ensure_closed-Closes pid flags descriptor w none = tt
    ensure_closed-Closes pid flags descriptor w (some (o, s)) =
        let r = transferred pid flags w o s in
        Closes-cancel descriptor r (on_poll (waiting_cancel w) r.1)
          (transferred-answer pid flags w o s)

    registered-Closes :
        (pid flags descriptor : ℕ) (w : Ptr) (c : Option (Result Call × Selector (EPoll K)))
        → Closes descriptor (and_then c (registered pid flags descriptor w))
    registered-Closes pid flags descriptor w none = tt
    registered-Closes pid flags descriptor w (some (err e, s)) = refl
    registered-Closes pid flags descriptor w (some (ok (failure e), s)) = refl
    registered-Closes pid flags descriptor w (some (ok (success n), s)) =
        ensure_closed-Closes pid flags descriptor w (loop_yield ruby s)

    -- A wait for one process that has opened a descriptor of it and comes back, with a status, with an
    -- exception or with an error, has closed that descriptor, once, and no other; except that it has
    -- closed nothing if the allocator raised while the descriptor was looked up.
    pub process_wait-Closes :
        (a : Answers) (w type : Ptr) (fiber value pid flags descriptor : ℕ) (s : Selector (EPoll K))
        → (processes.pidfd_open pid s).0 ≡ success descriptor
        → Closes descriptor (process_wait a w type fiber value (some pid) flags s)
    unfolding process_wait opened
    process_wait-Closes a w type fiber value pid flags descriptor s found =
        let t = (processes.pidfd_open pid s).1 in
        let (st, u) = processes.reap pid flags t in
        elim (Bool-cases (st == Fiber.nil)) [
          | inl e ↦
              simp (found, e)
                (registered-Closes pid flags descriptor w (
                  on_poll (waiting_register kernel a value descriptor w)
                    (new_waiting w type fiber readable u)))
          | inr e ↦ simp (found, e) refl
        ]
