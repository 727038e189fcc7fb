-- ===== src/Uring/Complete/Loop.antt =====
-- What `select_process_completions` keeps, with the fibers that it resumes.
use io_event.Uring.Complete.{
  turn, after_peek, resume_fiber, process_completions, fiber_of, after_resume, advance, Processed,
  process_loop,
}
use io_event.Uring.Complete.Settle.{settle-Settled, Owned}
use io_event.Fiber.{raised, returned, Outcome, Ruby}
use io_event.Selector.Outside.{After}
use io_event.Selector.{loop_resume, Selector}
use io_event.Uring.Owned.{unlinked, carries, IsRing, IsOwned}
use io_event.Uring.Ring.{completing, interrupted, timeout, nothing, UserData, Cqe, Liburing}
use io_event.Base.{
  and_then, refl, sym, subst, ◌∷◌, ◌==◌, ◌⊎◌, ◌<◌, ◌∈◌, get_elem?, Bool-cases, false, arith, ◌+◌,
  ap, inr, inl, ◌∙◌, Cmd, ℕ, zero, suc, ◌≡◌, Bool, Option, none, some, List, [], Ptr,
}
use io_event.Uring.{Uring}

module _ {K : Type 0} (ring : Liburing K) (holds : Ptr → K → ℕ) where
  -- Every completion has one owner, whatever the free list is.
  abbrev pub HasOwners : Uring K → Type 0
  HasOwners u = (free : List Ptr) × IsOwned (λ c. holds c u.kernel) free u

  -- Whatever a call returns, every completion has one owner.
  abbrev pub OwnedAfter : {A : Type 0} → Option (A × Selector (Uring K)) → Type 0
  OwnedAfter = After HasOwners

  -- Each completion of the array is in the free list, or an entry of the ring carries it.
  abbrev pub Accounted : List Ptr → Uring K → Type 0
  Accounted free u =
      (i : ℕ) (c : Ptr)
      → get_elem? u.completions.base i ≡ some (some c)
      → (c ∈ free) ⊎ (0 < holds c u.kernel)

  -- So each completion of the array has an owner, and none has two.
  abbrev pub ExactlyOwned : List Ptr → Selector (Uring K) → Type 0
  ExactlyOwned free s = Owned ring holds free s × Accounted free s.outside

  -- Whatever a call returns, each completion has exactly one owner.
  abbrev pub ExactlyOwnedAfter : {A : Type 0} → Option (A × Selector (Uring K)) → Type 0
  ExactlyOwnedAfter none = Unit
  ExactlyOwnedAfter (some (a, s)) = (free : List Ptr) × ExactlyOwned free s

  -- The ring changes, and holds the same completions.
  Accounted-same :
      (free : List Ptr) (s t : Uring K)
      → t.completions ≡ s.completions
      → ((c : Ptr) → holds c s.kernel ≡ holds c t.kernel)
      → Accounted free s
      → Accounted free t
  Accounted-same free s t array same all i c at =
      elim (all i c (ap (λ a. get_elem? a.base i) (sym array) ∙ at)) [
        | inl free_one ↦ inl free_one
        | inr held ↦ inr (subst (λ n. 0 < n) (same c) held)
      ]

  -- A completion that an entry brought back is free now.
  Accounted-released :
      (free : List Ptr) (c : Ptr) (s t : Uring K)
      → t.completions ≡ s.completions
      → ((d : Ptr) → holds d s.kernel ≡ holds d t.kernel + carries d (completing c))
      → Accounted free s
      → Accounted (c ∷ free) t
  Accounted-released free c s t array taken all i d at = elim (Bool-cases (d == c)) [
    | inl e ↦ inl (ground (arith, e))
    | inr e ↦ elim (all i d (ap (λ a. get_elem? a.base i) (sym array) ∙ at)) [
      | inl free_one ↦ inl (ground (arith, e, free_one))
      | inr held ↦ inr (ground (arith, e, held, taken d))
    ]
  ]

  module _ (laws : IsRing ring holds) (ruby : Ruby (Selector (Uring K)))
      (fibers : (fiber : ℕ) (free : List Ptr) (s : Selector (Uring K))
        → ExactlyOwned free s
        → ExactlyOwnedAfter (loop_resume ruby fiber [] s)) where
    -- An entry without a completion leaves the ring.
    advance-Owned :
        (free : List Ptr) (registered : Bool) (cqe : Cqe) (s : Selector (Uring K))
        → ExactlyOwned free s
        → ring.peek s.outside.kernel ≡ some cqe
        → ((c : Ptr) → carries c cqe.user_data ≡ 0)
        → ExactlyOwned free (
            advance ring
              (record s { outside = record s.outside { wakeup_registered = registered } }))
    advance-Owned free registered cqe s is next carried =
        let same : (c : Ptr)
            → holds c s.outside.kernel ≡ holds c (ring.cq_advance s.outside.kernel) =
          λ c.
            laws.peek s.outside.kernel cqe c next
            ∙ ap (λ k. holds c (ring.cq_advance s.outside.kernel) + k) (carried c)
            ∙ omega arith in
        (
          unlinked registered s.outside.fiber s.outside.result s.outside.flags
              (ring.cq_advance s.outside.kernel) is.0 same,
          Accounted-same free s.outside
              (record s.outside {
                wakeup_registered = registered;
                kernel = ring.cq_advance s.outside.kernel;
              })
              refl same is.1,
        )

    module _ (rest : Cmd (Selector (Uring K)) Processed)
        (later : (free : List Ptr) (s : Selector (Uring K))
          → ExactlyOwned free s
          → ExactlyOwnedAfter (rest s)) where
      after_resume-Owned :
          (o : Option (Outcome × Selector (Uring K)))
          → ExactlyOwnedAfter o
          → ExactlyOwnedAfter (after_resume ring o rest)
      after_resume-Owned none is = tt
      after_resume-Owned (some (returned v, s)) (free, is) = later free s is
      after_resume-Owned (some (raised x, s)) is = is

      resume_fiber-Owned :
          (fiber : ℕ) (free : List Ptr) (s : Selector (Uring K))
          → ExactlyOwned free s
          → ExactlyOwnedAfter (resume_fiber ring ruby rest fiber s)
      resume_fiber-Owned fiber free s is = elim (Bool-cases (fiber == 0)) [
        | inl e ↦ rw e (later free s is)
        | inr e ↦ rw e (after_resume-Owned (loop_resume ruby fiber [] s) (fibers fiber free s is))
      ]

      turn-Owned :
          (free : List Ptr) (cqe : Cqe) (mark : UserData) (s : Selector (Uring K))
          → ExactlyOwned free s
          → ring.peek s.outside.kernel ≡ some cqe
          → cqe.user_data ≡ mark
          → ExactlyOwnedAfter (turn ring ruby rest cqe mark s)
      unfolding turn
      turn-Owned free cqe nothing s is next carried = later free _ (
          advance-Owned free s.outside.wakeup_registered cqe s is next
            (λ c. ap (carries c) carried))
      turn-Owned free cqe timeout s is next carried = later free _ (
          advance-Owned free s.outside.wakeup_registered cqe s is next
            (λ c. ap (carries c) carried))
      turn-Owned free cqe interrupted s is next carried =
          later free _ (advance-Owned free false cqe s is next (λ c. ap (carries c) carried))
      turn-Owned free cqe (completing c) s is next carried =
          elim (settle-Settled ring holds laws free cqe c s is.0 next carried) [
            | inl (_, bad) ↦
                subst ExactlyOwnedAfter
                  (ap (λ o. and_then o (resume_fiber ring ruby rest)) (sym bad)) tt
            | inr (_, t, st) ↦
                subst ExactlyOwnedAfter
                  (ap (λ o. and_then o (resume_fiber ring ruby rest)) (sym st.returns))
                  (resume_fiber-Owned (fiber_of ring (s.outside.waiting c) s) (c ∷ free) t (
                    st.owned,
                    Accounted-released free c s.outside t.outside st.completions
                        (λ d.
                          laws.peek s.outside.kernel cqe d next
                          ∙ ap (λ m. holds d (ring.cq_advance s.outside.kernel) + carries d m)
                              carried
                          ∙ ap (λ k. holds d k + carries d (completing c)) (sym st.kernel))
                        is.1,
                  ))
          ]

      after_peek-Owned :
          (count : ℕ) (free : List Ptr) (o : Option Cqe) (s : Selector (Uring K))
          → ExactlyOwned free s
          → ring.peek s.outside.kernel ≡ o
          → ExactlyOwnedAfter (after_peek ring ruby count rest o s)
      unfolding after_peek
      after_peek-Owned count free none s is next = (free, is)
      after_peek-Owned count free (some cqe) s is next =
          turn-Owned free cqe cqe.user_data s is next refl

    process_loop-Owned :
        (fuel count : ℕ) (free : List Ptr) (s : Selector (Uring K))
        → ExactlyOwned free s
        → ExactlyOwnedAfter (process_loop ring ruby fuel count s)
    unfolding process_loop
    process_loop-Owned zero count free s is = (free, is)
    process_loop-Owned (suc fuel) count free s is =
        after_peek-Owned (process_loop ring ruby fuel (count + 1))
          (process_loop-Owned fuel (count + 1)) count free (ring.peek s.outside.kernel) s is refl

    -- If each completion of the array is either in the free list or carried by one entry of the ring, and
    -- none is both or carried twice, liburing keeps its laws, and each fiber that is resumed keeps this,
    -- whatever else it does, then it is so when the call returns, whatever it returns: no completion is
    -- lost, and none is given out twice.
    pub process_completions-Owned :
        (fuel : ℕ) (free : List Ptr) (s : Selector (Uring K))
        → ExactlyOwned free s
        → ExactlyOwnedAfter (process_completions ring ruby fuel s)
    unfolding process_completions process_loop
    process_completions-Owned fuel free s is = process_loop-Owned fuel 0 free s is
