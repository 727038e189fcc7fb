-- ===== src/Uring/Complete/Settle.antt =====
-- What a turn of `select_process_completions` keeps.
use io_event.Uring.Owned.{release-IsOwned, unlinked, carries, IsRing, IsOwned}
use io_event.Selector.{Selector}
use io_event.Uring.Complete.{is_canceled, fiber_of, settle}
use io_event.Uring.Ring.{completing, Cqe, Liburing}
use io_event.Base.{
  sym, subst, ℕ, ◌+◌, ◌≡◌, refl, ap, ◌∙◌, ◌≢◌, ◌⊎◌, inl, inr, Bool, true, false, not, ◌&&◌, none,
  some, List, ◌∷◌, arith, Ptr, null, update, ◌==◌, Bool-cases,
}
use io_event.Uring.{Uring}

module _ {K : Type 0} (ring : Liburing K) (holds : Ptr → K → ℕ) where
  -- Every completion has one owner, in the state with the `backend`.
  abbrev pub Owned : List Ptr → Selector (Uring K) → Type 0
  Owned free s = IsOwned (λ c. holds c s.outside.kernel) free s.outside

  -- The assertion that a fiber which is resumed has not been cancelled.
  abbrev pub is_refused : Cqe → Ptr → Selector (Uring K) → Bool
  is_refused cqe c s = not (fiber_of ring (s.outside.waiting c) s == 0) && is_canceled cqe.res

  -- How a turn for an entry with a completion ends.
  pub record Settled (free : List Ptr) (cqe : Cqe) (c : Ptr) (s t : Selector (Uring K))
      : Type 0 where
    pub returns : settle ring cqe c s ≡ some (fiber_of ring (s.outside.waiting c) s, t)
    pub owned : Owned (c ∷ free) t
    pub forgotten : t.outside.waiting c ≡ null
    pub kernel : t.outside.kernel ≡ ring.cq_advance s.outside.kernel
    pub completions : t.outside.completions ≡ s.outside.completions
    pub result : s.outside.waiting c ≢ null → t.outside.result (s.outside.waiting c) ≡ cqe.res

  -- Every completion has one owner, and the next entry of the ring carries the completion `c`: if the
  -- fiber that waits for it is still to be resumed and the operation was cancelled, the assertion fails;
  -- otherwise the entry leaves the ring, the result is written for the fiber, if one waits, the completion
  -- goes to the free list and is waited for by nobody, and every completion has one owner again.
  pub settle-Settled :
      (laws : IsRing ring holds) (free : List Ptr) (cqe : Cqe) (c : Ptr) (s : Selector (Uring K))
      → Owned free s
      → ring.peek s.outside.kernel ≡ some cqe
      → cqe.user_data ≡ completing c
      → ((is_refused cqe c s ≡ true) × (settle ring cqe c s ≡ none))
        ⊎ ((is_refused cqe c s ≡ false) × (t : Selector (Uring K)) × Settled free cqe c s t)
  unfolding settle
  settle-Settled laws free cqe c s is next carried =
      let taken : (d : Ptr)
          → holds d s.outside.kernel
            ≡ holds d (ring.cq_advance s.outside.kernel) + carries d (completing c) =
        λ d.
          laws.peek s.outside.kernel cqe d next
          ∙ ap (λ u. holds d (ring.cq_advance s.outside.kernel) + carries d u) carried in
      elim (Bool-cases (s.outside.waiting c == null)) [
        | inl e ↦
            let from =
              unlinked s.outside.wakeup_registered s.outside.fiber s.outside.result s.outside.flags
                (ring.cq_advance s.outside.kernel) is (λ d. refl) in
            let (t, run, kept, waiting, same, rest) = release-IsOwned c from taken in
            inr (
              simp e refl,
              record s { outside = t },
              record {
                returns = simp (e, run) refl;
                owned = subst (λ k. IsOwned (λ d. holds d k) (c ∷ free) t) (sym rest.3) kept;
                forgotten = waiting;
                kernel = rest.3;
                completions = rest.4;
                result = λ h. absurd (ground (arith, e, h));
              },
            )
        | inr e ↦
            let w = s.outside.waiting c in
            let from =
              unlinked s.outside.wakeup_registered s.outside.fiber
                (update s.outside.result w cqe.res) (update s.outside.flags w cqe.flags)
                (ring.cq_advance s.outside.kernel) is (λ d. refl) in
            let (t, run, kept, waiting, same, rest) = release-IsOwned c from taken in
            let settled : settle ring cqe c s ≡ some (fiber_of ring w s, record s { outside = t })
                → Settled free cqe c s (record s { outside = t }) =
              λ run'. record {
                returns = run';
                owned = subst (λ k. IsOwned (λ d. holds d k) (c ∷ free) t) (sym rest.3) kept;
                forgotten = waiting;
                kernel = rest.3;
                completions = rest.4;
                result = λ h. ap (λ f. f w) rest.1 ∙ ground arith;
              } in
            let at : update s.outside.result w cqe.res w ≡ cqe.res = ground arith in
            elim (Bool-cases (s.outside.fiber w == 0)) [
              | inl f ↦
                  inr (simp (e, f) refl, record s { outside = t }, settled (simp (e, f, run) refl))
              | inr f ↦ elim (Bool-cases (is_canceled cqe.res)) [
                | inl z ↦ inl (simp (e, f, z) refl, simp (e, f, at, z) refl)
                | inr z ↦ inr (
                  simp (e, f, z) refl,
                  record s { outside = t },
                  settled (simp (e, f, at, z, run) refl),
                )
              ]
            ]
      ]
