-- ===== src/EPoll/Waiting.antt =====
-- `IO_Event_Selector_EPoll_Waiting_register` and `IO_Event_Selector_EPoll_Waiting_cancel`: the list
-- of the fibers that wait for a descriptor, and what the kernel watches for them.
use io_event.Base.{
  subst, ℕ, ◌≡◌, refl, sym, ap, ◌∙◌, inl, inr, false, Option, none, some, List, ◌∷◌, ◌++◌, arith,
  Ptr, update, ◌==◌, ==_iff, Bool-cases, ◌∈◌, ◌∉◌, has-append,
}
use Prim.Native.Nat.{bit_and, bit_or}
use io_event.Base.Bits.{◌⊑◌, or_left, or_right, ⊑_trans, and_comm, zero_and}
use io_event.EPoll.Flags.{Asks, flags-Asks}
use io_event.System.{Call, success, failure}
use io_event.List.Shape.{IsList, IsDetached}
use io_event.List.Update.{prepend-IsList, pop-IsList}
use io_event.EPoll.{
  link, Kernel, EPoll, descriptor_update, register_on, waiting_cancel, epoll_flags_from_events,
}
use io_event.EPoll.Update.{IsArmed, Updated, SameBut, update-Updated}

or-nonzero : (a b : ℕ) → (b == 0) ≡ false → (bit_or a b == 0) ≡ false
or-nonzero a b some_bits = elim (Bool-cases (bit_or a b == 0)) [
  | inl e ↦
      let at = (==_iff (bit_or a b) 0).0 e in
      let zero_b : b ≡ 0 = sym (or_right a b) ∙ ap (bit_and b) at ∙ and_comm b 0 ∙ zero_and b in
      ground (arith, zero_b)
  | inr e ↦ e
]

module _ {K : Type 0} where
  -- On the list of the descriptor `d` the nodes `xs` wait, for events that are all in its union.
  pub record IsWaiting (s : EPoll K) (d : Ptr) (xs : List Ptr) : Type 0 where
    pub list : IsList s.links d xs
    pub covered : (x : Ptr) → x ∈ xs → s.events x ⊑ s.waiting_events d

  module _ (kernel : Kernel K) (fd : ℕ) (d w : Ptr) (xs : List Ptr) where
    -- How a registration comes back. It never faults. If it succeeds, the node is first in the list
    -- and the kernel watches for the union; if it fails, the node is in no list.
    abbrev pub Registered : Option (Call × EPoll K) → Type 0
    Registered none = ⊥
    Registered (some (success n, t)) =
        IsWaiting t d (w ∷ xs)
        × IsArmed kernel fd d t
        × (kernel.interest t.kernel fd ≡ some (epoll_flags_from_events (t.waiting_events d)))
        × Asks (epoll_flags_from_events (t.waiting_events d)) (t.waiting_events d)
    Registered (some (failure e, t)) =
        IsWaiting t d xs × IsArmed kernel fd d t × IsDetached t.links w

  module _ (kernel : Kernel K) (fd : ℕ) (d : Ptr) where
    pub same_cover :
        (s t : EPoll K) (x : Ptr)
        → SameBut kernel fd d s t
        → s.events x ⊑ s.waiting_events d
        → t.events x ⊑ t.waiting_events d
    same_cover s t x same c =
        subst (λ e. e x ⊑ t.waiting_events d) (sym same.events)
          (subst (λ m. s.events x ⊑ m d) (sym same.waiting_events) c)

  module _ (kernel : Kernel K) (fd : ℕ) (d w : Ptr) (xs : List Ptr) where
    -- What follows the update.
    linked :
        (s : EPoll K) (r : Call × EPoll K)
        → Updated kernel fd d s r
        → IsWaiting s d xs
        → s.events w ⊑ s.waiting_events d
        → (s.waiting_events d == 0) ≡ false
        → IsDetached s.links w
        → w ∉ d ∷ xs
        → Registered kernel fd d w xs (link kernel d w r)
    linked s (failure e, t) up is cover some_events off out = (
      record {
        list = subst (λ h. IsList h d xs) (sym up.same.links) is.list;
        covered = λ x i. same_cover kernel fd d s t x up.same (is.covered x i);
      },
      up.armed,
      subst (λ h. IsDetached h w) (sym up.same.links) off,
    )
    linked s (success n, t) up is cover some_events off out =
        let list : IsList t.links d xs = subst (λ h. IsList h d xs) (sym up.same.links) is.list in
        let off' : IsDetached t.links w = subst (λ h. IsDetached h w) (sym up.same.links) off in
        let (h, run, is', _) = prepend-IsList list off' out in
        let cover_all : (x : Ptr) → x ∈ w ∷ xs → s.events x ⊑ s.waiting_events d = λ x i.
          elim (Bool-cases (x == w)) [
            | inl e ↦ subst (λ x. s.events x ⊑ s.waiting_events d) (sym ((==_iff x w).0 e)) cover
            | inr other ↦ is.covered x (ground arith)
          ] in
        simp run (
          record {
            list = is';
            covered = λ x i. same_cover kernel fd d s t x up.same (cover_all x i);
          },
          up.armed,
          up.watched refl some_events
              ∙ ap (λ m. some (epoll_flags_from_events (m d))) (sym up.same.waiting_events),
          flags-Asks (t.waiting_events d),
        )

    -- A fiber that asks for some events and stands in no list, on a descriptor that the kernel watches
    -- for what is recorded as registered, if that is anything: whatever the kernel answers, the
    -- registration comes back; and either the fiber is the first in the list of the descriptor, and the
    -- kernel watches for the flags of a union that has the events of all that wait there, its own
    -- included, each flag being there just if its event is in the union; or `epoll_ctl` failed, and the
    -- list is as before. In both cases the kernel watches for what is recorded, if that is anything.
    pub register_on-Registered :
        (io : ℕ) {s : EPoll K}
        → IsWaiting s d xs
        → IsArmed kernel fd d s
        → (s.events w == 0) ≡ false
        → IsDetached s.links w
        → w ∉ d ∷ xs
        → Registered kernel fd d w xs (register_on kernel io fd d w s)
    unfolding register_on
    register_on-Registered io {s} is armed some_events off out =
        let t : EPoll K = record s {
          waiting_events = update s.waiting_events d (bit_or (s.waiting_events d) (s.events w));
        } in
        let union : t.waiting_events d ≡ bit_or (s.waiting_events d) (s.events w) = ground arith in
        linked t (descriptor_update kernel io fd d t) (update-Updated kernel fd d io t armed)
          (record {
            list = is.list;
            covered = λ x i.
                subst (λ m. s.events x ⊑ m) (sym union)
                  (⊑_trans (s.events x) (s.waiting_events d)
                    (bit_or (s.waiting_events d) (s.events w)) (is.covered x i)
                    (or_left (s.waiting_events d) (s.events w)));
          })
          (subst (λ m. s.events w ⊑ m) (sym union) (or_right (s.waiting_events d) (s.events w)))
          (subst (λ m. (m == 0) ≡ false) (sym union)
            (or-nonzero (s.waiting_events d) (s.events w) some_events))
          off out

  -- A fiber that stops waiting, wherever it stands in the list, is taken out of it; the others keep
  -- their order, and the union and the registration with the kernel stay as they are.
  pub waiting_cancel-IsWaiting :
      {s : EPoll K} (d : Ptr) (xs : List Ptr) (w : Ptr) (ys : List Ptr)
      → IsWaiting s d (xs ++ w ∷ ys)
      → (t : EPoll K) × (waiting_cancel w s ≡ some (tt, t))
        × IsWaiting t d (xs ++ ys)
        × IsDetached t.links w
        × (t.fiber w ≡ 0)
        × (t.waiting_events ≡ s.waiting_events)
        × (t.registered_events ≡ s.registered_events)
        × (t.kernel ≡ s.kernel)
  unfolding waiting_cancel
  waiting_cancel-IsWaiting {s} d xs w ys is =
      let (h, run, is', off, _) = pop-IsList xs w ys is.list in
      (
        record s { links = h; fiber = update s.fiber w 0 },
        simp run,
        record {
          list = is';
          covered =
              λ x i. is.covered x (ground (arith, has-append x xs (w ∷ ys), has-append x xs ys));
        },
        off,
        ground arith,
        refl,
        refl,
        refl,
      )
