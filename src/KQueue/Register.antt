-- ===== src/KQueue/Register.antt =====
-- `IO_Event_Selector_KQueue_Waiting_register`: what the kernel watches for the fibers that wait.
use io_event.List.Update.{prepend-IsList}
use io_event.List.Shape.{IsDetached, IsList}
use io_event.System.{Call}
use io_event.Base.{
  inr, ==_iff, ◌||◌, inl, Bool-cases, ◌∙◌, ap, sym, arith, subst, ℕ, ◌≡◌, refl, Bool, true, not,
  Option, none, some, List, [], ◌∷◌, Ptr, ◌==◌, ◌∈◌, ◌∉◌,
}
use io_event.EPoll.{readable, writable}
use Prim.Native.Nat.{bit_and, bit_or}
use io_event.Base.Bits.{◌⊑◌, or_left, or_right, ⊑_trans, and_comm, zero_and}
use io_event.KQueue.{
  evfilt_user, evfilt_proc, evfilt_write, add_waiting, evfilt_read, descriptor_update, link,
  register_on, failure, changes, success, registered, changes_of, submit, events_from_kevent_filter,
  KQueue, Kernel, Filter, Kevent, all_ask, asks_once, change_if, exit,
}

-- A filter reports one of the events.
abbrev pub wants : (events : ℕ) → Filter → Bool
wants events f = not (bit_and events (events_from_kevent_filter f) == 0)

pub changes_of-wants :
    (identifier : ℕ) (d : Ptr) (events : ℕ) (f : Filter)
    → changes identifier f (changes_of identifier d events) ≡ wants events f
unfolding events_from_kevent_filter
changes_of-wants identifier d events evfilt_read = ground arith
changes_of-wants identifier d events evfilt_write = ground arith
changes_of-wants identifier d events evfilt_proc = ground arith
changes_of-wants identifier d events evfilt_user =
    ground (arith, and_comm events 0, zero_and events)

change_if-asks :
    (events event : ℕ) (c : Kevent) (rest : List Kevent)
    → asks_once c ≡ true
    → all_ask rest ≡ true
    → all_ask (change_if events event c rest) ≡ true
change_if-asks events event c rest one all = elim (Bool-cases (bit_and events event == 0)) [
  | inl e ↦ simp e all
  | inr e ↦ simp (e, one) all
]

-- All that an update asks the kernel for is to be reported once.
changes_of-asks :
    (identifier : ℕ) (d : Ptr) (events : ℕ) → all_ask (changes_of identifier d events) ≡ true
changes_of-asks identifier d events =
    change_if-asks events readable _ _ refl
      (change_if-asks events writable _ _ refl (change_if-asks events exit _ _ refl refl))

module _ {K : Type 0} where
  -- On the list of the descriptor `d` the nodes `xs` wait, for events that are all in its union.
  pub record IsWaiting (s : KQueue K) (d : Ptr) (xs : List Ptr) : Type 0 where
    pub list : IsList s.links d xs
    pub covered : (x : Ptr) → x ∈ xs → s.events x ⊑ s.waiting_events d

  module _ (kernel : Kernel K) (identifier : ℕ) where
    -- The kernel is to report all that is waited for on the descriptor.
    abbrev pub IsWatched : Ptr → KQueue K → Type 0
    IsWatched d s =
        (f : Filter)
        → wants (s.waiting_events d) f ≡ true
        → kernel.watches s.kernel identifier f ≡ true

    abbrev pub Same : KQueue K → KQueue K → Type 0
    Same s t =
        (t.links ≡ s.links)
        × (t.events ≡ s.events)
        × (t.waiting_events ≡ s.waiting_events)
        × (t.ready_events ≡ s.ready_events)

    abbrev Sent : List Kevent → KQueue K → Call × KQueue K → Type 0
    Sent cs s (success n, t) =
        Same s t
        × ((f : Filter)
            → changes identifier f cs ≡ true
            → kernel.watches t.kernel identifier f ≡ true)
    Sent cs s (failure e, t) = Same s t

    same_cover :
        (s t : KQueue K) (x d : Ptr)
        → Same s t
        → s.events x ⊑ s.waiting_events d
        → t.events x ⊑ t.waiting_events d
    same_cover s t x d same c =
        subst (λ e. e x ⊑ t.waiting_events d) (sym same.1)
          (subst (λ m. s.events x ⊑ m d) (sym same.2) c)

    registered-Sent :
        (d : Ptr) (cs : List Kevent) (s : KQueue K) (o : Call × K)
        → all_ask cs ≡ true
        → kernel.kevent cs s.kernel ≡ o
        → Sent cs s (registered kernel d o s)
    registered-Sent d cs s (success n, k) all run = (
      (refl, refl, refl, refl),
      λ f asked.
          sym (ap (λ (o : Call × K). kernel.watches o.1 identifier f) run)
          ∙ kernel.kevent_done cs n identifier f s.kernel all (ap (λ (o : Call × K). o.0) run)
          ∙ ap (λ b. b || kernel.watches s.kernel identifier f) asked,
    )
    registered-Sent d cs s (failure e, k) all run = (refl, refl, refl, refl)

    submit-Sent :
        (d : Ptr) (cs : List Kevent) (s : KQueue K)
        → all_ask cs ≡ true
        → Sent cs s (submit kernel d cs s)
    submit-Sent d [] s all = ((refl, refl, refl, refl), λ f asked. absurd (ground (arith, asked)))
    submit-Sent d (c ∷ cs) s all =
        registered-Sent d (c ∷ cs) s (kernel.kevent (c ∷ cs) s.kernel) all refl

    -- What an update of the descriptor `d` leaves: if it succeeds, the kernel is to report all that is
    -- waited for.
    abbrev pub Updated : (d : Ptr) → KQueue K → Call × KQueue K → Type 0
    Updated d s (success n, t) = Same s t × IsWatched d t
    Updated d s (failure e, t) = Same s t

    Sent-Updated :
        (d : Ptr) (s : KQueue K) (r : Call × KQueue K)
        → Sent (changes_of identifier d (s.waiting_events d)) s r
        → Updated d s r
    Sent-Updated d s (failure e, t) sent = sent
    Sent-Updated d s (success n, t) sent = (
      sent.0,
      λ f want. sent.1 f (
          changes_of-wants identifier d (s.waiting_events d) f
          ∙ ap (λ m. wants (m d) f) (sym sent.0.2)
          ∙ want),
    )

    pub update-Updated :
        (d : Ptr) (s : KQueue K) → Updated d s (descriptor_update kernel identifier d s)
    unfolding descriptor_update
    update-Updated d s =
        Sent-Updated d s (submit kernel d (changes_of identifier d (s.waiting_events d)) s) (
          submit-Sent d (changes_of identifier d (s.waiting_events d)) s
            (changes_of-asks identifier d (s.waiting_events d)))

    module _ (d w : Ptr) (xs : List Ptr) where
      -- How a registration comes back. It never faults. If it succeeds, the node is first in the list
      -- and the kernel watches for all events of the union; if it fails, the node is in no list.
      abbrev pub Enlisted : Option (Call × KQueue K) → Type 0
      Enlisted none = ⊥
      Enlisted (some (success n, t)) = IsWaiting t d (w ∷ xs) × IsWatched d t
      Enlisted (some (failure e, t)) = IsWaiting t d xs × IsDetached t.links w

      linked :
          (s : KQueue K) (r : Call × KQueue K)
          → Updated d s r
          → IsWaiting s d xs
          → s.events w ⊑ s.waiting_events d
          → IsDetached s.links w
          → w ∉ d ∷ xs
          → Enlisted (link kernel d w r)
      linked s (failure e, t) sent is cover off out = (
        record {
          list = subst (λ h. IsList h d xs) (sym sent.0) is.list;
          covered = λ x i. same_cover s t x d sent (is.covered x i);
        },
        subst (λ h. IsDetached h w) (sym sent.0) off,
      )
      linked s (success n, t) sent is cover off out =
          let list : IsList t.links d xs = subst (λ h. IsList h d xs) (sym sent.0.0) is.list in
          let off' : IsDetached t.links w = subst (λ h. IsDetached h w) (sym sent.0.0) off in
          let (h, run, is', _) = prepend-IsList list off' out in
          let cover_all : (x : Ptr) → x ∈ w ∷ xs → s.events x ⊑ s.waiting_events d = λ x i.
            elim (Bool-cases (x == w)) [
              | inl e ↦ subst (λ x. s.events x ⊑ s.waiting_events d) (sym ((==_iff x w).0 e)) cover
              | inr other ↦ is.covered x (ground arith)
            ] in
          simp run (
            record { list = is'; covered = λ x i. same_cover s t x d sent.0 (cover_all x i) },
            sent.1,
          )

      -- A fiber that stands in no list asks for some events, for a descriptor or a process: whatever the
      -- kernel answers, the registration comes back; and either the fiber is the first in the list, and
      -- the kernel is to report each event of the union that has a filter, or `kevent` failed, and the
      -- list is as before.
      pub register_on-Enlisted :
          {s : KQueue K}
          → IsWaiting s d xs
          → IsDetached s.links w
          → w ∉ d ∷ xs
          → Enlisted (register_on kernel identifier d w s)
      unfolding register_on
      register_on-Enlisted {s} is off out =
          let t : KQueue K = add_waiting kernel d w s in
          let union : t.waiting_events d ≡ bit_or (s.waiting_events d) (s.events w) =
            ground arith in
          linked t (descriptor_update kernel identifier d t) (update-Updated d t)
            (record {
              list = is.list;
              covered = λ x i.
                  subst (λ m. s.events x ⊑ m) (sym union)
                    (⊑_trans (s.events x) (s.waiting_events d)
                      (bit_or (s.waiting_events d) (s.events w)) (is.covered x i)
                      (or_left (s.waiting_events d) (s.events w)));
            })
            (subst (λ m. s.events w ⊑ m) (sym union) (or_right (s.waiting_events d) (s.events w)))
            off out
