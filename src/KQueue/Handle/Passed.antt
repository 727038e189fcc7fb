-- ===== src/KQueue/Handle/Passed.antt =====
-- `IO_Event_Selector_KQueue_handle` where no fiber waits for what has happened.
use io_event.List.Shape.{IsList}
use io_event.KQueue.Register.{Same, update-Updated, IsWaiting, IsWatched}
use io_event.KQueue.Handle.{still_waiting, take_ready, ended, updated, Handled, handle_loop, handle}
use io_event.System.{Call}
use io_event.Selector.{Selector}
use io_event.Fiber.{Ruby}
use io_event.Base.{
  subst, ℕ, zero, suc, ◌<◌, ◌≡◌, refl, sym, ap, ◌∙◌, inl, inr, true, false, Option, some, List, [],
  ◌∷◌, arith, Ptr, ◌==◌, ==_iff, Bool-cases, length, ◌∈◌, ◌∉◌,
}
use Prim.Native.Nat.{bit_and, bit_or}
use io_event.Base.Bits.{◌⊑◌, or_left, or_right, ⊑_trans}
use io_event.Links.{Links}
use io_event.KQueue.{descriptor_update, failure, success, KQueue, Kernel}
use io_event.KQueue.Register

module _ {K : Type 0} (ruby : Ruby (Selector (KQueue K))) (d saved : Ptr) where
  -- The union of the events that nodes wait for, on top of others.
  abbrev pub union : (Ptr → ℕ) → List Ptr → ℕ → ℕ
  union events [] u = u
  union events (x ∷ xs) u = union events xs (bit_or u (events x))

  union_covers : (events : Ptr → ℕ) (xs : List Ptr) (u : ℕ) (e : ℕ) → e ⊑ u → e ⊑ union events xs u
  union_covers events [] u e is = is
  union_covers events (x ∷ xs) u e is =
      union_covers events xs (bit_or u (events x)) e
        (⊑_trans e u (bit_or u (events x)) is (or_left u (events x)))

  union-covered :
      (events : Ptr → ℕ) (xs : List Ptr) (u : ℕ) (x : Ptr) → x ∈ xs → events x ⊑ union events xs u
  union-covered events [] u x i = absurd (ground (arith, i))
  union-covered events (y ∷ ys) u x i = elim (Bool-cases (x == y)) [
    | inl e ↦
        subst (λ z. events z ⊑ union events ys (bit_or u (events y))) (sym ((==_iff x y).0 e))
          (union_covers events ys (bit_or u (events y)) (events y) (or_right u (events y)))
    | inr e ↦ union-covered events ys (bit_or u (events y)) x (ground (arith, i, e))
  ]

  -- All that the loop leaves alone when nobody is resumed.
  abbrev pub Untouched : Selector (KQueue K) → Selector (KQueue K) → Type 0
  Untouched s t =
      (t.outside.links ≡ s.outside.links)
      × (t.outside.events ≡ s.outside.events)
      × (t.outside.ready_events ≡ s.outside.ready_events)

  passes :
      (e fuel : ℕ) (xs : List Ptr) (a : Ptr) (s : Selector (KQueue K))
      → Links s.outside.links.tail s.outside.links.head a xs d
      → d ∉ xs
      → ((x : Ptr) → x ∈ xs → bit_and (s.outside.events x) e ≡ 0)
      → length xs < fuel
      → (t : Selector (KQueue K)) × (handle_loop ruby d saved e fuel (s.outside.links.tail a) s
          ≡ some (ended, t))
        × Untouched s t
        × (t.outside.waiting_events d ≡ union s.outside.events xs (s.outside.waiting_events d))
  unfolding handle_loop
  passes e zero xs a s links out all enough = absurd (omega arith)
  passes e (suc n) [] a s links out all enough =
      (s, ground (arith, links.0), (refl, refl, refl), refl)
  passes e (suc n) (x ∷ xs) a s links out all enough =
      let ne : (x == d) ≡ false = ground (arith, out) in
      let none_of : (bit_and (s.outside.events x) e == 0) ≡ true =
        ap (λ m. m == 0) (all x (ground arith)) in
      let (t, run, same, w) =
        passes e n xs x (still_waiting d x s) links.2 (ground arith) (λ y i. all y (ground arith))
          (omega arith) in
      let joined : (still_waiting d x s).outside.waiting_events d
          ≡ bit_or (s.outside.waiting_events d) (s.outside.events x) =
        ground arith in
      (
        t,
        ap (λ p. handle_loop ruby d saved e (suc n) p s) links.0 ∙ simp (ne, none_of) run,
        same,
        w ∙ ap (union s.outside.events xs) joined,
      )

  module _ (kernel : Kernel K) (identifier : ℕ) where
    -- Unless `kevent` fails.
    abbrev pub WatchedUnless : Call → Selector (KQueue K) → Type 0
    WatchedUnless (success n) s = IsWatched kernel identifier d s.outside
    WatchedUnless (failure e) s = Unit

    -- The list is as before, the events of the round are used up, the union is computed again from those
    -- who wait, and if the kernel accepts it, it is to report all that they wait for.
    pub record Rearmed (xs : List Ptr) (s : Selector (KQueue K))
        (r : Option (Handled × Selector (KQueue K))) : Type 0 where
      pub after : Selector (KQueue K)
      pub call : Call
      pub run : r ≡ some (updated call, after)
      pub waits : IsWaiting after.outside d xs
      pub used : after.outside.ready_events d ≡ 0
      pub waiting_events : after.outside.waiting_events d ≡ union s.outside.events xs 0
      pub watched : WatchedUnless call after

    rearmed :
        (xs : List Ptr) (s t : Selector (KQueue K)) (call : Call) (q : KQueue K)
        {o : Option (Handled × Selector (KQueue K))}
        → o ≡ some (updated call, record t { outside = q })
        → Same kernel identifier t.outside q
        → WatchedUnless call (record t { outside = q })
        → IsList t.outside.links d xs
        → t.outside.events ≡ s.outside.events
        → t.outside.ready_events d ≡ 0
        → t.outside.waiting_events d ≡ union s.outside.events xs 0
        → Rearmed xs s o
    rearmed xs s t call q run (links, events, waiting, ready) watched list same used w =
        let now : q.waiting_events d ≡ union s.outside.events xs 0 = ap (λ m. m d) waiting ∙ w in
        record {
          after = record t { outside = q };
          call = call;
          run = run;
          waits = record {
            list = subst (λ h. IsList h d xs) (sym links) list;
            covered = λ x i.
                subst (λ m. q.events x ⊑ m) (sym now)
                  (subst (λ e. e x ⊑ union s.outside.events xs 0) (sym (events ∙ same))
                    (union-covered s.outside.events xs 0 x i));
          };
          used = ap (λ m. m d) ready ∙ used;
          waiting_events = now;
          watched = watched;
        }

    finished :
        (xs : List Ptr) (s t : Selector (KQueue K)) (r : Call × KQueue K)
        {o : Option (Handled × Selector (KQueue K))}
        → o ≡ some (updated r.0, record t { outside = r.1 })
        → Register.Updated kernel identifier d t.outside r
        → IsList t.outside.links d xs
        → t.outside.events ≡ s.outside.events
        → t.outside.ready_events d ≡ 0
        → t.outside.waiting_events d ≡ union s.outside.events xs 0
        → Rearmed xs s o
    finished xs s t (success n, q) run (same, watched) =
        rearmed xs s t (success n) q run same watched
    finished xs s t (failure e, q) run same = rearmed xs s t (failure e) q run same tt

    -- Something has happened that none of the fibers in the list waits for: the handler resumes none of
    -- them and keeps the list, uses up the events of the round, computes the union again from those who
    -- wait, and, unless `kevent` fails, has the kernel report all that they wait for.
    pub handle-Rearmed :
        (fuel : ℕ) (xs : List Ptr) (s : Selector (KQueue K))
        → IsList s.outside.links d xs
        → (s.outside.ready_events d == 0) ≡ false
        → ((x : Ptr) → x ∈ xs → bit_and (s.outside.events x) (s.outside.ready_events d) ≡ 0)
        → length xs < fuel
        → Rearmed xs s (handle ruby kernel fuel identifier d saved s)
    unfolding handle
    handle-Rearmed fuel xs s is some_ready all enough =
        let (t, run, same, w) =
          passes (s.outside.ready_events d) fuel xs d (take_ready d s) is.links is.distinct.0 all
            enough in
        let r = descriptor_update kernel identifier d t.outside in
        finished xs s t r (simp (some_ready, run) refl)
          (update-Updated kernel identifier d t.outside)
          (subst (λ h. IsList h d xs) (sym same.0) is) same.1 (ap (λ m. m d) same.2 ∙ ground arith)
          (w ∙ ap (union s.outside.events xs) (ground arith))
