-- ===== src/Selector/Visit.antt =====
-- `IO_Event_Selector_mark` and `IO_Event_Selector_compact` of selector.h: the walks over the ready
-- queue for the garbage collector, on fuel.
use io_event.Base.{
  subst, ℕ, zero, suc, ◌<◌, ◌≡◌, refl, sym, ap, false, Option, none, some, List, [], ◌∷◌, arith,
  Ptr, null, update, ◌==◌, if◌then◌else◌, length, has, ◌∉◌, IsDistinct,
}
use io_event.Links
use io_event.Links.{Links}
use io_event.Selector.{Selector}
use io_event.Selector.Queue.{IsQueue, newer, older}

abbrev pub fibers : (Ptr → ℕ) → List Ptr → List ℕ
fibers f [] = []
fibers f (p ∷ q) = f p ∷ fibers f q

module _ {R : Type 0} where
  -- The loop of `IO_Event_Selector_mark`: the fibers that are marked, in order.
  pub mark_loop : ℕ → Ptr → Selector R → Option (List ℕ)
  mark_loop zero ready s = none
  mark_loop (suc fuel) ready s =
      let rest = mark_loop fuel (s.head ready) s in
      if ready == null
      then some []
      else elim rest [ none ↦ none | some l ↦ some (s.fiber ready ∷ l) ]

  -- `IO_Event_Selector_mark`
  pub mark : ℕ → Selector R → Option (List ℕ)
  unfolding mark_loop
  mark fuel s = elim (mark_loop fuel s.ready s) [
    | none ↦ none
    | some l ↦ some (s.self ∷ s.loop ∷ l)
  ]

  -- The loop of `IO_Event_Selector_compact`; `location` is `rb_gc_location`.
  pub compact_loop : (ℕ → ℕ) → ℕ → Ptr → Selector R → Option (Selector R)
  compact_loop location zero ready s = none
  compact_loop location (suc fuel) ready s =
      let rest =
        compact_loop location fuel (s.head ready)
          (record s { fiber = update s.fiber ready (location (s.fiber ready)) }) in
      if ready == null then some s else rest

  -- `IO_Event_Selector_compact`
  pub compact : (ℕ → ℕ) → ℕ → Selector R → Option (Selector R)
  unfolding compact_loop
  compact location fuel s =
      compact_loop location fuel s.ready
        (record s { self = location s.self; loop = location s.loop })

  mark_loop_lem :
      (s : Selector R) (fuel : ℕ) (a : Ptr) (q : List Ptr)
      → Links (newer s) (older s) a q null
      → null ∉ q
      → length q < fuel
      → mark_loop fuel (newer s a) s ≡ some (fibers s.fiber q)
  unfolding mark_loop
  mark_loop_lem s zero a q links out enough = absurd (omega arith)
  mark_loop_lem s (suc fuel) a [] links out enough = rw links.0
  mark_loop_lem s (suc fuel) a (x ∷ q) links out enough =
      let nn : (x == null) ≡ false = ground arith in
      let step : newer s x ≡ s.head x = rw nn in
      let rest = rw step at (mark_loop_lem s fuel x q links.2 (ground arith) (omega arith)) in
      subst (λ p. mark_loop (suc fuel) p s ≡ some (fibers s.fiber (x ∷ q))) (sym links.0)
        (rw (nn, rest, mark_loop))

  -- Marking reaches the selector, its loop and the fiber of every node of the queue, once each, oldest
  -- first, and ends.
  pub mark_lem :
      {s : Selector R} {q : List Ptr} (fuel : ℕ)
      → IsQueue s q
      → length q < fuel
      → mark fuel s ≡ some (s.self ∷ s.loop ∷ fibers s.fiber q)
  unfolding mark
  mark_lem {s} {q} fuel is enough =
      rw (mark_loop_lem s fuel null q is.links is.distinct.0 enough, mark) refl

  -- `t` is `s`, with the fibers of the nodes `q` at their new places.
  pub record IsMoved (location : ℕ → ℕ) (q : List Ptr) (s t : Selector R) : Type 0 where
    pub fiber : (p : Ptr) → t.fiber p ≡ (if has p q then location (s.fiber p) else s.fiber p)
    pub head : t.head ≡ s.head
    pub tail : t.tail ≡ s.tail
    pub ends : (t.ready ≡ s.ready) × (t.waiting ≡ s.waiting)
    pub owner : (t.self ≡ s.self) × (t.loop ≡ s.loop)

  compact_loop_lem :
      (location : ℕ → ℕ) (fuel : ℕ) (s : Selector R) (a : Ptr) (q : List Ptr)
      → Links (newer s) (older s) a q null
      → IsDistinct (null ∷ q)
      → length q < fuel
      → (t : Selector R) × (compact_loop location fuel (newer s a) s ≡ some t)
        × IsMoved location q s t
  unfolding compact_loop
  compact_loop_lem location zero s a q links d enough = absurd (omega arith)
  compact_loop_lem location (suc fuel) s a [] links d enough = (s, rw links.0, ground arith)
  compact_loop_lem location (suc fuel) s a (x ∷ q) links d enough =
      let nn : (x == null) ≡ false = ground arith in
      let step : newer s x ≡ s.head x = rw nn in
      let s' = record s { fiber = update s.fiber x (location (s.fiber x)) } in
      let (t, run, moved) =
        compact_loop_lem location fuel s' x q links.2 (ground arith, d.1.1) (omega arith) in
      (
        t,
        rw links.0 (rw nn (rw step at run)),
        record {
          fiber = λ p. ground (arith, moved.fiber p, d.1.0);
          head = moved.head;
          tail = moved.tail;
          ends = moved.ends;
          owner = moved.owner;
        },
      )

  -- Compaction moves the selector, its loop and the fiber of every node of the queue, each once, and
  -- no other fiber; the queue itself is as it was.
  pub compact_lem :
      {s : Selector R} {q : List Ptr} (location : ℕ → ℕ) (fuel : ℕ)
      → IsQueue s q
      → length q < fuel
      → (t : Selector R) × (compact location fuel s ≡ some t)
        × IsQueue t q
        × ((p : Ptr) → t.fiber p ≡ (if has p q then location (s.fiber p) else s.fiber p))
        × (t.self ≡ location s.self)
        × (t.loop ≡ location s.loop)
  unfolding compact
  compact_lem {s} {q} location fuel is enough =
      let (t, run, moved) =
        compact_loop_lem location fuel (record s { self = location s.self; loop = location s.loop })
          null q is.links is.distinct enough in
      (
        t,
        run,
        record {
          links =
              Links.frame (newer s) (older s) null q null is.links
                (λ c i. ground (arith, ap (λ f. f c) moved.head, moved.ends))
                (λ c i. ground (arith, ap (λ f. f c) moved.tail, moved.ends));
          distinct = is.distinct;
        },
        moved.fiber,
        moved.owner.0,
        moved.owner.1,
      )
