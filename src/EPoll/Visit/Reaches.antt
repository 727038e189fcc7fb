-- ===== src/EPoll/Visit/Reaches.antt =====
-- What `IO_Event_Selector_EPoll_Type_mark` of epoll.c marks.
use io_event.Base.{
  ℕ, ◌<◌, ◌≡◌, refl, ap, ◌∙◌, inl, inr, false, some, List, [], ◌∷◌, arith, Ptr, null, ◌==◌, ==_iff,
  subst, if◌then◌else◌, Bool-cases, length, ◌∈◌,
}
use io_event.List.Shape.{IsList}
use io_event.List.Visit.{visit, immutable_each_lem}
use io_event.Array.{live}
use io_event.Array.Shape.{IsValid}
use io_event.Array.Release.{fold, each-live}
use io_event.Selector.{Selector}
use io_event.Selector.Queue.{IsQueue}
use io_event.Selector.Visit.{mark_lem, fibers}
use io_event.EPoll.{EPoll}
use io_event.EPoll.Visit.{marking, waiting_mark, io_mark, descriptor_mark, type_mark}

marking-keeps : (object y : ℕ) (l : List ℕ) → y ∈ l → y ∈ marking object l
marking-keeps object y l i = ground (arith, i)

marking-mem : (object y : ℕ) (l : List ℕ) → y ≡ object → (y == 0) ≡ false → y ∈ marking object l
marking-mem object y l same some_object = ground (arith, same, some_object)

module _ {K : Type 0} where
  -- Marking a fiber keeps what is marked.
  visit-keeps :
      (e : EPoll K) (y : ℕ) (xs : List Ptr) (l : List ℕ)
      → y ∈ l
      → y ∈ visit (waiting_mark e) e.links xs l
  unfolding visit
  visit-keeps e y [] l i = i
  visit-keeps e y (x ∷ xs) l i =
      visit-keeps e y xs (if e.links.type x == null then l else waiting_mark e x l)
        (elim (Bool-cases (e.links.type x == null)) [
          | inl untyped ↦ simp untyped i
          | inr typed ↦ simp typed (marking-keeps (e.fiber x) y l i)
        ])

  marked_now :
      (e : EPoll K) (x y : Ptr) (l : List ℕ)
      → x ≡ y
      → (e.links.type x == null) ≡ false
      → (e.fiber x == 0) ≡ false
      → e.fiber x ∈ (if e.links.type y == null then l else waiting_mark e y l)
  marked_now e x y l same typed waits =
      let typed' : (e.links.type y == null) ≡ false =
        subst (λ c. (e.links.type c == null) ≡ false) same typed in
      simp typed' (marking-mem (e.fiber y) (e.fiber x) l (ap e.fiber same) waits)

  visit-reaches :
      (e : EPoll K) (x : Ptr) (xs : List Ptr) (l : List ℕ)
      → x ∈ xs
      → (e.links.type x == null) ≡ false
      → (e.fiber x == 0) ≡ false
      → e.fiber x ∈ visit (waiting_mark e) e.links xs l
  unfolding visit
  visit-reaches e x [] l i typed waits = cc i
  visit-reaches e x (y ∷ xs) l i typed waits = elim (Bool-cases (x == y)) [
    | inl same ↦
        visit-keeps e (e.fiber x) xs (if e.links.type y == null then l else waiting_mark e y l)
          (marked_now e x y l ((==_iff x y).0 same) typed waits)
    | inr other ↦
        visit-reaches e x xs (if e.links.type y == null then l else waiting_mark e y l)
          (ground (arith, i, other)) typed waits
  ]

  module _ (s : Selector (EPoll K)) (items : Ptr → List Ptr) (fuel : ℕ) where
    -- Each descriptor of `ds` has its fibers in its list, and the fuel is enough for them.
    abbrev pub Listed : List Ptr → Type 0
    Listed ds = (d : Ptr) → d ∈ ds → IsList s.outside.links d (items d) × (length (items d) < fuel)

    -- `l` has what the walk over the descriptors `ds` must reach.
    pub record Reached (ds l : List ℕ) : Type 0 where
      pub object : (d : Ptr) → d ∈ ds → (s.outside.io d == 0) ≡ false → s.outside.io d ∈ l
      pub fiber :
          (d x : Ptr)
          → d ∈ ds
          → x ∈ items d
          → (s.outside.links.type x == null) ≡ false
          → (s.outside.fiber x == 0) ≡ false
          → s.outside.fiber x ∈ l

    step :
        (d : Ptr) (l : List ℕ)
        → IsList s.outside.links d (items d)
        → length (items d) < fuel
        → descriptor_mark fuel s.outside d (some l)
          ≡ io_mark s.outside d (some (visit (waiting_mark s.outside) s.outside.links (items d) l))
    unfolding descriptor_mark
    step d l is enough =
        ap (io_mark s.outside d) (immutable_each_lem (waiting_mark s.outside) fuel l is enough)

    fold-reaches :
        (ds l : List ℕ)
        → Listed ds
        → (m : List ℕ) × (fold (descriptor_mark fuel s.outside) ds (some l) ≡ some m)
          × Reached ds m
          × ((y : ℕ) → y ∈ l → y ∈ m)
    unfolding fold
    fold-reaches [] l listed =
        (l, refl, record { object = λ d i. cc i; fiber = λ d x i. cc i }, λ y i. i)
    fold-reaches (d ∷ ds) l listed =
        let (is, enough) = listed d (ground arith) in
        let v = visit (waiting_mark s.outside) s.outside.links (items d) l in
        let l' = marking (s.outside.io d) v in
        let (m, run, reached, keeps) = fold-reaches ds l' (λ c i. listed c (ground (arith, i))) in
        (
          m,
          ap (fold (descriptor_mark fuel s.outside) ds) (step d l is enough) ∙ run,
          record {
            object = λ c i some_object. elim (Bool-cases (c == d)) [
              | inl same ↦ keeps (s.outside.io c) (
                  marking-mem (s.outside.io d) (s.outside.io c) v
                    (ap s.outside.io ((==_iff c d).0 same)) some_object)
              | inr other ↦ reached.object c (ground (arith, i, other)) some_object
            ];
            fiber = λ c x i j typed waits. elim (Bool-cases (c == d)) [
              | inl same ↦ keeps (s.outside.fiber x) (
                  marking-keeps (s.outside.io d) (s.outside.fiber x) v (
                    visit-reaches s.outside x (items d) l
                      (subst (λ b. x ∈ items b) ((==_iff c d).0 same) j) typed waits))
              | inr other ↦ reached.fiber c x (ground (arith, i, other)) j typed waits
            ];
          },
          λ y i.
              keeps y (marking-keeps (s.outside.io d) y v (visit-keeps s.outside y (items d) l i)),
        )

    -- If the ready queue and the lists of the descriptors are sound, the walk for the garbage collector
    -- ends and marks the selector, its loop and each fiber of the ready queue, the object of each live
    -- descriptor, and each fiber that waits in the list of one, except for the nodes without a type.
    pub type_mark-reaches :
        (q : List Ptr)
        → IsQueue s q
        → length q < fuel
        → IsValid s.outside.descriptors
        → Listed (live s.outside.descriptors.base)
        → (m : List ℕ) × (type_mark fuel s ≡ some m)
          × Reached (live s.outside.descriptors.base) m
          × ((y : ℕ) → y ∈ s.self ∷ s.loop ∷ fibers s.fiber q → y ∈ m)
    unfolding type_mark
    type_mark-reaches q queue short valid listed =
        let start = s.self ∷ s.loop ∷ fibers s.fiber q in
        let (m, run, reached, keeps) =
          fold-reaches (live s.outside.descriptors.base) start listed in
        (
          m,
          rw
              (
                mark_lem fuel queue short,
                each-live valid (descriptor_mark fuel s.outside) (some start),
                run,
                type_mark,
              )
              refl,
          reached,
          keeps,
        )
