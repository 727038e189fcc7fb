-- ===== src/Uring/Completions.antt =====
-- What the operations of uring.c on completions keep, and the reuse of completions.
use io_event.Base.{
  ◌≡◌, ◌≢◌, refl, sym, ap, ◌∙◌, false, inl, inr, some, List, [], ◌∷◌, arith, Ptr, null, update,
  ◌==◌, ==_iff, Bool-cases, ◌∉◌, subst, ne_of_mem,
}
use io_event.List
use io_event.List.{Heap}
use io_event.List.Shape.{SameOutside, IsDetached}
use io_event.List.Update.{prepend-IsList, pop-IsList}
use io_event.List.Visit.{empty_iff_short}
use io_event.Array.{ok}
use io_event.Uring.{
  Uring, Answers, IsSound, acquire, cancel, release, waiting_cancel, join, with_links,
}

-- Two maps that point back at each other do so after a pair is taken apart.
apart :
    (f g : Ptr → Ptr) (x a b : Ptr)
    → (f x ≢ null → g (f x) ≡ x)
    → (f x ≢ null → f x ≡ b → x ≡ a)
    → update f a null x ≢ null
    → update g b null (update f a null x) ≡ x
apart f g x a b back only points = elim (Bool-cases (x == a)) [
  | inl e ↦ absurd (points (simp e))
  | inr e ↦
      let there : f x ≢ null = λ z. points (simp e z) in
      elim (Bool-cases (f x == b)) [
        | inl e' ↦ absurd (ground (arith, e, only there ((==_iff (f x) b).0 e')))
        | inr e' ↦ simp e (simp e' (back there))
      ]
]

-- And after a pair that pointed at nothing is joined.
joined :
    (f g : Ptr → Ptr) (x a b : Ptr)
    → (f x ≢ null → g (f x) ≡ x)
    → g b ≡ null
    → f null ≡ null
    → b ≢ null
    → update f a b x ≢ null
    → update g b a (update f a b x) ≡ x
joined f g x a b back free at_null nonnull points = elim (Bool-cases (x == a)) [
  | inl e ↦ ground (arith, e)
  | inr e ↦
      let there : f x ≢ null = λ z. points (simp e z) in
      elim (Bool-cases (f x == b)) [
        | inl e' ↦
            let same = (==_iff (f x) b).0 e' in
            let zero : x ≡ null = sym (back there) ∙ ap g same ∙ free in
            absurd (nonnull (sym same ∙ ap f zero ∙ at_null))
        | inr e' ↦ simp e (simp e' (back there))
      ]
]

module _ {K : Type 0} where
  -- What no operation on a completion writes.
  abbrev pub IsRest : Uring K → Uring K → Type 0
  IsRest s t =
      (t.fiber ≡ s.fiber)
      × (t.result ≡ s.result)
      × (t.free_list ≡ s.free_list)
      × (t.kernel ≡ s.kernel)
      × (t.completions ≡ s.completions)

  pub cancel-IsSound :
      {free : List Ptr} {s : Uring K} (c : Ptr) → IsSound free s → IsSound free (cancel c s)
  unfolding cancel
  cancel-IsSound {free} {s} c is = elim (Bool-cases (s.waiting c == null)) [
    | inl e ↦ simp e is
    | inr e ↦
        let waits : s.waiting c ≢ null = λ z. ground (arith, e, z) in
        simp e (record {
          list = is.list;
          of_waiting = λ w points.
              apart s.completion s.waiting w (s.waiting c) c (is.of_waiting w)
                (λ there same. sym (is.of_waiting w there) ∙ ap s.waiting same) points;
          of_completion = λ d points.
              apart s.waiting s.completion d c (s.waiting c) (is.of_completion d)
                (λ there same.
                  sym (is.of_completion d there) ∙ ap s.completion same ∙ is.of_completion c waits)
                points;
          of_null = ground (arith, is.of_null);
          idle = λ d i. ground (arith, is.idle d i);
        })
  ]

  pub waiting_cancel-IsSound :
      {free : List Ptr} {s : Uring K} (w : Ptr) → IsSound free s → IsSound free (waiting_cancel w s)
  unfolding waiting_cancel
  waiting_cancel-IsSound {free} {s} w is = elim (Bool-cases (s.completion w == null)) [
    | inl e ↦ simp e (record {
      list = is.list;
      of_waiting = is.of_waiting;
      of_completion = is.of_completion;
      of_null = is.of_null;
      idle = is.idle;
    })
    | inr e ↦
        let waits : s.completion w ≢ null = λ z. ground (arith, e, z) in
        simp e (record {
          list = is.list;
          of_waiting = λ x points.
              apart s.completion s.waiting x w (s.completion w) (is.of_waiting x)
                (λ there same.
                  sym (is.of_waiting x there) ∙ ap s.waiting same ∙ is.of_waiting w waits)
                points;
          of_completion = λ d points.
              apart s.waiting s.completion d (s.completion w) w (is.of_completion d)
                (λ there same. sym (is.of_completion d there) ∙ ap s.completion same) points;
          of_null = ground (arith, is.of_null);
          idle = λ d i. ground (arith, is.idle d i);
        })
  ]

  cancel_links : (c : Ptr) (s : Uring K) → (cancel c s).links ≡ s.links
  unfolding cancel
  cancel_links c s = ground arith

  cancel_free_list : (c : Ptr) (s : Uring K) → (cancel c s).free_list ≡ s.free_list
  unfolding cancel
  cancel_free_list c s = ground arith

  cancel_waiting : (c : Ptr) (s : Uring K) → (cancel c s).waiting c ≡ null
  unfolding cancel
  cancel_waiting c s = ground arith

  cancel-IsRest : (c : Ptr) (s : Uring K) → IsRest s (cancel c s)
  unfolding cancel
  cancel-IsRest c s = elim (Bool-cases (s.waiting c == null)) [
    | inl e ↦ simp e (refl, refl, refl, refl, refl)
    | inr e ↦ simp e (refl, refl, refl, refl, refl)
  ]

  -- A completion that is released is free, before all others, and no fiber waits for it.
  pub release-IsSound :
      {free : List Ptr} {s : Uring K} (c : Ptr)
      → IsSound free s
      → IsDetached s.links c
      → c ∉ s.free_list ∷ free
      → (t : Uring K) × (release c s ≡ some (tt, t))
        × IsSound (c ∷ free) t
        × (t.completion ≡ (cancel c s).completion)
        × ((t.waiting c ≡ null) × SameOutside (c ∷ s.free_list ∷ free) s.links t.links)
        × IsRest s t
  unfolding release
  release-IsSound {free} {s} c is off out =
      let t = cancel c s in
      let kept = cancel-IsSound c is in
      let off' = subst (λ h. IsDetached h c) (sym (cancel_links c s)) off in
      let out' = subst (λ l. c ∉ l ∷ free) (sym (cancel_free_list c s)) out in
      let (h, run, list, outside) = prepend-IsList kept.list off' out' in
      (
        record t { links = h },
        ap (λ l. with_links t (List.prepend l c t.links)) (sym (cancel_free_list c s))
            ∙ ap (with_links t) run,
        record {
          list = list;
          of_waiting = kept.of_waiting;
          of_completion = kept.of_completion;
          of_null = kept.of_null;
          idle = λ d i. elim (Bool-cases (d == c)) [
            | inl e ↦ ap t.waiting ((==_iff d c).0 e) ∙ cancel_waiting c s
            | inr e ↦ kept.idle d (ground (arith, i, e))
          ];
        },
        refl,
        (
          cancel_waiting c s,
          subst (λ l. SameOutside (c ∷ l ∷ free) s.links h) (cancel_free_list c s)
              (subst (λ g. SameOutside (c ∷ t.free_list ∷ free) g h) (cancel_links c s) outside),
        ),
        cancel-IsRest c s,
      )

  -- With two completions free, a fiber that waits for nothing takes the first, which then points back.
  pub acquire-reuses :
      {free : List Ptr} {s : Uring K} (a : Answers) (type x y w : Ptr)
      → IsSound (x ∷ y ∷ free) s
      → s.completion w ≡ null
      → w ≢ null
      → (t : Uring K) × (acquire a type w s ≡ some (ok x, t))
        × IsSound (y ∷ free) t
        × (t.completion w ≡ x)
        × (t.waiting x ≡ w)
        × IsDetached t.links x
        × SameOutside (s.free_list ∷ x ∷ y ∷ free) s.links t.links
        × IsRest s t
  unfolding acquire
  acquire-reuses {free} {s} a type x y w is idle nonnull =
      let long : List.empty s.free_list s.links ≡ false =
        elim (Bool-cases (List.empty s.free_list s.links)) [
          | inl e ↦ absurd (omega (arith, (empty_iff_short (x ∷ y ∷ free) is.list).0 e))
          | inr e ↦ e
        ] in
      let (h, run, list, off, outside) = pop-IsList [] x (y ∷ free) is.list in
      let t = join x w (record s { links = h }) in
      let at : s.links.tail s.free_list ≡ x = ground (arith, is.list.links) in
      let x_free : s.waiting x ≡ null = is.idle x (ground arith) in
      let x_nonnull : x ≢ null = λ z. ground (arith, is.list.nonnull, z) in
      (
        t,
        rw (long, at, run, acquire) refl,
        record {
          list = list;
          of_waiting = λ v points.
              joined s.completion s.waiting v w x (is.of_waiting v) x_free (is.of_null.0) x_nonnull
                points;
          of_completion = λ d points.
              joined s.waiting s.completion d x w (is.of_completion d) idle (is.of_null.1) nonnull
                points;
          of_null = ground (arith, is.of_null, nonnull, x_nonnull);
          idle = λ d i. ground (
            arith,
            is.idle d (ground (arith, i)),
            ne_of_mem x d (y ∷ free) is.list.distinct.1.0 i,
          );
        },
        ground arith,
        ground arith,
        off,
        outside,
        (refl, refl, refl, refl, refl),
      )

  -- A completion that is released is the next one that is given out, while another is free; the fiber
  -- that waited for it waits for nothing.
  pub release-acquire :
      {free : List Ptr} {s : Uring K} (a : Answers) (type c y w : Ptr)
      → IsSound (y ∷ free) s
      → IsDetached s.links c
      → c ∉ s.free_list ∷ y ∷ free
      → (cancel c s).completion w ≡ null
      → w ≢ null
      → (t : Uring K) × (u : Uring K) × (release c s ≡ some (tt, t))
        × (acquire a type w t ≡ some (ok c, u))
        × IsSound (y ∷ free) u
        × (u.completion w ≡ c)
  release-acquire a type c y w is off out idle nonnull =
      let (t, run, kept, same, _, _) = release-IsSound c is off out in
      let (u, run', again, points, _, _, _, _) =
        acquire-reuses a type c y w kept (ap (λ f. f w) same ∙ idle) nonnull in
      (t, u, run, run', again, points)
