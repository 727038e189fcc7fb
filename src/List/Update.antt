-- ===== src/List/Update.antt =====
-- What the operations of list.h that change a list do to the items of the list.
use io_event.Base.{
  refl, append_assoc, ne_of_mem, ◌∙◌, has-append_comm, IsDistinct-remove, none, subst, ne→==,
  append-nil, IsDistinct-insert, ◌≡◌, ◌≢◌, inl, inr, false, some, List, [], ◌∷◌, ◌++◌, arith, Ptr,
  null, update, ◌==◌, ==_iff, Bool-cases, ◌∈◌, ◌∉◌, has-append,
}
use io_event.Links
use io_event.Links.{Links}
use io_event.Links.Insert.{insert_first, insert_last}
use io_event.Links.Remove.{remove, removed_next, removed_prev}
use io_event.List.{pop, free, Heap, initialize, append, prepend}
use io_event.List.Shape.{SameOutside-mono, SameOutside, IsList-rotate, IsList, IsDetached}

-- `IO_Event_List_initialize` makes any node an empty list, and writes no other node.
pub initialize-IsList :
    (list : Ptr) (h : Heap)
    → list ≢ null
    → (h' : Heap) × (initialize list h ≡ some (tt, h'))
      × IsList h' list []
      × ((p : Ptr) → p ≢ list → (h'.head p ≡ h.head p) × (h'.tail p ≡ h.tail p))
unfolding initialize
initialize-IsList list h ne = (
  record {
    head = update h.head list list;
    tail = update h.tail list list;
    type = update h.type list null;
  },
  simp (ne→== ne),
  record { links = ground arith; distinct = ground arith; nonnull = ground arith },
  λ p other. (ground arith, ground arith),
)

abbrev appended : Heap → Ptr → Ptr → Heap
appended h l n = record h {
  tail = update (update h.tail n l) (h.head l) n;
  head = update (update h.head n (h.head l)) l n;
}

abbrev prepended : Heap → Ptr → Ptr → Heap
prepended h l n = record h {
  tail = update (update h.tail n (h.tail l)) l n;
  head = update (update h.head n l) (h.tail l) n;
}

abbrev popped : Heap → Ptr → Heap
popped h n = record h { tail = removed_next h.tail h.head n; head = removed_prev h.tail h.head n }

-- The neighbours of the sentinel are nodes of the list.
module _ {h : Heap} {l : Ptr} {xs : List Ptr} (is : IsList h l xs) where
  head-mem : h.head l ∈ l ∷ xs
  head-mem = Links.prev-mem h.tail h.head l xs l is.links

  tail-mem : h.tail l ∈ l ∷ xs
  tail-mem = Links.next-mem h.tail h.head l xs l is.links

  mem-nonnull : (p : Ptr) → p ∈ l ∷ xs → (p == null) ≡ false
  mem-nonnull p i = elim (Bool-cases (p == null)) [
    | inl e ↦
        let at : p ≡ null = (==_iff p null).0 e in cc (is.nonnull, subst (λ q. q ∈ l ∷ xs) at i)
    | inr e ↦ e
  ]

module _ {h : Heap} {l n : Ptr} {xs : List Ptr} (is : IsList h l xs) (off : IsDetached h n)
    (out : n ∉ l ∷ xs) where
  IsList-appended : IsList (appended h l n) l (xs ++ n ∷ [])
  IsList-appended = record {
    links =
        insert_last h.tail h.head n l xs l is.links is.distinct out (ground arith) is.distinct.0;
    distinct = IsDistinct-insert n (l ∷ xs) [] (rw append-nil out) (rw append-nil is.distinct);
    nonnull = ground (arith, off.nonnull, is.nonnull, has-append null xs (n ∷ []));
  }

  IsList-prepended : IsList (prepended h l n) l (n ∷ xs)
  IsList-prepended = record {
    links =
        insert_first h.tail h.head n l xs l is.links is.distinct.1 is.distinct.0 out (ground arith)
          is.distinct.0;
    distinct = ground (arith, is.distinct);
    nonnull = ground (arith, off.nonnull, is.nonnull);
  }

  append_run : append l n h ≡ some (tt, appended h l n)
  unfolding append
  append_run = simp (
    ne→== off.nonnull,
    off.head,
    off.tail,
    mem-nonnull is l (ground arith),
    mem-nonnull is (h.head l) (head-mem is),
  )

  prepend_run : prepend l n h ≡ some (tt, prepended h l n)
  unfolding prepend
  prepend_run = simp (
    ne→== off.nonnull,
    off.head,
    off.tail,
    mem-nonnull is l (ground arith),
    mem-nonnull is (h.tail l) (tail-mem is),
  )

module _ {h : Heap} {l : Ptr} (xs : List Ptr) (n : Ptr) (ys : List Ptr)
    (is : IsList h l (xs ++ n ∷ ys)) where
  IsList-popped : IsList (popped h n) l (xs ++ ys)
  IsList-popped = record {
    links = remove h.tail h.head n l xs ys l is.links is.distinct is.distinct.0;
    distinct = (IsDistinct-remove (l ∷ xs) n ys is.distinct).0;
    nonnull = ground (arith, is.nonnull, has-append null xs (n ∷ ys), has-append null xs ys);
  }

  pop_run : pop n h ≡ some (tt, popped h n)
  unfolding pop
  pop_run =
      let at : IsList h n (ys ++ l ∷ xs) = IsList-rotate l xs n ys is in
      simp (
        mem-nonnull at n (ground arith),
        mem-nonnull at (h.head n) (head-mem at),
        mem-nonnull at (h.tail n) (tail-mem at),
      )

-- Appending a detached node succeeds, puts it behind all items, and writes no other node.
pub append-IsList :
    {h : Heap} {l n : Ptr} {xs : List Ptr}
    → IsList h l xs
    → IsDetached h n
    → n ∉ l ∷ xs
    → (h' : Heap) × (append l n h ≡ some (tt, h'))
      × IsList h' l (xs ++ n ∷ [])
      × SameOutside (n ∷ l ∷ xs) h h'
append-IsList {h} {l} {n} is off out =
    (appended h l n, append_run is off out, IsList-appended is off out, ground (arith, head-mem is))

-- Prepending a detached node succeeds, puts it before all items, and writes no other node.
pub prepend-IsList :
    {h : Heap} {l n : Ptr} {xs : List Ptr}
    → IsList h l xs
    → IsDetached h n
    → n ∉ l ∷ xs
    → (h' : Heap) × (prepend l n h ≡ some (tt, h'))
      × IsList h' l (n ∷ xs)
      × SameOutside (n ∷ l ∷ xs) h h'
prepend-IsList {h} {l} {n} is off out = (
  prepended h l n,
  prepend_run is off out,
  IsList-prepended is off out,
  ground (arith, tail-mem is),
)

-- Popping an item, wherever it stands, succeeds, leaves the other items in their order, detaches the
-- node, and writes no node outside the list.
pub pop-IsList :
    {h : Heap} {l : Ptr} (xs : List Ptr) (n : Ptr) (ys : List Ptr)
    → IsList h l (xs ++ n ∷ ys)
    → (h' : Heap) × (pop n h ≡ some (tt, h'))
      × IsList h' l (xs ++ ys)
      × IsDetached h' n
      × SameOutside (l ∷ (xs ++ n ∷ ys)) h h'
pop-IsList {h} {l} xs n ys is =
    let at = IsList-rotate l xs n ys is in
    (
      popped h n,
      pop_run xs n ys is,
      IsList-popped xs n ys is,
      record {
        nonnull = ground (arith, mem-nonnull at n (ground arith));
        head = ground arith;
        tail = ground arith;
      },
      SameOutside-mono (n ∷ (ys ++ l ∷ xs)) (l ∷ (xs ++ n ∷ ys))
          (record {
            head = λ p out.
                ground (arith, ne_of_mem p (h.tail n) (n ∷ (ys ++ l ∷ xs)) out (tail-mem at));
            tail = λ p out.
                ground (arith, ne_of_mem p (h.head n) (n ∷ (ys ++ l ∷ xs)) out (head-mem at));
            type = λ p. refl;
          })
          (λ p out. has-append_comm p (n ∷ ys) (l ∷ xs) ∙ out),
    )

-- Appending at an item instead of the sentinel puts the node just before that item in the order of
-- a visit, and writes no other node.
pub append_before :
    {h : Heap} {l n : Ptr} (xs : List Ptr) (y : Ptr) (ys : List Ptr)
    → IsList h l (xs ++ y ∷ ys)
    → IsDetached h n
    → n ∉ l ∷ (xs ++ y ∷ ys)
    → (h' : Heap) × (append y n h ≡ some (tt, h'))
      × IsList h' l (xs ++ n ∷ y ∷ ys)
      × SameOutside (n ∷ l ∷ (xs ++ y ∷ ys)) h h'
append_before {h} {l} {n} xs y ys is off out =
    let (h', run, is', same) =
      append-IsList (IsList-rotate l xs y ys is) off (has-append_comm n (y ∷ ys) (l ∷ xs) ∙ out) in
    (
      h',
      run,
      subst (IsList h' l) (append_assoc xs (n ∷ []) (y ∷ ys)) (
          IsList-rotate y ys l (xs ++ n ∷ [])
            (subst (IsList h' y) (append_assoc ys (l ∷ xs) (n ∷ [])) is')),
      SameOutside-mono (n ∷ y ∷ (ys ++ l ∷ xs)) (n ∷ l ∷ (xs ++ y ∷ ys)) same
          (λ p o. ground (arith, has-append_comm p (y ∷ ys) (l ∷ xs))),
    )

-- Adding a node that stands in a list is refused by the assertions, by both operations.
pub attached_refused :
    {h : Heap} {l : Ptr} (xs : List Ptr) (n : Ptr) (ys : List Ptr) (l' : Ptr)
    → IsList h l (xs ++ n ∷ ys)
    → (append l' n h ≡ none) × (prepend l' n h ≡ none)
unfolding append prepend
attached_refused {h} {l} xs n ys l' is =
    let at = IsList-rotate l xs n ys is in
    let e = mem-nonnull at n (ground arith) in
    let e' = mem-nonnull at (h.head n) (head-mem at) in (simp (e, e'), simp (e, e'))

-- `IO_Event_List_free` leaves a detached node alone.
pub free_detached : {h : Heap} (n : Ptr) → IsDetached h n → free n h ≡ some (tt, h)
unfolding free
free_detached n off = simp (ne→== off.nonnull, off.head, off.tail)

-- `IO_Event_List_free` pops a node that stands in a list.
pub free-eq-pop :
    {h : Heap} {l : Ptr} (xs : List Ptr) (n : Ptr) (ys : List Ptr)
    → IsList h l (xs ++ n ∷ ys)
    → free n h ≡ pop n h
unfolding free
free-eq-pop {h} {l} xs n ys is =
    let at = IsList-rotate l xs n ys is in
    simp (
      mem-nonnull at n (ground arith),
      mem-nonnull at (h.head n) (head-mem at),
      mem-nonnull at (h.tail n) (tail-mem at),
    )
