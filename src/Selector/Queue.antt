-- ===== src/Selector/Queue.antt =====
-- The ready queue as a list of nodes, oldest first, and what `queue_push` and `queue_pop` do to it.
use io_event.Base.{
  append-nil, IsDistinct-insert, IsDistinct-remove, ℕ, ◌≡◌, refl, ◌≢◌, inl, inr, false, some, List,
  [], ◌∷◌, ◌++◌, arith, Ptr, null, update, ◌==◌, if◌then◌else◌, Bool-cases, ◌∈◌, ◌∉◌, IsDistinct,
  has-append,
}
use io_event.Links
use io_event.Links.{Links}
use io_event.Links.Insert.{insert_last}
use io_event.Links.Remove.{remove}
use io_event.Selector.{new_node, Selector, queue_push, queue_pop}

-- `NULL` closes the queue into a ring: before it stands `waiting`, behind it `ready`.
abbrev pub newer : {R : Type 0} → Selector R → Ptr → Ptr
newer s = update s.head null s.ready

abbrev pub older : {R : Type 0} → Selector R → Ptr → Ptr
older s = update s.tail null s.waiting

-- The queue holds the nodes `q`, the oldest first.
pub record IsQueue {R : Type 0} (s : Selector R) (q : List Ptr) : Type 0 where
  pub links : Links (newer s) (older s) null q null
  pub distinct : IsDistinct (null ∷ q)

-- `t` is `s`, but for the links of the nodes `q` and the two ends of the queue.
pub record SameNodes {R : Type 0} (q : List Ptr) (s t : Selector R) : Type 0 where
  pub flags : (p : Ptr) → t.flags p ≡ s.flags p
  pub fiber : (p : Ptr) → t.fiber p ≡ s.fiber p
  pub head : (p : Ptr) → p ∉ q → t.head p ≡ s.head p
  pub tail : (p : Ptr) → p ∉ q → t.tail p ≡ s.tail p
  pub outside : t.outside ≡ s.outside

module _ {R : Type 0} {s : Selector R} {q : List Ptr} (is : IsQueue s q) where
  pub waiting-mem : s.waiting ∈ null ∷ q
  waiting-mem = Links.prev-mem (newer s) (older s) null q null is.links

  pub ready-mem : s.ready ∈ null ∷ q
  ready-mem = Links.next-mem (newer s) (older s) null q null is.links

module _ {R : Type 0} (s : Selector R) (n : Ptr) where
  pushed : Selector R
  pushed = record s {
    head = if s.waiting == null then s.head else update s.head s.waiting n;
    tail = if s.waiting == null then s.tail else update s.tail n s.waiting;
    ready = if s.waiting == null then n else s.ready;
    waiting = n;
  }

  pushed_run : s.head n ≡ null → s.tail n ≡ null → queue_push n s ≡ some (tt, pushed)
  unfolding queue_push pushed
  pushed_run h t = elim (Bool-cases (s.waiting == null)) [
    | inl e ↦ rw (h, t, e)
    | inr e ↦ rw (h, t, e)
  ]

  pushed-IsQueue :
      (q : List Ptr)
      → IsQueue s q
      → n ≢ null
      → n ∉ q
      → s.head n ≡ null
      → s.tail n ≡ null
      → IsQueue pushed (q ++ n ∷ [])
  unfolding pushed
  pushed-IsQueue q is ne out h t =
      let fresh : n ∉ (null ∷ q) ++ [] = rw (has-append n (null ∷ q) []) (ground arith) in
      record {
        links =
            Links.frame _ _ null (q ++ n ∷ []) null
              (insert_last (newer s) (older s) n null q null is.links is.distinct (ground arith)
                (ground arith) is.distinct.0)
              (λ c i. ground (arith, h)) (λ c i. ground (arith, t));
        distinct = IsDistinct-insert n (null ∷ q) [] fresh (rw append-nil is.distinct);
      }

  pushed-SameNodes : (q : List Ptr) → IsQueue s q → SameNodes (n ∷ q) s pushed
  unfolding pushed
  pushed-SameNodes q is = record {
    flags = λ p. refl;
    fiber = λ p. refl;
    head = λ p out. ground (arith, waiting-mem is);
    tail = λ p out. ground arith;
    outside = refl;
  }

-- `queue_push` puts a detached node behind all others, and writes no other node's links but those of
-- the queue.
pub queue_push-IsQueue :
    {R : Type 0} {s : Selector R} {q : List Ptr} (n : Ptr)
    → IsQueue s q
    → n ≢ null
    → n ∉ q
    → s.head n ≡ null
    → s.tail n ≡ null
    → (t : Selector R) × (queue_push n s ≡ some (tt, t))
      × IsQueue t (q ++ n ∷ [])
      × SameNodes (n ∷ q) s t
queue_push-IsQueue {s} {q} n is ne out h t =
    (pushed s n, pushed_run s n h t, pushed-IsQueue s n q is ne out h t, pushed-SameNodes s n q is)

module _ {R : Type 0} (s : Selector R) (n : Ptr) where
  popped : Selector R
  popped = record s {
    head = update (if s.tail n == null then s.head else update s.head (s.tail n) (s.head n)) n null;
    tail = update (if s.head n == null then s.tail else update s.tail (s.head n) (s.tail n)) n null;
    waiting = if s.head n == null then s.tail n else s.waiting;
    ready = if s.tail n == null then s.head n else s.ready;
  }

  popped_run : queue_pop n s ≡ popped
  unfolding queue_pop popped
  popped_run = elim (Bool-cases (s.head n == null)) [
    | inl e ↦ elim (Bool-cases (s.tail n == null)) [ inl f ↦ rw (e, f) | inr f ↦ rw (e, f) ]
    | inr e ↦ elim (Bool-cases (n == s.head n)) [
      | inl g ↦ elim (Bool-cases (s.tail n == null)) [ inl f ↦ rw (e, g, f) | inr f ↦ rw (e, g, f) ]
      | inr g ↦ elim (Bool-cases (s.tail n == null)) [ inl f ↦ rw (e, g, f) | inr f ↦ rw (e, g, f) ]
    ]
  ]

module _ {R : Type 0} {s : Selector R} (xs : List Ptr) (n : Ptr) (ys : List Ptr)
    (is : IsQueue s (xs ++ n ∷ ys)) where
  n-nonnull : (n == null) ≡ false
  n-nonnull = ground (arith, is.distinct, has-append null xs (n ∷ ys))

  head_in : s.head n ∈ null ∷ ys
  head_in =
      let (_, after) = Links.split (newer s) (older s) null xs n ys null is.links in
      ground (arith, Links.next-mem (newer s) (older s) n ys null after, n-nonnull)

  tail_in : s.tail n ∈ null ∷ xs
  tail_in =
      let (before, _) = Links.split (newer s) (older s) null xs n ys null is.links in
      ground (arith, Links.prev-mem (newer s) (older s) null xs n before, n-nonnull)

  -- `queue_pop` takes a node out of the queue, wherever it stands: the others keep their order, the
  -- node is detached, and no node outside the queue is written.
  pub queue_pop-IsQueue :
      IsQueue (queue_pop n s) (xs ++ ys)
      × (((queue_pop n s).head n ≡ null) × ((queue_pop n s).tail n ≡ null))
      × SameNodes (xs ++ n ∷ ys) s (queue_pop n s)
  unfolding popped
  queue_pop-IsQueue = rw (popped_run s n) (
    record {
      links =
          Links.frame _ _ null (xs ++ ys) null
            (remove (newer s) (older s) n null xs ys null is.links is.distinct is.distinct.0)
            (λ c i. ground (arith, n-nonnull)) (λ c i. ground (arith, n-nonnull));
      distinct = (IsDistinct-remove (null ∷ xs) n ys is.distinct).0;
    },
    (ground arith, ground arith),
    record {
      flags = λ p. refl;
      fiber = λ p. refl;
      head = λ p out. ground (arith, tail_in, has-append p xs (n ∷ ys));
      tail = λ p out. ground (arith, head_in, has-append p xs (n ∷ ys));
      outside = refl;
    },
  )

-- A node outside the queue may be prepared for a push.
pub new_node-IsQueue :
    {R : Type 0} {s : Selector R} {q : List Ptr} (n : Ptr) (flags fiber : ℕ)
    → IsQueue s q
    → n ≢ null
    → n ∉ q
    → IsQueue (new_node n flags fiber s) q
new_node-IsQueue {s} {q} n flags fiber is ne out = record {
  links =
      Links.frame (newer s) (older s) null q null is.links (λ c i. ground arith)
        (λ c i. ground arith);
  distinct = is.distinct;
}

-- A fresh node put into the queue with its flags and its fiber.
pub enqueue_lem :
    {R : Type 0} {s : Selector R} {q : List Ptr} (n : Ptr) (flags fiber : ℕ)
    → IsQueue s q
    → n ≢ null
    → n ∉ q
    → (t : Selector R) × (queue_push n (new_node n flags fiber s) ≡ some (tt, t))
      × IsQueue t (q ++ n ∷ [])
      × SameNodes (n ∷ q) (new_node n flags fiber s) t
enqueue_lem n flags fiber is ne out =
    queue_push-IsQueue n (new_node-IsQueue n flags fiber is ne out) ne out (ground arith)
      (ground arith)
