-- ===== src/WorkerPool/Queue.antt =====
-- The work queue of the pool as a list of work items, oldest first.
use io_event.Base.{
  ne_of_mem, subst, append-nil, IsDistinct-insert, ◌≡◌, refl, sym, ap, ◌∙◌, true, false, List, [],
  ◌∷◌, ◌++◌, arith, Ptr, null, update, ◌==◌, if◌then◌else◌, ◌∈◌, ◌∉◌, IsDistinct,
}
use io_event.WorkerPool.{Pool, enqueue_work, dequeue_work}

-- The `next` links lead from `p` through `xs` to `NULL`.
abbrev pub Chain : (Ptr → Ptr) → Ptr → List Ptr → Type 0
Chain next p [] = p ≡ null
Chain next p (x ∷ xs) = (p ≡ x) × ((x == null) ≡ false) × Chain next (next x) xs

abbrev pub last_of : Ptr → List Ptr → Ptr
last_of r [] = r
last_of r (x ∷ xs) = last_of x xs

last_of-mem : (r x : Ptr) (xs : List Ptr) → last_of r (x ∷ xs) ∈ x ∷ xs
last_of-mem r x [] = ground arith
last_of-mem r x (y ∷ xs) = ground (arith, last_of-mem x y xs)

pub last_of_mem_cons : (x : Ptr) (xs : List Ptr) → last_of x xs ∈ x ∷ xs
last_of_mem_cons x [] = ground arith
last_of_mem_cons x (y ∷ xs) = ground (arith, last_of-mem x y xs)

last_of-snoc : (r : Ptr) (xs : List Ptr) (y : Ptr) → y ≡ last_of r (xs ++ y ∷ [])
last_of-snoc r [] y = refl
last_of-snoc r (x ∷ xs) y = last_of-snoc x xs y

-- The queue holds the items `q`, and `work_queue_tail` is the newest.
pub record IsQueue (p : Pool) (q : List Ptr) : Type 0 where
  pub chain : Chain p.next p.work_queue q
  pub tail : p.work_queue_tail ≡ last_of null q
  pub distinct : IsDistinct q

pub Chain-frame :
    {next next' : Ptr → Ptr} (p : Ptr) (xs : List Ptr)
    → Chain next p xs
    → ((c : Ptr) → c ∈ xs → next' c ≡ next c)
    → Chain next' p xs
Chain-frame p [] c same = c
Chain-frame {next} {next'} p (x ∷ xs) c same = (
  c.0,
  c.1,
  subst (λ n. Chain next' n xs) (sym (same x (ground arith)))
      (Chain-frame (next x) xs c.2 (λ a i. same a (ground arith))),
)

Chain-snoc :
    (next : Ptr → Ptr) (work p x : Ptr) (xs : List Ptr)
    → Chain next p (x ∷ xs)
    → IsDistinct (x ∷ xs)
    → work ∉ x ∷ xs
    → (work == null) ≡ false
    → next work ≡ null
    → Chain (update next (last_of x xs) work) p (x ∷ xs ++ work ∷ [])
Chain-snoc next work p x [] c d out nn free = ground arith
Chain-snoc next work p x (y ∷ xs) c d out nn free =
    let other : (x == last_of y xs) ≡ false =
      ne_of_mem x (last_of x (y ∷ xs)) (y ∷ xs) d.0 (last_of-mem x y xs) in
    let same : update next (last_of y xs) work x ≡ next x = rw other in
    (
      c.0,
      c.1,
      subst (λ n. Chain (update next (last_of y xs) work) n (y ∷ xs ++ work ∷ [])) (sym same)
          (Chain-snoc next work (next x) y xs c.2 d.1 (ground arith) nn free),
    )

pub nonnull_of_Chain : (next : Ptr → Ptr) (p : Ptr) (xs : List Ptr) → Chain next p xs → null ∉ xs
nonnull_of_Chain next p [] c = refl
nonnull_of_Chain next p (x ∷ xs) c = ground (arith, nonnull_of_Chain next (next x) xs c.2)

-- `enqueue_work` puts a fresh item behind all others.
pub enqueue-IsQueue :
    {p : Pool} (work : Ptr) (q : List Ptr)
    → IsQueue p q
    → (work == null) ≡ false
    → work ∉ q
    → p.next work ≡ null
    → IsQueue (enqueue_work work p) (q ++ work ∷ [])
unfolding enqueue_work
enqueue-IsQueue work [] is nn out free =
    rw is.tail (record { chain = (refl, nn, free); tail = refl; distinct = (refl, tt) })
enqueue-IsQueue {p} work (x ∷ xs) is nn out free =
    let some_tail : (p.work_queue_tail == null) ≡ false = ground (
      arith,
      is.tail,
      nonnull_of_Chain p.next p.work_queue (x ∷ xs) is.chain,
      ne_of_mem null (last_of x xs) (x ∷ xs),
      last_of_mem_cons x xs,
    ) in
    rw some_tail (record {
      chain =
          subst (λ t. Chain (update p.next t work) p.work_queue (x ∷ xs ++ work ∷ [])) (sym is.tail)
            (Chain-snoc p.next work p.work_queue x xs is.chain is.distinct out nn free);
      tail = last_of-snoc x xs work;
      distinct = IsDistinct-insert work (x ∷ xs) [] (rw append-nil out) (rw append-nil is.distinct);
    })

dequeue_tail :
    (next : Ptr → Ptr) (w x t : Ptr) (q : List Ptr)
    → w ≡ x
    → Chain next (next x) q
    → t ≡ last_of x q
    → (if next w == null then null else t) ≡ last_of null q
dequeue_tail next w x t [] e c last = ground (arith, ap next e)
dequeue_tail next w x t (y ∷ q) e c last = ground (arith, ap next e)

-- `dequeue_work` takes the oldest item, detaches it, and leaves the others in order; it returns
-- `NULL` and changes nothing exactly when the queue is empty.
pub dequeue-IsQueue :
    {p : Pool} (x : Ptr) (q : List Ptr)
    → IsQueue p (x ∷ q)
    → ((dequeue_work p).0 ≡ x) × IsQueue (dequeue_work p).1 q × ((dequeue_work p).1.next x ≡ null)
unfolding dequeue_work
dequeue-IsQueue {p} x q is =
    let some_work : (p.work_queue == null) ≡ false = ap (λ w. w == null) is.chain.0 ∙ is.chain.1 in
    rw some_work (
      is.chain.0,
      record {
        chain =
            Chain-frame (p.next p.work_queue) q
              (subst (λ w. Chain p.next (p.next w) q) (sym is.chain.0) is.chain.2)
              (λ c i. ground (arith, is.chain.0, is.distinct));
        tail = dequeue_tail p.next p.work_queue x p.work_queue_tail q is.chain.0 is.chain.2 is.tail;
        distinct = is.distinct.1;
      },
      ground (arith, is.chain.0),
    )

pub dequeue_empty : {p : Pool} → IsQueue p [] → dequeue_work p ≡ (null, p)
unfolding dequeue_work
dequeue_empty {p} is = let e : (p.work_queue == null) ≡ true = ap (λ w. w == null) is.chain in rw e
