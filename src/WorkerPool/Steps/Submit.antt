-- ===== src/WorkerPool/Steps/Submit.antt =====
-- Calls that are submitted, accepted or refused, keep the invariant of the pool.
use io_event.Base.{
  subst, ℕ, ◌≡◌, refl, sym, ap, ◌∙◌, inl, inr, false, none, List, [], ◌∷◌, ◌++◌, arith, Ptr, null,
  ◌==◌, Bool-cases, ◌∉◌, has-append,
}
use io_event.WorkerPool.{Pool, submit, new_work, increment, enqueue_work}
use io_event.WorkerPool.Queue.{IsQueue, Chain, Chain-frame, enqueue-IsQueue}
use io_event.WorkerPool.Steps.{held, IsFresh, Inv}

-- Only the queue, `completed` and the program counters matter to the invariant.
pub same-Inv :
    {q : List Ptr} (p t : Pool)
    → Inv q p
    → t.work_queue ≡ p.work_queue
    → t.work_queue_tail ≡ p.work_queue_tail
    → t.next ≡ p.next
    → t.completed ≡ p.completed
    → t.pc ≡ p.pc
    → t.cancelled_count ≡ p.cancelled_count
    → Inv q t
same-Inv {q} p t inv first last links c pc k = record {
  queue = record {
    chain =
        subst (λ f. Chain f t.work_queue q) (sym links)
          (subst (λ w. Chain p.next w q) (sym first) inv.queue.chain);
    tail = last ∙ inv.queue.tail;
    distinct = inv.queue.distinct;
  };
  waiting = λ x i. ap (λ f. f x) c ∙ inv.waiting x i;
  pending =
      subst (λ f. (w : Ptr) → (held (f w) == null) ≡ false → t.completed (held (f w)) ≡ false)
        (sym pc) (λ w nn. ap (λ f. f (held (p.pc w))) c ∙ inv.pending w nn);
  unqueued = subst (λ f. (w : Ptr) → held (f w) ∉ q) (sym pc) inv.unqueued;
  one_worker =
      subst (λ f. (v w : Ptr) → (held (f v) == null) ≡ false → held (f v) ≡ held (f w) → v ≡ w)
        (sym pc) inv.one_worker;
  uncancelled = k ∙ inv.uncancelled;
}

-- A call that is refused leaves all but `call_count` alone.
pub refused-Inv :
    {q : List Ptr} {p : Pool} (work fiber scheduler operation : ℕ)
    → Inv q p
    → ((submit work fiber scheduler operation p).0 ≡ none → ⊥)
    → Inv q (submit work fiber scheduler operation p).1
unfolding submit
refused-Inv {p} work fiber scheduler operation inv not_queued = elim (Bool-cases p.shutdown) [
  | inl e ↦ simp e inv
  | inr e ↦ elim (Bool-cases (scheduler == 0)) [
    | inl e' ↦ simp (e, e') (same-Inv p _ inv refl refl refl refl refl refl)
    | inr e' ↦ elim (Bool-cases (operation == 0)) [
      | inl e'' ↦ simp (e, e', e'') (same-Inv p _ inv refl refl refl refl refl refl)
      | inr e'' ↦ absurd (not_queued (simp (e, e', e'')))
    ]
  ]
]

submit_run :
    (p : Pool) (work fiber scheduler operation : ℕ)
    → (submit work fiber scheduler operation p).0 ≡ none
    → (submit work fiber scheduler operation p).1
      ≡ enqueue_work work (
          new_work work fiber scheduler operation
            (record p { call_count = increment p.call_count }))
unfolding submit
submit_run p work fiber scheduler operation queued = ground arith

enqueue_same :
    (work : Ptr) (p : Pool)
    → ((enqueue_work work p).completed ≡ p.completed)
      × ((enqueue_work work p).pc ≡ p.pc)
      × ((enqueue_work work p).cancelled_count ≡ p.cancelled_count)
unfolding enqueue_work
enqueue_same work p = elim (Bool-cases (p.work_queue_tail == null)) [
  | inl e ↦ simp e (refl, refl, refl)
  | inr e ↦ simp e (refl, refl, refl)
]

-- A call that is accepted puts its fresh item behind all others.
pub submitted-Inv :
    {q : List Ptr} {p : Pool} (work fiber scheduler operation : ℕ)
    → Inv q p
    → IsFresh work q p
    → (submit work fiber scheduler operation p).0 ≡ none
    → Inv (q ++ work ∷ []) (submit work fiber scheduler operation p).1
submitted-Inv {q} {p} work fiber scheduler operation inv fresh queued =
    let t =
      new_work work fiber scheduler operation (record p { call_count = increment p.call_count }) in
    let (c, pc, k) = enqueue_same work t in
    let before : IsQueue t q = record {
      chain = Chain-frame p.work_queue q inv.queue.chain (λ a i. ground (arith, fresh.unqueued));
      tail = inv.queue.tail;
      distinct = inv.queue.distinct;
    } in
    rw (submit_run p work fiber scheduler operation queued) (record {
      queue = enqueue-IsQueue work q before fresh.nonnull fresh.unqueued (ground arith);
      waiting = λ x i. ground (arith, ap (λ f. f x) c, has-append x q (work ∷ []), inv.waiting x);
      pending = λ w nn.
          ground
            (arith, ap (λ f. f w) pc, ap (λ f. f (held (p.pc w))) c, fresh.unheld w, inv.pending w);
      unqueued = λ w. ground (
        arith,
        ap (λ f. f w) pc,
        has-append (held (p.pc w)) q (work ∷ []),
        fresh.unheld w,
        inv.unqueued w,
      );
      one_worker =
          subst (λ f. (v w : Ptr) → (held (f v) == null) ≡ false → held (f v) ≡ held (f w) → v ≡ w)
            (sym pc) inv.one_worker;
      uncancelled = k ∙ inv.uncancelled;
    })
