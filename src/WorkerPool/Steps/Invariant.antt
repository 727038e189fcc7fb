-- ===== src/WorkerPool/Steps/Invariant.antt =====
-- Every step of the pool keeps its invariant.
use io_event.Base.{
  subst, ◌≡◌, refl, sym, ap, ◌∙◌, ◌⊎◌, inl, inr, true, false, ◌||◌, List, [], ◌∷◌, arith, Ptr, null,
  update, ◌==◌, Bool-cases, ◌∉◌,
}
use io_event.WorkerPool.{
  Pc, looking, taken, executing, executed, ended, Pool, look, begin, leave, complete, unblock, shut,
  discard, dequeue_work,
}
use io_event.WorkerPool.Queue.{IsQueue, Chain, nonnull_of_Chain, dequeue-IsQueue}
use io_event.WorkerPool.Steps.{
  held, Step, refused, submitted, looked_in_vain, took, began, left, completed, unblocked,
  shut_down, discarded, Reach, here, next, Inv,
}
use io_event.WorkerPool.Steps.Submit.{same-Inv, refused-Inv, submitted-Inv}

-- A worker that moves on without its item, or with the same one.
set_pc-Inv :
    {q : List Ptr} (p t : Pool) (w : Ptr) (c : Pc)
    → Inv q p
    → (held c ≡ null) ⊎ (held c ≡ held (p.pc w))
    → IsQueue t q
    → t.completed ≡ p.completed
    → t.cancelled_count ≡ p.cancelled_count
    → t.pc ≡ update p.pc w c
    → Inv q t
set_pc-Inv {q} p t w c inv kept queue same k pc = record {
  queue = queue;
  waiting = λ x i. ap (λ f. f x) same ∙ inv.waiting x i;
  pending = λ v nn.
      ground
        (arith, ap (λ f. f v) pc, ap (λ f. f (held (p.pc v))) same, inv.pending v, inv.pending w);
  unqueued = λ v. ground (arith, ap (λ f. f v) pc, inv.unqueued v, inv.unqueued w, null_out);
  one_worker = λ u v nn e. ground (
    arith,
    ap (λ f. f u) pc,
    ap (λ f. f v) pc,
    inv.one_worker u v,
    inv.one_worker w v,
    inv.one_worker u w,
  );
  uncancelled = k ∙ inv.uncancelled;
}
  where
    null_out : null ∉ q
    null_out = nonnull_of_Chain p.next p.work_queue q inv.queue.chain

dequeue_same :
    (p : Pool)
    → ((dequeue_work p).1.completed ≡ p.completed)
      × ((dequeue_work p).1.pc ≡ p.pc)
      × ((dequeue_work p).1.cancelled_count ≡ p.cancelled_count)
unfolding dequeue_work
dequeue_same p = elim (Bool-cases (p.work_queue == null)) [
  | inl e ↦ simp e (refl, refl, refl)
  | inr e ↦ simp e (refl, refl, refl)
]

-- A worker that finds no work, or is to end.
looked_in_vain-Inv :
    {q : List Ptr} {p : Pool} (w : Ptr)
    → Inv q p
    → p.pc w ≡ looking
    → ((p.shutdown || p.interrupted w) ≡ true) ⊎ (q ≡ [])
    → Inv q (look w p)
unfolding look
looked_in_vain-Inv {q} {p} w inv at why = elim (Bool-cases (p.shutdown || p.interrupted w)) [
  | inl e ↦ simp e (
      set_pc-Inv p _ w ended inv (inl refl)
        (record { chain = inv.queue.chain; tail = inv.queue.tail; distinct = inv.queue.distinct })
        refl refl refl)
  | inr e ↦
      let nil : q ≡ [] = ground (arith, why) in
      let nothing : (p.work_queue == null) ≡ true =
        ap (λ w. w == null) (subst (Chain p.next p.work_queue) nil inv.queue.chain) in
      simp (e, nothing) inv
]

-- A worker that takes the oldest item.
took-Inv :
    {q : List Ptr} {p : Pool} (w x : Ptr)
    → Inv (x ∷ q) p
    → p.pc w ≡ looking
    → (p.shutdown || p.interrupted w) ≡ false
    → Inv q (look w p)
unfolding look
took-Inv {q} {p} w x inv at go =
    let (first, queue, _) = dequeue-IsQueue x q inv.queue in
    let (c, pc, k) = dequeue_same p in
    let some_work : (p.work_queue == null) ≡ false =
      ap (λ w. w == null) inv.queue.chain.0 ∙ inv.queue.chain.1 in
    simp (go, some_work)
      (record {
        queue = record { chain = queue.chain; tail = queue.tail; distinct = queue.distinct };
        waiting = λ y i. ground (arith, ap (λ f. f y) c, inv.waiting y);
        pending = λ v nn. ground (
          arith,
          first,
          ap (λ f. f v) pc,
          ap (λ f. f (held (p.pc v))) c,
          ap (λ f. f x) c,
          inv.pending v,
          inv.waiting x,
        );
        unqueued = λ v. ground (arith, first, ap (λ f. f v) pc, inv.unqueued v, inv.queue.distinct);
        one_worker = λ u v nn e. ground (
          arith,
          first,
          ap (λ f. f u) pc,
          ap (λ f. f v) pc,
          inv.one_worker u v,
          inv.unqueued u,
          inv.unqueued v,
        );
        uncancelled = k ∙ inv.uncancelled;
      })

-- A worker that has its item completed lets go of it.
completed-Inv :
    {q : List Ptr} {p : Pool} (w x : Ptr) → Inv q p → p.pc w ≡ executed x → Inv q (complete w x p)
unfolding complete
completed-Inv {q} {p} w x inv at = record {
  queue = record { chain = inv.queue.chain; tail = inv.queue.tail; distinct = inv.queue.distinct };
  waiting = λ y i. ground (arith, ap held at, inv.waiting y, inv.unqueued w);
  pending = λ v nn. ground (arith, ap held at, inv.pending v, inv.one_worker v w);
  unqueued = λ v. ground (arith, inv.unqueued v, null_out);
  one_worker = λ u v nn e. ground (arith, inv.one_worker u v);
  uncancelled = inv.uncancelled;
}
  where
    null_out : null ∉ q
    null_out = nonnull_of_Chain p.next p.work_queue q inv.queue.chain

left-Inv :
    {q : List Ptr} {p : Pool} (w x : Ptr) → Inv q p → p.pc w ≡ executing x → Inv q (leave w x p)
unfolding leave
left-Inv {q} {p} w x inv at =
    set_pc-Inv p _ w (executed x) inv (inr (sym (ap held at)))
      (record { chain = inv.queue.chain; tail = inv.queue.tail; distinct = inv.queue.distinct })
      refl refl refl

began-Inv : {q : List Ptr} {p : Pool} (w x : Ptr) → Inv q p → p.pc w ≡ taken x → Inv q (begin w x p)
unfolding begin
began-Inv {q} {p} w x inv at =
    set_pc-Inv p _ w (executing x) inv (inr (sym (ap held at)))
      (record { chain = inv.queue.chain; tail = inv.queue.tail; distinct = inv.queue.distinct })
      refl refl refl

unblocked-Inv : {q : List Ptr} {p : Pool} (w : Ptr) → Inv q p → Inv q (unblock w p)
unfolding unblock
unblocked-Inv {p} w inv = same-Inv p _ inv refl refl refl refl refl refl

shut_down-Inv : {q : List Ptr} {p : Pool} → Inv q p → Inv q (shut p)
unfolding shut
shut_down-Inv {p} inv = same-Inv p _ inv refl refl refl refl refl refl

discarded-Inv : {q : List Ptr} {p : Pool} → Inv q p → Inv q (discard p)
unfolding discard
discarded-Inv {p} inv = same-Inv p _ inv refl refl refl refl refl refl

pub Step-Inv : {q q' : List Ptr} {p p' : Pool} → Step q p q' p' → Inv q p → Inv q' p'
Step-Inv (refused work fiber scheduler operation not_queued) inv =
    refused-Inv work fiber scheduler operation inv not_queued
Step-Inv (submitted work fiber scheduler operation fresh queued) inv =
    submitted-Inv work fiber scheduler operation inv fresh queued
Step-Inv (looked_in_vain w at why) inv = looked_in_vain-Inv w inv at why
Step-Inv (took w x at go) inv = took-Inv w x inv at go
Step-Inv (began w x at) inv = began-Inv w x inv at
Step-Inv (left w x at) inv = left-Inv w x inv at
Step-Inv (completed w x at) inv = completed-Inv w x inv at
Step-Inv (unblocked w) inv = unblocked-Inv w inv
Step-Inv shut_down inv = shut_down-Inv inv
Step-Inv (discarded shut all_ended) inv = discarded-Inv inv

-- Whatever callers, workers and the owner do, the queue is the list of the items that were
-- submitted and not taken, in their order; no item is queued twice, with two workers, or both queued
-- and with a worker; an item that is in one of these places is not completed; and `cancelled_count`
-- stays 0.
pub Reach-Inv :
    {q : List Ptr} {p : Pool} {q' : List Ptr} {p' : Pool} → Reach q p q' p' → Inv q p → Inv q' p'
Reach-Inv here inv = inv
Reach-Inv (next path step) inv = Step-Inv step (Reach-Inv path inv)
