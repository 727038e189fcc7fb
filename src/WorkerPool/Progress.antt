-- ===== src/WorkerPool/Progress.antt =====
-- What becomes of the work in the queue: a worker that is left alone completes all of it, and after
-- the shutdown nobody does.
use io_event.Base.{
  ==-refl, subst, ℕ, zero, suc, ◌<◌, ◌≡◌, refl, sym, ap, ◌∙◌, true, false, ◌||◌, List, [], ◌∷◌,
  arith, Ptr, null, ◌==◌, if◌then◌else◌, length, ◌∈◌, ◌∉◌, has, inl, inr, Bool-cases, ==_iff,
}
use io_event.WorkerPool.{
  looking, taken, Pool, look, begin, leave, complete, unblock, submit, shut, discard, dequeue_work,
}
use io_event.WorkerPool.Steps.{
  Step, refused, submitted, looked_in_vain, took, began, left, completed, unblocked, shut_down,
  discarded, Reach, here, next, Inv, held,
}
use io_event.WorkerPool.Steps.Invariant.{Reach-Inv, Step-Inv}

-- The four steps of a round, one after the other.
unfoldable round : (worker work : Ptr) → Pool → Pool
round worker work p = complete worker work (leave worker work (begin worker work (look worker p)))

-- `worker_thread_func` of a worker that nothing interrupts, for a number of rounds: the work whose
-- fibers it unblocked, in order.
pub worker_thread_func : (rounds : ℕ) → (worker : Ptr) → Pool → List Ptr × Pool
worker_thread_func zero worker p = ([], p)
worker_thread_func (suc n) worker p =
    let t = look worker p in
    let work = held (t.pc worker) in
    let (done, u) = worker_thread_func n worker (round worker work p) in
    if work == null then ([], t) else (work ∷ done, u)

-- What a worker does with the oldest item.
record Round (w x : Ptr) (q : List Ptr) (p u : Pool) : Type 0 where
  inv : Inv q u
  at : u.pc w ≡ looking
  running : (u.shutdown || u.interrupted w) ≡ false
  done : u.completed x ≡ true
  others : (y : Ptr) → (y == x) ≡ false → u.completed y ≡ p.completed y

look_takes :
    {q : List Ptr} {p : Pool} (w x : Ptr)
    → Inv (x ∷ q) p
    → (p.shutdown || p.interrupted w) ≡ false
    → ((look w p).pc w ≡ taken x)
      × ((look w p).completed ≡ p.completed)
      × ((look w p).shutdown ≡ p.shutdown)
      × ((look w p).interrupted ≡ p.interrupted)
unfolding look dequeue_work
look_takes {q} {p} w x inv go =
    let first = inv.queue.chain.0 in
    simp (go, inv.queue.chain.1, ==-refl, first) (refl, refl, refl, refl)

round-Round :
    {q : List Ptr} {p : Pool} (w x : Ptr)
    → Inv (x ∷ q) p
    → p.pc w ≡ looking
    → (p.shutdown || p.interrupted w) ≡ false
    → Round w x q p (round w x p)
unfolding round begin leave complete
round-Round {q} {p} w x inv at go =
    let (pc, c, s, i) = look_takes w x inv go in
    let inv1 = Step-Inv (took {q = q} {p = p} w x at go) inv in
    let inv2 = Step-Inv (began w x pc) inv1 in
    let inv3 = Step-Inv (left w x (ground arith)) inv2 in
    record {
      inv = Step-Inv (completed w x (ground arith)) inv3;
      at = ground arith;
      running = ground (arith, s, ap (λ f. f w) i, go);
      done = ground arith;
      others = λ y other. ground (arith, ap (λ f. f y) c, other);
    }

look_idle : {p : Pool} (w : Ptr) → Inv [] p → (p.shutdown || p.interrupted w) ≡ false → look w p ≡ p
unfolding look
look_idle w inv go = simp (go, inv.queue.chain)

-- What the worker has done with the queue `q`.
pub record Drained (w : Ptr) (q : List Ptr) (p u : Pool) : Type 0 where
  pub inv : Inv [] u
  pub at : u.pc w ≡ looking
  pub done : (x : Ptr) → x ∈ q → u.completed x ≡ true
  pub others : (y : Ptr) → y ∉ q → u.completed y ≡ p.completed y

-- A worker that looks for work and is neither interrupted nor shut down completes, left alone for
-- one round more than there is work in the queue, all of it, oldest first, unblocks the fiber of each
-- once in that order, completes nothing else, and then waits for work again.
pub worker_thread_func_lem :
    (w : Ptr) (q : List Ptr) (rounds : ℕ) {p : Pool}
    → Inv q p
    → p.pc w ≡ looking
    → (p.shutdown || p.interrupted w) ≡ false
    → length q < rounds
    → ((worker_thread_func rounds w p).0 ≡ q) × Drained w q p (worker_thread_func rounds w p).1
unfolding worker_thread_func
worker_thread_func_lem w q zero inv at go more = ground arith
worker_thread_func_lem w [] (suc n) {p} inv at go more =
    simp (look_idle w inv go, at)
      (refl, record { inv = inv; at = at; done = λ x i. ground arith; others = λ y out. refl })
worker_thread_func_lem w (x ∷ q) (suc n) {p} inv at go more =
    let r = round-Round w x inv at go in
    let pc = (look_takes w x inv go).0 in
    let u = round w x p in
    let (ih, d) = worker_thread_func_lem w q n r.inv r.at r.running (ground arith) in
    simp (pc, inv.queue.chain.1)
      (
        ap (λ l. x ∷ l) ih,
        record {
          inv = d.inv;
          at = d.at;
          done = λ y i. elim (Bool-cases (has y q)) [
            | inl later ↦ d.done y later
            | inr out ↦
                d.others y out
                ∙ ground (
                  arith,
                  i,
                  out,
                  ap u.completed ((==_iff y x).0 (ground (arith, i, out))),
                  r.done,
                )
          ];
          others = λ y out. d.others y (ground (arith, out)) ∙ r.others y (ground (arith, out));
        },
      )

stranded-Step :
    {q : List Ptr} {p : Pool} {q' : List Ptr} {p' : Pool}
    → Step q p q' p'
    → p.shutdown ≡ true
    → (q' ≡ q) × (p'.shutdown ≡ true)
unfolding submit look begin leave complete unblock shut discard
stranded-Step (refused work fiber scheduler operation not_queued) s = ground arith
stranded-Step (submitted work fiber scheduler operation fresh queued) s = ground arith
stranded-Step (looked_in_vain w at why) s = simp s (refl, refl)
stranded-Step (took w x at go) s = ground arith
stranded-Step (began w x at) s = (refl, s)
stranded-Step (left w x at) s = (refl, s)
stranded-Step (completed w x at) s = (refl, s)
stranded-Step (unblocked w) s = (refl, s)
stranded-Step shut_down s = (refl, refl)
stranded-Step (discarded shut all_ended) s = (refl, s)

stranded-Reach :
    {q : List Ptr} {p : Pool} {q' : List Ptr} {p' : Pool}
    → Reach q p q' p'
    → p.shutdown ≡ true
    → (q' ≡ q) × (p'.shutdown ≡ true)
stranded-Reach here s = (refl, s)
stranded-Reach (next path step) s =
    let (e, s') = stranded-Reach path s in let (e', s'') = stranded-Step step s' in (e' ∙ e, s'')

-- Once the pool is shut down, whatever callers, workers and the owner do, the work that is in the
-- queue stays there, and none of it is ever completed.
pub stranded :
    {q : List Ptr} {p : Pool} {q' : List Ptr} {p' : Pool}
    → Inv q p
    → p.shutdown ≡ true
    → Reach q p q' p'
    → (q' ≡ q) × ((x : Ptr) → x ∈ q → p'.completed x ≡ false)
stranded {q} {p} {q'} {p'} inv s path =
    let (e, _) = stranded-Reach path s in
    (e, λ x i. (Reach-Inv path inv).waiting x (subst (λ l. x ∈ l) (sym e) i))
