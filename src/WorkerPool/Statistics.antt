-- ===== src/WorkerPool/Statistics.antt =====
-- `worker_pool_statistics`.
use mathlib.Core.Option
use io_event.Base.{
  subst, ℕ, zero, suc, ◌+◌, ◌%◌, ◌^◌, ◌<◌, ◌≡◌, sym, ap, ◌∙◌, Bool, true, false, Option, none, some,
  List, [], ◌∷◌, arith, Ptr, null, ltb, ◌==◌, if◌then◌else◌, length,
}
use io_event.WorkerPool.{Pool}
use io_event.WorkerPool.Queue.{IsQueue, Chain}

-- The hash that `worker_pool_statistics` returns.
pub record Statistics : Type 0 where
  pub current_worker_count : ℕ
  pub maximum_worker_count : ℕ
  pub call_count : ℕ
  pub completed_count : ℕ
  pub cancelled_count : ℕ
  pub shutdown : Bool
  pub current_queue_size : ℕ

-- The loop that counts the queue; `none` when the fuel is used up.
unfoldable size_loop : (fuel : ℕ) → (next : Ptr → Ptr) → (work size : ℕ) → Option ℕ
size_loop zero next work size = none
size_loop (suc n) next work size =
    let rest = size_loop n next (next work) ((size + 1) % 2 ^ 64) in
    if work == null then some size else rest

-- `worker_pool_statistics`
pub statistics : (fuel : ℕ) → Pool → Option Statistics
statistics fuel p =
    let size =
      if ltb 0 p.maximum_worker_count then size_loop fuel p.next p.work_queue 0 else some 0 in
    Option.map
      (λ n. record {
        current_worker_count = p.current_worker_count;
        maximum_worker_count = p.maximum_worker_count;
        call_count = p.call_count;
        completed_count = p.completed_count;
        cancelled_count = p.cancelled_count;
        shutdown = p.shutdown;
        current_queue_size = n;
      })
      size

size_loop_lem :
    (fuel : ℕ) (next : Ptr → Ptr) (work size : ℕ) (q : List Ptr)
    → Chain next work q
    → length q < fuel
    → size < 2 ^ 64
    → size_loop fuel next work size ≡ some ((size + length q) % 2 ^ 64)
unfolding size_loop
size_loop_lem zero next work size q c enough small = ground arith
size_loop_lem (suc n) next work size [] c enough small = ground arith
size_loop_lem (suc n) next work size (x ∷ q) c enough small =
    let some_work : (work == null) ≡ false = ap (λ w. w == null) c.0 ∙ c.1 in
    let ih =
      size_loop_lem n next (next work) ((size + 1) % 2 ^ 64) q
        (subst (λ w. Chain next (next w) q) (sym c.0) c.2) (omega (arith, enough)) (omega arith) in
    simp some_work (ih ∙ ap some (omega arith))

-- The statistics of a pool that has been initialized end, after one round more than there is work in
-- the queue, with the length of the queue, modulo the width of `size_t`.
pub statistics_lem :
    {p : Pool} (q : List Ptr) (fuel : ℕ)
    → IsQueue p q
    → ltb 0 p.maximum_worker_count ≡ true
    → length q < fuel
    → Option.map (λ (s : Statistics). s.current_queue_size) (statistics fuel p)
      ≡ some (length q % 2 ^ 64)
unfolding statistics
statistics_lem {p} q fuel is positive enough =
    rw (positive, size_loop_lem fuel p.next p.work_queue 0 q is.chain enough (omega arith))
      (ap some (omega arith))
