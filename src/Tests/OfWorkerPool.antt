-- ===== src/Tests/OfWorkerPool.antt =====
-- A pool with one worker, 5, and one work item, 10.
use io_event.Base.{◌≡◌, refl, true, false, ◌||◌, none, some, List, [], ◌∷◌, arith, Ptr, null, ◌∈◌}
use io_event.WorkerPool.{looking, Pool, shut, submit, enqueue_work}
use io_event.WorkerPool.Queue.{IsQueue, enqueue-IsQueue}
use io_event.WorkerPool.Steps.{submitted, shut_down, Reach, here, next, Inv, IsFresh}
use io_event.WorkerPool.Steps.Invariant.{Reach-Inv}
use io_event.WorkerPool.Progress.{worker_thread_func, worker_thread_func_lem, Drained, stranded}
use io_event.WorkerPool.Call.{Wake, wait, wait_lem, first_state}

abbrev fresh_pool : Pool
fresh_pool = record {
  work_queue = null;
  work_queue_tail = null;
  workers = 5 ∷ [];
  current_worker_count = 1;
  maximum_worker_count = 1;
  call_count = 0;
  completed_count = 0;
  cancelled_count = 0;
  shutdown = false;
  blocking_operation = λ _. 0;
  completed = λ _. false;
  scheduler = λ _. 0;
  fiber = λ _. 0;
  next = λ _. null;
  interrupted = λ _. false;
  current_blocking_operation = λ _. 0;
  pc = λ _. looking;
}

fresh_pool-Inv : Inv [] fresh_pool
fresh_pool-Inv = record {
  queue = record { chain = refl; tail = refl; distinct = tt };
  waiting = λ x i. ground arith;
  pending = λ w nn. refl;
  unqueued = λ w. refl;
  one_worker = λ v w nn e. ground arith;
  uncancelled = refl;
}

item-IsFresh : IsFresh 10 [] fresh_pool
item-IsFresh = record { nonnull = refl; unqueued = refl; unheld = λ w. refl }

accepted : (submit 10 7 50 99 fresh_pool).0 ≡ none
unfolding submit
accepted = refl

abbrev after_submit : Pool
after_submit = (submit 10 7 50 99 fresh_pool).1

one_call : Reach [] fresh_pool (10 ∷ []) after_submit
one_call = next here (submitted 10 7 50 99 item-IsFresh accepted)

Reach-Inv_example : Inv (10 ∷ []) after_submit
Reach-Inv_example = Reach-Inv one_call fresh_pool-Inv

still_looking : after_submit.pc 5 ≡ looking
unfolding submit enqueue_work
still_looking = refl

still_running : (after_submit.shutdown || after_submit.interrupted 5) ≡ false
unfolding submit enqueue_work
still_running = refl

worker_thread_func_lem_example :
    ((worker_thread_func 2 5 after_submit).0 ≡ 10 ∷ [])
    × Drained 5 (10 ∷ []) after_submit (worker_thread_func 2 5 after_submit).1
worker_thread_func_lem_example =
    worker_thread_func_lem 5 (10 ∷ []) 2 (Reach-Inv one_call fresh_pool-Inv) still_looking
      still_running (omega arith)

closed : (shut after_submit).shutdown ≡ true
unfolding shut
closed = refl

closed-Inv : Inv (10 ∷ []) (shut after_submit)
closed-Inv = Reach-Inv (next one_call shut_down) fresh_pool-Inv

shut_again : Reach (10 ∷ []) (shut after_submit) (10 ∷ []) (shut (shut after_submit))
shut_again = next here shut_down

stranded_example :
    (◌≡◌ {A = List Ptr} (10 ∷ []) (10 ∷ []))
    × ((x : Ptr) → x ∈ 10 ∷ [] → (shut (shut after_submit)).completed x ≡ false)
stranded_example = stranded closed-Inv closed shut_again

next_free : after_submit.next 20 ≡ null
unfolding submit enqueue_work
next_free = refl

enqueue-IsQueue_example : IsQueue (enqueue_work 20 after_submit) (10 ∷ 20 ∷ [])
enqueue-IsQueue_example =
    enqueue-IsQueue 20 (10 ∷ []) (Reach-Inv one_call fresh_pool-Inv).queue refl refl next_free

-- Woken up once by an exception with state 6, then by the worker.
abbrev early : Wake
early = record { completed = false; current_state = 6 }

abbrev late : Wake
late = record { completed = true; current_state = 0 }

wait_lem_example :
    (wait (early ∷ late ∷ []) ≡ some (first_state (early ∷ late ∷ []), 1))
    × (wait (early ∷ []) ≡ none)
wait_lem_example = wait_lem (early ∷ []) late [] (refl, tt) refl
