-- ===== src/WorkerPool.antt =====
-- ext/io/event/worker_pool.c: threads that take blocking operations from a shared queue. Each
-- function below is one critical section of the source, under the pool's mutex or Ruby's global lock.
pub mod Queue
pub mod Steps
pub mod Progress
pub mod Call
pub mod Statistics
use io_event.Base.{
  ltb→lt, not_ltb→le, ==-refl, eq_nil_of_length, get_elem?-ge_length, dec_lt, ℕ_discrete,
  get_elem?-set, get_elem?-append_lt, get_elem?-append_ge, get_elem?-replicate, get_elem?-lt_length,
  append_assoc, ne_of_mem, and_then, subst, ne→==, append-nil, Cmd, ◌>>=◌, ◌>>◌, pure, assert,
  IsDistinct-insert, has-append_comm, IsDistinct-append_comm, IsDistinct-remove, ℕ, zero, suc, ◌+◌,
  ◌-◌, ◌*◌, ◌/◌, ◌%◌, ◌^◌, ◌≤◌, ◌<◌, ◌≡◌, refl, sym, ap, ◌∙◌, ◌≢◌, ◌↔◌, ◌⊎◌, inl, inr, Bool, true,
  false, not, ◌&&◌, ◌||◌, Option, none, some, List, [], ◌∷◌, ◌++◌, arith, Ptr, null, update, ltb,
  leb, ◌==◌, if◌then◌else◌, ==_iff, Bool-cases, Option-cases, length, get_elem?, get_or, set, take,
  drop, replicate, length-append, length-set, length-replicate, has, ◌∈◌, ◌∉◌, IsDistinct,
  has-append,
}

-- Where a worker thread is: in `worker_wait_and_execute` before it has work, with the work it took
-- there, executing it, back in `worker_thread_func` with that work, or at its end.
pub data Pc : Type 0 where
  looking : Pc
  taken : Ptr → Pc
  executing : Ptr → Pc
  executed : Ptr → Pc
  ended : Pc

-- `struct IO_Event_WorkerPool`; the fields of all `struct IO_Event_WorkerPool_Work`, one map for
-- each; and those of all `struct IO_Event_WorkerPool_Worker`, whose list is `workers`.
pub record Pool : Type 0 where
  pub work_queue : Ptr
  pub work_queue_tail : Ptr
  pub workers : List Ptr
  pub current_worker_count : ℕ
  pub maximum_worker_count : ℕ
  pub call_count : ℕ
  pub completed_count : ℕ
  pub cancelled_count : ℕ
  pub shutdown : Bool
  pub blocking_operation : Ptr → ℕ
  pub completed : Ptr → Bool
  pub scheduler : Ptr → ℕ
  pub fiber : Ptr → ℕ
  pub next : Ptr → Ptr
  pub interrupted : Ptr → Bool
  pub current_blocking_operation : Ptr → ℕ
  pub pc : Ptr → Pc

-- `size_t` increment
abbrev pub increment : ℕ → ℕ
increment n = (n + 1) % 2 ^ 64

-- `enqueue_work`
unfoldable pub enqueue_work : Ptr → Pool → Pool
enqueue_work work p =
    if p.work_queue_tail == null
    then record p { work_queue = work; work_queue_tail = work }
    else record p { next = update p.next p.work_queue_tail work; work_queue_tail = work }

-- `dequeue_work`
pub dequeue_work : Pool → Ptr × Pool
dequeue_work p =
    let work = p.work_queue in
    if work == null then (null, p) else (
      work,
      record p {
        work_queue = p.next work;
        work_queue_tail = if p.next work == null then null else p.work_queue_tail;
        next = update p.next work null;
      },
    )

-- A worker that holds the mutex in `worker_wait_and_execute`: it ends, waits on, or takes work.
pub look : (worker : Ptr) → Pool → Pool
look worker p =
    if p.shutdown || p.interrupted worker
    then record p { pc = update p.pc worker ended }
    else (if p.work_queue == null
        then p
        else (let (work, t) = dequeue_work p in record t { pc = update t.pc worker (taken work) }))

-- Just before the worker executes the operation, without the mutex.
pub begin : (worker work : Ptr) → Pool → Pool
begin worker work p = record p {
  pc = update p.pc worker (executing work);
  current_blocking_operation =
      update p.current_blocking_operation worker (p.blocking_operation work);
}

-- The end of `worker_wait_and_execute`: the operation has been executed.
pub leave : (worker work : Ptr) → Pool → Pool
leave worker work p = record p {
  pc = update p.pc worker (executed work);
  current_blocking_operation = update p.current_blocking_operation worker 0;
}

-- The rest of the round in `worker_thread_func`.
pub complete : (worker work : Ptr) → Pool → Pool
complete worker work p = record p {
  completed = update p.completed work true;
  completed_count = increment p.completed_count;
  pc = update p.pc worker looking;
}

-- `worker_unblock_func` under the mutex.
pub unblock : (worker : Ptr) → Pool → Pool
unblock worker p = record p { interrupted = update p.interrupted worker true }

-- `create_worker_thread`: `worker` is what `malloc` returns, `thread` whether Ruby makes a thread.
pub create_worker_thread : (worker : Ptr) (thread : Bool) → Pool → Bool × Pool
create_worker_thread worker thread p =
    if ltb p.current_worker_count p.maximum_worker_count && not (worker == null) && thread
    then (
      true,
      record p {
        workers = worker ∷ p.workers;
        current_worker_count = increment p.current_worker_count;
        interrupted = update p.interrupted worker false;
        current_blocking_operation = update p.current_blocking_operation worker 0;
        pc = update p.pc worker looking;
      },
    )
    else (false, p)

-- The loop of `worker_pool_initialize`: `answers i` is what `malloc` and Ruby answer in round `i`.
pub create_workers : (ℕ → Ptr × Bool) → (rounds i : ℕ) → Pool → Pool
unfolding create_worker_thread
create_workers answers zero i p = p
create_workers answers (suc n) i p =
    let (created, t) = create_worker_thread (answers i).0 (answers i).1 p in
    let rest = create_workers answers n (i + 1) t in if created then rest else t

-- `worker_pool_initialize`, from the memory that `worker_pool_allocate` made; `none` is an
-- `ArgumentError`.
pub initialize : (ℕ → Ptr × Bool) → (maximum : Option ℕ) → Pool → Option Pool
unfolding create_workers
initialize answers requested p =
    let maximum : ℕ = elim requested [ none ↦ 1 | some n ↦ n ] in
    if maximum == 0
    then none
    else some (
        create_workers answers maximum 0 (record p {
          work_queue = null;
          work_queue_tail = null;
          workers = [];
          current_worker_count = 0;
          maximum_worker_count = maximum;
          call_count = 0;
          completed_count = 0;
          cancelled_count = 0;
          shutdown = false;
        }))

-- What `worker_pool_call` raises before it waits.
pub data Refusal : Type 0 where
  shut_down no_scheduler invalid_operation : Refusal

-- The work item that `worker_pool_call` makes on the stack.
abbrev pub new_work : (work : Ptr) (fiber scheduler operation : ℕ) → Pool → Pool
new_work work fiber scheduler operation p = record p {
  blocking_operation = update p.blocking_operation work operation;
  completed = update p.completed work false;
  scheduler = update p.scheduler work scheduler;
  fiber = update p.fiber work fiber;
  next = update p.next work null;
}

-- `worker_pool_call` up to the wait: a refusal, or the work item `work` is queued. The numbers are
-- Ruby's answers, 0 for `nil` and for a missing handle.
unfoldable pub submit : (work : Ptr) (fiber scheduler operation : ℕ) → Pool → Option Refusal × Pool
submit work fiber scheduler operation p =
    if p.shutdown
    then (some shut_down, p)
    else (let t = record p { call_count = increment p.call_count } in
        if scheduler == 0
        then (some no_scheduler, t)
        else (if operation == 0
            then (some invalid_operation, t)
            else (none, enqueue_work work (new_work work fiber scheduler operation t))))

-- `worker_pool_free`, and `worker_pool_close` up to the joins.
unfoldable pub shut : Pool → Pool
shut p = record p { shutdown = true }

-- The rest of `worker_pool_close`, once all workers have been joined.
pub discard : Pool → Pool
discard p = record p { workers = []; current_worker_count = 0 }
