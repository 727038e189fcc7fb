-- ===== src/WorkerPool/Steps.antt =====
-- The pool as a transition system: callers, workers and the owner take turns, one critical section
-- at a time.
pub mod Submit
pub mod Invariant
use io_event.Base.{
  ltb→lt, not_ltb→le, ==-refl, eq_nil_of_length, get_elem?-ge_length, dec_lt, ℕ_discrete,
  get_elem?-set, get_elem?-append_lt, get_elem?-append_ge, get_elem?-replicate, get_elem?-lt_length,
  append_assoc, ne_of_mem, and_then, subst, ne→==, append-nil, Cmd, ◌>>=◌, ◌>>◌, pure, assert,
  IsDistinct-insert, has-append_comm, IsDistinct-append_comm, IsDistinct-remove, ℕ, zero, suc, ◌+◌,
  ◌-◌, ◌*◌, ◌/◌, ◌%◌, ◌^◌, ◌≤◌, ◌<◌, ◌≡◌, refl, sym, ap, ◌∙◌, ◌≢◌, ◌↔◌, ◌⊎◌, inl, inr, Bool, true,
  false, not, ◌&&◌, ◌||◌, Option, none, some, List, [], ◌∷◌, ◌++◌, arith, Ptr, null, update, ltb,
  leb, ◌==◌, if◌then◌else◌, ==_iff, Bool-cases, Option-cases, length, get_elem?, get_or, set, take,
  drop, replicate, length-append, length-set, length-replicate, has, ◌∈◌, ◌∉◌, IsDistinct,
  has-append,
}
use io_event.WorkerPool.{
  Pc, looking, taken, executing, executed, ended, Pool, look, begin, leave, complete, unblock,
  submit, shut, discard,
}
use io_event.WorkerPool.Queue.{IsQueue}

-- The work item that a worker has.
abbrev pub held : Pc → Ptr
held looking = null
held (taken x) = x
held (executing x) = x
held (executed x) = x
held ended = null

-- The item on the stack of a caller is no item of the pool before it is submitted.
pub record IsFresh (work : Ptr) (q : List Ptr) (p : Pool) : Type 0 where
  pub nonnull : (work == null) ≡ false
  pub unqueued : work ∉ q
  pub unheld : (w : Ptr) → (held (p.pc w) == work) ≡ false

-- One step, with the items in the queue before and after it.
pub data Step : List Ptr → Pool → List Ptr → Pool → Type 0 where
  refused :
      {q : List Ptr} {p : Pool} (work fiber scheduler operation : ℕ)
      → ((submit work fiber scheduler operation p).0 ≡ none → ⊥)
      → Step q p q (submit work fiber scheduler operation p).1
  submitted :
      {q : List Ptr} {p : Pool} (work fiber scheduler operation : ℕ)
      → IsFresh work q p
      → (submit work fiber scheduler operation p).0 ≡ none
      → Step q p (q ++ work ∷ []) (submit work fiber scheduler operation p).1
  looked_in_vain :
      {q : List Ptr} {p : Pool} (w : Ptr)
      → p.pc w ≡ looking
      → ((p.shutdown || p.interrupted w) ≡ true) ⊎ (q ≡ [])
      → Step q p q (look w p)
  took :
      {q : List Ptr} {p : Pool} (w x : Ptr)
      → p.pc w ≡ looking
      → (p.shutdown || p.interrupted w) ≡ false
      → Step (x ∷ q) p q (look w p)
  began : {q : List Ptr} {p : Pool} (w x : Ptr) → p.pc w ≡ taken x → Step q p q (begin w x p)
  left : {q : List Ptr} {p : Pool} (w x : Ptr) → p.pc w ≡ executing x → Step q p q (leave w x p)
  completed :
      {q : List Ptr} {p : Pool} (w x : Ptr) → p.pc w ≡ executed x → Step q p q (complete w x p)
  unblocked : {q : List Ptr} {p : Pool} (w : Ptr) → Step q p q (unblock w p)
  shut_down : {q : List Ptr} {p : Pool} → Step q p q (shut p)
  discarded :
      {q : List Ptr} {p : Pool}
      → p.shutdown ≡ true
      → ((w : Ptr) → w ∈ p.workers → p.pc w ≡ ended)
      → Step q p q (discard p)

pub data Reach (q : List Ptr) (p : Pool) : List Ptr → Pool → Type 0 where
  here : Reach q p q p
  next :
      {q' q'' : List Ptr} {p' p'' : Pool} → Reach q p q' p' → Step q' p' q'' p'' → Reach q p q'' p''

-- Every item of the pool is in one place: in the queue or with one worker; and it is not completed.
pub record Inv (q : List Ptr) (p : Pool) : Type 0 where
  pub queue : IsQueue p q
  pub waiting : (x : Ptr) → x ∈ q → p.completed x ≡ false
  pub pending : (w : Ptr) → (held (p.pc w) == null) ≡ false → p.completed (held (p.pc w)) ≡ false
  pub unqueued : (w : Ptr) → held (p.pc w) ∉ q
  pub one_worker :
      (v w : Ptr) → (held (p.pc v) == null) ≡ false → held (p.pc v) ≡ held (p.pc w) → v ≡ w
  pub uncancelled : p.cancelled_count ≡ 0
