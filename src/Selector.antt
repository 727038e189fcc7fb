-- ===== src/Selector.antt =====
-- ext/io/event/selector/selector.c and selector.h: the part that all selectors share. The ready
-- queue is a doubly linked list: `waiting` is its newest node, `ready` its oldest, `head` leads to
-- the newer and `tail` to the older neighbour.
pub mod Queue
pub mod Resume
pub mod Flush
pub mod Visit
pub mod Outside
use Prim.Native.Nat.{bit_and}
use io_event.Base.{
  eq_nil_of_length, get_elem?-ge_length, dec_lt, ℕ_discrete, get_elem?-set, get_elem?-append_lt,
  get_elem?-append_ge, get_elem?-replicate, get_elem?-lt_length, append_assoc, ne_of_mem, and_then,
  subst, ne→==, append-nil, Cmd, ◌>>=◌, ◌>>◌, pure, assert, IsDistinct-insert, has-append_comm,
  IsDistinct-append_comm, IsDistinct-remove, ℕ, zero, suc, ◌+◌, ◌-◌, ◌*◌, ◌/◌, ◌%◌, ◌^◌, ◌≤◌, ◌<◌,
  ◌≡◌, refl, sym, ap, ◌∙◌, ◌≢◌, ◌↔◌, ◌⊎◌, inl, inr, Bool, true, false, not, ◌&&◌, ◌||◌, Option,
  none, some, List, [], ◌∷◌, ◌++◌, arith, Ptr, null, update, ltb, leb, ◌==◌, if◌then◌else◌, ==_iff,
  Bool-cases, Option-cases, length, get_elem?, get_or, set, take, drop, replicate, length-append,
  length-set, length-replicate, has, ◌∈◌, ◌∉◌, IsDistinct, has-append,
}
use io_event.Fiber
use io_event.Fiber.{Outcome, returned, raised, Ruby}

-- `struct IO_Event_Selector`, the fields of all `struct IO_Event_Selector_Queue` (one map for each),
-- and `outside`, all that the queue does not touch.
pub record Selector (R : Type 0) : Type 0 where
  pub self : ℕ
  pub loop : ℕ
  pub blocked : ℕ
  pub waiting : Ptr
  pub ready : Ptr
  pub head : Ptr → Ptr
  pub tail : Ptr → Ptr
  pub flags : Ptr → ℕ
  pub fiber : Ptr → ℕ
  pub outside : R

-- `enum IO_Event_Selector_Queue_Flags`
abbrev pub queue_fiber : ℕ
queue_fiber = 1

abbrev pub queue_internal : ℕ
queue_internal = 2

module _ {R : Type 0} where
  -- `IO_Event_Selector_initialize`
  unfoldable pub initialize : (self loop : ℕ) → Selector R → Selector R
  initialize self loop s = record s {
    self = self;
    loop = loop;
    waiting = null;
    ready = null;
    blocked = 0;
  }

  -- `queue_push`
  unfoldable pub queue_push : Ptr → Cmd (Selector R) (Unit {0})
  queue_push node s =
      if (s.head node == null) && (s.tail node == null)
      then (if s.waiting == null
          then some (tt, record s { ready = node; waiting = node })
          else some (
            tt,
            record s {
              head = update s.head s.waiting node;
              tail = update s.tail node s.waiting;
              waiting = node;
            },
          ))
      else none

  -- The first test of `queue_pop`, on the newer neighbour.
  abbrev pub unlink_head : Ptr → Selector R → Selector R
  unlink_head node s =
      if s.head node == null
      then record s { waiting = s.tail node }
      else record s { tail = update s.tail (s.head node) (s.tail node) }

  -- The second, on the older one.
  abbrev pub unlink_tail : Ptr → Selector R → Selector R
  unlink_tail node s =
      if s.tail node == null
      then record s { ready = s.head node }
      else record s { head = update s.head (s.tail node) (s.head node) }

  -- `queue_pop`
  pub queue_pop : Ptr → Selector R → Selector R
  queue_pop node s =
      let t = unlink_tail node (unlink_head node s) in
      record t { head = update t.head node null; tail = update t.tail node null }

  -- The fields of a new queue node.
  abbrev pub new_node : Ptr → (flags fiber : ℕ) → Selector R → Selector R
  new_node node flags fiber s = record s {
    head = update s.head node null;
    tail = update s.tail node null;
    flags = update s.flags node flags;
    fiber = update s.fiber node fiber;
  }

  -- `IO_Event_Selector_ready_push`; `node` is what `xmalloc` returns.
  pub ready_push : (node : Ptr) (fiber : ℕ) → Cmd (Selector R) (Unit {0})
  unfolding queue_push
  ready_push node fiber s = queue_push node (new_node node queue_internal fiber s)

-- How a call of the selector comes back: as Ruby does, or with an error of its own.
pub data Reply : Type 0 where
  outcome : Outcome → Reply
  arity_error : Reply
  unknown_queue_type : Reply

module _ {R : Type 0} (ruby : Ruby (Selector R)) where
  -- `IO_Event_Selector_loop_resume`
  unfoldable pub loop_resume : ℕ → List ℕ → Cmd (Selector R) Outcome
  loop_resume fiber argv = Fiber.transfer ruby fiber argv

  -- `IO_Event_Selector_loop_yield`
  pub loop_yield : Cmd (Selector R) Outcome
  loop_yield s =
      if s.loop == ruby.current s
      then some (returned Fiber.nil, s)
      else Fiber.transfer ruby s.loop [] s

  -- `rb_ensure` with `wait_and_transfer_ensure`: the node leaves the queue whatever the body does.
  abbrev pub ensure_pop : Ptr → Option (Outcome × Selector R) → Option (Reply × Selector R)
  ensure_pop node none = none
  ensure_pop node (some (o, s)) = some (outcome o, queue_pop node s)

  -- `IO_Event_Selector_resume` with `wait_and_transfer`; `node` is the queue node on the stack.
  pub resume : (node : Ptr) → List ℕ → Cmd (Selector R) Reply
  unfolding queue_push queue_pop
  resume node [] s = some (arity_error, s)
  resume node (fiber ∷ argv) s =
      and_then (queue_push node (new_node node queue_fiber (ruby.current s) s))
        λ _ t. ensure_pop node (loop_resume fiber argv t)

  -- `IO_Event_Selector_raise` with `wait_and_raise`
  pub raise : (node : Ptr) → List ℕ → Cmd (Selector R) Reply
  unfolding queue_push queue_pop
  raise node [] s = some (arity_error, s)
  raise node (fiber ∷ []) s = some (arity_error, s)
  raise node (fiber ∷ exception ∷ argv) s =
      and_then (queue_push node (new_node node queue_fiber (ruby.current s) s))
        λ _ t. ensure_pop node (ruby.fiber_raise fiber (exception ∷ argv) t)

  -- `IO_Event_Selector_yield`
  pub yield : (node : Ptr) → Cmd (Selector R) Reply
  unfolding resume
  yield node s = resume node (s.loop ∷ []) s

  -- The end of `IO_Event_Selector_ready_pop`.
  abbrev pub enter : ℕ → Cmd (Selector R) Reply
  enter fiber s = elim (loop_resume fiber [] s) [ none ↦ none | some (o, t) ↦ some (outcome o, t) ]

  -- `IO_Event_Selector_ready_pop`
  pub ready_pop : Ptr → Cmd (Selector R) Reply
  ready_pop ready s =
      if bit_and (s.flags ready) queue_internal == 0
      then (if bit_and (s.flags ready) queue_fiber == 0
          then some (unknown_queue_type, s)
          else enter (s.fiber ready) s)
      else enter (s.fiber ready) (queue_pop ready s)
