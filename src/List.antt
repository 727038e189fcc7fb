-- ===== src/List.antt =====
-- ext/io/event/list.h: an intrusive, circular, doubly linked list. A list is a sentinel node that
-- points to itself when it is empty; the items are visited along `tail`.
pub mod Shape
pub mod Update
pub mod Visit
use io_event.Base.{
  Cmd, ◌>>=◌, ◌>>◌, pure, assert, IsDistinct-insert, has-append_comm, IsDistinct-append_comm,
  IsDistinct-remove, ℕ, zero, suc, ◌+◌, ◌-◌, ◌*◌, ◌/◌, ◌%◌, ◌^◌, ◌≤◌, ◌<◌, ◌≡◌, refl, sym, ap, ◌∙◌,
  ◌≢◌, ◌↔◌, ◌⊎◌, inl, inr, Bool, true, false, not, ◌&&◌, ◌||◌, Option, none, some, List, [], ◌∷◌,
  ◌++◌, arith, Ptr, null, update, ltb, leb, ◌==◌, if◌then◌else◌, ==_iff, Bool-cases, Option-cases,
  length, get_elem?, get_or, set, take, drop, replicate, length-append, length-set,
  length-replicate, has, ◌∈◌, ◌∉◌, IsDistinct, has-append,
}

-- The memory of all nodes, one map for each field of `struct IO_Event_List`.
pub record Heap : Type 0 where
  pub head : Ptr → Ptr
  pub tail : Ptr → Ptr
  pub type : Ptr → Ptr

-- Reads and writes of one field, a fault through `NULL`.
module _ (p : Ptr) where
  abbrev pub get_head : Cmd Heap Ptr
  get_head h = if p == null then none else some (h.head p, h)

  abbrev pub get_tail : Cmd Heap Ptr
  get_tail h = if p == null then none else some (h.tail p, h)

  abbrev pub set_head : Ptr → Cmd Heap (Unit {0})
  set_head q h = if p == null then none else some (tt, record h { head = update h.head p q })

  abbrev pub set_tail : Ptr → Cmd Heap (Unit {0})
  set_tail q h = if p == null then none else some (tt, record h { tail = update h.tail p q })

  abbrev pub set_type : Ptr → Cmd Heap (Unit {0})
  set_type q h = if p == null then none else some (tt, record h { type = update h.type p q })

-- `IO_Event_List_initialize`
pub initialize : Ptr → Cmd Heap (Unit {0})
initialize list = do set_tail list list; set_head list list; set_type list null

-- `IO_Event_List_clear`
pub clear : Ptr → Cmd Heap (Unit {0})
clear list = do set_tail list null; set_head list null; set_type list null

-- The assertions that a node stands in no list.
abbrev pub assert_detached : Ptr → Cmd Heap (Unit {0})
assert_detached node = do
  h ← get_head node
  assert (h == null)
  t ← get_tail node
  assert (t == null)

-- `IO_Event_List_append`
unfoldable pub append : Ptr → Ptr → Cmd Heap (Unit {0})
append list node = do
  assert_detached node
  head ← get_head list
  set_tail node list
  set_head node head
  set_head list node
  set_tail head node

-- `IO_Event_List_prepend`
pub prepend : Ptr → Ptr → Cmd Heap (Unit {0})
prepend list node = do
  assert_detached node
  tail ← get_tail list
  set_head node list
  set_tail node tail
  set_tail list node
  set_head tail node

-- `IO_Event_List_pop`
unfoldable pub pop : Ptr → Cmd Heap (Unit {0})
pop node = do
  head ← get_head node
  assert (not (head == null))
  tail ← get_tail node
  assert (not (tail == null))
  set_tail head tail
  set_head tail head
  set_tail node null
  set_head node null

-- `IO_Event_List_free`
pub free : Ptr → Cmd Heap (Unit {0})
unfolding pop
free node = do
  head ← get_head node
  tail ← get_tail node
  if not (head == null) && not (tail == null) then pop node else pure tt

-- `sizeof(struct IO_Event_List)`: three pointers of eight bytes.
abbrev pub node_size : ℕ
node_size = 24

-- The loop of `IO_Event_List_memory_size`, on fuel. `size_t` addition wraps.
pub size_loop : ℕ → Ptr → Ptr → ℕ → Heap → Option ℕ
size_loop zero list node memsize h = none
size_loop (suc fuel) list node memsize h =
    let rest = size_loop fuel list (h.tail node) ((memsize + node_size) % 2 ^ 64) h in
    if node == list then some memsize else (if node == null then none else rest)

-- `IO_Event_List_memory_size`
pub memory_size : ℕ → Ptr → Heap → Option ℕ
unfolding size_loop
memory_size fuel list h = size_loop fuel list (h.tail list) 0 h

-- `IO_Event_List_empty`
pub empty : Ptr → Heap → Bool
empty list h = h.head list == h.tail list

-- The loop of `IO_Event_List_immutable_each`, on fuel: the callback changes a state `S` and not the
-- links.
module _ {S : Type 0} (callback : Ptr → S → S) where
  pub each_loop : ℕ → Ptr → Ptr → Heap → S → Option S
  each_loop zero list node h s = none
  each_loop (suc fuel) list node h s =
      let rest =
        each_loop fuel list (h.tail node) h (if h.type node == null then s else callback node s) in
      if node == list then some s else (if node == null then none else rest)

  -- `IO_Event_List_immutable_each`
  pub immutable_each : ℕ → Ptr → Heap → S → Option S
  unfolding each_loop
  immutable_each fuel list h s = each_loop fuel list (h.tail list) h s
