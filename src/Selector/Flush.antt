-- ===== src/Selector/Flush.antt =====
-- `IO_Event_Selector_ready_flush`: the loop over the ready queue.
pub mod Once
pub mod Starve
use io_event.Base.{
  ==-refl, eq_nil_of_length, get_elem?-ge_length, dec_lt, ℕ_discrete, get_elem?-set,
  get_elem?-append_lt, get_elem?-append_ge, get_elem?-replicate, get_elem?-lt_length, append_assoc,
  ne_of_mem, and_then, subst, ne→==, append-nil, Cmd, ◌>>=◌, ◌>>◌, pure, assert, IsDistinct-insert,
  has-append_comm, IsDistinct-append_comm, IsDistinct-remove, ℕ, zero, suc, ◌+◌, ◌-◌, ◌*◌, ◌/◌, ◌%◌,
  ◌^◌, ◌≤◌, ◌<◌, ◌≡◌, refl, sym, ap, ◌∙◌, ◌≢◌, ◌↔◌, ◌⊎◌, inl, inr, Bool, true, false, not, ◌&&◌,
  ◌||◌, Option, none, some, List, [], ◌∷◌, ◌++◌, arith, Ptr, null, update, ltb, leb, ◌==◌,
  if◌then◌else◌, ==_iff, Bool-cases, Option-cases, length, get_elem?, get_or, set, take, drop,
  replicate, length-append, length-set, length-replicate, has, ◌∈◌, ◌∉◌, IsDistinct, has-append,
}
use io_event.Fiber.{Outcome, returned, raised, Ruby}
use io_event.Selector.{Selector, Reply, outcome, ready_pop}

-- How a flush ends: with the number of fibers resumed, by an exception that a fiber lets through to
-- the loop, or (in the model alone) by the end of its fuel.
pub data Flushed : Type 0 where
  counted : ℕ → Flushed
  interrupted : Reply → Flushed
  out_of_fuel : Flushed

module _ {R : Type 0} (ruby : Ruby (Selector R)) where
  -- What follows a call of `IO_Event_Selector_ready_pop` that comes back.
  abbrev pub after_pop :
      Option (Reply × Selector R)
      → (Selector R → Option (Flushed × Selector R))
      → Option (Flushed × Selector R)
  after_pop none k = none
  after_pop (some (outcome (returned v), s)) k = k s
  after_pop (some (r, s)) k = some (interrupted r, s)

  pub flush_loop : ℕ → (waiting : Ptr) (count : ℕ) → Cmd (Selector R) Flushed
  flush_loop zero waiting count s = some (out_of_fuel, s)
  flush_loop (suc fuel) waiting count s =
      let round = after_pop (ready_pop ruby s.ready s) λ t.
        let again = flush_loop fuel waiting (count + 1) t in
        if s.ready == waiting then some (counted (count + 1), t) else again in
      if s.ready == null then some (counted count, s) else round

  -- `IO_Event_Selector_ready_flush`: `waiting` is the newest node at the start.
  pub ready_flush : ℕ → Cmd (Selector R) Flushed
  ready_flush fuel s = flush_loop fuel s.waiting 0 s
