-- ===== src/Selector/Flush/Once.antt =====
-- A flush resumes the fibers that were waiting at its start, once each, oldest first.
use Prim.Native.Nat.{bit_and}
use io_event.Base.{
  ==-refl, ne_of_mem, subst, append-nil, ℕ, zero, suc, ◌+◌, ◌≤◌, ◌<◌, ◌≡◌, sym, ap, ◌∙◌, true,
  false, some, List, [], ◌∷◌, ◌++◌, arith, Ptr, null, ◌==◌, if◌then◌else◌, length, ◌∈◌, has-append,
}
use io_event.Fiber.{returned, Ruby}
use io_event.Links.{Links}
use io_event.Selector.{
  Selector, queue_internal, queue_fiber, queue_pop, loop_resume, ready_pop, enter, outcome,
}
use io_event.Selector.Queue.{IsQueue, newer, older}
use io_event.Selector.Flush.{counted, flush_loop, ready_flush}

module _ {R : Type 0} (ruby : Ruby (Selector R)) where
  -- A course of events in which the nodes `todo` get their turn in order: each fiber that is resumed
  -- comes back, its node has left the queue, and the other nodes of `todo` still wait; what stands
  -- behind them may change at each turn.
  pub data Turns : Selector R → List Ptr → List Ptr → Selector R → List Ptr → Type 0 where
    done : {s : Selector R} {extra : List Ptr} → IsQueue s extra → Turns s [] extra s extra
    internal :
        {s t u : Selector R} {r : Ptr} {rest extra more final : List Ptr} {v : ℕ}
        → IsQueue s (r ∷ (rest ++ extra))
        → (bit_and (s.flags r) queue_internal == 0) ≡ false
        → loop_resume ruby (s.fiber r) [] (queue_pop r s) ≡ some (returned v, t)
        → Turns t rest more u final
        → Turns s (r ∷ rest) extra u final
    own :
        {s t u : Selector R} {r : Ptr} {rest extra more final : List Ptr} {v : ℕ}
        → IsQueue s (r ∷ (rest ++ extra))
        → (bit_and (s.flags r) queue_internal == 0) ≡ true
        → (bit_and (s.flags r) queue_fiber == 0) ≡ false
        → loop_resume ruby (s.fiber r) [] s ≡ some (returned v, t)
        → Turns t rest more u final
        → Turns s (r ∷ rest) extra u final

  abbrev last_of : Ptr → List Ptr → Ptr
  last_of r [] = r
  last_of r (x ∷ xs) = last_of x xs

  last_of-mem : (r x : Ptr) (xs : List Ptr) → last_of r (x ∷ xs) ∈ x ∷ xs
  last_of-mem r x [] = ground arith
  last_of-mem r x (y ∷ xs) = ground (arith, last_of-mem x y xs)

  prev-last_of :
      (next prev : Ptr → Ptr) (a : Ptr) (xs : List Ptr) (b : Ptr)
      → Links next prev a xs b
      → prev b ≡ last_of a xs
  prev-last_of next prev a [] b l = l.1
  prev-last_of next prev a (x ∷ xs) b l = prev-last_of next prev x xs b l.2

  ready-first :
      {s : Selector R} {r : Ptr} {q : List Ptr}
      → IsQueue s (r ∷ q)
      → (s.ready ≡ r) × ((r == null) ≡ false)
  ready-first is = (is.links.0, ground (arith, is.distinct))

  Turns-IsQueue :
      {s u : Selector R} {todo extra final : List Ptr}
      → Turns s todo extra u final
      → IsQueue u final
  Turns-IsQueue (done is) = is
  Turns-IsQueue (internal is f run turns) = Turns-IsQueue turns
  Turns-IsQueue (own is f g run turns) = Turns-IsQueue turns

  -- A node of the selector's own leaves the queue before its fiber is resumed.
  pub pop_internal :
      (s : Selector R) {t : Selector R} {v : ℕ} (r : Ptr)
      → (bit_and (s.flags r) queue_internal == 0) ≡ false
      → loop_resume ruby (s.fiber r) [] (queue_pop r s) ≡ some (returned v, t)
      → ready_pop ruby r s ≡ some (outcome (returned v), t)
  unfolding ready_pop
  pop_internal s r f run = rw (f, run, enter)

  pop_own :
      (s : Selector R) {t : Selector R} {v : ℕ} (r : Ptr)
      → (bit_and (s.flags r) queue_internal == 0) ≡ true
      → (bit_and (s.flags r) queue_fiber == 0) ≡ false
      → loop_resume ruby (s.fiber r) [] s ≡ some (returned v, t)
      → ready_pop ruby r s ≡ some (outcome (returned v), t)
  unfolding ready_pop
  pop_own s r f g run = rw (f, g, run, enter)

  -- One round of the loop, for a fiber that comes back.
  pub round :
      (fuel : ℕ) (waiting : Ptr) (count : ℕ) {s t : Selector R} {r : Ptr} {q : List Ptr} {v : ℕ}
      → IsQueue s (r ∷ q)
      → ready_pop ruby r s ≡ some (outcome (returned v), t)
      → flush_loop ruby (suc fuel) waiting count s ≡ (
          if r == waiting
          then some (counted (count + 1), t)
          else flush_loop ruby fuel waiting (count + 1) t)
  unfolding flush_loop
  round fuel waiting count {s} {t} {r} {v} is run =
      let (first, nn) = ready-first is in
      let at : (s.ready == null) ≡ false = ap (λ p. p == null) first ∙ nn in
      let run' : ready_pop ruby s.ready s ≡ some (outcome (returned v), t) =
        subst (λ p. ready_pop ruby p s ≡ some (outcome (returned v), t)) (sym first) run in
      rw (at, run')
        (ap
          (λ p.
            if p == waiting
            then some (counted (count + 1), t)
            else flush_loop ruby fuel waiting (count + 1) t)
          first)

  -- The loop after a round, given the loop on what is left.
  turn :
      (fuel count : ℕ) {s t u : Selector R} (r : Ptr) (rest more q : List Ptr) {final : List Ptr}
      {v : ℕ}
      → IsQueue s (r ∷ (rest ++ q))
      → ready_pop ruby r s ≡ some (outcome (returned v), t)
      → Turns t rest more u final
      → length (r ∷ rest) ≤ suc fuel
      → ((x : Ptr) (xs : List Ptr)
          → Turns t (x ∷ xs) more u final
          → length (x ∷ xs) ≤ fuel
          → flush_loop ruby fuel (last_of x xs) (count + 1) t
            ≡ some (counted (count + 1 + length (x ∷ xs)), u))
      → flush_loop ruby (suc fuel) (last_of r rest) count s
        ≡ some (counted (count + length (r ∷ rest)), u)
  turn fuel count {u} r [] more q is run (done after) enough again =
      round fuel r count is run ∙ rw (==-refl r) (ap (λ (n : ℕ). some (counted n, u)) (omega arith))
  turn fuel count {u} r (x ∷ rest) more q is run turns enough again =
      let other : (r == last_of x rest) ≡ false =
        ne_of_mem r (last_of r (x ∷ rest)) (x ∷ rest)
          (ground (arith, is.distinct, has-append r (x ∷ rest) q)) (last_of-mem r x rest) in
      round fuel (last_of x rest) count is run
      ∙ rw other
          (again x rest turns (omega arith) ∙ ap (λ (n : ℕ). some (counted n, u)) (omega arith))

  flush_loop_lem :
      (fuel count : ℕ) {s u : Selector R} (r : Ptr) (rest extra : List Ptr) {final : List Ptr}
      → Turns s (r ∷ rest) extra u final
      → length (r ∷ rest) ≤ fuel
      → flush_loop ruby fuel (last_of r rest) count s
        ≡ some (counted (count + length (r ∷ rest)), u)
  flush_loop_lem zero count r rest extra turns enough = absurd (omega arith)
  flush_loop_lem (suc fuel) count r rest extra (internal {s} {more} is f run turns) enough =
      turn fuel count r rest more extra is (pop_internal s r f run) turns enough
        (λ x xs tr le. flush_loop_lem fuel (count + 1) x xs more tr le)
  flush_loop_lem (suc fuel) count r rest extra (own {s} {more} is f g run turns) enough =
      turn fuel count r rest more extra is (pop_own s r f g run) turns enough
        (λ x xs tr le. flush_loop_lem fuel (count + 1) x xs more tr le)

  todo-IsQueue :
      {s u : Selector R} {todo extra final : List Ptr}
      → Turns s todo extra u final
      → IsQueue s (todo ++ extra)
  todo-IsQueue (done is) = is
  todo-IsQueue (internal is f run turns) = is
  todo-IsQueue (own is f g run turns) = is

  flush_empty :
      (fuel : ℕ) (waiting : Ptr) {s : Selector R}
      → IsQueue s []
      → 0 < fuel
      → flush_loop ruby fuel waiting 0 s ≡ some (counted 0, s)
  unfolding flush_loop
  flush_empty zero waiting is pos = absurd (omega arith)
  flush_empty (suc fuel) waiting {s} is pos =
      let at : (s.ready == null) ≡ true = ap (λ p. p == null) is.links.0 in rw at

  -- If every fiber that waits at the start comes back, out of the queue and with the others still
  -- in it, a flush with one round for each of them resumes exactly those, oldest first, returns
  -- their number, and leaves what was queued in the meantime for later.
  pub flush_once :
      (fuel : ℕ) {s u : Selector R} (q : List Ptr) {final : List Ptr}
      → Turns s q [] u final
      → length q < fuel
      → (ready_flush ruby fuel s ≡ some (counted (length q), u)) × IsQueue u final
  unfolding ready_flush
  flush_once fuel [] (done is) enough = (flush_empty fuel _ is enough, is)
  flush_once fuel {s} {u} (r ∷ rest) turns enough =
      let is = rw append-nil at (todo-IsQueue turns) in
      let newest : s.waiting ≡ last_of r rest =
        prev-last_of (newer s) (older s) null (r ∷ rest) null is.links in
      (
        ap (λ w. flush_loop ruby fuel w 0 s) newest
            ∙ flush_loop_lem fuel 0 r rest [] turns (omega arith)
            ∙ ap (λ (n : ℕ). some (counted n, u)) (omega arith),
        Turns-IsQueue turns,
      )
