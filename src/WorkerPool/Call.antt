-- ===== src/WorkerPool/Call.antt =====
-- The wait of `worker_pool_call` for its work.
use mathlib.Core.Option
use io_event.Base.{
  ℕ, ◌+◌, ◌≡◌, refl, Bool, true, false, Option, none, some, List, [], ◌∷◌, ◌++◌, arith, ◌==◌,
  if◌then◌else◌, length,
}

-- One return of `worker_pool_work_begin`: `work.completed` then, and the state that `rb_protect` set.
pub record Wake : Type 0 where
  pub completed : Bool
  pub current_state : ℕ

-- What the call ends with: `Qtrue` or the jump to a state.
pub data Ending : Type 0 where
  returned : Ending
  jumped : ℕ → Ending

-- The loop of `worker_pool_call` on the wake-ups that are to come: the last `state`, and how often
-- the operation was cancelled; `none` while the fiber is blocked after the last of them.
pub wait_loop : List Wake → (state cancels : ℕ) → Option (ℕ × ℕ)
wait_loop [] state cancels = none
wait_loop (w ∷ ws) state cancels =
    let state' = if state == 0 then w.current_state else state in
    let rest = wait_loop ws state' (cancels + 1) in
    if w.completed then some (state', cancels) else rest

-- The wait of `worker_pool_call` and its end.
pub wait : List Wake → Option (Ending × ℕ)
wait wakes =
    Option.map (λ (state, cancels). (if state == 0 then returned else jumped state, cancels))
      (wait_loop wakes 0 0)

-- The first state that is not 0, and its ending.
abbrev pub first_state : List Wake → Ending
first_state [] = returned
first_state (w ∷ ws) = if w.current_state == 0 then first_state ws else jumped w.current_state

abbrev pub AllEarly : List Wake → Type 0
AllEarly [] = Unit
AllEarly (w ∷ ws) = (w.completed ≡ false) × AllEarly ws

abbrev state_of : Ending → ℕ
state_of returned = 0
state_of (jumped n) = n

wait_loop_lem :
    (early : List Wake) (last : Wake) (rest : List Wake) (state cancels : ℕ)
    → AllEarly early
    → last.completed ≡ true
    → wait_loop (early ++ last ∷ rest) state cancels
      ≡ some (
        if state == 0 then state_of (first_state (early ++ last ∷ [])) else state,
        cancels + length early,
      )
unfolding wait_loop
wait_loop_lem [] last rest state cancels all c = ground arith
wait_loop_lem (w ∷ ws) last rest state cancels all c =
    let ih =
      wait_loop_lem ws last rest (if state == 0 then w.current_state else state) (cancels + 1) all.1
        c in
    ground (arith, ih, all.0)

ending_first :
    (ws : List Wake)
    → (if state_of (first_state ws) == 0 then returned else jumped (state_of (first_state ws)))
      ≡ first_state ws
ending_first [] = refl
ending_first (w ∷ ws) = ground (arith, ending_first ws)

wait_loop_blocked :
    (early : List Wake) (state cancels : ℕ) → AllEarly early → wait_loop early state cancels ≡ none
unfolding wait_loop
wait_loop_blocked [] state cancels all = refl
wait_loop_blocked (w ∷ ws) state cancels all = ground (
  arith,
  all.0,
  wait_loop_blocked ws (if state == 0 then w.current_state else state) (cancels + 1) all.1,
)

-- A call returns at the first wake-up at which its work is completed, whatever comes later, having
-- cancelled the operation once for each earlier one, and raises the first nonzero state of all of
-- them, or returns true if there is none; without such a wake-up it stays blocked.
pub wait_lem :
    (early : List Wake) (last : Wake) (rest : List Wake)
    → AllEarly early
    → last.completed ≡ true
    → (wait (early ++ last ∷ rest) ≡ some (first_state (early ++ last ∷ []), length early))
      × (wait early ≡ none)
unfolding wait
wait_lem early last rest all c = (
  rw (wait_loop_lem early last rest 0 0 all c) (ground (arith, ending_first (early ++ last ∷ []))),
  rw (wait_loop_blocked early 0 0 all),
)
