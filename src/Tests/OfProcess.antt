-- ===== src/Tests/OfProcess.antt =====
-- Waits for processes: the process 77 with a pidfd 3, whose descriptor is at 1, and the node 2.
use io_event.Base.{ℕ, ◌≡◌, refl, true, none, some, [], ◌∷◌, arith, null, update}
use io_event.System.{success}
use io_event.Fiber.{returned, Ruby}
use io_event.List.{Heap}
use io_event.List.Shape.{IsList}
use io_event.Selector.{Selector}
use io_event.EPoll.{EPoll, Answers, readable, register_on, waiting_cancel}
use io_event.EPoll.Process.{Processes, process_wait, process_wait-Closes, Closes}
use io_event.EPoll.Process.Stale.{stale}
use io_event.Tests.OfEPoll.{Interests, kernel, poll, process, nothing, watchable}

abbrev State : Type 0
State = Selector (EPoll Interests)

-- Every process has the descriptor 3, and runs.
abbrev running : Processes State
running = record { pidfd_open = λ pid s. (success 3, s); reap = λ pid flags s. (4, s) }

-- Every fiber comes back at once.
abbrev calm : Ruby State
calm = record {
  is_fiber = λ _. true;
  fiber_alive = λ _ _. true;
  fiber_transfer = λ _ _ s. some (returned 4, s);
  fiber_raise = λ _ _ s. some (returned 4, s);
  alive = λ _ _. true;
  transfer = λ _ _ s. some (returned 4, s);
  current = λ s. 7;
}

abbrev fresh : Answers
fresh = record { slots = true; element = true; fresh = 16 }

abbrev idle : State
idle = process (poll readable 0 0 nothing)

process_wait-Closes_example :
    Closes running calm kernel 3 (process_wait running calm kernel fresh 2 9 7 155 (some 77) 0 idle)
process_wait-Closes_example =
    process_wait-Closes running calm kernel fresh 2 9 7 155 77 0 3 idle refl

-- The list 1 without items, and the node 2 in no list.
abbrev no_items : Heap
no_items = record { head = update (λ _. null) 1 1; tail = update (λ _. null) 1 1; type = λ _. 9 }

abbrev unwatched : EPoll Interests
unwatched = record (poll readable 0 0 nothing) { links = no_items }

no_items-IsList : IsList no_items 1 []
no_items-IsList = record { links = ground arith; distinct = ground arith; nonnull = refl }

stale_example :
    (n : ℕ) × (t : EPoll Interests) × (u : EPoll Interests) × (register_on kernel 155 3 1 2
        unwatched
      ≡ some (success n, t))
    × (waiting_cancel 2 t ≡ some (tt, u))
    × ((z : EPoll Interests) × (register_on kernel 155 3 1 2 (record u { kernel = nothing })
          ≡ some (success 0, z))
        × IsList z.links 1 (2 ∷ [])
        × (z.kernel 3 ≡ none))
stale_example =
    stale kernel 3 1 2 155 unwatched watchable (λ some_events. ground arith) no_items-IsList refl
      refl (record { nonnull = ground arith; head = refl; tail = refl }) (ground arith) nothing refl
