-- ===== src/Fiber.antt =====
-- ext/io/event/fiber.c: transfer to a fiber. What Ruby's runtime does is a parameter: a record of
-- the calls that fiber.c makes, over a state `S` of the whole process.
use io_event.Base.{Cmd, ℕ, ◌≡◌, Bool, false, some, List, arith, if◌then◌else◌}

-- How a call into Ruby comes back: with a value, or with an exception.
pub data Outcome : Type 0 where
  returned : ℕ → Outcome
  raised : ℕ → Outcome

abbrev pub nil : ℕ
nil = 4

pub record Ruby (S : Type 0) : Type 0 where
  -- `rb_obj_is_fiber`, `rb_fiber_alive_p`, `rb_fiber_transfer`, `rb_fiber_raise`
  pub is_fiber : ℕ → Bool
  pub fiber_alive : ℕ → S → Bool
  pub fiber_transfer : ℕ → List ℕ → Cmd S Outcome
  pub fiber_raise : ℕ → List ℕ → Cmd S Outcome
  -- The methods `alive?` and `transfer` of an object that stands for a fiber.
  pub alive : ℕ → S → Bool
  pub transfer : ℕ → List ℕ → Cmd S Outcome
  -- `rb_fiber_current`
  pub current : S → ℕ

module _ {S : Type 0} (ruby : Ruby S) where
  -- `IO_Event_Fiber_transfer`, where Ruby has `rb_fiber_transfer`
  unfoldable pub transfer : ℕ → List ℕ → Cmd S Outcome
  transfer fiber argv s =
      if ruby.is_fiber fiber
      then (if ruby.fiber_alive fiber s
          then ruby.fiber_transfer fiber argv s
          else some (returned nil, s))
      else (if ruby.alive fiber s then ruby.transfer fiber argv s else some (returned nil, s))

  -- A dead fiber, or a dead object that stands for one, is never entered: the call returns `nil` and
  -- changes nothing.
  pub transfer_dead :
      (fiber : ℕ) (argv : List ℕ) (s : S)
      → ruby.fiber_alive fiber s ≡ false
      → ruby.alive fiber s ≡ false
      → transfer fiber argv s ≡ some (returned nil, s)
  unfolding transfer
  transfer_dead fiber argv s dead gone = ground arith
