-- ===== src/Base/Fault.antt =====
-- Commands that may fault: `none` stands for a failed assertion or an access through `NULL`.
use mathlib.Core.Bool.{Bool}
use mathlib.Core.Option.{Option, none, some}
use io_event.Base.Tests.{if◌then◌else◌}

-- A command over a state `S`.
abbrev pub Cmd : Type 0 → Type 0 → Type 0
Cmd S A = S → Option (A × S)

module _ {S A B : Type 0} where
  abbrev pub and_then : Option (A × S) → (A → Cmd S B) → Option (B × S)
  and_then none k = none
  and_then (some (a, s)) k = k a s

  infixl 5 ◌>>=◌ ◌>>◌
  abbrev pub ◌>>=◌ : Cmd S A → (A → Cmd S B) → Cmd S B
  m >>= k = λ s. and_then (m s) k

  abbrev pub ◌>>◌ : Cmd S A → Cmd S B → Cmd S B
  m >> k = m >>= λ _. k

module _ {S : Type 0} where
  abbrev pub pure : {A : Type 0} → A → Cmd S A
  pure a s = some (a, s)

  abbrev pub assert : Bool → Cmd S (Unit {0})
  assert b s = if b then some (tt, s) else none
