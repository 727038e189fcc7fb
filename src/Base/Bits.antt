-- ===== src/Base/Bits.antt =====
-- Masks: the laws of `bit_and` and `bit_or` at variables. Both are determined by their lowest digit
-- and their half, and each law follows by induction on a bound of the operands.
use io_event.Base.{inr, ==_iff, inl, ◌==◌, Bool-cases, ◌&&◌, ◌<◌, true, Bool}
use Prim.Native.Nat.{
  ℕ, zero, suc, ◌+◌, ◌*◌, ◌/◌, ◌%◌, ◌≤◌, min, max, bit_and, bit_or, digits, bit_and-bitwise,
  bit_or-bitwise,
}
use mathlib.Core.Path.{◌≡◌, refl, ◌∙◌, sym, ap}
use native.Mathlib.Omega.{arith}

module _ (z : ℕ → ℕ) (op : ℕ → ℕ → ℕ) where
  no_digits : (fuel b : ℕ) → digits z op fuel 0 b ≡ z b
  no_digits zero b = refl
  no_digits (suc fuel) b = refl

  -- Any two amounts of fuel that cover the left operand give the same digits.
  enough_digits :
      (fuel more a b : ℕ) → a ≤ fuel → a ≤ more → digits z op fuel a b ≡ digits z op more a b
  enough_digits fuel more zero b h k = no_digits fuel b ∙ sym (no_digits more b)
  enough_digits zero more (suc a) b h k = elim h [ ]
  enough_digits (suc fuel) zero (suc a) b h k = elim k [ ]
  enough_digits (suc fuel) (suc more) (suc a) b h k =
      ap (λ d. d * 2 + op (suc a % 2) (b % 2))
        (enough_digits fuel more (suc a / 2) (b / 2) (omega arith) (omega arith))

  step :
      (a b : ℕ)
      → z b ≡ z (b / 2) * 2 + op 0 (b % 2)
      → digits z op a a b ≡ digits z op (a / 2) (a / 2) (b / 2) * 2 + op (a % 2) (b % 2)
  step zero b base = base
  step (suc a) b base =
      ap (λ d. d * 2 + op (suc a % 2) (b % 2))
        (enough_digits a (suc a / 2) (suc a / 2) (b / 2) (omega arith) (omega arith))

and_step : (a b : ℕ) → bit_and a b ≡ bit_and (a / 2) (b / 2) * 2 + min (a % 2) (b % 2)
and_step a b =
    bit_and-bitwise a b
    ∙ step (λ _. zero) min a b (omega arith)
    ∙ ap (λ d. d * 2 + min (a % 2) (b % 2)) (sym (bit_and-bitwise (a / 2) (b / 2)))

or_step : (a b : ℕ) → bit_or a b ≡ bit_or (a / 2) (b / 2) * 2 + max (a % 2) (b % 2)
or_step a b =
    bit_or-bitwise a b
    ∙ step (λ b. b) max a b (omega arith)
    ∙ ap (λ d. d * 2 + max (a % 2) (b % 2)) (sym (bit_or-bitwise (a / 2) (b / 2)))

and_half : (a b : ℕ) → bit_and a b / 2 ≡ bit_and (a / 2) (b / 2)
and_half a b = omega (arith, and_step a b)

and_low : (a b : ℕ) → bit_and a b % 2 ≡ min (a % 2) (b % 2)
and_low a b = omega (arith, and_step a b)

or_half : (a b : ℕ) → bit_or a b / 2 ≡ bit_or (a / 2) (b / 2)
or_half a b = omega (arith, or_step a b)

or_low : (a b : ℕ) → bit_or a b % 2 ≡ max (a % 2) (b % 2)
or_low a b = omega (arith, or_step a b)

-- Two numbers with equal halves and equal lowest digits are equal.
same_digits : (a b : ℕ) → a / 2 ≡ b / 2 → a % 2 ≡ b % 2 → a ≡ b
same_digits a b h l = omega arith

-- Induction for a law of two masks: at zero, and from the halves.
module _ (f g : ℕ → ℕ → ℕ) (start : f 0 0 ≡ g 0 0)
    (up : (a b : ℕ) → f (a / 2) (b / 2) ≡ g (a / 2) (b / 2) → f a b ≡ g a b) where
  law_below : (n a b : ℕ) → a ≤ n → b ≤ n → f a b ≡ g a b
  law_below zero zero zero p q = start
  law_below zero zero (suc b) p q = elim q [ ]
  law_below zero (suc a) b p q = elim p [ ]
  law_below (suc n) a b p q = up a b (law_below n (a / 2) (b / 2) (omega arith) (omega arith))

  law : (a b : ℕ) → f a b ≡ g a b
  law a b = law_below (a + b) a b (omega arith) (omega arith)

pub zero_and : (b : ℕ) → bit_and 0 b ≡ 0
zero_and b = bit_and-bitwise 0 b

-- All bits of `a` are bits of `b`.
infix 50 ◌⊑◌
abbrev pub ◌⊑◌ : ℕ → ℕ → Type 0
a ⊑ b = bit_and a b ≡ a

pub or_left : (a b : ℕ) → a ⊑ bit_or a b
or_left =
    law (λ a b. bit_and a (bit_or a b)) (λ a b. a) refl
      λ a b ih.
        same_digits _ _ (and_half a (bit_or a b) ∙ rw (or_half a b) ih)
          (omega (arith, and_low a (bit_or a b), or_low a b))

pub or_right : (a b : ℕ) → b ⊑ bit_or a b
or_right =
    law (λ a b. bit_and b (bit_or a b)) (λ a b. b) refl
      λ a b ih.
        same_digits _ _ (and_half b (bit_or a b) ∙ rw (or_half a b) ih)
          (omega (arith, and_low b (bit_or a b), or_low a b))

pub and_comm : (a b : ℕ) → bit_and a b ≡ bit_and b a
and_comm =
    law (λ a b. bit_and a b) (λ a b. bit_and b a) refl
      λ a b ih.
        same_digits _ _ (and_half a b ∙ ih ∙ sym (and_half b a))
          (omega (arith, and_low a b, and_low b a))

⊑_half : (a b : ℕ) → a ⊑ b → (a / 2) ⊑ (b / 2)
⊑_half a b h = sym (and_half a b) ∙ ap (λ n. n / 2) h

⊑_low : (a b : ℕ) → a ⊑ b → a % 2 ≤ b % 2
⊑_low a b h = omega (arith, and_low a b, ap (λ n. n % 2) h)

⊑_of_digits : (a b : ℕ) → (a / 2) ⊑ (b / 2) → a % 2 ≤ b % 2 → a ⊑ b
⊑_of_digits a b h l = same_digits _ _ (and_half a b ∙ h) (omega (arith, and_low a b))

⊑_trans_below : (n a b c : ℕ) → a ≤ n → a ⊑ b → b ⊑ c → a ⊑ c
⊑_trans_below n zero b c p h k = zero_and c
⊑_trans_below zero (suc a) b c p h k = elim p [ ]
⊑_trans_below (suc n) (suc a) b c p h k =
    ⊑_of_digits (suc a) c
      (⊑_trans_below n (suc a / 2) (b / 2) (c / 2) (omega arith) (⊑_half (suc a) b h)
        (⊑_half b c k))
      (omega (arith, ⊑_low (suc a) b h, ⊑_low b c k))

pub ⊑_trans : (a b c : ℕ) → a ⊑ b → b ⊑ c → a ⊑ c
⊑_trans a b c = ⊑_trans_below a a b c (omega arith)

or_lub_below : (n a b c : ℕ) → a ≤ n → b ≤ n → a ⊑ c → b ⊑ c → bit_or a b ⊑ c
or_lub_below zero zero zero c p q h k = h
or_lub_below zero zero (suc b) c p q h k = elim q [ ]
or_lub_below zero (suc a) b c p q h k = elim p [ ]
or_lub_below (suc n) a b c p q h k =
    ⊑_of_digits (bit_or a b) c
      (rw (or_half a b) (
        or_lub_below n (a / 2) (b / 2) (c / 2) (omega arith) (omega arith) (⊑_half a c h)
          (⊑_half b c k)))
      (omega (arith, or_low a b, ⊑_low a c h, ⊑_low b c k))

-- A union is part of whatever both its parts are part of.
pub or_lub : (a b c : ℕ) → a ⊑ c → b ⊑ c → bit_or a b ⊑ c
or_lub a b c = or_lub_below (a + b) a b c (omega arith) (omega arith)

-- A test that holds of all numbers below a bound.
abbrev pub all_below : ℕ → (ℕ → Bool) → Bool
all_below zero p = true
all_below (suc n) p = p n && all_below n p

pub all_below_lem : (n : ℕ) (p : ℕ → Bool) (k : ℕ) → all_below n p ≡ true → k < n → p k ≡ true
all_below_lem zero p k all lt = ground arith
all_below_lem (suc n) p k all lt = elim (Bool-cases (k == n)) [
  | inl e ↦ ground (arith, ap p ((==_iff k n).0 e))
  | inr other ↦ all_below_lem n p k (ground arith) (ground arith)
]
