-- ===== src/Array/Grow.antt =====
-- The size to which `IO_Event_Array_resize` grows an array.
use io_event.Base.{
  ℕ, zero, suc, ◌*◌, ◌/◌, ◌^◌, ◌≤◌, ◌≡◌, ◌≢◌, ◌⊎◌, inl, inr, some, arith, ltb, ◌==◌, Bool-cases,
}
use native.Mathlib.Nat.{pow-suc}
use io_event.Array.{maximum_count, default_count, grow, resize_count}

-- A size that covers the request and the old size, and that an array can have.
abbrev pub Covers : (old count n : ℕ) → Type 0
Covers old count n = (count ≤ n) × (old ≤ n) × (n ≤ maximum_count)

twice-pow : (a g : ℕ) → a * 2 ^ suc g ≡ a * 2 * 2 ^ g
twice-pow a g = rw (pow-suc 2 g) (grind arith)

-- With fuel for `f` doublings that reach the request the loop ends, at a size that covers it.
grow-Covers :
    (f new_count count : ℕ)
    → count ≤ new_count * 2 ^ f
    → count ≤ maximum_count
    → new_count ≤ maximum_count
    → (n : ℕ) × (grow (suc f) new_count count ≡ some n) × Covers new_count count n
unfolding grow
grow-Covers zero new_count count enough small fits = (new_count, ground arith, ground arith)
grow-Covers (suc f) new_count count enough small fits = elim (Bool-cases (ltb new_count count)) [
  | inr done ↦ (new_count, rw done, ground arith)
  | inl more ↦ elim (Bool-cases (ltb (maximum_count / 2) new_count)) [
    | inl top ↦ (maximum_count, rw (more, top), ground arith)
    | inr room ↦
        let (n, run, covers) =
          grow-Covers f (new_count * 2) count (rw (← twice-pow new_count f) enough) small
            (ground arith) in
        (n, rw (more, room) run, ground arith)
  ]
]

pub resize_count-Covers :
    (old count : ℕ)
    → count ≤ maximum_count
    → old ≤ maximum_count
    → (old ≢ 0) ⊎ (count ≤ default_count)
    → (n : ℕ) × (resize_count old count ≡ some n) × Covers old count n
unfolding resize_count
resize_count-Covers old count small fits reach = elim (Bool-cases (old == 0)) [
  | inl e ↦ (default_count, rw e, ground arith)
  | inr ne ↦
      let (n, run, covers) = grow-Covers 63 old count (ground arith) small fits in
      (n, rw ne run, covers)
]
