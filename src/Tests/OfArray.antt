-- ===== src/Tests/OfArray.antt =====
-- Arrays of array.h with a few elements.
use io_event.Base.{
  ℕ, zero, suc, ◌<◌, ◌≡◌, refl, inl, true, none, some, [], ◌∷◌, arith, ltb, if◌then◌else◌, drop,
}
use io_event.Array.{Array, ok, lookup, resize, truncate, live, default_count}
use io_event.Array.Shape.{IsValid, ClearFrom}
use io_event.Array.Slots.{Resized, resize-Resized, resize_from_zero}
use io_event.Array.Lookup.{Found, slot, lookup-Found}
use io_event.Array.Truncate.{truncate_lem}

-- Two slots, with an element in the first.
abbrev two_slots : Array ℕ
two_slots = record { base = some 7 ∷ none ∷ []; count = 2; limit = 1; element_size = 40 }

two_slots-ClearFrom : ClearFrom 1 two_slots.base
two_slots-ClearFrom zero ge lt = ground arith
two_slots-ClearFrom (suc zero) ge lt = refl
two_slots-ClearFrom (suc (suc i)) ge lt = absurd (omega arith)

two_slots-IsValid : IsValid two_slots
two_slots-IsValid = record {
  allocated = refl;
  fits = omega arith;
  limit_in = omega arith;
  clear = two_slots-ClearFrom;
}

abbrev no_slots : Array ℕ
no_slots = record { base = []; count = 0; limit = 0; element_size = 40 }

no_slots-IsValid : IsValid no_slots
no_slots-IsValid = record {
  allocated = refl;
  fits = omega arith;
  limit_in = omega arith;
  clear = λ i ge lt. elim lt [ ];
}

lookup-Found_example : Found true true 8 2 two_slots (lookup true true 8 2 two_slots)
lookup-Found_example =
    lookup-Found 8 2 true true two_slots-IsValid (inl (ground arith)) (omega arith)

resize-Resized_example : Resized true 5 two_slots (resize true 5 two_slots)
resize-Resized_example = resize-Resized two_slots-IsValid true 5 (omega arith) (inl (ground arith))

resize_from_zero_example :
    ((resize true 200 no_slots).0 ≡ ok tt)
    × ((resize true 200 no_slots).1.count ≡ default_count)
    × ((resize true 200 no_slots).1.count < 200)
resize_from_zero_example = resize_from_zero 200 no_slots-IsValid refl (omega arith) (omega arith)

truncate_lem_example :
    (b : Array ℕ) × (truncate 0 two_slots
      ≡ some ((if ltb 0 two_slots.limit then live (drop 0 two_slots.base) else []), b))
    × IsValid b
    × ((j : ℕ) → slot b j ≡ (if ltb j 0 then slot two_slots j else none))
truncate_lem_example = truncate_lem 0 two_slots-IsValid
