-- ===== src/Array/Truncate.antt =====
-- `IO_Event_Array_truncate`: what it frees and what it keeps.
use io_event.Base.{
  get_elem?-ge_length, dec_lt, ℕ, zero, suc, ◌+◌, ◌-◌, ◌≤◌, ◌≡◌, refl, ap, ◌∙◌, inl, inr, Option,
  none, some, List, [], ◌∷◌, ◌++◌, arith, ltb, if◌then◌else◌, Bool-cases, length, get_elem?, take,
  drop, replicate,
}
use io_event.Array.{Array, live, truncate}
use io_event.Array.Shape.{IsValid, ClearFrom}
use io_event.Array.Lookup.{slot}
use io_event.Array.Release.{truncate_loop_lem, live-take}

module _ {E : Type 0} where
  abbrev cleared : ℕ → ℕ → List (Option E) → List (Option E)
  cleared n i base = take i base ++ (replicate n none ++ drop n (drop i base))

  length-cleared :
      (n i : ℕ) (base : List (Option E))
      → i + n ≤ length base
      → length (cleared n i base) ≡ length base
  length-cleared n (suc i) [] h = absurd (omega arith)
  length-cleared n (suc i) (s ∷ base) h = ap suc (length-cleared n i base (omega arith))
  length-cleared zero zero base h = refl
  length-cleared (suc n) zero [] h = absurd (omega arith)
  length-cleared (suc n) zero (s ∷ base) h = ap suc (length-cleared n zero base (omega arith))

  get_elem?-cleared :
      (n i : ℕ) (base : List (Option E)) (j : ℕ)
      → i + n ≤ length base
      → get_elem? (cleared n i base) j ≡ (
          if ltb j i
          then get_elem? base j
          else (if ltb j (i + n) then some none else get_elem? base j))
  get_elem?-cleared n (suc i) [] j h = absurd (omega arith)
  get_elem?-cleared n (suc i) (s ∷ base) zero h = ground arith
  get_elem?-cleared n (suc i) (s ∷ base) (suc j) h = ground (arith, get_elem?-cleared n i base j)
  get_elem?-cleared zero zero base j h = ground arith
  get_elem?-cleared (suc n) zero [] j h = absurd (omega arith)
  get_elem?-cleared (suc n) zero (s ∷ base) zero h = ground arith
  get_elem?-cleared (suc n) zero (s ∷ base) (suc j) h =
      ground (arith, get_elem?-cleared n zero base j)

  live-drop-take :
      (n i : ℕ) (base : List (Option E))
      → ClearFrom (i + n) base
      → live (take n (drop i base)) ≡ live (drop i base)
  live-drop-take n zero base clear = live-take n base (λ j ge lt. clear j (omega arith) lt)
  live-drop-take n (suc i) [] clear = live-take n [] (λ j ge lt. elim lt [ ])
  live-drop-take n (suc i) (s ∷ base) clear =
      live-drop-take n i base (λ j ge lt. clear (suc j) (omega arith) (omega arith))

  slot-ge_limit : {a : Array E} (j : ℕ) → IsValid a → a.limit ≤ j → slot a j ≡ none
  slot-ge_limit {a} j v ge = elim (dec_lt j (length a.base)) [
    | yes inside ↦ ground (arith, v.clear j)
    | no out ↦ ground (arith, get_elem?-ge_length a.base j)
  ]

  -- Truncating a valid array frees exactly the elements at or above the new limit, each once, keeps
  -- every element below it, and leaves a valid array; a limit that is no smaller changes nothing.
  pub truncate_lem :
      {a : Array E} (limit : ℕ)
      → IsValid a
      → (b : Array E) × (truncate limit a
          ≡ some ((if ltb limit a.limit then live (drop limit a.base) else []), b))
        × IsValid b
        × ((j : ℕ) → slot b j ≡ (if ltb j limit then slot a j else none))
  unfolding truncate
  truncate_lem {a} limit v = elim (Bool-cases (ltb limit a.limit)) [
    | inl less ↦
        let inside : limit + (a.limit - limit) ≤ length a.base =
          ground (arith, v.allocated, v.limit_in) in
        (
          record a { base = cleared (a.limit - limit) limit a.base; limit = limit },
          rw (less, truncate_loop_lem (a.limit - limit) limit a.base inside, truncate)
              (ap
                (λ es.
                  some
                    (es, record a { base = cleared (a.limit - limit) limit a.base; limit = limit }))
                (live-drop-take (a.limit - limit) limit a.base
                  (λ j ge lt. v.clear j (ground arith) lt))),
          record {
            allocated = length-cleared (a.limit - limit) limit a.base inside ∙ v.allocated;
            fits = v.fits;
            limit_in = ground (arith, v.limit_in);
            clear = λ j ge lt. ground (
              arith,
              length-cleared (a.limit - limit) limit a.base inside,
              get_elem?-cleared (a.limit - limit) limit a.base j inside,
              v.clear j,
            );
          },
          λ j.
              ground (
                arith,
                get_elem?-cleared (a.limit - limit) limit a.base j inside,
                slot-ge_limit j v,
              ),
        )
    | inr more ↦ (a, rw more, v, λ j. ground (arith, slot-ge_limit j v))
  ]
