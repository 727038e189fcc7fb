-- ===== src/Array/Release.antt =====
-- `IO_Event_Array_truncate`, `IO_Event_Array_free` and `IO_Event_Array_each`: every live element is
-- met once, in the order of the indices.
use io_event.Base.{
  eq_nil_of_length, ℕ, zero, suc, ◌+◌, ◌≤◌, ◌≡◌, refl, sym, ap, ◌∙◌, inl, inr, Option, none, some,
  List, [], ◌∷◌, ◌++◌, arith, ◌==◌, Bool-cases, Option-cases, length, get_elem?, set, take, drop,
  replicate,
}
use io_event.Array.{Array, live, truncate_loop, freed_first, each_loop, each, free}
use io_event.Array.Shape.{IsValid, ClearFrom}

module _ {E : Type 0} where
  -- A result of the loop under one more slot in front.
  abbrev behind : Option E → Option (List E × List (Option E)) → Option (List E × List (Option E))
  behind s none = none
  behind s (some (es, base)) = some (es, s ∷ base)

  freed_first-behind :
      (e : E) (s : Option E) (r : Option (List E × List (Option E)))
      → freed_first e (behind s r) ≡ behind s (freed_first e r)
  freed_first-behind e s none = refl
  freed_first-behind e s (some r) = refl

  truncate_loop-suc :
      (n i : ℕ) (s : Option E) (base : List (Option E))
      → truncate_loop n (suc i) (s ∷ base) ≡ behind s (truncate_loop n i base)
  unfolding truncate_loop
  truncate_loop-suc zero i s base = refl
  truncate_loop-suc (suc n) i s base =
      ground
        (arith, truncate_loop-suc n (suc i) s base, truncate_loop-suc n (suc i) s (set base i none))

  -- The slots from `i` on are cleared for `n` rounds, and what stood there is freed.
  pub truncate_loop_lem :
      (n i : ℕ) (base : List (Option E))
      → i + n ≤ length base
      → truncate_loop n i base
        ≡ some
            (live (take n (drop i base)), take i base ++ (replicate n none ++ drop n (drop i base)))
  unfolding truncate_loop
  truncate_loop_lem n (suc i) (s ∷ base) h =
      rw (truncate_loop-suc n i s base, truncate_loop_lem n i base (omega arith)) refl
  truncate_loop_lem zero zero base h = refl
  truncate_loop_lem zero (suc i) [] h = refl
  truncate_loop_lem (suc n) i [] h = absurd (omega arith)
  truncate_loop_lem (suc n) zero (none ∷ base) h =
      rw (truncate_loop-suc n zero none base, truncate_loop_lem n zero base (omega arith)) refl
  truncate_loop_lem (suc n) zero (some e ∷ base) h =
      rw (truncate_loop-suc n zero none base, truncate_loop_lem n zero base (omega arith)) refl

  -- The order in which a callback meets the elements.
  unfoldable pub fold : {S : Type 0} → (E → S → S) → List E → S → S
  fold f [] s = s
  fold f (e ∷ es) s = fold f es (f e s)

  each_loop-suc :
      {S : Type 0} (f : E → S → S) (n i : ℕ) (x : Option E) (base : List (Option E)) (s : S)
      → each_loop f n (suc i) (x ∷ base) s ≡ each_loop f n i base s
  unfolding each_loop
  each_loop-suc f zero i x base s = refl
  each_loop-suc f (suc n) i x base s = elim (Option-cases (get_elem? base i)) [
    | inl out ↦ rw (out, each_loop)
    | inr (none, at) ↦ rw (at, each_loop) (each_loop-suc f n (suc i) x base s)
    | inr (some e, at) ↦ rw (at, each_loop) (each_loop-suc f n (suc i) x base (f e s))
  ]

  each_loop_lem :
      {S : Type 0} (f : E → S → S) (n : ℕ) (base : List (Option E)) (s : S)
      → n ≤ length base
      → each_loop f n 0 base s ≡ some (fold f (live (take n base)) s)
  unfolding each_loop fold
  each_loop_lem f zero base s h = refl
  each_loop_lem f (suc n) [] s h = absurd (omega arith)
  each_loop_lem f (suc n) (none ∷ base) s h =
      rw (each_loop-suc f n 0 none base s) (each_loop_lem f n base s (omega arith))
  each_loop_lem f (suc n) (some e ∷ base) s h =
      rw (each_loop-suc f n 0 (some e) base (f e s)) (each_loop_lem f n base (f e s) (omega arith))

  pub live-take :
      (n : ℕ) (base : List (Option E)) → ClearFrom n base → live (take n base) ≡ live base
  live-take zero [] clear = refl
  live-take (suc n) [] clear = refl
  live-take zero (none ∷ base) clear =
      live-take zero base (λ i ge lt. clear (suc i) (omega arith) (omega arith))
  live-take zero (some e ∷ base) clear = cc (clear 0 (omega arith) (omega arith))
  live-take (suc n) (none ∷ base) clear =
      live-take n base (λ i ge lt. clear (suc i) (omega arith) (omega arith))
  live-take (suc n) (some e ∷ base) clear =
      ap (λ es. e ∷ es) (live-take n base (λ i ge lt. clear (suc i) (omega arith) (omega arith)))

  module _ {a : Array E} (v : IsValid a) {S : Type 0} (f : E → S → S) (s : S) where
    each_loop-live : each_loop f a.limit 0 a.base s ≡ some (fold f (live a.base) s)
    each_loop-live =
        each_loop_lem f a.limit a.base s (omega (arith, v.allocated, v.limit_in))
        ∙ ap (λ es. some (fold f es s)) (live-take a.limit a.base v.clear)

    -- `IO_Event_Array_each` calls back once for each element of the array, in the order of the
    -- indices, and reads no slot outside the array.
    pub each-live : each f a s ≡ some (fold f (live a.base) s)
    unfolding each
    each-live = each_loop-live

    -- `IO_Event_Array_free` releases each element of the array once, none is left out, and the array
    -- is empty and valid afterwards.
    pub free-live :
        (b : Array E) × (free f a s ≡ some (fold f (live a.base) s, b))
        × IsValid b
        × (b.count ≡ 0)
        × (b.base ≡ [])
    unfolding free fold
    free-live = elim (Bool-cases (a.count == 0)) [
      | inl e ↦
          let nil = eq_nil_of_length a.base (ground (arith, v.allocated)) in
          (a, rw e (ap (λ base. some (fold f (live base) s, a)) (sym nil)), v, ground arith, nil)
      | inr ne ↦ (
        record a { base = []; count = 0; limit = 0 },
        rw (ne, each_loop-live, free) refl,
        record {
          allocated = refl;
          fits = omega arith;
          limit_in = omega arith;
          clear = λ i ge lt. elim lt [ ];
        },
        refl,
        refl,
      )
    ]
