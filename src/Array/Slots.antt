-- ===== src/Array/Slots.antt =====
-- `IO_Event_Array_resize` and `IO_Event_Array_lookup`: which slots they change, and how.
use io_event.Base.{
  dec_lt, get_elem?-append_lt, get_elem?-append_ge, get_elem?-replicate, ℕ, ◌-◌, ◌≤◌, ◌<◌, ◌≡◌,
  refl, ◌∙◌, ◌≢◌, ◌⊎◌, inl, inr, Bool, true, false, Option, none, some, ◌++◌, arith, ltb, leb,
  Bool-cases, length, get_elem?, replicate, length-append, length-replicate,
}
use io_event.Array.{
  Array, Result, ok, err, range_error, no_memory, maximum_count, default_count, resize_count,
  reallocate, resize,
}
use io_event.Array.Grow.{Covers, resize_count-Covers}
use io_event.Array.Shape.{IsValid}

-- `b` is `a` with more empty slots: every old slot is as it was, every new one is `NULL`.
pub record Extends {E : Type 0} (a b : Array E) : Type 0 where
  pub limit : b.limit ≡ a.limit
  pub element_size : b.element_size ≡ a.element_size
  pub count : a.count ≤ b.count
  pub kept : (i : ℕ) → i < a.count → get_elem? b.base i ≡ get_elem? a.base i
  pub new : (i : ℕ) → a.count ≤ i → i < b.count → get_elem? b.base i ≡ some none

module _ {E : Type 0} {a : Array E} (v : IsValid a) where
  extended : ℕ → Array E
  extended n = record a { base = a.base ++ replicate (n - a.count) none; count = n }

  extended-Extends : (n : ℕ) → a.count ≤ n → Extends a (extended n)
  unfolding extended
  extended-Extends n le = record {
    limit = refl;
    element_size = refl;
    count = le;
    kept = λ i lt. get_elem?-append_lt a.base _ i (omega (arith, v.allocated));
    new = λ i ge lt.
        get_elem?-append_ge a.base _ i (omega (arith, v.allocated))
        ∙ get_elem?-replicate (n - a.count) none (i - length a.base) (omega (arith, v.allocated));
  }

  extended-IsValid : (n : ℕ) → a.count ≤ n → n ≤ maximum_count → IsValid (extended n)
  unfolding extended
  extended-IsValid n le fits = record {
    allocated =
        length-append a.base _
        ∙ omega (arith, length-replicate {0} {A = Option E} (n - a.count) none, v.allocated);
    fits = fits;
    limit_in = omega (arith, v.limit_in);
    clear = λ i ge lt. elim (dec_lt i a.count) [
      | yes old ↦ (extended-Extends n le).kept i old ∙ v.clear i ge (omega (arith, v.allocated))
      | no new ↦ (extended-Extends n le).new i (omega arith) (
          omega (
            arith,
            lt,
            length-append a.base (replicate {A = Option E} (n - a.count) none),
            length-replicate {0} {A = Option E} (n - a.count) none,
            v.allocated,
          ))
    ];
  }

-- What `IO_Event_Array_resize` does on each of its ways out, for a request that an array can have.
abbrev pub Resized : {E : Type 0} → Bool → ℕ → Array E → Result (Unit {0}) × Array E → Type 0
Resized granted count a (ok _, b) = Extends a b × IsValid b × (count ≤ b.count)
Resized granted count a (err e, b) = (e ≡ no_memory) × (granted ≡ false) × (b ≡ a)

module _ {E : Type 0} {a : Array E} (v : IsValid a) where
  pub same-Extends : Extends a a
  same-Extends = record {
    limit = refl;
    element_size = refl;
    count = omega arith;
    kept = λ i lt. refl;
    new = λ i ge lt. absurd (omega arith);
  }

  reallocate-Resized :
      (granted : Bool) (count n : ℕ)
      → Covers a.count count n
      → Resized granted count a (reallocate granted (some n) a)
  unfolding reallocate extended
  reallocate-Resized true count n covers =
      (extended-Extends v n covers.1, extended-IsValid v n covers.1 covers.2, covers.0)
  reallocate-Resized false count n covers = (refl, refl, refl)

  -- A request within the maximum is met, unless memory runs out, which changes nothing: the array
  -- then has the slots that were asked for, the old ones as they were, the new ones empty. An array
  -- of size 0 is left out where the request is beyond the default size.
  pub resize-Resized :
      (granted : Bool) (count : ℕ)
      → count ≤ maximum_count
      → (a.count ≢ 0) ⊎ (count ≤ default_count)
      → Resized granted count a (resize granted count a)
  unfolding resize
  resize-Resized granted count small reach = elim (Bool-cases (leb count a.count)) [
    | inl big ↦ rw big (same-Extends, v, ground arith)
    | inr more ↦
        let (n, run, covers) = resize_count-Covers a.count count small v.fits reach in
        let top : ltb maximum_count count ≡ false = ground arith in
        rw (more, top, run) (reallocate-Resized granted count n covers)
  ]

  -- A request beyond the maximum raises `RangeError` and changes nothing.
  pub resize-range :
      (granted : Bool) (count : ℕ)
      → maximum_count < count
      → resize granted count a ≡ (err range_error, a)
  unfolding resize
  resize-range granted count big = ground (arith, v.fits)

-- An array of size 0 that is asked for more than the default size gets the default size all the
-- same, and reports success.
pub resize_from_zero :
    {E : Type 0} {a : Array E} (count : ℕ)
    → IsValid a
    → a.count ≡ 0
    → default_count < count
    → count ≤ maximum_count
    → let (r, b) = resize true count a in
      (r ≡ ok tt) × (b.count ≡ default_count) × (b.count < count)
unfolding resize reallocate resize_count
resize_from_zero count v e big small = ground arith
