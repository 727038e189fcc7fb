-- ===== src/Array.antt =====
-- ext/io/event/array.h: a growable array of unique pointers to elements, allocated on first use.
-- A slot is `none` for `NULL` and `some e` for an allocated element with the contents `e`. The
-- answers of Ruby's allocator are arguments: `true` grants a request, `false` makes it raise.
pub mod Grow
pub mod Shape
pub mod Slots
pub mod Lookup
pub mod Release
pub mod Truncate
use io_event.Base.{
  append_assoc, ne_of_mem, and_then, subst, ne→==, append-nil, Cmd, ◌>>=◌, ◌>>◌, pure, assert,
  IsDistinct-insert, has-append_comm, IsDistinct-append_comm, IsDistinct-remove, ℕ, zero, suc, ◌+◌,
  ◌-◌, ◌*◌, ◌/◌, ◌%◌, ◌^◌, ◌≤◌, ◌<◌, ◌≡◌, refl, sym, ap, ◌∙◌, ◌≢◌, ◌↔◌, ◌⊎◌, inl, inr, Bool, true,
  false, not, ◌&&◌, ◌||◌, Option, none, some, List, [], ◌∷◌, ◌++◌, arith, Ptr, null, update, ltb,
  leb, ◌==◌, if◌then◌else◌, ==_iff, Bool-cases, Option-cases, length, get_elem?, get_or, set, take,
  drop, replicate, length-append, length-set, length-replicate, has, ◌∈◌, ◌∉◌, IsDistinct,
  has-append,
}

-- What a call does instead of returning: raise `RangeError` or `NoMemoryError`, access memory outside
-- the array, or (in the model alone) use up the fuel of a loop.
pub data Error : Type 0 where
  range_error no_memory out_of_bounds out_of_fuel : Error

pub data Result (A : Type 0) : Type 0 where
  ok : A → Result A
  err : Error → Result A

-- `IO_EVENT_ARRAY_MAXIMUM_COUNT`: `SIZE_MAX / sizeof(void*)`.
abbrev pub maximum_count : ℕ
maximum_count = (2 ^ 64 - 1) / 8

-- `IO_EVENT_ARRAY_DEFAULT_COUNT`
abbrev pub default_count : ℕ
default_count = 128

-- `struct IO_Event_Array`; the two callbacks are arguments of the operations that call them.
pub record Array (E : Type 0) : Type 0 where
  pub base : List (Option E)
  pub count : ℕ
  pub limit : ℕ
  pub element_size : ℕ

-- The doubling loop of `IO_Event_Array_resize`, on fuel.
pub grow : ℕ → ℕ → ℕ → Option ℕ
grow zero new_count count = none
grow (suc fuel) new_count count =
    let rest = grow fuel (new_count * 2) count in
    if ltb new_count count
    then (if ltb (maximum_count / 2) new_count then some maximum_count else rest)
    else some new_count

-- Each round doubles, so the loop ends within as many rounds as a `size_t` has bits.
abbrev pub grow_fuel : ℕ
grow_fuel = 64

-- The new size that `IO_Event_Array_resize` asks for.
pub resize_count : ℕ → ℕ → Option ℕ
unfolding grow
resize_count old count = if old == 0 then some default_count else grow grow_fuel old count

-- The live elements of a slice of the array, in order.
abbrev pub live : {E : Type 0} → List (Option E) → List E
live [] = []
live (none ∷ xs) = live xs
live (some e ∷ xs) = e ∷ live xs

module _ {E : Type 0} where
  -- `IO_Event_Array_initialize`
  pub initialize : (granted : Bool) (count element_size : ℕ) → Result (Array E)
  initialize granted count element_size =
      let empty : List (Option E) → ℕ → Array E =
        λ base n. record { base = base; count = n; limit = 0; element_size = element_size } in
      if count == 0
      then ok (empty [] 0)
      else (if granted then ok (empty (replicate count none) count) else err no_memory)

  -- `IO_Event_Array_memory_size`
  pub memory_size : Array E → ℕ
  memory_size a = (a.count * ((8 + a.element_size) % 2 ^ 64)) % 2 ^ 64

  -- The reallocation at the end of `IO_Event_Array_resize`: new slots are cleared.
  pub reallocate : (granted : Bool) → Option ℕ → Array E → Result (Unit {0}) × Array E
  reallocate granted none a = (err out_of_fuel, a)
  reallocate granted (some n) a =
      if granted
      then (ok tt, record a { base = a.base ++ replicate (n - a.count) none; count = n })
      else (err no_memory, a)

  -- `IO_Event_Array_resize`
  pub resize : (granted : Bool) → ℕ → Array E → Result (Unit {0}) × Array E
  unfolding reallocate
  resize granted count a =
      if leb count a.count
      then (ok tt, a)
      else (if ltb maximum_count count
          then (err range_error, a)
          else reallocate granted (resize_count a.count count) a)

  -- The end of `IO_Event_Array_lookup`: the slot is read, and filled if it is `NULL`. `fresh` is what
  -- `element_initialize` makes of a new element.
  pub access : (granted : Bool) (fresh : E) (index count : ℕ) → Array E → Result E × Array E
  access granted fresh index count a = elim (get_elem? a.base index) [
    | none ↦ (err out_of_bounds, a)
    | some (some e) ↦ (ok e, a)
    | some none ↦
        if granted
        then (
          ok fresh,
          record a {
            base = set a.base index (some fresh);
            limit = if ltb a.limit count then count else a.limit;
          },
        )
        else (err no_memory, a)
  ]

  pub access_after :
      (granted : Bool) (fresh : E) (index count : ℕ)
      → Result (Unit {0}) × Array E
      → Result E × Array E
  unfolding access
  access_after granted fresh index count (err e, a) = (err e, a)
  access_after granted fresh index count (ok _, a) = access granted fresh index count a

  pub lookup_count :
      (slots element : Bool) (fresh : E) (index count : ℕ) → Array E → Result E × Array E
  unfolding resize access_after
  lookup_count slots element fresh index count a =
      access_after element fresh index count
        (if ltb a.count count then resize slots count a else (ok tt, a))

  -- `IO_Event_Array_lookup`. `index + 1` is a `size_t`, so it wraps. The two answers of the allocator
  -- are for the slots and for the element.
  pub lookup : (slots element : Bool) (fresh : E) (index : ℕ) → Array E → Result E × Array E
  unfolding lookup_count
  lookup slots element fresh index a =
      lookup_count slots element fresh index ((index + 1) % 2 ^ 64) a

  -- `IO_Event_Array_last`
  pub last : Array E → Result (Option E)
  last a =
      if a.limit == 0
      then ok none
      else elim (get_elem? a.base (a.limit - 1)) [ none ↦ err out_of_bounds | some slot ↦ ok slot ]

  -- The loop of `IO_Event_Array_truncate`: the elements that are freed, in order, and the slots
  -- afterwards; `none` is an access outside the array.
  abbrev pub freed_first : E → Option (List E × List (Option E)) → Option (List E × List (Option E))
  freed_first e none = none
  freed_first e (some (es, base)) = some (e ∷ es, base)

  pub truncate_loop : (rounds i : ℕ) → List (Option E) → Option (List E × List (Option E))
  truncate_loop zero i base = some ([], base)
  truncate_loop (suc n) i base = elim (get_elem? base i) [
    | none ↦ none
    | some none ↦ truncate_loop n (suc i) base
    | some (some e) ↦ freed_first e (truncate_loop n (suc i) (set base i none))
  ]

  -- `IO_Event_Array_truncate`: the elements freed, and the array.
  pub truncate : ℕ → Array E → Option (List E × Array E)
  unfolding truncate_loop
  truncate limit a =
      if ltb limit a.limit
      then elim (truncate_loop (a.limit - limit) limit a.base) [
        | none ↦ none
        | some (es, base) ↦ some (es, record a { base = base; limit = limit })
      ]
      else some ([], a)

  -- The loop of `IO_Event_Array_free` and `IO_Event_Array_each`: the callback gets each element that
  -- is not `NULL`, and a state `S`.
  pub each_loop : {S : Type 0} → (E → S → S) → (rounds i : ℕ) → List (Option E) → S → Option S
  each_loop callback zero i base s = some s
  each_loop callback (suc n) i base s = elim (get_elem? base i) [
    | none ↦ none
    | some none ↦ each_loop callback n (suc i) base s
    | some (some e) ↦ each_loop callback n (suc i) base (callback e s)
  ]

  -- `IO_Event_Array_each`, with a callback that reads the elements.
  pub each : {S : Type 0} → (E → S → S) → Array E → S → Option S
  unfolding each_loop
  each callback a s = each_loop callback a.limit 0 a.base s

  -- `IO_Event_Array_free`: what `element_free` and `xfree` make of a state `S`, and the array.
  pub free : {S : Type 0} → (E → S → S) → Array E → S → Option (S × Array E)
  unfolding each_loop
  free element_free a s =
      if a.count == 0 then some (s, a) else elim (each_loop element_free a.limit 0 a.base s) [
        | none ↦ none
        | some s' ↦ some (s', record a { base = []; count = 0; limit = 0 })
      ]

  -- `IO_Event_Array_push`
  pub push : (slots element : Bool) (fresh : E) → Array E → Result E × Array E
  unfolding lookup
  push slots element fresh a = lookup slots element fresh a.limit a
