-- ===== src/Array/Lookup.antt =====
-- `IO_Event_Array_lookup` and `IO_Event_Array_push` against a map from indices to elements.
use io_event.Base.{
  inr, inl, Bool-cases, subst, ◌^◌, ◌%◌, get_elem?-ge_length, sym, ◌⊎◌, ap, ◌≢◌,
  get_elem?-lt_length, dec_lt, get_elem?-set, ℕ, ◌+◌, ◌≤◌, ◌<◌, ◌≡◌, refl, ◌∙◌, Bool, true, false,
  ◌&&◌, Option, none, some, arith, ltb, ◌==◌, if◌then◌else◌, get_elem?, set, length-set,
}
use io_event.Array.{
  lookup_count, access_after, lookup, default_count, maximum_count, Array, Result, ok, err,
  no_memory, access,
}
use io_event.Array.Slots.{same-Extends, Extends, Resized, resize-Resized}
use io_event.Array.Shape.{IsValid}

abbrev content : {E : Type 0} → Option (Option E) → Option E
content none = none
content (some s) = s

-- What an array stands for: the element at each index, if there is one.
abbrev pub slot : {E : Type 0} → Array E → ℕ → Option E
slot a i = content (get_elem? a.base i)

abbrev or_else : {E : Type 0} → Option E → E → E
or_else none e = e
or_else (some x) e = x

-- What `IO_Event_Array_lookup` does on each of its ways out, for an index that an array can have.
abbrev pub Found : {E : Type 0} → Bool → Bool → E → ℕ → Array E → Result E × Array E → Type 0
Found slots element fresh index a (ok e, b) =
    (e ≡ or_else (slot a index) fresh)
    × ((j : ℕ) → slot b j ≡ (if index == j then some e else slot a j))
    × IsValid b
    × (index < b.limit)
    × (a.limit ≤ b.limit)
Found slots element fresh index a (err x, b) =
    (x ≡ no_memory) × ((slots && element) ≡ false) × ((j : ℕ) → slot b j ≡ slot a j) × IsValid b

module _ {E : Type 0} {a : Array E} (v : IsValid a) (fresh : E) (index : ℕ)
    (inside : index < a.count) where
  access_old :
      (granted slots : Bool) (e : E)
      → get_elem? a.base index ≡ some (some e)
      → Found slots granted fresh index a (access granted fresh index (index + 1) a)
  unfolding access
  access_old granted slots e at =
      let run : access granted fresh index (index + 1) a ≡ (ok e, a) = rw (at, access) in
      rw run (rw at, λ j. ground (arith, at), v, ground (arith, v.clear index), omega arith)

  filled : Array E
  filled = record a {
    base = set a.base index (some fresh);
    limit = if ltb a.limit (index + 1) then index + 1 else a.limit;
  }

  slot-filled : (j : ℕ) → slot filled j ≡ (if index == j then some fresh else slot a j)
  unfolding filled
  slot-filled j =
      ground (arith, get_elem?-set a.base index (some fresh) j (omega (arith, v.allocated)))

  filled-IsValid : IsValid filled
  unfolding filled
  filled-IsValid = record {
    allocated = length-set a.base index (some fresh) ∙ v.allocated;
    fits = v.fits;
    limit_in = ground (arith, v.limit_in);
    clear = λ i ge lt. ground (
      arith,
      v.clear i,
      v.allocated,
      length-set a.base index (some fresh),
      get_elem?-set a.base index (some fresh) i,
    );
  }

  access_new :
      (granted slots : Bool)
      → get_elem? a.base index ≡ some none
      → Found slots granted fresh index a (access granted fresh index (index + 1) a)
  unfolding access
  access_new true slots at =
      let run : access true fresh index (index + 1) a ≡ (ok fresh, filled) =
        unfold filled in rw (at, access) in
      rw run (
        rw at,
        slot-filled,
        filled-IsValid,
        unfold filled in ground arith,
        unfold filled in ground arith,
      )
  access_new false slots at =
      let run : access false fresh index (index + 1) a ≡ (err no_memory, a) = rw (at, access) in
      rw run (refl, ground arith, λ j. refl, v)

slot-Extends :
    {E : Type 0} {a b : Array E} (j : ℕ) → Extends a b → IsValid a → IsValid b → slot b j ≡ slot a j
slot-Extends {a} {b} j ext v w = elim (dec_lt j a.count) [
  | yes old ↦ ap content (ext.kept j old)
  | no new ↦ elim (dec_lt j b.count) [
    | yes added ↦
        ap content (ext.new j (omega arith) added)
        ∙ ap content (sym (get_elem?-ge_length a.base j (omega (arith, v.allocated))))
    | no out ↦ ap content (
        get_elem?-ge_length b.base j (omega (arith, w.allocated))
        ∙ sym (get_elem?-ge_length a.base j (omega (arith, v.allocated))))
  ]
]

module _ {E : Type 0} (fresh : E) (index : ℕ) where
  access-Found :
      {a : Array E} (slots element : Bool)
      → IsValid a
      → index < a.count
      → Found slots element fresh index a (access element fresh index (index + 1) a)
  access-Found {a} slots element v inside =
      let (s, at) = get_elem?-lt_length a.base index (omega (arith, v.allocated)) in by_slot s at
    where
      by_slot :
          (s : Option E)
          → get_elem? a.base index ≡ some s
          → Found slots element fresh index a (access element fresh index (index + 1) a)
      by_slot none at = access_new v fresh index inside element slots at
      by_slot (some e) at = access_old v fresh index inside element slots e at

  Found-Extends :
      {a b : Array E} (slots element : Bool) (r : Result E × Array E)
      → Extends a b
      → IsValid a
      → IsValid b
      → Found slots element fresh index b r
      → Found slots element fresh index a r
  Found-Extends slots element (ok e, c) ext v w (found, at, valid, above, mono) = (
    ground (arith, slot-Extends index ext v w),
    λ j. ground (arith, slot-Extends j ext v w, at j),
    valid,
    above,
    ground (arith, ext.limit),
  )
  Found-Extends slots element (err x, c) ext v w (why, gone, at, valid) =
      (why, gone, λ j. at j ∙ slot-Extends j ext v w, valid)

  access_after-Found :
      {a : Array E} (slots element : Bool) (p : Result (Unit {0}) × Array E)
      → IsValid a
      → Resized slots (index + 1) a p
      → Found slots element fresh index a (access_after element fresh index (index + 1) p)
  unfolding access_after
  access_after-Found slots element (ok _, b) v (ext, w, big) =
      Found-Extends slots element _ ext v w (access-Found slots element w (omega arith))
  access_after-Found slots element (err e, b) v (why, gone, same) =
      (why, ground arith, λ j. ap (λ c. slot c j) same, subst IsValid (sym same) v)

  lookup_count-Found :
      {a : Array E} (slots element : Bool)
      → IsValid a
      → (a.count ≢ 0) ⊎ (index < default_count)
      → index < maximum_count
      → Found slots element fresh index a (lookup_count slots element fresh index (index + 1) a)
  unfolding lookup_count
  lookup_count-Found {a} slots element v reach small = elim (Bool-cases (ltb a.count (index + 1))) [
    | inl more ↦ rw more (
        access_after-Found slots element _ v
          (resize-Resized v slots (index + 1) (omega arith) (ground arith)))
    | inr fits ↦
        rw fits (access_after-Found slots element (ok tt, a) v (same-Extends v, v, ground arith))
  ]

  -- On a valid array of nonzero size, and an index that an array can have, a lookup returns the
  -- element at the index, or a new one put there; every other index keeps its element. It fails only
  -- where memory runs out, and then no index changes. The array stays valid on every branch.
  pub lookup-Found :
      {a : Array E} (slots element : Bool)
      → IsValid a
      → (a.count ≢ 0) ⊎ (index < default_count)
      → index < maximum_count
      → Found slots element fresh index a (lookup slots element fresh index a)
  unfolding lookup
  lookup-Found slots element v reach small =
      let wrap : (index + 1) % 2 ^ 64 ≡ index + 1 = omega arith in
      rw wrap (lookup_count-Found slots element v reach small)

-- An element that is there already is returned, and nothing changes.
pub lookup_present :
    {E : Type 0} (slots element : Bool) (fresh e : E) (index : ℕ) (a : Array E)
    → get_elem? a.base index ≡ some (some e)
    → index < a.count
    → index + 1 < 2 ^ 64
    → lookup slots element fresh index a ≡ (ok e, a)
unfolding lookup lookup_count access_after access
lookup_present slots element fresh e index a there room small =
    let wrap : (index + 1) % 2 ^ 64 ≡ index + 1 = omega (arith, small) in
    let enough : ltb a.count (index + 1) ≡ false = ground (arith, room) in
    rw wrap (simp (enough, there) refl)
