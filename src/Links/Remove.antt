-- ===== src/Links/Remove.antt =====
-- An address unlinked from the middle of a chain.
use io_event.Base.{List, [], ◌∷◌, ◌++◌, arith, Ptr, null, update, ◌∉◌, IsDistinct, has-append}
use io_event.Links.{Links, frame, split, prev-mem, next-mem}

module _ (next prev : Ptr → Ptr) (n : Ptr) where
  abbrev pub removed_next : Ptr → Ptr
  removed_next = update (update next (prev n) (next n)) n null

  abbrev pub removed_prev : Ptr → Ptr
  removed_prev = update (update prev (next n) (prev n)) n null

  -- What stood on both sides of `n` is joined, and `n` itself points nowhere.
  pub remove :
      (a : Ptr) (xs ys : List Ptr) (b : Ptr)
      → Links next prev a (xs ++ n ∷ ys) b
      → IsDistinct (a ∷ (xs ++ n ∷ ys))
      → b ∉ xs ++ n ∷ ys
      → Links removed_next removed_prev a (xs ++ ys) b
  remove a [] [] b l d out = ground arith
  remove a [] (y ∷ ys) b l d out = (
    ground arith,
    ground arith,
    frame next prev y ys b l.2.2 (λ c i. ground arith) (λ c i. ground arith),
  )
  remove a (x ∷ xs) ys b l d out =
      let (s, t) = split next prev x xs n ys b l.2 in
      (
        ground (
          arith,
          prev-mem next prev x xs n s,
          has-append a xs (n ∷ ys),
          has-append x xs (n ∷ ys),
        ),
        ground (
          arith,
          next-mem next prev n ys b t,
          has-append x xs (n ∷ ys),
          has-append b xs (n ∷ ys),
        ),
        remove x xs ys b l.2 d.1 (ground arith),
      )
