-- ===== src/Links/Insert.antt =====
-- A fresh address linked in at either end of a chain.
use io_event.Base.{List, [], ◌∷◌, ◌++◌, arith, Ptr, update, ◌∉◌, IsDistinct}
use io_event.Links.{Links, frame, prev-mem}

module _ (next prev : Ptr → Ptr) (n : Ptr) where
  -- The maps after `n` is linked in between the last address of a chain and its end `b`.
  pub insert_last :
      (a : Ptr) (xs : List Ptr) (b : Ptr)
      → Links next prev a xs b
      → IsDistinct (a ∷ xs)
      → n ∉ a ∷ xs
      → n ∉ b ∷ []
      → b ∉ xs
      → Links
          (update (update next n b) (prev b) n)
          (update (update prev n (prev b)) b n)
          a
          (xs ++ n ∷ [])
          b
  insert_last a [] b l d na nb out = ground arith
  insert_last a (x ∷ xs) b l d na nb out = (
    ground (arith, prev-mem next prev x xs b l.2),
    ground arith,
    insert_last x xs b l.2 d.1 (ground arith) nb (ground arith),
  )

  -- The maps after `n` is linked in between the start `a` and what followed it.
  pub insert_first :
      (a : Ptr) (xs : List Ptr) (b : Ptr)
      → Links next prev a xs b
      → IsDistinct xs
      → a ∉ xs
      → n ∉ a ∷ xs
      → n ∉ b ∷ []
      → b ∉ xs
      → Links
          (update (update next n (next a)) a n)
          (update (update prev n a) (next a) n)
          a
          (n ∷ xs)
          b
  insert_first a [] b l d out na nb out' = ground arith
  insert_first a (x ∷ xs) b l d out na nb out' = (
    ground arith,
    ground arith,
    (
      ground arith,
      ground arith,
      frame next prev x xs b l.2 (λ c i. ground arith) (λ c i. ground arith),
    ),
  )
