-- ===== src/Links.antt =====
-- Doubly linked chains over two address maps, shared by the intrusive list (list.h) and the ready
-- queue (selector.c). `next` and `prev` give the two links of each address.
pub mod Insert
pub mod Remove
use io_event.Base.{Ptr, ◌≡◌, List, [], ◌∷◌, ◌++◌, ◌∈◌, ◌||◌, has, ◌==◌, true, refl, arith}

-- From `a` the `next` links lead through `xs` to `b`, and the `prev` links lead back.
abbrev pub Links : (next prev : Ptr → Ptr) → Ptr → List Ptr → Ptr → Type 0
Links next prev a [] b = (next a ≡ b) × (prev b ≡ a)
Links next prev a (x ∷ xs) b = (next a ≡ x) × (prev x ≡ a) × Links next prev x xs b

module _ (next prev : Ptr → Ptr) where
  -- A chain depends only on the `next` links of its start and middle and the `prev` links of its
  -- middle and end.
  pub frame :
      {next' prev' : Ptr → Ptr} (a : Ptr) (xs : List Ptr) (b : Ptr)
      → Links next prev a xs b
      → ((c : Ptr) → ((c == a) || has c xs) ≡ true → next' c ≡ next c)
      → ((c : Ptr) → ((c == b) || has c xs) ≡ true → prev' c ≡ prev c)
      → Links next' prev' a xs b
  frame a [] b l n p = ground (arith, n a, p b)
  frame a (x ∷ xs) b l n p = (
    ground (arith, n a),
    ground (arith, p x),
    frame x xs b l.2 (λ c i. n c (ground arith)) (λ c i. p c (ground arith)),
  )

  pub split :
      (a : Ptr) (xs : List Ptr) (y : Ptr) (ys : List Ptr) (b : Ptr)
      → Links next prev a (xs ++ y ∷ ys) b
      → Links next prev a xs y × Links next prev y ys b
  split a [] y ys b l = ((l.0, l.1), l.2)
  split a (x ∷ xs) y ys b l = let (s, t) = split x xs y ys b l.2 in ((l.0, l.1, s), t)

  pub join :
      (a : Ptr) (xs : List Ptr) (y : Ptr) (ys : List Ptr) (b : Ptr)
      → Links next prev a xs y
      → Links next prev y ys b
      → Links next prev a (xs ++ y ∷ ys) b
  join a [] y ys b s t = (s.0, s.1, t)
  join a (x ∷ xs) y ys b s t = (s.0, s.1, join x xs y ys b s.2 t)

  -- The last link back from the end comes from the chain.
  pub prev-mem : (a : Ptr) (xs : List Ptr) (b : Ptr) → Links next prev a xs b → prev b ∈ a ∷ xs
  prev-mem a [] b l = ground arith
  prev-mem a (x ∷ xs) b l = ground (arith, prev-mem x xs b l.2)

  pub next-mem : (a : Ptr) (xs : List Ptr) (b : Ptr) → Links next prev a xs b → next a ∈ b ∷ xs
  next-mem a [] b l = ground arith
  next-mem a (x ∷ xs) b l = ground arith
