-- ===== src/List/Visit.antt =====
-- What the traversals of list.h compute.
use io_event.Base.{
  ℕ, zero, suc, ◌+◌, ◌*◌, ◌%◌, ◌^◌, ◌≤◌, ◌<◌, ◌≡◌, ap, ◌∙◌, ◌↔◌, true, some, List, [], ◌∷◌, arith,
  Ptr, null, ◌==◌, if◌then◌else◌, length, ◌∉◌,
}
use io_event.Links
use io_event.Links.{Links}
use io_event.List.{Heap, node_size, size_loop, memory_size, empty, each_loop, immutable_each}
use io_event.List.Shape.{IsList}

size_loop_lem :
    (h : Heap) (l a : Ptr) (xs : List Ptr) (fuel memsize : ℕ)
    → Links h.tail h.head a xs l
    → l ∉ xs
    → null ∉ xs
    → length xs < fuel
    → memsize < 2 ^ 64
    → size_loop fuel l (h.tail a) memsize h ≡ some ((memsize + length xs * node_size) % 2 ^ 64)
unfolding size_loop
size_loop_lem h l a [] zero memsize links out nn enough small = absurd (omega arith)
size_loop_lem h l a [] (suc fuel) memsize links out nn enough small = ground (arith)
size_loop_lem h l a (x ∷ xs) zero memsize links out nn enough small = absurd (omega arith)
size_loop_lem h l a (x ∷ xs) (suc fuel) memsize links out nn enough small =
    ground (arith, size_loop_lem h l x xs fuel ((memsize + node_size) % 2 ^ 64) links.2)

-- Enough fuel: one round for each item and one more. Then the memory size is the number of items
-- times the size of a node, as a `size_t`.
pub memory_size_lem :
    {h : Heap} {l : Ptr} {xs : List Ptr} (fuel : ℕ)
    → IsList h l xs
    → length xs < fuel
    → memory_size fuel l h ≡ some ((length xs * node_size) % 2 ^ 64)
unfolding memory_size
memory_size_lem {h} {l} {xs} fuel is enough =
    size_loop_lem h l l xs fuel 0 is.links is.distinct.0 (ground (arith, is.nonnull)) enough
      (omega arith)
    ∙ ap (λ (n : ℕ). some (n % 2 ^ 64)) (omega arith)

-- `IO_Event_List_empty` compares the two links of the sentinel: it holds exactly when the list has
-- at most one item.
pub empty_iff_short :
    {h : Heap} {l : Ptr} (xs : List Ptr) → IsList h l xs → (empty l h ≡ true) ↔ (length xs ≤ 1)
unfolding empty
empty_iff_short [] is = ground (arith, is.links)
empty_iff_short (x ∷ []) is = ground (arith, is.links)
empty_iff_short {h} {l} (x ∷ y ∷ xs) is =
    ground (arith, is.links, is.distinct, Links.prev-mem h.tail h.head y xs l is.links.2.2)

module _ {S : Type 0} (callback : Ptr → S → S) where
  -- The callback run on the items with a type, in order.
  unfoldable pub visit : Heap → List Ptr → S → S
  visit h [] s = s
  visit h (x ∷ xs) s = visit h xs (if h.type x == null then s else callback x s)

  each_loop_lem :
      (h : Heap) (l a : Ptr) (xs : List Ptr) (fuel : ℕ) (s : S)
      → Links h.tail h.head a xs l
      → l ∉ xs
      → null ∉ xs
      → length xs < fuel
      → each_loop callback fuel l (h.tail a) h s ≡ some (visit h xs s)
  unfolding each_loop visit
  each_loop_lem h l a [] zero s links out nn enough = absurd (omega arith)
  each_loop_lem h l a [] (suc fuel) s links out nn enough = ground (arith, links)
  each_loop_lem h l a (x ∷ xs) zero s links out nn enough = absurd (omega arith)
  each_loop_lem h l a (x ∷ xs) (suc fuel) s links out nn enough = ground (
    arith,
    links,
    each_loop_lem h l x xs fuel (if h.type x == null then s else callback x s) links.2,
  )

  -- `IO_Event_List_immutable_each` runs the callback once on each item that has a type, in the order
  -- of the list, and ends.
  pub immutable_each_lem :
      {h : Heap} {l : Ptr} {xs : List Ptr} (fuel : ℕ) (s : S)
      → IsList h l xs
      → length xs < fuel
      → immutable_each callback fuel l h s ≡ some (visit h xs s)
  unfolding immutable_each
  immutable_each_lem {h} {l} {xs} fuel s is enough =
      each_loop_lem h l l xs fuel s is.links is.distinct.0 (ground (arith, is.nonnull)) enough
