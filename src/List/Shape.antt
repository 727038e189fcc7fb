-- ===== src/List/Shape.antt =====
-- The shape of a list of list.h in memory.
use io_event.Base.{
  has-append_comm, IsDistinct-append_comm, ◌≡◌, ◌∙◌, ◌≢◌, List, ◌∷◌, ◌++◌, Ptr, null, ◌∉◌,
  IsDistinct,
}
use io_event.Links
use io_event.Links.{Links}
use io_event.List.{Heap}

-- From the sentinel `list` the `tail` links lead through the items `xs` and back to it, the `head`
-- links go the other way round, and no node occurs twice or is `NULL`.
pub record IsList (h : Heap) (list : Ptr) (xs : List Ptr) : Type 0 where
  pub links : Links h.tail h.head list xs list
  pub distinct : IsDistinct (list ∷ xs)
  pub nonnull : null ∉ list ∷ xs

-- A node that stands in no list.
pub record IsDetached (h : Heap) (node : Ptr) : Type 0 where
  pub nonnull : node ≢ null
  pub head : h.head node ≡ null
  pub tail : h.tail node ≡ null

-- `g` is `h`, but for the links of the nodes `xs`.
pub record SameOutside (xs : List Ptr) (h g : Heap) : Type 0 where
  pub head : (p : Ptr) → p ∉ xs → g.head p ≡ h.head p
  pub tail : (p : Ptr) → p ∉ xs → g.tail p ≡ h.tail p
  pub type : (p : Ptr) → g.type p ≡ h.type p

-- A ring can be entered at any of its nodes.
pub IsList-rotate :
    {h : Heap} (s : Ptr) (xs : List Ptr) (y : Ptr) (ys : List Ptr)
    → IsList h s (xs ++ y ∷ ys)
    → IsList h y (ys ++ s ∷ xs)
IsList-rotate {h} s xs y ys is =
    let (before, after) = Links.split h.tail h.head s xs y ys s is.links in
    record {
      links = Links.join h.tail h.head y ys s xs y after before;
      distinct = IsDistinct-append_comm (s ∷ xs) (y ∷ ys) is.distinct;
      nonnull = has-append_comm null (y ∷ ys) (s ∷ xs) ∙ is.nonnull;
    }

pub SameOutside-mono :
    {h g : Heap} (xs ys : List Ptr)
    → SameOutside xs h g
    → ((p : Ptr) → p ∉ ys → p ∉ xs)
    → SameOutside ys h g
SameOutside-mono xs ys same sub = record {
  head = λ p out. same.head p (sub p out);
  tail = λ p out. same.tail p (sub p out);
  type = same.type;
}
