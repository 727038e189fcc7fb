-- ===== src/Base/Lists.antt =====
-- Lists measured and indexed by native numbers, membership of addresses as a Boolean test.
use Prim.Native.Nat.{ℕ, zero, suc, ◌+◌, ◌-◌, ◌≤◌, ◌<◌}
use mathlib.Core.Path.{◌≡◌, refl, ap, ◌∙◌}
use mathlib.Core.Bool.{Bool, true, false, ◌||◌}
use mathlib.Core.List.{List, [], ◌∷◌, ◌++◌, append-nil}
use mathlib.Core.Option.{Option, none, some}
use native.Mathlib.Omega.{arith}
use io_event.Base.Tests.{◌==◌, if◌then◌else◌}

module _ {ℓ} {A : Type ℓ} where
  abbrev pub length : List A → ℕ
  length [] = 0
  length (x ∷ xs) = suc (length xs)

  abbrev pub get_elem? : List A → ℕ → Option A
  get_elem? [] i = none
  get_elem? (x ∷ xs) zero = some x
  get_elem? (x ∷ xs) (suc i) = get_elem? xs i

  abbrev pub get_or : List A → ℕ → A → A
  get_or [] i d = d
  get_or (x ∷ xs) zero d = x
  get_or (x ∷ xs) (suc i) d = get_or xs i d

  -- A write out of bounds changes nothing.
  abbrev pub set : List A → ℕ → A → List A
  set [] i v = []
  set (x ∷ xs) zero v = v ∷ xs
  set (x ∷ xs) (suc i) v = x ∷ set xs i v

  abbrev pub take : ℕ → List A → List A
  take zero xs = []
  take (suc n) [] = []
  take (suc n) (x ∷ xs) = x ∷ take n xs

  abbrev pub drop : ℕ → List A → List A
  drop zero xs = xs
  drop (suc n) [] = []
  drop (suc n) (x ∷ xs) = drop n xs

  abbrev pub replicate : ℕ → A → List A
  replicate zero a = []
  replicate (suc n) a = a ∷ replicate n a

  pub length-append : (xs ys : List A) → length (xs ++ ys) ≡ length xs + length ys
  length-append [] ys = omega arith
  length-append (x ∷ xs) ys = omega (arith, length-append xs ys)

  pub length-set : (xs : List A) (i : ℕ) (v : A) → length (set xs i v) ≡ length xs
  length-set [] i v = refl
  length-set (x ∷ xs) zero v = refl
  length-set (x ∷ xs) (suc i) v = ap suc (length-set xs i v)

  pub length-replicate : (n : ℕ) (a : A) → length (replicate n a) ≡ n
  length-replicate zero a = refl
  length-replicate (suc n) a = ap suc (length-replicate n a)

module _ {ℓ} {A : Type ℓ} where
  pub get_elem?-set :
      (xs : List A) (i : ℕ) (v : A) (j : ℕ)
      → i < length xs
      → get_elem? (set xs i v) j ≡ (if i == j then some v else get_elem? xs j)
  get_elem?-set [] i v j h = elim h [ ]
  get_elem?-set (x ∷ xs) zero v zero h = refl
  get_elem?-set (x ∷ xs) zero v (suc j) h = ground arith
  get_elem?-set (x ∷ xs) (suc i) v zero h = ground arith
  get_elem?-set (x ∷ xs) (suc i) v (suc j) h = ground (arith, get_elem?-set xs i v j)

  pub get_elem?-append_lt :
      (xs ys : List A) (i : ℕ) → i < length xs → get_elem? (xs ++ ys) i ≡ get_elem? xs i
  get_elem?-append_lt [] ys i h = elim h [ ]
  get_elem?-append_lt (x ∷ xs) ys zero h = refl
  get_elem?-append_lt (x ∷ xs) ys (suc i) h = get_elem?-append_lt xs ys i (omega arith)

  pub get_elem?-append_ge :
      (xs ys : List A) (i : ℕ)
      → length xs ≤ i
      → get_elem? (xs ++ ys) i ≡ get_elem? ys (i - length xs)
  get_elem?-append_ge [] ys i h = ap (get_elem? ys) (omega arith)
  get_elem?-append_ge (x ∷ xs) ys zero h = absurd (omega arith)
  get_elem?-append_ge (x ∷ xs) ys (suc i) h =
      get_elem?-append_ge xs ys i (omega arith) ∙ ap (get_elem? ys) (omega arith)

  pub get_elem?-replicate : (n : ℕ) (a : A) (i : ℕ) → i < n → get_elem? (replicate n a) i ≡ some a
  get_elem?-replicate zero a i h = elim h [ ]
  get_elem?-replicate (suc n) a zero h = refl
  get_elem?-replicate (suc n) a (suc i) h = get_elem?-replicate n a i (omega arith)

  pub get_elem?-ge_length : (xs : List A) (i : ℕ) → length xs ≤ i → get_elem? xs i ≡ none
  get_elem?-ge_length [] i h = refl
  get_elem?-ge_length (x ∷ xs) zero h = absurd (omega arith)
  get_elem?-ge_length (x ∷ xs) (suc i) h = get_elem?-ge_length xs i (omega arith)

  pub eq_nil_of_length : (xs : List A) → length xs ≡ 0 → xs ≡ []
  eq_nil_of_length [] h = refl
  eq_nil_of_length (x ∷ xs) h = absurd (omega arith)

  pub get_elem?-lt_length :
      (xs : List A) (i : ℕ) → i < length xs → (a : A) × (get_elem? xs i ≡ some a)
  get_elem?-lt_length [] i h = elim h [ ]
  get_elem?-lt_length (x ∷ xs) zero h = (x, refl)
  get_elem?-lt_length (x ∷ xs) (suc i) h = get_elem?-lt_length xs i (omega arith)

-- Does the address or number `a` stand in the list?
abbrev pub has : ℕ → List ℕ → Bool
has a [] = false
has a (x ∷ xs) = (a == x) || has a xs

infix 40 ◌∈◌ ◌∉◌
abbrev pub ◌∈◌ : ℕ → List ℕ → Type 0
a ∈ xs = has a xs ≡ true

abbrev pub ◌∉◌ : ℕ → List ℕ → Type 0
a ∉ xs = has a xs ≡ false

abbrev pub IsDistinct : List ℕ → Type 0
IsDistinct [] = Unit {0}
IsDistinct (x ∷ xs) = (x ∉ xs) × IsDistinct xs

pub has-append : (a : ℕ) (xs ys : List ℕ) → has a (xs ++ ys) ≡ (has a xs || has a ys)
has-append a [] ys = refl
has-append a (x ∷ xs) ys = ground (arith, has-append a xs ys)

-- A fresh address put anywhere into a distinct list leaves it distinct.
pub IsDistinct-insert :
    (x : ℕ) (ys xs : List ℕ) → x ∉ ys ++ xs → IsDistinct (ys ++ xs) → IsDistinct (ys ++ x ∷ xs)
IsDistinct-insert x [] xs out d = (out, d)
IsDistinct-insert x (y ∷ ys) xs out d = (
  ground (arith, has-append y ys (x ∷ xs), has-append y ys xs),
  IsDistinct-insert x ys xs (ground arith) d.1,
)

pub has-append_comm : (a : ℕ) (xs ys : List ℕ) → has a (xs ++ ys) ≡ has a (ys ++ xs)
has-append_comm a xs ys = ground (arith, has-append a xs ys, has-append a ys xs)

pub IsDistinct-append_comm : (xs ys : List ℕ) → IsDistinct (xs ++ ys) → IsDistinct (ys ++ xs)
IsDistinct-append_comm [] ys d = rw append-nil d
IsDistinct-append_comm (x ∷ xs) ys d =
    IsDistinct-insert x ys xs (has-append_comm x ys xs ∙ d.0) (IsDistinct-append_comm xs ys d.1)

pub IsDistinct-remove :
    (xs : List ℕ) (n : ℕ) (ys : List ℕ)
    → IsDistinct (xs ++ n ∷ ys)
    → IsDistinct (xs ++ ys) × (n ∉ xs ++ ys)
IsDistinct-remove [] n ys d = (d.1, d.0)
IsDistinct-remove (x ∷ xs) n ys d =
    let (e, out) = IsDistinct-remove xs n ys d.1 in
    (
      (ground (arith, has-append x xs (n ∷ ys), has-append x xs ys), e),
      ground (arith, has-append x xs (n ∷ ys)),
    )

pub ne_of_mem : (p q : ℕ) (xs : List ℕ) → p ∉ xs → q ∈ xs → (p == q) ≡ false
ne_of_mem p q xs out i = ground arith
