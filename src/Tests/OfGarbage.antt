-- ===== src/Tests/OfGarbage.antt =====
-- The walk for the garbage collector over a selector of epoll.c with one descriptor, whose list has
-- the node 2 of the fiber 7.
use io_event.Base.{ℕ, ◌≡◌, refl, subst, some, List, [], ◌∷◌, arith, Ptr, ◌∈◌}
use io_event.Selector.{Selector}
use io_event.Selector.Queue.{IsQueue}
use io_event.List.Shape.{IsList}
use io_event.Array.{Array}
use io_event.Array.Shape.{IsValid}
use io_event.EPoll.{EPoll}
use io_event.EPoll.Visit.{type_mark}
use io_event.EPoll.Visit.Reaches.{Reached, Listed, type_mark-reaches}
use io_event.Tests.OfEPoll.{Interests, process, reading, one_item-IsList}

abbrev one_descriptor : Array Ptr
one_descriptor = record { base = some 1 ∷ []; count = 1; limit = 1; element_size = 40 }

one_descriptor-IsValid : IsValid one_descriptor
one_descriptor-IsValid = record {
  allocated = refl;
  fits = omega arith;
  limit_in = omega arith;
  clear = λ i ge lt. absurd (omega (arith, ge, lt));
}

abbrev watching : Selector (EPoll Interests)
watching = process (record reading { descriptors = one_descriptor })

watching-IsQueue : IsQueue watching []
watching-IsQueue = record { links = (refl, refl); distinct = ground arith }

abbrev items : Ptr → List Ptr
items d = 2 ∷ []

watching-Listed : Listed watching items 2 (1 ∷ [])
watching-Listed d i =
    let here : 1 ≡ d = ground (arith, i) in
    (subst (λ c. IsList watching.outside.links c (2 ∷ [])) here one_item-IsList, omega arith)

type_mark-reaches_example :
    (m : List ℕ) × (type_mark 2 watching ≡ some m)
    × Reached watching items 2 (1 ∷ []) m
    × ((y : ℕ) → y ∈ 1 ∷ 50 ∷ [] → y ∈ m)
type_mark-reaches_example =
    type_mark-reaches watching items 2 [] watching-IsQueue (omega arith) one_descriptor-IsValid
      watching-Listed
