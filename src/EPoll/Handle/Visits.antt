-- ===== src/EPoll/Handle/Visits.antt =====
-- What the loop of `IO_Event_Selector_EPoll_handle` does with the list of a descriptor.
use io_event.Base.{ℕ, ◌≡◌, true, false, some, List, [], ◌∷◌, ◌++◌, Ptr, ◌==◌, if◌then◌else◌, ◌∈◌}
use Prim.Native.Nat.{bit_and}
use io_event.Base.Bits.{◌⊑◌}
use io_event.List.{append, pop}
use io_event.List.Shape.{IsList}
use io_event.Fiber.{returned, Ruby}
use io_event.Selector.{Selector, loop_resume}
use io_event.EPoll.{EPoll, on_links}
use io_event.EPoll.Handle.{on_poll, still_waiting, set_ready}

-- `xs` is `ys` without some of its items.
pub data Sub : List Ptr → List Ptr → Type 0 where
  sub_nil : Sub [] []
  sub_keep : {x : Ptr} {xs ys : List Ptr} → Sub xs ys → Sub (x ∷ xs) (x ∷ ys)
  sub_drop : {y : Ptr} {xs ys : List Ptr} → Sub xs ys → Sub xs (y ∷ ys)

module _ {K : Type 0} (ruby : Ruby (Selector (EPoll K))) (d saved : Ptr) (ready_events : ℕ) where
  -- The events of the nodes `xs` are in the union of the descriptor.
  abbrev pub IsCovered : Selector (EPoll K) → List Ptr → Type 0
  IsCovered s xs = (x : Ptr) → x ∈ xs → s.outside.events x ⊑ s.outside.waiting_events d

  -- The first of the nodes that the loop has still to visit.
  abbrev pub first : List Ptr → Ptr
  first [] = d
  first (x ∷ xs) = x

  -- The nodes that wait for an event that was reported.
  abbrev pub matching : (Ptr → ℕ) → List Ptr → List Ptr
  matching events [] = []
  matching events (x ∷ xs) =
      if bit_and (events x) ready_events == 0 then matching events xs else x ∷ matching events xs

  -- A turn of the fiber of `x`: it comes back; its node, and maybe others that waited, have left the
  -- list; what has joined the list stands before the mark `saved`, and the union covers it.
  pub record Turn (front : List Ptr) (x : Ptr) (rest : List Ptr) (s u : Selector (EPoll K))
      (front' rest' : List Ptr) : Type 0 where
    pub value : ℕ
    pub run : loop_resume ruby (s.outside.fiber x) [] s ≡ some (returned value, u)
    pub list : IsList u.outside.links d (front' ++ saved ∷ rest')
    pub left : Sub rest' rest
    pub events : (y : Ptr) → y ∈ rest' → u.outside.events y ≡ s.outside.events y
    pub covered : IsCovered s front → IsCovered u front'

  -- A course of events in which the loop has visited the nodes `front` and has still to visit `todo`,
  -- and resumes the fibers of `resumed` in turn.
  pub data Visits
      : Selector (EPoll K)
        → (front todo resumed : List Ptr) → Selector (EPoll K)
        → List Ptr
        → Type 0 where
    done :
        {s : Selector (EPoll K)} {front : List Ptr}
        → IsList s.outside.links d front
        → Visits s front [] [] s front
    passed :
        {s u : Selector (EPoll K)} {front : List Ptr} {x : Ptr} {rest resumed final : List Ptr}
        → IsList s.outside.links d (front ++ x ∷ rest)
        → (bit_and (s.outside.events x) ready_events == 0) ≡ true
        → Visits (still_waiting d x s) (front ++ x ∷ []) rest resumed u final
        → Visits s front (x ∷ rest) resumed u final
    turned :
        {s t u v w : Selector (EPoll K)} {front : List Ptr} {x : Ptr}
        {rest front' rest' resumed final : List Ptr}
        → IsList s.outside.links d (front ++ x ∷ rest)
        → (bit_and (s.outside.events x) ready_events == 0) ≡ false
        → on_poll (on_links (append x saved)) s ≡ some (tt, t)
        → Turn front x rest
            (set_ready x (bit_and (s.outside.events x) ready_events) t)
            u
            front'
            rest'
        → on_poll (on_links (pop saved)) u ≡ some (tt, v)
        → Visits v front' rest' resumed w final
        → Visits s front (x ∷ rest) (x ∷ resumed) w final
