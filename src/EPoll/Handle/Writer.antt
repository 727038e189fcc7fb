-- ===== src/EPoll/Handle/Writer.antt =====
-- Fibers that wait for writability alone, on a descriptor of which the kernel reports an error or a
-- hangup, and that it cannot be written to.
use io_event.Base.{
  ==-refl, ℕ, zero, suc, ◌<◌, ◌≡◌, refl, ap, ◌∙◌, true, false, some, List, [], ◌∷◌, arith, Ptr,
  ◌==◌, length, ◌∈◌, ◌∉◌,
}
use Prim.Native.Nat.{bit_and, bit_or}
use io_event.Links.{Links}
use io_event.List.Shape.{IsList}
use io_event.Fiber.{Ruby}
use io_event.System.{success}
use io_event.Selector.{Selector}
use io_event.EPoll.{EPoll, Kernel, writable, epollout, events_from_epoll_flags, descriptor_update}
use io_event.EPoll.Flags.{writer_unnoticed}
use io_event.EPoll.Handle.{ended, updated, handle_loop, handle_on, reset_waiting, still_waiting}

module _ {K : Type 0} (ruby : Ruby (Selector (EPoll K))) (d saved : Ptr) where
  -- All that the loop leaves alone when nobody is resumed.
  pub record Untouched (s t : Selector (EPoll K)) : Type 0 where
    pub links : t.outside.links ≡ s.outside.links
    pub registered_events : t.outside.registered_events ≡ s.outside.registered_events
    pub io : t.outside.io ≡ s.outside.io
    pub ready : t.outside.ready ≡ s.outside.ready
    pub kernel : t.outside.kernel ≡ s.outside.kernel

  abbrev first_of : List Ptr → Ptr
  first_of [] = d
  first_of (x ∷ xs) = x

  abbrev union_after : List Ptr → ℕ → ℕ
  union_after [] union = union
  union_after (x ∷ xs) union = writable

  union_step : (xs : List Ptr) (union : ℕ) → union ≡ writable → union_after xs union ≡ writable
  union_step [] union e = e
  union_step (x ∷ xs) union e = refl

  passes :
      (e fuel : ℕ) (xs : List Ptr) (a : Ptr) (s : Selector (EPoll K))
      → Links s.outside.links.tail s.outside.links.head a xs d
      → d ∉ xs
      → ((x : Ptr) → x ∈ xs → s.outside.events x ≡ writable)
      → bit_and writable e ≡ 0
      → length xs < fuel
      → bit_or (s.outside.waiting_events d) writable ≡ writable
      → (t : Selector (EPoll K)) × (handle_loop ruby d saved e fuel (s.outside.links.tail a) s
          ≡ some (ended, t))
        × Untouched s t
        × (t.outside.waiting_events d ≡ union_after xs (s.outside.waiting_events d))
  unfolding handle_loop
  passes e zero xs a s links out all blind enough w = absurd (omega arith)
  passes e (suc n) [] a s links out all blind enough w = (
    s,
    ground (arith, links.0),
    record { links = refl; registered_events = refl; io = refl; ready = refl; kernel = refl },
    refl,
  )
  passes e (suc n) (x ∷ xs) a s links out all blind enough w =
      let at = all x (ground arith) in
      let joined : (still_waiting d x s).outside.waiting_events d ≡ writable =
        ground (arith, ap (bit_or (s.outside.waiting_events d)) at, w) in
      let ne : (x == d) ≡ false = ground (arith, out) in
      let none_of : (bit_and (s.outside.events x) e == 0) ≡ true =
        ap (λ m. bit_and m e == 0) at ∙ ap (λ m. m == 0) blind in
      let (t, run, same, w') =
        passes e n xs x (still_waiting d x s) links.2 (ground arith) (λ y i. all y (ground arith))
          blind (omega arith) (ap (λ w. bit_or w writable) joined) in
      (
        t,
        ap (λ p. handle_loop ruby d saved e (suc n) p s) links.0 ∙ simp (ne, none_of) run,
        record {
          links = same.links;
          registered_events = same.registered_events;
          io = same.io;
          ready = same.ready;
          kernel = same.kernel;
        },
        w' ∙ union_step xs _ joined,
      )

  -- Fibers wait on a descriptor for writability alone, the kernel watches it for that, and it reports
  -- something without `EPOLLOUT`, `EPOLLERR` or `EPOLLHUP` included: then the handler resumes no fiber,
  -- leaves the list and the kernel as they are, and counts the report as handled, so that the kernel
  -- goes on to report it.
  pub writers_passed :
      (kernel : Kernel K) (fd flags fuel : ℕ) (x : Ptr) (xs : List Ptr) (s : Selector (EPoll K))
      → IsList s.outside.links d (x ∷ xs)
      → ((y : Ptr) → y ∈ x ∷ xs → s.outside.events y ≡ writable)
      → s.outside.registered_events d ≡ writable
      → flags < 32
      → bit_and flags epollout ≡ 0
      → length (x ∷ xs) < fuel
      → (t : Selector (EPoll K)) × (handle_on ruby kernel fuel fd flags d saved s
          ≡ some (updated (success 0), t))
        × Untouched s t
  unfolding handle_on descriptor_update
  writers_passed kernel fd flags fuel x xs s is all registered short out enough =
      let e = events_from_epoll_flags flags in
      let (t, run, same, w) =
        passes e fuel (x ∷ xs) d (reset_waiting d s) is.links is.distinct.0 all
          (writer_unnoticed flags short out) enough (ground arith) in
      let agreed : (t.outside.registered_events d == t.outside.waiting_events d) ≡ true =
        ground (arith, ap (λ f. f d) same.registered_events, registered, w) in
      (
        t,
        simp (run, ==-refl (t.outside.io d), agreed),
        record {
          links = same.links;
          registered_events = same.registered_events;
          io = same.io;
          ready = same.ready;
          kernel = same.kernel;
        },
      )
