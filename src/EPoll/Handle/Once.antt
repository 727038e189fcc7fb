-- ===== src/EPoll/Handle/Once.antt =====
-- The loop of `IO_Event_Selector_EPoll_handle` resumes each fiber that waits for a reported event
-- once, in order, and those that join in the meantime not at all.
use io_event.Base.{
  subst, ℕ, zero, suc, ◌≤◌, ◌<◌, ◌≡◌, refl, sym, ap, ◌∙◌, inl, inr, true, false, Option, none, some,
  List, [], ◌∷◌, ◌++◌, arith, Ptr, ◌==◌, Bool-cases, length, has, ◌∈◌, has-append,
}
use Prim.Native.Nat.{bit_and, bit_or}
use io_event.Base.Bits.{◌⊑◌, or_left, or_right, ⊑_trans}
use io_event.List.{Heap, append, pop}
use io_event.List.Shape.{IsList, IsDetached}
use io_event.List.Update.{pop-IsList}
use io_event.EPoll.Flags.{Asks, flags-Asks}
use io_event.Links
use io_event.Links.{Links}
use io_event.Fiber.{Ruby}
use io_event.Selector.{Selector}
use io_event.System.{Call}
use io_event.EPoll.{
  EPoll, Kernel, with_links, descriptor_update, epoll_flags_from_events, events_from_epoll_flags,
}
use io_event.EPoll.Update.{IsArmed, update-Updated, succeeded}
use io_event.EPoll.Waiting.{IsWaiting, same_cover}
use io_event.EPoll.Handle.{
  Handled, updated, handle_on, reset_waiting, Looped, ended, handle_loop, with_poll, still_waiting,
}
use io_event.EPoll.Handle.Visits.{
  Sub, sub_nil, sub_keep, sub_drop, IsCovered, first, matching, Visits, done, passed, turned,
}

Sub-trans : {xs ys zs : List Ptr} → Sub xs ys → Sub ys zs → Sub xs zs
Sub-trans s sub_nil = s
Sub-trans s (sub_drop t) = sub_drop (Sub-trans s t)
Sub-trans (sub_keep s) (sub_keep t) = sub_keep (Sub-trans s t)
Sub-trans (sub_drop s) (sub_keep t) = sub_drop (Sub-trans s t)

Sub-length : {xs ys : List Ptr} → Sub xs ys → length xs ≤ length ys
Sub-length sub_nil = omega arith
Sub-length (sub_keep s) = omega (arith, Sub-length s)
Sub-length (sub_drop s) = omega (arith, Sub-length s)

module _ {K : Type 0} where
  at_state :
      {A : Type 0} → (Selector (EPoll K) → A) → A → Option (Unit {0} × Selector (EPoll K)) → A
  at_state f a none = a
  at_state f a (some (u, t)) = f t

  -- What an operation on the links leaves alone.
  links_only :
      (s t : Selector (EPoll K)) (r : Option (Unit {0} × Heap))
      → with_poll s (with_links s.outside r) ≡ some (tt, t)
      → (s.outside.events ≡ t.outside.events)
        × (s.outside.waiting_events ≡ t.outside.waiting_events)
        × (s.outside.fiber ≡ t.outside.fiber)
  unfolding at_state
  links_only s t none run = ground arith
  links_only s t (some (u, h)) run = (
    ap (at_state (λ t. t.outside.events) s.outside.events) run,
    ap (at_state (λ t. t.outside.waiting_events) s.outside.waiting_events) run,
    ap (at_state (λ t. t.outside.fiber) s.outside.fiber) run,
  )

module _ {K : Type 0} (ruby : Ruby (Selector (EPoll K))) (d saved : Ptr) (ready_events : ℕ) where
  next_first :
      (h : Heap) (a : Ptr) (xs : List Ptr)
      → Links h.tail h.head a xs d
      → h.tail a ≡ first ruby d saved ready_events xs
  next_first h a [] l = l.0
  next_first h a (x ∷ xs) l = l.0

  Sub-matching :
      (e e' : Ptr → ℕ) {xs ys : List Ptr}
      → Sub xs ys
      → ((y : Ptr) → y ∈ xs → e' y ≡ e y)
      → Sub (matching ruby d saved ready_events e' xs) (matching ruby d saved ready_events e ys)
  Sub-matching e e' sub_nil same = sub_nil
  Sub-matching e e' (sub_keep {x} {xs} {ys} s) same =
      let rest = Sub-matching e e' s (λ y i. same y (ground arith)) in
      elim (Bool-cases (bit_and (e x) ready_events == 0)) [
        | inl z ↦ simp (same x (ground arith), z) rest
        | inr z ↦ simp (same x (ground arith), z) (sub_keep rest)
      ]
  Sub-matching e e' (sub_drop {y} s) same =
      let rest = Sub-matching e e' s same in
      elim (Bool-cases (bit_and (e y) ready_events == 0)) [
        | inl z ↦ simp z rest
        | inr z ↦ simp z (sub_drop rest)
      ]

  -- What is true at the end of the loop.
  pub record Once (todo resumed : List Ptr) (s w : Selector (EPoll K)) (final : List Ptr)
      (result : Option (Looped × Selector (EPoll K))) : Type 0 where
    pub run : result ≡ some (ended, w)
    pub list : IsList w.outside.links d final
    pub unmarked : IsDetached w.outside.links saved
    pub covered : IsCovered ruby d saved ready_events w final
    pub chosen : Sub resumed (matching ruby d saved ready_events s.outside.events todo)

  cover_passed :
      (s : Selector (EPoll K)) (front : List Ptr) (x : Ptr)
      → IsCovered ruby d saved ready_events s front
      → IsCovered ruby d saved ready_events (still_waiting d x s) (front ++ x ∷ [])
  cover_passed s front x c y i =
      let old = s.outside.waiting_events d in
      let union : (still_waiting d x s).outside.waiting_events d ≡ bit_or old (s.outside.events x) =
        ground arith in
      subst (λ m. s.outside.events y ⊑ m) (sym union)
        (elim (Bool-cases (has y front)) [
          | inl j ↦
              ⊑_trans (s.outside.events y) old (bit_or old (s.outside.events x)) (c y j)
                (or_left old (s.outside.events x))
          | inr out ↦
              subst (λ y. s.outside.events y ⊑ bit_or old (s.outside.events x))
                (ground (arith, has-append y front (x ∷ []))) (or_right old (s.outside.events x))
        ])

  cover_same :
      (s t : Selector (EPoll K)) (xs : List Ptr)
      → s.outside.events ≡ t.outside.events
      → s.outside.waiting_events ≡ t.outside.waiting_events
      → IsCovered ruby d saved ready_events s xs
      → IsCovered ruby d saved ready_events t xs
  cover_same s t xs events waiting c x i =
      subst (λ e. e x ⊑ t.outside.waiting_events d) events
        (subst (λ m. s.outside.events x ⊑ m d) waiting (c x i))

  -- Once the mark has been popped, it is in no list.
  unmarked :
      (u v : Selector (EPoll K)) (xs ys : List Ptr)
      → IsList u.outside.links d (xs ++ saved ∷ ys)
      → with_poll u (with_links u.outside (pop saved u.outside.links)) ≡ some (tt, v)
      → IsDetached v.outside.links saved
  unfolding at_state
  unmarked u v xs ys is unmark =
      let (h, run, _, off, _) = pop-IsList xs saved ys is in
      let same = sym (ap (λ r. with_poll u (with_links u.outside r)) run) ∙ unmark in
      subst (λ g. IsDetached g saved) (ap (at_state (λ t. t.outside.links) u.outside.links) same)
        off

  handle_loop_lem :
      (fuel : ℕ) {s : Selector (EPoll K)} {front todo resumed : List Ptr} {w : Selector (EPoll K)}
      {final : List Ptr}
      → Visits ruby d saved ready_events s front todo resumed w final
      → length todo < fuel
      → IsCovered ruby d saved ready_events s front
      → IsDetached s.outside.links saved
      → Once todo resumed s w final
          (handle_loop ruby d saved ready_events fuel (first ruby d saved ready_events todo) s)
  unfolding handle_loop
  handle_loop_lem zero visits enough c off = absurd (omega arith)
  handle_loop_lem (suc fuel) (done is) enough c off = record {
    run = ground arith;
    list = is;
    unmarked = off;
    covered = c;
    chosen = sub_nil;
  }
  handle_loop_lem (suc fuel) (passed {s} {front} {x} {rest} is none_of visits) enough c off =
      let ne : (x == d) ≡ false = ground (arith, is.distinct, has-append d front (x ∷ rest)) in
      let next =
        next_first s.outside.links x rest
          (Links.split s.outside.links.tail s.outside.links.head d front x rest d is.links).1 in
      let ih = handle_loop_lem fuel visits (omega arith) (cover_passed s front x c) off in
      record {
        run =
            simp (ne, none_of)
              (ap (λ n. handle_loop ruby d saved ready_events fuel n (still_waiting d x s)) next
                ∙ ih.run);
        list = ih.list;
        unmarked = ih.unmarked;
        covered = ih.covered;
        chosen = simp none_of ih.chosen;
      }
  handle_loop_lem (suc fuel)
        (turned {s} {t} {u} {v} {front} {x} {rest} {front'} {rest'} is some_of mark turn unmark
          visits)
        enough c off =
      let ne : (x == d) ≡ false = ground (arith, is.distinct, has-append d front (x ∷ rest)) in
      let next =
        next_first u.outside.links saved rest'
          (Links.split u.outside.links.tail u.outside.links.head d front' saved rest' d
            turn.list.links).1 in
      let (events_t, waiting_t, fiber_t) = links_only s t (append x saved s.outside.links) mark in
      let (events_v, waiting_v, fiber_v) = links_only u v (pop saved u.outside.links) unmark in
      let ih =
        handle_loop_lem fuel visits (omega (arith, Sub-length turn.left))
          (cover_same u v front' events_v waiting_v
            (turn.covered (cover_same s t front events_t waiting_t c)))
          (unmarked u v front' rest' turn.list unmark) in
      record {
        run =
            simp (ne, some_of, mark, turn.run, unmark)
              (ap (λ n. handle_loop ruby d saved ready_events fuel n v) next ∙ ih.run);
        list = ih.list;
        unmarked = ih.unmarked;
        covered = ih.covered;
        chosen = simp some_of (
            sub_keep (
              Sub-trans ih.chosen (
                Sub-matching s.outside.events v.outside.events turn.left (λ y i.
                  sym (ap (λ f. f y) events_v) ∙ turn.events y i ∙ sym (ap (λ f. f y) events_t)))));
      }

module _ {K : Type 0} (ruby : Ruby (Selector (EPoll K))) (kernel : Kernel K) (fd flags : ℕ)
    (d saved : Ptr) where
  -- What is true when `IO_Event_Selector_EPoll_handle` has come back.
  pub record Done (todo resumed : List Ptr) (s w : Selector (EPoll K)) (final : List Ptr)
      (result : Option (Handled × Selector (EPoll K))) : Type 0 where
    pub answer : Call
    pub after : Selector (EPoll K)
    pub run : result ≡ some (updated answer, after)
    pub waits : IsWaiting after.outside d final
    pub unmarked : IsDetached after.outside.links saved
    pub chosen :
        Sub resumed (matching ruby d saved (events_from_epoll_flags flags) s.outside.events todo)
    pub asks :
        Asks (epoll_flags_from_events (w.outside.waiting_events d)) (w.outside.waiting_events d)
    pub watched :
        succeeded answer ≡ true
        → (w.outside.waiting_events d == 0) ≡ false
        → kernel.interest after.outside.kernel fd
          ≡ some (epoll_flags_from_events (w.outside.waiting_events d))

  -- A report on a descriptor whose list holds the nodes `todo`, where each fiber that is resumed comes
  -- back out of the list, the mark is in no list at first, and in the end the kernel watches for what
  -- the selector has recorded as registered, if that is anything: with one round for each node and one
  -- more, the handler ends. It has resumed only fibers of `todo` that waited for a reported event, each
  -- at most once and in their order, and none that joined the list meanwhile. The events of all that
  -- wait now are in the union, the mark is in no list again, and, if `epoll_ctl` did not fail and the
  -- union is not empty, the kernel watches for the flags of that union, each of which is there just if
  -- its event is.
  pub handle_on_once :
      (fuel : ℕ) {s : Selector (EPoll K)} (todo : List Ptr) {resumed : List Ptr}
      {w : Selector (EPoll K)} {final : List Ptr}
      → IsList s.outside.links d todo
      → Visits ruby d saved
          (events_from_epoll_flags flags)
          (reset_waiting d s)
          []
          todo
          resumed
          w
          final
      → IsDetached s.outside.links saved
      → length todo < fuel
      → IsArmed kernel fd d w.outside
      → Done todo resumed s w final (handle_on ruby kernel fuel fd flags d saved s)
  unfolding handle_on
  handle_on_once fuel {s} todo {resumed} {w} {final} is visits off enough armed =
      let e = events_from_epoll_flags flags in
      let once = handle_loop_lem ruby d saved e fuel visits enough (λ x i. ground arith) off in
      let next = next_first ruby d saved e s.outside.links d todo is.links in
      let up = update-Updated kernel fd d (w.outside.io d) w.outside armed in
      let (r, after) = descriptor_update kernel (w.outside.io d) fd d w.outside in
      record {
        answer = r;
        after = record w { outside = after };
        run = rw (next, once.run) refl;
        waits = record {
          list = subst (λ h. IsList h d final) (sym up.same.links) once.list;
          covered = λ x i. same_cover kernel fd d w.outside after x up.same (once.covered x i);
        };
        unmarked = subst (λ h. IsDetached h saved) (sym up.same.links) once.unmarked;
        chosen = once.chosen;
        asks = flags-Asks (w.outside.waiting_events d);
        watched = up.watched;
      }
