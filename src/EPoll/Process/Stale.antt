-- ===== src/EPoll/Process/Stale.antt =====
-- A wait for a process that is given up and begun again.
use io_event.Base.{
  subst, ℕ, ◌≡◌, refl, sym, ap, ◌∙◌, inl, inr, true, false, none, some, [], ◌∷◌, arith, Ptr, update,
  ◌==◌, if◌then◌else◌, ==_iff, Bool-cases, ◌∉◌,
}
use Prim.Native.Nat.{bit_or}
use io_event.List.{Heap, prepend}
use io_event.List.Shape.{IsList, IsDetached}
use io_event.List.Update.{prepend-IsList, pop-IsList}
use io_event.System.{Call, Call-cases, success, failure}
use io_event.EPoll.{
  EPoll, Kernel, readable, add, modify, control, retry, registered, arm, rearm, descriptor_update,
  register_on, link, waiting_cancel, epoll_flags_from_events,
}
use io_event.EPoll.Update.{IsArmed, update-Updated, succeeded}
use io_event.EPoll.Watchable.{IsWatchable, update-succeeded}

module _ {K : Type 0} (kernel : Kernel K) (fd : ℕ) (d w : Ptr) where
  registered_io : (r : Call × EPoll K) → (registered kernel d r).1.io ≡ r.1.io
  registered_io (success n, s) = refl
  registered_io (failure e, s) = refl

  retry_io : (flags : ℕ) (r : Call × EPoll K) → (retry kernel fd flags r).1.io ≡ r.1.io
  retry_io flags (success n, s) = refl
  retry_io flags (failure e, s) = ground arith

  arm_io : (s : EPoll K) → (arm kernel fd d s).1.io ≡ s.io
  unfolding arm
  arm_io s =
      let flags = epoll_flags_from_events (s.waiting_events d) in
      let first = control kernel (if s.registered_events d == 0 then add else modify) fd flags s in
      registered_io (retry kernel fd flags first) ∙ retry_io flags first

  rearm_io :
      (s : EPoll K) → (s.waiting_events d == 0) ≡ false → (rearm kernel fd d s).1.io d ≡ s.io d
  unfolding rearm
  rearm_io s some_events = simp some_events (ap (λ f. f d) (arm_io s))

  -- An update on behalf of some events leaves its IO object in the state of the descriptor.
  update_io :
      (io : ℕ) (s : EPoll K)
      → (s.waiting_events d == 0) ≡ false
      → (descriptor_update kernel io fd d s).1.io d ≡ io
  unfolding descriptor_update
  update_io io s some_events = elim (Bool-cases (s.io d == io)) [
    | inl e ↦ elim (Bool-cases (s.registered_events d == s.waiting_events d)) [
      | inl e' ↦ simp (e, e') ((==_iff (s.io d) io).0 e)
      | inr e' ↦ simp (e, e') (rearm_io s some_events ∙ (==_iff (s.io d) io).0 e)
    ]
    | inr e ↦ simp e (rearm_io _ some_events ∙ ground arith)
  ]

  update_same :
      (io : ℕ) (s : EPoll K)
      → s.io d ≡ io
      → s.registered_events d ≡ s.waiting_events d
      → descriptor_update kernel io fd d s ≡ (success 0, s)
  unfolding descriptor_update
  update_same io s object agrees =
      let same : (s.io d == io) ≡ true = (==_iff (s.io d) io).1 object in
      let settled : (s.registered_events d == s.waiting_events d) ≡ true =
        (==_iff (s.registered_events d) (s.waiting_events d)).1 agrees in
      simp (same, settled)

  link_run :
      (n : ℕ) (t : EPoll K) (r : Call) {h : Heap}
      → r ≡ success n
      → prepend d w t.links ≡ some (tt, h)
      → link kernel d w (r, t) ≡ some (success n, record t { links = h })
  link_run n t r done run = rw done (simp run)

  -- A wait that was registered and has been cancelled, its descriptor closed, leaves the state of the
  -- descriptor as if the events were still registered. If the same process is waited for again, and the
  -- kernel gives the new descriptor the number of the old one, the registration succeeds and the fiber
  -- waits, but the kernel watches nothing. `k` is the kernel after the descriptor has been closed and opened.
  pub stale :
      (pid : ℕ) (s : EPoll K)
      → IsWatchable kernel fd d
      → IsArmed kernel fd d s
      → IsList s.links d []
      → s.waiting_events d ≡ 0
      → s.events w ≡ readable
      → IsDetached s.links w
      → w ∉ d ∷ []
      → (k : K) → kernel.interest k fd ≡ none
      → (n : ℕ) × (t : EPoll K) × (u : EPoll K) × (register_on kernel pid fd d w s
          ≡ some (success n, t))
        × (waiting_cancel w t ≡ some (tt, u))
        × ((z : EPoll K) × (register_on kernel pid fd d w (record u { kernel = k })
              ≡ some (success 0, z))
            × IsList z.links d (w ∷ [])
            × (kernel.interest z.kernel fd ≡ none))
  unfolding register_on waiting_cancel
  stale pid s watchable armed is free reads off out k gone =
      let s1 : EPoll K = record s {
        waiting_events = update s.waiting_events d (bit_or (s.waiting_events d) (s.events w));
      } in
      let union : s1.waiting_events d ≡ readable =
        ground (arith, free, reads, ap (λ a. bit_or a (s.events w)) free, ap (bit_or 0) reads) in
      let up = update-Updated kernel fd d pid s1 armed in
      let ok = (update-succeeded kernel fd d watchable pid s1).0 in
      let object = update_io pid s1 (ap (λ m. m == 0) union) in
      let (ret, t0) = descriptor_update kernel pid fd d s1 in
      elim (Call-cases ret) [
        | inr (e, failed) ↦ absurd (ground (arith, ap succeeded failed, ok))
        | inl (n, done) ↦
            let off0 : IsDetached t0.links w =
              subst (λ h. IsDetached h w) (sym up.same.links) off in
            let list0 : IsList t0.links d [] = subst (λ h. IsList h d []) (sym up.same.links) is in
            let (h1, run1, list1, _) = prepend-IsList list0 off0 out in
            let (h2, run2, list2, off2, _) = pop-IsList [] w [] list1 in
            let (h3, run3, list3, _) = prepend-IsList list2 off2 out in
            let t : EPoll K = record t0 { links = h1 } in
            let u : EPoll K = record t0 { links = h2; fiber = update t0.fiber w 0 } in
            let waits : t0.waiting_events d ≡ readable =
              ap (λ f. f d) up.same.waiting_events ∙ union in
            let asks : t0.events w ≡ readable = ap (λ f. f w) up.same.events ∙ reads in
            let both : bit_or (t0.waiting_events d) (t0.events w) ≡ readable =
              ap (λ a. bit_or a (t0.events w)) waits ∙ ap (bit_or readable) asks in
            (
              n,
              t,
              u,
              link_run n t0 ret done run1,
              simp run2,
              let v : EPoll K = record u {
                kernel = k;
                waiting_events =
                    update t0.waiting_events d (bit_or (t0.waiting_events d) (t0.events w));
              } in
                  (
                    record v { links = h3 },
                    ap (link kernel d w) (
                          update_same pid v object
                            (up.agrees ok ∙ union ∙ sym both ∙ (ground arith)))
                        ∙ link_run 0 v (success 0) refl run3,
                    list3,
                    gone,
                  ),
            )
      ]
