-- ===== src/EPoll/Watchable.antt =====
-- `IO_Event_Selector_EPoll_Descriptor_update` on a descriptor that the kernel can watch: the second try.
use io_event.Base.{
  ℕ, ◌≡◌, refl, sym, ap, ◌∙◌, ◌≢◌, inl, inr, arith, false, some, ◌&&◌, true, Option, none, Ptr,
  ◌==◌, Bool-cases,
}
use io_event.System.{Call, Call-cases, success, failure, enoent, eexist}
use io_event.EPoll.{
  Operation, add, modify, delete, Kernel, EPoll, control, retry, registered, arm, disarm, rearm,
  descriptor_update, epoll_flags_from_events,
}
use io_event.EPoll.Update.{succeeded, Tried, control-Tried, retry-Tried}

module _ {K : Type 0} (kernel : Kernel K) (fd : ℕ) (d : Ptr) where
  -- What the kernel refuses because of what it has registered.
  abbrev pub Refuses : Operation → ℕ → Option ℕ → Type 0
  Refuses add e present = (e ≡ eexist) × (present ≢ none)
  Refuses modify e present = (e ≡ enoent) × (present ≡ none)
  Refuses delete e present = (e ≡ enoent) × (present ≡ none)

  -- The descriptor is one that the kernel can watch: it refuses nothing else.
  abbrev pub IsWatchable : Type 0
  IsWatchable =
      (o : Operation) (flags e : ℕ) (k : K)
      → (kernel.epoll_ctl o fd flags k).0 ≡ failure e
      → Refuses o e (kernel.interest k fd)

  module _ (watchable : IsWatchable) (flags : ℕ) (s : EPoll K) where
    retry_add : succeeded (retry kernel fd flags (control kernel add fd flags s)).0 ≡ true
    retry_add = elim (Call-cases (kernel.epoll_ctl add fd flags s.kernel).0) [
      | inl (n, e) ↦ simp e refl
      | inr (n, e) ↦
          let (exists, present) = watchable add flags n s.kernel e in
          let k = (kernel.epoll_ctl add fd flags s.kernel).1 in
          elim (Call-cases (kernel.epoll_ctl modify fd flags k).0) [
            | inl (m, e') ↦ simp (e, exists, e') refl
            | inr (m, e') ↦ absurd (
                present (
                  sym (kernel.control_failed add fd flags n s.kernel e)
                  ∙ (watchable modify flags m k e').1))
          ]
    ]

    retry_modify : succeeded (retry kernel fd flags (control kernel modify fd flags s)).0 ≡ true
    retry_modify = elim (Call-cases (kernel.epoll_ctl modify fd flags s.kernel).0) [
      | inl (n, e) ↦ simp e refl
      | inr (n, e) ↦
          let (missing, free) = watchable modify flags n s.kernel e in
          let k = (kernel.epoll_ctl modify fd flags s.kernel).1 in
          elim (Call-cases (kernel.epoll_ctl add fd flags k).0) [
            | inl (m, e') ↦ simp (e, missing, e') refl
            | inr (m, e') ↦ absurd (
                (watchable add flags m k e').1
                  (kernel.control_failed modify fd flags n s.kernel e ∙ free))
          ]
    ]

  registered-succeeded :
      (r : Call × EPoll K) → succeeded r.0 ≡ true → succeeded (registered kernel d r).0 ≡ true
  registered-succeeded (success n, s) ok = refl
  registered-succeeded (failure e, s) ok = ok

  registered_kernel : (r : Call × EPoll K) → (registered kernel d r).1.kernel ≡ r.1.kernel
  registered_kernel (success n, s) = refl
  registered_kernel (failure e, s) = refl

  -- The kernel watches for the events that are waited for, if there are any.
  abbrev pub IsCorrected : EPoll K → Call × EPoll K → Type 0
  IsCorrected s r =
      (s.waiting_events d == 0) ≡ false
      → (kernel.interest r.1.kernel fd ≡ some (epoll_flags_from_events (s.waiting_events d)))
        × (r.1.registered_events d ≡ s.waiting_events d)

  registered_events :
      (s : EPoll K) (r : Call × EPoll K)
      → succeeded r.0 ≡ true
      → r.1.waiting_events d ≡ s.waiting_events d
      → (registered kernel d r).1.registered_events d ≡ s.waiting_events d
  registered_events s (success n, t) ok same = ground (arith, same)
  registered_events s (failure e, t) ok same = absurd (ground (arith, ok))

  -- The try that has come off, be it the first or the second.
  Tried-IsCorrected :
      (s : EPoll K) (r : Call × EPoll K)
      → Tried kernel fd d (epoll_flags_from_events (s.waiting_events d)) s r
      → succeeded r.0 ≡ true
      → (kernel.interest (registered kernel d r).1.kernel fd
          ≡ some (epoll_flags_from_events (s.waiting_events d)))
        × ((registered kernel d r).1.registered_events d ≡ s.waiting_events d)
  Tried-IsCorrected s r tried ok = (
    ap (λ k. kernel.interest k fd) (registered_kernel r) ∙ tried.done ok,
    registered_events s r ok (ap (λ f. f d) tried.same.waiting_events),
  )

  module _ (watchable : IsWatchable) where
    rearm-IsCorrected : (s : EPoll K) → IsCorrected s (rearm kernel fd d s)
    unfolding rearm arm
    rearm-IsCorrected s some_events = elim (Bool-cases (s.registered_events d == 0)) [
      | inl e ↦
          let flags = epoll_flags_from_events (s.waiting_events d) in
          simp (some_events, e)
            (Tried-IsCorrected s _
              (retry-Tried kernel fd d flags s _ (control-Tried kernel fd d add flags s refl))
              (retry_add watchable flags s))
      | inr e ↦
          let flags = epoll_flags_from_events (s.waiting_events d) in
          simp (some_events, e)
            (Tried-IsCorrected s _
              (retry-Tried kernel fd d flags s _ (control-Tried kernel fd d modify flags s refl))
              (retry_modify watchable flags s))
    ]

    rearm-succeeded : (s : EPoll K) → succeeded (rearm kernel fd d s).0 ≡ true
    unfolding rearm arm disarm
    rearm-succeeded s = elim (Bool-cases (s.waiting_events d == 0)) [
      | inl e ↦ simp e refl
      | inr e ↦ elim (Bool-cases (s.registered_events d == 0)) [
        | inl e' ↦ simp (e, e') (registered-succeeded _ (retry_add watchable _ s))
        | inr e' ↦ simp (e, e') (registered-succeeded _ (retry_modify watchable _ s))
      ]
    ]

    -- On a descriptor that the kernel can watch, an update never fails, however wrong the selector's own
    -- record of the registration is; and unless that record says that there is nothing to do, for the
    -- same IO object with the same events, or no events are waited for, the kernel then watches for
    -- the flags of the events that are waited for, and the record says so.
    pub update-succeeded :
        (io : ℕ) (s : EPoll K)
        → (succeeded (descriptor_update kernel io fd d s).0 ≡ true)
          × (((s.io d == io) && (s.registered_events d == s.waiting_events d)) ≡ false
              → IsCorrected s (descriptor_update kernel io fd d s))
    unfolding descriptor_update
    update-succeeded io s = elim (Bool-cases (s.io d == io)) [
      | inl e ↦ elim (Bool-cases (s.registered_events d == s.waiting_events d)) [
        | inl e' ↦ simp (e, e') (refl, λ changed. absurd (ground (arith, changed)))
        | inr e' ↦ simp (e, e') (rearm-succeeded s, λ changed. rearm-IsCorrected s)
      ]
      | inr e ↦ simp e (rearm-succeeded _, λ changed. rearm-IsCorrected _)
    ]
