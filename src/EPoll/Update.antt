-- ===== src/EPoll/Update.antt =====
-- `IO_Event_Selector_EPoll_Descriptor_update`: what the kernel watches afterwards.
use io_event.Base.{
  ℕ, ◌≡◌, refl, sym, ap, ◌∙◌, ◌≢◌, inl, inr, Bool, true, false, some, arith, Ptr, update, ◌==◌,
  if◌then◌else◌, Bool-cases,
}
use io_event.EPoll.Flags.{Asks, flags-Asks}
use io_event.System.{Call, Call-cases, success, failure, enoent, eexist}
use io_event.EPoll.{
  Operation, add, modify, delete, entry, Kernel, EPoll, control, retry, registered, arm, disarm,
  rearm, descriptor_update, epoll_flags_from_events,
}

abbrev pub succeeded : Call → Bool
succeeded (success n) = true
succeeded (failure e) = false

module _ {K : Type 0} (kernel : Kernel K) (fd : ℕ) (d : Ptr) where
  -- If events are registered according to `registered_events`, the kernel watches for just them.
  abbrev pub IsArmed : EPoll K → Type 0
  IsArmed s =
      (s.registered_events d == 0) ≡ false
      → kernel.interest s.kernel fd ≡ some (epoll_flags_from_events (s.registered_events d))

  -- `t` is `s` but for the kernel and the registration of one descriptor.
  pub record SameBut (s t : EPoll K) : Type 0 where
    pub links : t.links ≡ s.links
    pub events : t.events ≡ s.events
    pub fiber : t.fiber ≡ s.fiber
    pub waiting_events : t.waiting_events ≡ s.waiting_events
    pub others : (fd' : ℕ) → fd' ≢ fd → kernel.interest t.kernel fd' ≡ kernel.interest s.kernel fd'
    pub descriptors :
        (d' : Ptr)
        → d' ≢ d
        → (t.registered_events d' ≡ s.registered_events d') × (t.io d' ≡ s.io d')

  -- The outcome of operations that add or modify.
  pub record Tried (flags : ℕ) (s : EPoll K) (r : Call × EPoll K) : Type 0 where
    pub done : succeeded r.0 ≡ true → kernel.interest r.1.kernel fd ≡ some flags
    pub failed : succeeded r.0 ≡ false → kernel.interest r.1.kernel fd ≡ kernel.interest s.kernel fd
    pub same : SameBut s r.1
    pub registration : r.1.registered_events ≡ s.registered_events
    pub io : r.1.io ≡ s.io

  pub control-Tried :
      (o : Operation) (flags : ℕ) (s : EPoll K)
      → entry o flags ≡ some flags
      → Tried flags s (control kernel o fd flags s)
  control-Tried o flags s kept = record {
    done = λ ok. elim (Call-cases (kernel.epoll_ctl o fd flags s.kernel).0) [
      | inl (n, e) ↦ kernel.control_done o fd flags n s.kernel e ∙ kept
      | inr (n, e) ↦ ground (arith, ap succeeded e)
    ];
    failed = λ ko. elim (Call-cases (kernel.epoll_ctl o fd flags s.kernel).0) [
      | inl (n, e) ↦ ground (arith, ap succeeded e)
      | inr (n, e) ↦ kernel.control_failed o fd flags n s.kernel e
    ];
    same = record {
      links = refl;
      events = refl;
      fiber = refl;
      waiting_events = refl;
      others = λ fd' other. kernel.control_others o fd flags fd' s.kernel other;
      descriptors = λ d' other. (refl, refl);
    };
    registration = refl;
    io = refl;
  }

  -- A try after a failure.
  again-Tried :
      (o : Operation) (flags e : ℕ) (s t : EPoll K)
      → entry o flags ≡ some flags
      → Tried flags s (failure e, t)
      → Tried flags s (control kernel o fd flags t)
  again-Tried o flags e s t kept first =
      let next = control-Tried o flags t kept in
      record {
        done = next.done;
        failed = λ ko. next.failed ko ∙ first.failed refl;
        same = record {
          links = first.same.links;
          events = first.same.events;
          fiber = first.same.fiber;
          waiting_events = first.same.waiting_events;
          others = λ fd' other. next.same.others fd' other ∙ first.same.others fd' other;
          descriptors = first.same.descriptors;
        };
        registration = first.registration;
        io = first.io;
      }

  pub retry-Tried :
      (flags : ℕ) (s : EPoll K) (r : Call × EPoll K)
      → Tried flags s r
      → Tried flags s (retry kernel fd flags r)
  retry-Tried flags s (success n, t) first = first
  retry-Tried flags s (failure e, t) first = elim (Bool-cases (e == enoent)) [
    | inl a ↦ simp a (again-Tried add flags e s t refl first)
    | inr a ↦ elim (Bool-cases (e == eexist)) [
      | inl b ↦ simp (a, b) (again-Tried modify flags e s t refl first)
      | inr b ↦ simp (a, b) first
    ]
  ]

  -- The outcome of an update: the registration agrees with the kernel, and, when it does not fail,
  -- with the events that are waited for.
  pub record Updated (s : EPoll K) (r : Call × EPoll K) : Type 0 where
    pub asks : Asks (epoll_flags_from_events (s.waiting_events d)) (s.waiting_events d)
    pub armed : IsArmed r.1
    pub watched :
        succeeded r.0 ≡ true
        → (s.waiting_events d == 0) ≡ false
        → kernel.interest r.1.kernel fd ≡ some (epoll_flags_from_events (s.waiting_events d))
    pub agrees : succeeded r.0 ≡ true → r.1.registered_events d ≡ s.waiting_events d
    pub same : SameBut s r.1

  registered-Updated :
      (s : EPoll K) (r : Call × EPoll K)
      → IsArmed s
      → Tried (epoll_flags_from_events (s.waiting_events d)) s r
      → Updated s (registered kernel d r)
  registered-Updated s (success n, t) armed tried =
      let w = ap (λ f. f d) tried.same.waiting_events in
      record {
        asks = flags-Asks (s.waiting_events d);
        armed = λ some_events.
            tried.done refl ∙ ap (λ e. some (epoll_flags_from_events e)) (ground (arith, w));
        watched = λ ok some_events. tried.done refl;
        agrees = λ ok. ground (arith, w);
        same = record {
          links = tried.same.links;
          events = tried.same.events;
          fiber = tried.same.fiber;
          waiting_events = tried.same.waiting_events;
          others = tried.same.others;
          descriptors = λ d' other. ground (arith, tried.same.descriptors d' other);
        };
      }
  registered-Updated s (failure e, t) armed tried =
      let same = ap (λ f. f d) tried.registration in
      record {
        asks = flags-Asks (s.waiting_events d);
        armed = λ some_events.
            tried.failed refl
            ∙ armed (ground (arith, same))
            ∙ ap (λ e. some (epoll_flags_from_events e)) (sym same);
        watched = λ ok. ground arith;
        agrees = λ ok. ground arith;
        same = tried.same;
      }

  disarm-Updated :
      (s : EPoll K)
      → IsArmed s
      → (s.waiting_events d == 0) ≡ true
      → Updated s (disarm kernel fd d s)
  unfolding disarm
  disarm-Updated s armed idle = elim (Bool-cases (s.registered_events d == 0)) [
    | inl e ↦ simp e (record {
      asks = flags-Asks (s.waiting_events d);
      armed = λ some_events. armed (ground (arith, some_events));
      watched = λ ok some_events. ground arith;
      agrees = λ ok. ground arith;
      same = record {
        links = refl;
        events = refl;
        fiber = refl;
        waiting_events = refl;
        others = λ fd' other. refl;
        descriptors = λ d' other. ground arith;
      };
    })
    | inr e ↦ simp e (record {
      asks = flags-Asks (s.waiting_events d);
      armed = λ some_events. ground arith;
      watched = λ ok some_events. ground arith;
      agrees = λ ok. ground arith;
      same = record {
        links = refl;
        events = refl;
        fiber = refl;
        waiting_events = refl;
        others = λ fd' other. kernel.control_others delete fd 0 fd' s.kernel other;
        descriptors = λ d' other. ground arith;
      };
    })
  ]

  arm-Updated : (s : EPoll K) → IsArmed s → Updated s (arm kernel fd d s)
  unfolding arm
  arm-Updated s armed =
      let flags = epoll_flags_from_events (s.waiting_events d) in
      let operation = if s.registered_events d == 0 then add else modify in
      registered-Updated s _ armed
        (retry-Tried flags s _ (control-Tried operation flags s (ground arith)))

  rearm-Updated : (s : EPoll K) → IsArmed s → Updated s (rearm kernel fd d s)
  unfolding rearm
  rearm-Updated s armed = elim (Bool-cases (s.waiting_events d == 0)) [
    | inl e ↦ simp e (disarm-Updated s armed e)
    | inr e ↦ simp e (arm-Updated s armed)
  ]

  -- The registration is reset before an update on a new IO object.
  Updated-reset :
      (io : ℕ) (s : EPoll K) (r : Call × EPoll K)
      → Updated
          (record s { registered_events = update s.registered_events d 0; io = update s.io d io })
          r
      → Updated s r
  Updated-reset io s r u = record {
    asks = flags-Asks (s.waiting_events d);
    armed = u.armed;
    watched = u.watched;
    agrees = u.agrees;
    same = record {
      links = u.same.links;
      events = u.same.events;
      fiber = u.same.fiber;
      waiting_events = u.same.waiting_events;
      others = u.same.others;
      descriptors = λ d' other. ground (arith, u.same.descriptors d' other);
    };
  }

  -- If the kernel watches for what the selector has recorded as registered, in case that is anything:
  -- an update that does not fail leaves the descriptor watched for the flags of the events that are
  -- waited for, each of which is there just if its event is, in case there are any, and records these
  -- events; and whether it fails or not, the kernel watches for what is recorded then. It touches no
  -- other descriptor, and no list and no waiting fiber.
  pub update-Updated :
      (io : ℕ) (s : EPoll K) → IsArmed s → Updated s (descriptor_update kernel io fd d s)
  unfolding descriptor_update
  update-Updated io s armed = elim (Bool-cases (s.io d == io)) [
    | inl e ↦ elim (Bool-cases (s.registered_events d == s.waiting_events d)) [
      | inl e' ↦
          simp (e, e')
            (record {
              asks = flags-Asks (s.waiting_events d);
              armed = armed;
              watched = λ ok some_events. ground (arith, armed, e');
              agrees = λ ok. ground arith;
              same = record {
                links = refl;
                events = refl;
                fiber = refl;
                waiting_events = refl;
                others = λ fd' other. refl;
                descriptors = λ d' other. (refl, refl);
              };
            })
      | inr e' ↦ simp (e, e') (rearm-Updated s armed)
    ]
    | inr e ↦ simp e (Updated-reset io s _ (rearm-Updated _ (λ some_events. ground arith)))
  ]
