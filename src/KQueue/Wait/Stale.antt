-- ===== src/KQueue/Wait/Stale.antt =====
-- A process and a descriptor of the same number share one entry of the array: what a wait for a process
-- leaves there when the kernel refuses it.
use io_event.Array.Lookup.{lookup_present}
use io_event.KQueue.Register.{changes_of-wants}
use io_event.KQueue.Wait.{
  io_registered, process_registered, new_waiting, sys_fail, answered, prewait_reap, process_prewait,
  reaped, prewaited, Processes, io_wait, process_wait,
}
use io_event.Array.{Array, Result, ok}
use io_event.System.{Call, esrch, failure}
use io_event.Selector.{Selector}
use io_event.Fiber.{Ruby}
use io_event.Base.Bits.{◌⊑◌, or_left, or_right, ⊑_trans, and_comm}
use io_event.KQueue.Handle.{with_queue}
use io_event.Base.{
  ◌^◌, ◌+◌, ◌<◌, get_elem?, sym, subst, refl, and_then, [], not, ℕ, suc, ◌∷◌, ap, ◌∙◌, arith, ◌≡◌,
  true, false, some, List, Ptr, ◌==◌,
}
use Prim.Native.Nat.{bit_or}
use io_event.Array
use io_event.KQueue.{
  link, initialize_fresh, success, add_waiting, registered, submit, changes_of,
  events_from_kevent_filter, register_on, register_found, descriptor_lookup, waiting_register,
  descriptor_update, exit, evfilt_proc, changes, Kevent, Answers, KQueue, Kernel,
}

-- The entry of the number `p` is `d`, and it is not new.
pub record Has {K : Type 0} (a : Answers) (p d : Ptr) (s : Selector (KQueue K)) : Type 0 where
  pub present : get_elem? s.outside.descriptors.base p ≡ some (some d)
  pub room : p < s.outside.descriptors.count
  pub small : p + 1 < 2 ^ 64
  pub old : (d == a.fresh) ≡ false

found :
    {K : Type 0} {a : Answers} {p d : Ptr} {s : Selector (KQueue K)}
    → Has a p d s
    → Array.lookup a.slots a.element a.fresh p s.outside.descriptors ≡ (ok d, s.outside.descriptors)
found {K} {a} {p} {d} {s} is =
    lookup_present a.slots a.element a.fresh d p s.outside.descriptors is.present is.room is.small

-- The union of the entry has the event of a process.
abbrev pub HasExit : {K : Type 0} → (d : Ptr) → Selector (KQueue K) → Type 0
HasExit d s = exit ⊑ s.outside.waiting_events d

module _ {K : Type 0} (ruby : Ruby (Selector (KQueue K))) (kernel : Kernel K) (a : Answers)
    (p d : Ptr)
    (gone : (cs : List Kevent) (k : K)
      → changes p evfilt_proc cs ≡ true
      → (kernel.kevent cs k).0 ≡ failure esrch) where
  abbrev Refused : KQueue K → Call × KQueue K → Type 0
  Refused s r =
      (t : KQueue K) × (r ≡ (failure esrch, t))
      × (t.waiting_events ≡ s.waiting_events)
      × (t.descriptors ≡ s.descriptors)

  registered-Refused :
      (s : KQueue K) (o : Call × K) → o.0 ≡ failure esrch → Refused s (registered kernel d o s)
  registered-Refused s (success n, k) bad = absurd (cc bad)
  registered-Refused s (failure e, k) same =
      (record s { kernel = k }, ap (λ c. (c, record s { kernel = k })) same, refl, refl)

  submit-Refused :
      (cs : List Kevent) (s : KQueue K)
      → changes p evfilt_proc cs ≡ true
      → Refused s (submit kernel d cs s)
  submit-Refused [] s asks = absurd (ground (arith, asks))
  submit-Refused (c ∷ cs) s asks =
      registered-Refused s (kernel.kevent (c ∷ cs) s.kernel) (gone (c ∷ cs) s.kernel asks)

  refused : (s : KQueue K) → exit ⊑ s.waiting_events d → Refused s (descriptor_update kernel p d s)
  unfolding descriptor_update events_from_kevent_filter
  refused s asked = submit-Refused (changes_of p d (s.waiting_events d)) s (
      changes_of-wants p d (s.waiting_events d) evfilt_proc
      ∙ ap (λ n. not (n == 0)) (and_comm (s.waiting_events d) exit ∙ asked))

  registration :
      (w : Ptr) (s : KQueue K)
      → Array.lookup a.slots a.element a.fresh p s.descriptors ≡ (ok d, s.descriptors)
      → (d == a.fresh) ≡ false
      → exit ⊑ bit_or (s.waiting_events d) (s.events w)
      → (t : KQueue K) × (waiting_register kernel a p w s ≡ some (ok (failure esrch), t))
        × (t.waiting_events d ≡ bit_or (s.waiting_events d) (s.events w))
        × (t.descriptors ≡ s.descriptors)
  unfolding waiting_register descriptor_lookup register_found register_on events_from_kevent_filter
  registration w s at old asked =
      let s' = add_waiting kernel d w s in
      let union : s'.waiting_events d ≡ bit_or (s.waiting_events d) (s.events w) = ground arith in
      let (t, run, kept, same) = refused s' (subst (λ u. exit ⊑ u) (sym union) asked) in
      (
        t,
        ap
              (λ (r : Result Ptr × Array Ptr).
                and_then (initialize_fresh a.fresh r.0 (record s { descriptors = r.1 }))
                  (register_found kernel p w))
              at
            ∙ simp old (ap (λ r. and_then (link kernel d w r) (λ r t. some (ok r, t))) run),
        ap (λ m. m d) kept ∙ union,
        same,
      )

  -- The process `p` has exited: waitid(2) returns at once, and neither that nor reaping it touches the
  -- array or the unions of its entries.
  pub record HasExited (processes : Processes (Selector (KQueue K))) : Type 0 where
    pub waits : (s : Selector (KQueue K)) → (n : ℕ) × ((processes.waitid p s).0 ≡ success n)
    pub waitid_descriptors :
        (s : Selector (KQueue K))
        → (processes.waitid p s).1.outside.descriptors ≡ s.outside.descriptors
    pub waitid_events :
        (s : Selector (KQueue K))
        → (processes.waitid p s).1.outside.waiting_events ≡ s.outside.waiting_events
    pub reap_descriptors :
        (flags : ℕ) (s : Selector (KQueue K))
        → (processes.reap p flags s).1.outside.descriptors ≡ s.outside.descriptors
    pub reap_events :
        (flags : ℕ) (s : Selector (KQueue K))
        → (processes.reap p flags s).1.outside.waiting_events ≡ s.outside.waiting_events

  prewait-reaps :
      (processes : Processes (Selector (KQueue K))) (fuel flags : ℕ) (s : Selector (KQueue K))
      → HasExited processes
      → prewait_reap ruby kernel processes (suc fuel) p flags s ≡ (
        answered (processes.reap p flags (processes.waitid p s).1).0,
        (processes.reap p flags (processes.waitid p s).1).1,
      )
  unfolding prewait_reap process_prewait
  prewait-reaps processes fuel flags s exited =
      let t = (processes.waitid p s).1 in
      ap
        (λ (c : Call). reaped ruby kernel processes (suc fuel) p flags (
          prewaited ruby kernel processes (suc fuel)
            (process_prewait ruby kernel processes (suc fuel) fuel p t) c t))
        (exited.waits s).1

  -- The process `p` has exited, and `kevent` refuses with `ESRCH` each list of changes that asks for its
  -- exit, as OpenBSD and NetBSD do of one that has not been reaped, and any system of one that has been.
  -- Then a wait for the process reaps it and returns its status, but the event stays in the entry of the
  -- array; and a wait after that on the descriptor that has the same number fails with `ESRCH`,
  -- whatever it waits for, and leaves the event there again.
  pub stale_exit :
      (processes : Processes (Selector (KQueue K))) (fuel flags : ℕ)
      (w w' type fiber fiber' events : ℕ) (s : Selector (KQueue K))
      → Has a p d s
      → HasExited processes
      → (t : Selector (KQueue K)) × (u : Selector (KQueue K)) × (process_wait ruby kernel processes
            (suc fuel)
            a
            w
            type
            fiber
            (some p)
            flags
            s
          ≡ some (
            answered (processes.reap p flags (processes.waitid p t).1).0,
            (processes.reap p flags (processes.waitid p t).1).1,
          ))
        × HasExit d (processes.reap p flags (processes.waitid p t).1).1
        × (io_wait ruby kernel a w' type fiber' p events
              (processes.reap p flags (processes.waitid p t).1).1
            ≡ some (sys_fail esrch, u))
        × HasExit d u
        × Has a p d u
  unfolding process_wait io_wait
  stale_exit processes fuel flags w w' type fiber fiber' events s is exited =
      let s' = new_waiting w type fiber exit s in
      let at : s'.outside.events w ≡ exit = ground arith in
      let (t, run, union, same) = registration w s'.outside (found is) is.old (
        subst (λ e. exit ⊑ bit_or (s.outside.waiting_events d) e) (sym at)
          (or_right (s.outside.waiting_events d) exit)) in
      let refused_state : Selector (KQueue K) = record s { outside = t } in
      let after = (processes.reap p flags (processes.waitid p refused_state).1).1 in
      let kept : after.outside.waiting_events ≡ t.waiting_events =
        exited.reap_events flags (processes.waitid p refused_state).1
        ∙ exited.waitid_events refused_state in
      let array : after.outside.descriptors ≡ s.outside.descriptors =
        exited.reap_descriptors flags (processes.waitid p refused_state).1
        ∙ exited.waitid_descriptors refused_state
        ∙ same in
      let has_exit : HasExit d after =
        subst (λ u. exit ⊑ u)
          (sym (ap (λ m. m d) kept ∙ union ∙ ap (bit_or (s.outside.waiting_events d)) at))
          (or_right (s.outside.waiting_events d) exit) in
      let t' = new_waiting w' type fiber' events after in
      let (u, run', union', same') =
        registration w' t'.outside
          (subst (λ (ds : Array Ptr). Array.lookup a.slots a.element a.fresh p ds ≡ (ok d, ds))
            (sym array) (found is))
          is.old
          (⊑_trans exit (after.outside.waiting_events d) _ has_exit
            (or_left (after.outside.waiting_events d) (t'.outside.events w'))) in
      (
        refused_state,
        record after { outside = u },
        ap
              (λ o.
                and_then (with_queue s' o)
                  (process_registered ruby kernel processes (suc fuel) p flags w))
              run
            ∙ ap some (prewait-reaps processes fuel flags refused_state exited),
        has_exit,
        ap (λ o. and_then (with_queue t' o) (io_registered ruby kernel w')) run',
        subst (λ m. exit ⊑ m) (sym union')
            (⊑_trans exit (after.outside.waiting_events d) _ has_exit
              (or_left (after.outside.waiting_events d) (t'.outside.events w'))),
        record {
          present =
              subst (λ (ds : Array Ptr). get_elem? ds.base p ≡ some (some d)) (sym (same' ∙ array))
                is.present;
          room = subst (λ (ds : Array Ptr). p < ds.count) (sym (same' ∙ array)) is.room;
          small = is.small;
          old = is.old;
        },
      )
