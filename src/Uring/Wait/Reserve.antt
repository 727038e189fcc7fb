-- ===== src/Uring/Wait/Reserve.antt =====
-- `IO_Event_Selector_URing_io_wait` up to the moment at which the fiber is suspended.
use io_event.Uring.Complete.Settle.{Owned}
use io_event.Uring.Flags.{poll_flags_from_events}
use io_event.Uring.Wait.{poll_answer, await, ensure_canceled, io_wait, new_waiting}
use io_event.Fiber.{Ruby}
use io_event.Uring.Owned.{unlinked, acquire-IsOwned, IsOwned, IsRing}
use io_event.Selector.{Selector}
use io_event.Uring.Ring.{get_sqe_room, set_kernel, completing, poll_add, Sqe, Liburing}
use io_event.Base.{
  refl, ap, ◌∙◌, sym, ==_iff, inr, inl, ◌==◌, Bool-cases, ℕ, suc, ◌≡◌, ◌≢◌, some, List, ◌∷◌, arith,
  Ptr, null,
}
use io_event.Uring.{Answers, Uring}

abbrev pub poll_sqe : (c : Ptr) (descriptor events : ℕ) → Sqe
poll_sqe c descriptor events = record {
  operation = poll_add descriptor (poll_flags_from_events events);
  user_data = completing c;
}

module _ {K : Type 0} where
  -- Nothing points at the `waiting` that is put on the stack.
  pub new_waiting-IsOwned :
      {n : Ptr → ℕ} {free : List Ptr} (w : Ptr) (fiber : ℕ) (s : Selector (Uring K))
      → IsOwned n free s.outside
      → s.outside.completion w ≡ null
      → IsOwned n free (new_waiting w fiber s).outside
  new_waiting-IsOwned {n} {free} w fiber s is idle = record {
    sound = record {
      list = is.sound.list;
      of_waiting = λ v points. elim (Bool-cases (v == w)) [
        | inl e ↦ absurd (points (simp e refl))
        | inr e ↦ simp e (is.sound.of_waiting v (λ z. points (simp e z)))
      ];
      of_completion = λ c points. elim (Bool-cases (s.outside.waiting c == w)) [
        | inl e ↦
            let here = (==_iff (s.outside.waiting c) w).0 e in
            let zero : c ≡ null =
              sym (is.sound.of_completion c points) ∙ ap s.outside.completion here ∙ idle in
            absurd (points (ap s.outside.waiting zero ∙ is.sound.of_null.1))
        | inr e ↦ simp e (is.sound.of_completion c points)
      ];
      of_null = (ground (arith, is.sound.of_null), is.sound.of_null.1);
      idle = is.sound.idle;
    };
    idle = is.idle;
    single = is.single;
    apart = is.apart;
  }

  module _ (ring : Liburing K) (holds : Ptr → K → ℕ) where
    -- The state in which a fiber is suspended: the free completion `x` is in the ring.
    pub record Suspended (free : List Ptr) (x w : Ptr) (self : ℕ) (t : Selector (Uring K))
        : Type 0 where
      pub owned : Owned ring holds free t
      pub held : holds x t.outside.kernel ≡ 1
      pub completion : t.outside.completion w ≡ x
      pub waiting : t.outside.waiting x ≡ w
      pub fiber : t.outside.fiber w ≡ self

    module _ (laws : IsRing ring holds) (ruby : Ruby (Selector (Uring K))) (node : Ptr) where
      -- A fiber that waits on a descriptor, while two completions are free and the submission queue has
      -- room: the first of the free completions is taken and queued with the entry, carried by nothing
      -- else, and the fiber and the completion point at each other when the fiber is suspended; after
      -- that the operation is cancelled, if it is still in progress.
      pub io_wait-Suspended :
          (fuel : ℕ) (free : List Ptr) (a : Answers) (type x y w : Ptr)
          (fiber descriptor events : ℕ) (k : K) (s : Selector (Uring K))
          → Owned ring holds (x ∷ y ∷ free) s
          → s.outside.completion w ≡ null
          → w ≢ null
          → ring.get_sqe (poll_sqe x descriptor events) s.outside.kernel ≡ some k
          → (t : Selector (Uring K)) × Suspended (y ∷ free) x w fiber t
            × (io_wait ruby ring (suc fuel) node a type w fiber descriptor events s
                ≡ ensure_canceled ruby ring (suc fuel) node w (
                    await ruby ring
                      (suc fuel)
                      node
                      (poll_answer ruby ring (suc fuel) node (poll_flags_from_events events))
                      w
                      t))
      unfolding io_wait
      io_wait-Suspended fuel free a type x y w fiber descriptor events k s is idle nonnull room =
          let (u, run, kept, points, back, rest) =
            acquire-IsOwned {m = λ d. holds d k} a type x y w
              (new_waiting-IsOwned w fiber s is idle) (ground arith) nonnull
              (λ d. laws.get_sqe _ _ _ d room) in
          (
            set_kernel k (record s { outside = u }),
            record {
              owned = unlinked u.wakeup_registered u.fiber u.result u.flags k kept (λ c. refl);
              held = ground (
                arith,
                laws.get_sqe (poll_sqe x descriptor events) s.outside.kernel k x room,
                is.idle x (ground arith),
              );
              completion = points;
              waiting = back;
              fiber = ap (λ f. f w) rest.0 ∙ ground arith;
            },
            rw
                (
                  run,
                  get_sqe_room ruby ring (suc fuel) node fuel (poll_sqe x descriptor events) k
                      (record s { outside = u })
                      (ap (ring.get_sqe (poll_sqe x descriptor events)) rest.3 ∙ room),
                )
                refl,
          )
