-- ===== src/Uring/Owned.antt =====
-- Who owns a completion of uring.c: the free list, or an entry of the ring that is still to come back.
use io_event.Array.{ok}
use io_event.System.{Call}
use io_event.Uring.Completions.{acquire-reuses, IsRest, release-IsSound}
use io_event.Uring.Ring.{interrupted, timeout, Sqe, nothing, Cqe, completing, UserData, Liburing}
use io_event.List.Shape.{IsDetached}
use io_event.Base.{
  ==_iff, ne_of_mem, ◌≢◌, Bool, sym, subst, ◌∙◌, false, inr, inl, Bool-cases, ℕ, ◌+◌, ◌≤◌, ◌<◌, ◌≡◌,
  some, List, ◌∷◌, arith, Ptr, null, ◌==◌, if◌then◌else◌, ◌∈◌, ◌∉◌,
}
use io_event.Uring.{acquire, Answers, cancel, Uring, IsSound, release}

-- How many times `c` is carried by what an entry of the ring carries.
abbrev pub carries : Ptr → UserData → ℕ
carries c nothing = 0
carries c timeout = 0
carries c interrupted = 0
carries c (completing d) = if c == d then 1 else 0

-- What liburing promises: an entry that is queued comes back once, with what it carries. `holds` is the
-- number of entries, queued, in progress and completed, that carry a completion.
pub record IsRing {K : Type 0} (ring : Liburing K) (holds : Ptr → K → ℕ) : Type 0 where
  pub peek :
      (k : K) (cqe : Cqe) (c : Ptr)
      → ring.peek k ≡ some cqe
      → holds c k ≡ holds c (ring.cq_advance k) + carries c cqe.user_data
  pub get_sqe :
      (e : Sqe) (k k' : K) (c : Ptr)
      → ring.get_sqe e k ≡ some k'
      → holds c k' ≡ holds c k + carries c e.user_data
  pub submit : (k : K) (c : Ptr) → holds c (ring.submit k).1 ≡ holds c k

-- Every completion has one owner, if `n` counts the entries of the ring that carry it: those of the free
-- list are carried by none, none is carried twice, and one that is carried stands in no list.
pub record IsOwned {K : Type 0} (n : Ptr → ℕ) (free : List Ptr) (s : Uring K) : Type 0 where
  pub sound : IsSound free s
  pub idle : (c : Ptr) → c ∈ free → n c ≡ 0
  pub single : (c : Ptr) → n c ≤ 1
  pub apart : (c : Ptr) → 0 < n c → IsDetached s.links c × c ∉ s.free_list ∷ free

module _ {K : Type 0} where
  -- Only the rest of the selector is written, and the count is the same.
  pub unlinked :
      {n m : Ptr → ℕ} {free : List Ptr} {s : Uring K} (registered : Bool) (fiber : Ptr → ℕ)
      (result : Ptr → Call) (flags : Ptr → ℕ) (k : K)
      → IsOwned n free s
      → ((c : Ptr) → n c ≡ m c)
      → IsOwned m free (record s {
        wakeup_registered = registered;
        fiber = fiber;
        result = result;
        flags = flags;
        kernel = k;
      })
  unlinked {n} {m} {free} {s} registered fiber result flags k is same = record {
    sound = record {
      list = is.sound.list;
      of_waiting = is.sound.of_waiting;
      of_completion = is.sound.of_completion;
      of_null = is.sound.of_null;
      idle = is.sound.idle;
    };
    idle = λ c i. sym (same c) ∙ is.idle c i;
    single = λ c. subst (λ k. k ≤ 1) (same c) (is.single c);
    apart = λ c h. is.apart c (subst (λ k. 0 < k) (sym (same c)) h);
  }

  -- The entry of a completion has left the ring, and the completion goes to the free list.
  pub release-IsOwned :
      {n m : Ptr → ℕ} {free : List Ptr} {s : Uring K} (c : Ptr)
      → IsOwned n free s
      → ((d : Ptr) → n d ≡ m d + carries d (completing c))
      → (t : Uring K) × (release c s ≡ some (tt, t))
        × IsOwned m (c ∷ free) t
        × (t.waiting c ≡ null)
        × (t.completion ≡ (cancel c s).completion)
        × IsRest s t
  release-IsOwned {n} {m} {free} {s} c is taken =
      let one : 0 < n c = ground (arith, taken c) in
      let (off, out) = is.apart c one in
      let (t, run, kept, same, (waiting, outside), rest) = release-IsSound c is.sound off out in
      (
        t,
        run,
        record {
          sound = kept;
          idle = λ d i. elim (Bool-cases (d == c)) [
            | inl e ↦ ground (arith, e, taken d, is.single d)
            | inr e ↦ ground (arith, e, taken d, i, is.idle d)
          ];
          single = λ d. ground (arith, taken d, is.single d);
          apart = λ d h.
              let (off', out') = is.apart d (ground (arith, taken d, h)) in
              let differs : (d == c) ≡ false = ground (arith, taken d, h, is.single d) in
              let out'' : d ∉ c ∷ s.free_list ∷ free = ground (arith, differs, out') in
              (
                record {
                  nonnull = off'.nonnull;
                  head = outside.head d out'' ∙ off'.head;
                  tail = outside.tail d out'' ∙ off'.tail;
                },
                subst (λ l. d ∉ l ∷ c ∷ free) (sym rest.2) (ground (arith, differs, out')),
              );
        },
        waiting,
        same,
        rest,
      )

  -- A completion that is acquired belongs to an entry as soon as that is queued.
  pub acquire-IsOwned :
      {n m : Ptr → ℕ} {free : List Ptr} {s : Uring K} (a : Answers) (type x y w : Ptr)
      → IsOwned n (x ∷ y ∷ free) s
      → s.completion w ≡ null
      → w ≢ null
      → ((d : Ptr) → m d ≡ n d + carries d (completing x))
      → (t : Uring K) × (acquire a type w s ≡ some (ok x, t))
        × IsOwned m (y ∷ free) t
        × (t.completion w ≡ x)
        × (t.waiting x ≡ w)
        × IsRest s t
  acquire-IsOwned {n} {m} {free} {s} a type x y w is idle nonnull queued =
      let (t, run, kept, points, back, off, outside, rest) =
        acquire-reuses a type x y w is.sound idle nonnull in
      let alone : n x ≡ 0 = is.idle x (ground arith) in
      (
        t,
        run,
        record {
          sound = kept;
          idle = λ d i. ground (
            arith,
            queued d,
            is.idle d (ground (arith, i)),
            ne_of_mem x d (y ∷ free) is.sound.list.distinct.1.0 i,
          );
          single = λ d. ground (arith, queued d, is.single d, alone);
          apart = λ d h. elim (Bool-cases (d == x)) [
            | inl e ↦
                subst (λ p. IsDetached t.links p × p ∉ t.free_list ∷ y ∷ free)
                  (sym ((==_iff d x).0 e))
                  (
                    off,
                    subst (λ l. x ∉ l ∷ y ∷ free) (sym rest.2)
                        (ground (arith, is.sound.list.distinct)),
                  )
            | inr e ↦
                let (off', out') = is.apart d (ground (arith, queued d, h, e)) in
                (
                  record {
                    nonnull = off'.nonnull;
                    head = outside.head d out' ∙ off'.head;
                    tail = outside.tail d out' ∙ off'.tail;
                  },
                  subst (λ l. d ∉ l ∷ y ∷ free) (sym rest.2) (ground (arith, out')),
                )
          ];
        },
        points,
        back,
        rest,
      )
