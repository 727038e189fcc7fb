-- ===== src/Uring/Wait/Finish.antt =====
-- The `rb_ensure` of `IO_Event_Selector_URing_io_wait`, with `io_wait_transfer` and `io_wait_ensure`: what
-- a fiber that is resumed answers, and what becomes of an operation that is still in progress.
use io_event.Uring.Wait.{Waited, answered, failed, raised_in}
use io_event.Uring.Complete.Settle.{Owned}
use io_event.Uring.Flags.{poll_flags_from_events, Reports}
use io_event.Uring.Ring.{submit_now, set_kernel, async_cancel, nothing, submitted, Sqe, Liburing}
use io_event.Selector.{Selector}
use io_event.Fiber.{returned, raised, Outcome, Ruby}
use io_event.System.{success, failure, Call}
use io_event.Base.{
  ℕ, zero, suc, ◌≡◌, ◌≢◌, ◌⊎◌, refl, inl, inr, none, some, arith, Ptr, null, ◌==◌, Bool-cases,
  Option,
}
use Prim.Native.Nat.{bit_and}
use io_event.Uring.{Uring, waiting_cancel}

-- What is to be answered for the `events` asked for, when the poll has the result: the events that were
-- reported of those that `flags` ask for, `false` for none, an error, or the exception of the resumption.
abbrev pub IsPollReply : (flags : ℕ) → Outcome → Call → Waited ℕ → Type 0
IsPollReply flags (raised x) result r = r ≡ raised_in x
IsPollReply flags (returned v) (failure e) r = r ≡ failed e
IsPollReply flags (returned v) (success zero) r = r ≡ answered none
IsPollReply flags (returned v) (success (suc n)) r =
    (events : ℕ) × (r ≡ answered (some events)) × Reports (bit_and (suc n) flags) events

-- The entry that cancels the operation of a completion.
abbrev pub cancelling : (completion : Ptr) → Sqe
cancelling c = record { operation = async_cancel c; user_data = nothing }

module _ {K : Type 0} (ruby : Ruby (Selector (Uring K))) (ring : Liburing K) (fuel : ℕ) (node : Ptr)
    (w : Ptr) where
  -- The operation of `w` is over, or its cancellation is queued, as `k`, and has been submitted.
  abbrev pub IsCanceled : K → (v z : Selector (Uring K)) → Type 0
  IsCanceled k v z =
      ((v.outside.completion w ≡ null) × (z ≡ v))
      ⊎ ((v.outside.completion w ≢ null)
          × (ring.get_sqe (cancelling (v.outside.completion w)) v.outside.kernel ≡ some k)
          × (submit_now ruby ring (suc fuel) node (set_kernel k v) ≡ some (submitted, z)))

  -- `w` is bound to no completion any more, nor is the one that it had to `w`; it has no fiber, and the
  -- ring is that of `z`.
  pub record Left (z u : Selector (Uring K)) : Type 0 where
    pub completion : u.outside.completion w ≡ null
    pub fiber : u.outside.fiber w ≡ 0
    pub kernel : u.outside.kernel ≡ z.outside.kernel
    pub waiting : z.outside.completion w ≢ null → u.outside.waiting (z.outside.completion w) ≡ null

  left : (z : Selector (Uring K)) → Left z (record z { outside = waiting_cancel w z.outside })
  unfolding waiting_cancel
  left z = elim (Bool-cases (z.outside.completion w == null)) [
    | inl e ↦ record {
      completion = ground arith;
      fiber = ground arith;
      kernel = simp e refl;
      waiting = λ waits. absurd (ground (arith, e, waits));
    }
    | inr e ↦ record {
      completion = simp e (ground arith);
      fiber = simp e (ground arith);
      kernel = simp e refl;
      waiting = λ waits. simp e (ground arith);
    }
  ]

  -- How a wait for `events` ends, when the fiber is resumed with `o` in the state `v`.
  pub record Finished (events : ℕ) (o : Outcome) (v z : Selector (Uring K))
      (result : Option (Waited ℕ × Selector (Uring K))) : Type 0 where
    pub reply : Waited ℕ
    pub after : Selector (Uring K)
    pub run : result ≡ some (reply, after)
    pub answers : IsPollReply (poll_flags_from_events events) o (v.outside.result w) reply
    pub left : Left z after
