-- ===== src/EPoll/Wait.antt =====
-- `IO_Event_Selector_EPoll_io_wait` with `io_wait_transfer` and `io_wait_ensure`.
use io_event.Base.{
  and_then, Cmd, ℕ, zero, suc, ◌≡◌, refl, Option, none, some, List, ◌∷◌, ◌++◌, Ptr, null, arith,
  update, ◌==◌, if◌then◌else◌,
}
use io_event.Fiber.{Outcome, returned, raised, Ruby}
use io_event.List.Shape.{IsDetached}
use io_event.System.{success, failure, eperm}
use io_event.Array.{Error, ok, err}
use io_event.Selector.{Selector, Reply, outcome, loop_yield, ready_push, yield}
use io_event.EPoll.{EPoll, Kernel, Answers, waiting_register, waiting_cancel}
use io_event.EPoll.Waiting.{IsWaiting, waiting_cancel-IsWaiting}
use io_event.EPoll.Handle.{on_poll}

-- How `IO_Event_Selector_EPoll_io_wait` comes back: with the events, or `Qfalse` if the fiber was
-- resumed without any; with the exception that it was resumed with; or with an error of its own.
pub data Waited : Type 0 where
  ready : ℕ → Waited
  not_ready : Waited
  interrupted : ℕ → Waited
  not_found : Error → Waited
  sys_fail : ℕ → Waited
  replied : Reply → Waited

-- What the branch for `EPERM` makes of its yield.
abbrev pub after_yield : ℕ → Reply → Waited
after_yield events (outcome (returned v)) = ready events
after_yield events (outcome (raised x)) = interrupted x
after_yield events r = replied r

-- What a wait is to answer, by what the fiber was resumed with and the events that were set.
abbrev pub IsReply : Outcome → (events : ℕ) → Waited → Type 0
IsReply (returned v) zero r = r ≡ not_ready
IsReply (returned v) (suc n) r = r ≡ ready (suc n)
IsReply (raised x) n r = r ≡ interrupted x

returned-IsReply : (v n : ℕ) → IsReply (returned v) n (if n == 0 then not_ready else ready n)
returned-IsReply v zero = refl
returned-IsReply v (suc n) = ground arith

module _ {K : Type 0} where
  -- The `waiting` on the stack.
  abbrev pub new_waiting :
      (waiting type : Ptr) (fiber events : ℕ) → Selector (EPoll K) → Selector (EPoll K)
  new_waiting w type fiber events s =
      let e = s.outside in
      record s {
        outside = record e {
          links = record e.links {
            head = update e.links.head w null;
            tail = update e.links.tail w null;
            type = update e.links.type w type;
          };
          fiber = update e.fiber w fiber;
          events = update e.events w events;
          ready = update e.ready w 0;
        };
      }

  -- What `io_wait_transfer` makes of a resumption.
  abbrev pub answer : Ptr → Outcome → EPoll K → Waited
  answer w (returned v) e = if e.ready w == 0 then not_ready else ready (e.ready w)
  answer w (raised x) e = interrupted x

  -- `rb_ensure` with `io_wait_ensure`: the node is cancelled whatever the body does.
  abbrev pub ensure_cancel :
      Ptr → Option (Outcome × Selector (EPoll K)) → Option (Waited × Selector (EPoll K))
  ensure_cancel w none = none
  ensure_cancel w (some (o, s)) =
      and_then (on_poll (waiting_cancel w) s) λ _ t. some (answer w o s.outside, t)

  module _ (ruby : Ruby (Selector (EPoll K))) (kernel : Kernel K) where
    -- The branch for a file that epoll cannot watch: `node` and `own` are the nodes of the ready queue.
    abbrev pub always_ready : (node own : Ptr) (fiber events : ℕ) → Cmd (Selector (EPoll K)) Waited
    always_ready node own fiber events s =
        and_then (ready_push node fiber s)
          λ _ t. and_then (yield ruby own t) λ r u. some (after_yield events r, u)

    -- `IO_Event_Selector_EPoll_io_wait`
    pub io_wait :
        Answers
        → (w type node own : Ptr) (fiber io descriptor events : ℕ) → Cmd (Selector (EPoll K)) Waited
    io_wait a w type node own fiber io descriptor events s =
        and_then
          (on_poll (waiting_register kernel a io descriptor w) (new_waiting w type fiber events s))
          λ r t. elim r [
            | err e ↦ some (not_found e, t)
            | ok (failure e) ↦
                if e == eperm then always_ready node own fiber events t else some (sys_fail e, t)
            | ok (success n) ↦ ensure_cancel w (loop_yield ruby t)
          ]

  answer-IsReply : (w : Ptr) (o : Outcome) (e : EPoll K) → IsReply o (e.ready w) (answer w o e)
  answer-IsReply w (returned v) e = returned-IsReply v (e.ready w)
  answer-IsReply w (raised x) e = refl

  -- What is true when a wait has come back.
  pub record Cancelled (d w : Ptr) (rest : List Ptr) (o : Outcome) (s : Selector (EPoll K))
      (result : Option (Waited × Selector (EPoll K))) : Type 0 where
    pub after : Selector (EPoll K)
    pub reply : Waited
    pub run : result ≡ some (reply, after)
    pub answers : IsReply o (s.outside.ready w) reply
    pub waits : IsWaiting after.outside d rest
    pub detached : IsDetached after.outside.links w
    pub forgotten : after.outside.fiber w ≡ 0

  -- A fiber that waits on a descriptor and is resumed, by a value or an exception, with its node still
  -- in the list, wherever it stands there by then: its node leaves the list and forgets the fiber, the
  -- others keep their order, and the call returns the events that were set, false if there are none, or
  -- raises the exception.
  pub ensure_cancel-Cancelled :
      {s : Selector (EPoll K)} (d : Ptr) (xs : List Ptr) (w : Ptr) (ys : List Ptr) (o : Outcome)
      → IsWaiting s.outside d (xs ++ w ∷ ys)
      → Cancelled d w (xs ++ ys) o s (ensure_cancel w (some (o, s)))
  ensure_cancel-Cancelled {s} d xs w ys o is =
      let (t, run, is', off, gone, _, _, _) = waiting_cancel-IsWaiting d xs w ys is in
      record {
        after = record s { outside = t };
        reply = answer w o s.outside;
        run = simp run refl;
        answers = answer-IsReply w o s.outside;
        waits = is';
        detached = off;
        forgotten = gone;
      }
