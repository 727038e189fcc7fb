-- ===== src/KQueue/Wait.antt =====
-- `IO_Event_Selector_KQueue_io_wait` and `IO_Event_Selector_KQueue_process_wait`.
pub mod Stale
use io_event.KQueue.Handle.{on_queue}
use io_event.Selector.{loop_yield, Selector}
use io_event.Array.{ok, err, Result, Error}
use io_event.System.{failure, success, esrch, eintr, Call}
use io_event.Fiber.{raised, returned, Ruby, Outcome}
use io_event.Base.{
  and_then, Cmd, ℕ, zero, suc, Option, none, some, Ptr, null, update, ◌==◌, if◌then◌else◌,
}
use io_event.KQueue.{exit, KQueue, Kernel, Answers, waiting_register, waiting_cancel}

-- The calls on processes: waitid(2) with `WEXITED | WNOWAIT` of `process_prewait`, and
-- `IO_Event_Selector_process_status_reap`.
pub record Processes (S : Type 0) : Type 0 where
  pub waitid : (pid : ℕ) → S → Call × S
  pub reap : (pid flags : ℕ) → S → ℕ × S

-- How a wait comes back: with the events or a status, with `Qfalse` if the fiber was resumed without an
-- event, with an exception, with an error of its own, with what the fallback on a thread returns, or (in
-- the model alone) by the end of its fuel.
pub data Waited : Type 0 where
  answered : ℕ → Waited
  not_ready : Waited
  interrupted : ℕ → Waited
  not_found : Error → Waited
  sys_fail : ℕ → Waited
  delegated : Waited
  out_of_fuel : Waited

module _ {K : Type 0} where
  -- The `waiting` on the stack.
  abbrev pub new_waiting :
      (waiting type : Ptr) (fiber events : ℕ) → Selector (KQueue K) → Selector (KQueue K)
  new_waiting w type fiber events s =
      let q = s.outside in
      record s {
        outside = record q {
          links = record q.links {
            head = update q.links.head w null;
            tail = update q.links.tail w null;
            type = update q.links.type w type;
          };
          fiber = update q.fiber w fiber;
          events = update q.events w events;
          ready = update q.ready w 0;
        };
      }

  -- `rb_ensure` with a `Waiting_cancel`: the node is cancelled whatever the body does.
  abbrev pub ensure_cancel :
      Ptr → Waited × Selector (KQueue K) → Option (Waited × Selector (KQueue K))
  ensure_cancel w (r, s) = and_then (on_queue (waiting_cancel w) s) (λ _ t. some (r, t))

  -- What `io_wait_transfer` makes of a resumption.
  abbrev pub io_answer : Ptr → Outcome → Selector (KQueue K) → Waited × Selector (KQueue K)
  io_answer w (returned v) s =
      (if s.outside.ready w == 0 then not_ready else answered (s.outside.ready w), s)
  io_answer w (raised x) s = (interrupted x, s)

  module _ (ruby : Ruby (Selector (KQueue K))) (kernel : Kernel K) where
    -- The body and its `rb_ensure`, once the registration has succeeded.
    abbrev pub suspend :
        (w : Ptr)
        → (Outcome → Selector (KQueue K) → Waited × Selector (KQueue K))
        → Cmd (Selector (KQueue K)) Waited
    suspend w answer s = and_then (loop_yield ruby s) (λ o t. ensure_cancel w (answer o t))

    abbrev pub io_registered : (w : Ptr) → Result Call → Cmd (Selector (KQueue K)) Waited
    io_registered w (err e) s = some (not_found e, s)
    io_registered w (ok (failure e)) s = some (sys_fail e, s)
    io_registered w (ok (success n)) s = suspend w (io_answer w) s

    -- `IO_Event_Selector_KQueue_io_wait`
    pub io_wait :
        Answers → (w type : Ptr) (fiber descriptor events : ℕ) → Cmd (Selector (KQueue K)) Waited
    io_wait a w type fiber descriptor events s =
        and_then
          (on_queue (waiting_register kernel a descriptor w) (new_waiting w type fiber events s))
          (io_registered w)

    module _ (processes : Processes (Selector (KQueue K))) (fuel : ℕ) where
      -- A turn of the loop of `process_prewait`; `again` is the next.
      abbrev pub prewaited :
          (again : Option Waited × Selector (KQueue K))
          → Call
          → Selector (KQueue K)
          → Option Waited × Selector (KQueue K)
      prewaited again (success n) s = (none, s)
      prewaited again (failure e) s = if e == eintr then again else (some (sys_fail e), s)

      -- `process_prewait`, on fuel: `none` for a return.
      pub process_prewait :
          (fuel pid : ℕ) → Selector (KQueue K) → Option Waited × Selector (KQueue K)
      process_prewait zero pid s = (some out_of_fuel, s)
      process_prewait (suc fuel) pid s =
          let (r, t) = processes.waitid pid s in prewaited (process_prewait fuel pid t) r t

      -- `IO_Event_Selector_process_status_reap`, unless `process_prewait` has raised.
      abbrev pub reaped :
          (pid flags : ℕ) → Option Waited × Selector (KQueue K) → Waited × Selector (KQueue K)
      reaped pid flags (some failed, s) = (failed, s)
      reaped pid flags (none, s) =
          let (status, t) = processes.reap pid flags s in (answered status, t)

      -- `process_prewait`, and `IO_Event_Selector_process_status_reap` after it.
      pub prewait_reap : (pid flags : ℕ) → Selector (KQueue K) → Waited × Selector (KQueue K)
      unfolding process_prewait
      prewait_reap pid flags s = reaped pid flags (process_prewait fuel pid s)

      -- What `process_wait_transfer` makes of a resumption.
      abbrev pub process_answer :
          (pid flags : ℕ) (w : Ptr) → Outcome → Selector (KQueue K) → Waited × Selector (KQueue K)
      process_answer pid flags w (returned v) s =
          if s.outside.ready w == 0 then (not_ready, s) else prewait_reap pid flags s
      process_answer pid flags w (raised x) s = (interrupted x, s)

      abbrev pub process_registered :
          (pid flags : ℕ) (w : Ptr) → Result Call → Cmd (Selector (KQueue K)) Waited
      process_registered pid flags w (err e) s = some (not_found e, s)
      process_registered pid flags w (ok (failure e)) s =
          if e == esrch then some (prewait_reap pid flags s) else some (sys_fail e, s)
      process_registered pid flags w (ok (success n)) s = suspend w (process_answer pid flags w) s

      -- `IO_Event_Selector_KQueue_process_wait`; `none` for `pid` stands for a pid that is not positive.
      pub process_wait :
          Answers
          → (w type : Ptr) (fiber : ℕ) (pid : Option ℕ) (flags : ℕ)
          → Cmd (Selector (KQueue K)) Waited
      unfolding prewait_reap
      process_wait a w type fiber none flags s = some (delegated, s)
      process_wait a w type fiber (some pid) flags s =
          and_then (on_queue (waiting_register kernel a pid w) (new_waiting w type fiber exit s))
            (process_registered pid flags w)
