-- ===== src/Tests/OfKQueue.antt =====
-- A selector of kqueue.c whose entry for the number 3 is at 1, where the node 2 waits for writability.
use Prim.Native.Nat.{bit_and}
use io_event.KQueue.Handle.{handle}
use io_event.Tests.OfEPoll.{one_item-IsList, one_item}
use io_event.System.{esrch, failure, success, Call}
use io_event.KQueue.Wait.{sys_fail, answered, io_wait, Processes, process_wait}
use io_event.Base.Int.{pos}
use io_event.KQueue.Wait.Stale.{stale_exit, HasExit, HasExited, Has}
use io_event.KQueue.Register.{register_on-Enlisted, Enlisted}
use io_event.Selector.{Selector}
use io_event.Fiber.{returned, Ruby}
use io_event.KQueue.Handle.Passed.{handle-Rearmed, Rearmed}
use io_event.Base.{
  ℕ, ◌≡◌, refl, ap, Bool, true, false, ◌||◌, none, some, List, [], ◌∷◌, arith, null, update,
}
use io_event.KQueue.{
  all_ask, register_on, evfilt_proc, changes, KQueue, Kernel, Kevent, Filter, Answers,
}

-- What is watched.
abbrev Watched : Type 0
Watched = ℕ → Filter → Bool

abbrev watch : List Kevent → Watched → Watched
watch cs k ident f = changes ident f cs || k ident f

-- A kernel that takes each change.
abbrev kernel : Kernel Watched
kernel = record {
  kevent = λ cs k. (success 0, watch cs k);
  watches = λ k. k;
  kevent_done = λ cs n ident f k all ok. refl;
  kevent_others = λ cs ident f k out. ap (λ b. b || k ident f) out;
}

-- A kernel that refuses each change for the process 3.
abbrev refuse : (gone : Bool) → List Kevent → Watched → Call × Watched
refuse true cs k = (failure esrch, k)
refuse false cs k = (success 0, watch cs k)

refuse_done :
    (gone : Bool) (cs : List Kevent) (n ident : ℕ) (f : Filter) (k : Watched)
    → all_ask cs ≡ true
    → (refuse gone cs k).0 ≡ success n
    → (refuse gone cs k).1 ident f ≡ (changes ident f cs || k ident f)
refuse_done true cs n ident f k all bad = absurd (cc bad)
refuse_done false cs n ident f k all done = refl

refuse_others :
    (gone : Bool) (cs : List Kevent) (ident : ℕ) (f : Filter) (k : Watched)
    → changes ident f cs ≡ false
    → (refuse gone cs k).1 ident f ≡ k ident f
refuse_others true cs ident f k out = refl
refuse_others false cs ident f k out = ap (λ b. b || k ident f) out

abbrev strict_kernel : Kernel Watched
strict_kernel = record {
  kevent = λ cs k. refuse (changes 3 evfilt_proc cs) cs k;
  watches = λ k. k;
  kevent_done = λ cs n ident f k. refuse_done (changes 3 evfilt_proc cs) cs n ident f k;
  kevent_others = λ cs ident f k. refuse_others (changes 3 evfilt_proc cs) cs ident f k;
}

refuses :
    (cs : List Kevent) (k : Watched)
    → changes 3 evfilt_proc cs ≡ true
    → (strict_kernel.kevent cs k).0 ≡ failure esrch
refuses cs k asks = ap (λ gone. (refuse gone cs k).0) asks

abbrev State : Type 0
State = Selector (KQueue Watched)

abbrev queue : KQueue Watched
queue = record {
  descriptor = pos 6;
  owner = 1000;
  idle_duration = record { tv_sec = pos 0; tv_nsec = pos 0 };
  descriptors = record {
    base = none ∷ none ∷ none ∷ some 1 ∷ [];
    count = 4;
    limit = 4;
    element_size = 40;
  };
  links = one_item;
  events = update (update (λ _. 0) 2 4) 30 1;
  ready = λ _. 0;
  fiber = update (λ _. 0) 2 7;
  waiting_events = update (λ _. 0) 1 4;
  registered_events = update (λ _. 0) 1 4;
  ready_events = update (λ _. 0) 1 1;
  kernel = λ _ _. false;
}

abbrev start : State
start = record {
  self = 60;
  loop = 50;
  blocked = 0;
  waiting = null;
  ready = null;
  head = λ _. null;
  tail = λ _. null;
  flags = λ _. 0;
  fiber = λ _. 0;
  outside = queue;
}

abbrev calm : Ruby State
calm = record {
  is_fiber = λ _. true;
  fiber_alive = λ _ _. true;
  fiber_transfer = λ _ _ s. some (returned 6, s);
  fiber_raise = λ _ _ s. some (returned 6, s);
  alive = λ _ _. true;
  transfer = λ _ _ s. some (returned 6, s);
  current = λ _. 7;
}

register_on-Enlisted_example : Enlisted kernel 3 1 30 (2 ∷ []) (register_on kernel 3 1 30 queue)
register_on-Enlisted_example =
    register_on-Enlisted kernel 3 1 30 (2 ∷ [])
      (record { list = one_item-IsList; covered = λ x i. ground (arith, i) })
      (record { nonnull = ground arith; head = refl; tail = refl }) (ground arith)

handle-Rearmed_example : Rearmed calm 1 8 kernel 3 (2 ∷ []) start (handle calm kernel 2 3 1 8 start)
handle-Rearmed_example =
    handle-Rearmed calm 1 8 kernel 3 2 (2 ∷ []) start one_item-IsList refl
      (λ x i. let at : x ≡ 2 = ground (arith, i) in ap (λ y. bit_and (queue.events y) 1) at)
      (omega arith)

abbrev granted : Answers
granted = record { slots = true; element = true; fresh = 16 }

abbrev processes : Processes State
processes = record { waitid = λ _ s. (success 0, s); reap = λ _ _ s. (90, s) }

start-Has : Has granted 3 1 start
start-Has = record { present = refl; room = omega arith; small = omega arith; old = refl }

gone-HasExited : HasExited calm strict_kernel granted 3 1 refuses processes
gone-HasExited = record {
  waits = λ s. (0, refl);
  waitid_descriptors = λ s. refl;
  waitid_events = λ s. refl;
  reap_descriptors = λ flags s. refl;
  reap_events = λ flags s. refl;
}

stale_exit_example :
    (t : State) × (u : State) × (process_wait calm strict_kernel processes 1 granted 30 9 8
        (some 3)
        0
        start
      ≡ some (
        answered (processes.reap 3 0 (processes.waitid 3 t).1).0,
        (processes.reap 3 0 (processes.waitid 3 t).1).1,
      ))
    × HasExit 1 (processes.reap 3 0 (processes.waitid 3 t).1).1
    × (io_wait calm strict_kernel granted 31 9 8 3 1 (processes.reap 3 0 (processes.waitid 3 t).1).1
        ≡ some (sys_fail esrch, u))
    × HasExit 1 u
    × Has granted 3 1 u
stale_exit_example =
    stale_exit calm strict_kernel granted 3 1 refuses processes 0 0 30 31 9 8 8 1 start start-Has
      gone-HasExited
