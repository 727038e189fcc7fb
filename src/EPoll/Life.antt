-- ===== src/EPoll/Life.antt =====
-- How a selector of epoll.c begins and ends, and how another thread wakes it up.
use io_event.Base.{
  ℕ, ◌+◌, ◌%◌, ◌^◌, ◌<◌, ◌≡◌, refl, ap, ◌≢◌, inl, inr, Bool, true, false, not, ◌||◌, Option, none,
  some, arith, Ptr, null, ◌==◌, if◌then◌else◌, ==_iff, Bool-cases,
}
use Prim.Native.Nat.{bit_or}
use io_event.Base.Int.{pos, negsuc, ltb_ℤ}
use io_event.System.{Call, Call-cases, success, failure}
use io_event.Array
use io_event.Array.{Array, Result, ok, err}
use io_event.Fiber
use io_event.Selector
use io_event.Selector.{Selector}
use io_event.Interrupt.{Checked, EventFd, signal, signal-readable}
use io_event.Interrupt
use io_event.EPoll.{EPoll, Kernel, add, epollin, descriptor_free}

abbrev pub epollrdhup : ℕ
epollrdhup = 8192

-- `sizeof(struct IO_Event_Selector_EPoll_Descriptor)`
abbrev pub descriptor_size : ℕ
descriptor_size = 40

-- `sizeof(struct IO_Event_Selector_EPoll)`
abbrev pub selector_size : ℕ
selector_size = 120

-- How `initialize` comes back: it returns, or `rb_sys_fail` raises.
pub data Initialized : Type 0 where
  initialized : Initialized
  sys_fail : ℕ → Initialized

abbrev pub added : Call → Initialized
added (success n) = initialized
added (failure e) = sys_fail e

module _ {K : Type 0} where
  -- `close_internal`, in the process `pid`: whether it closes the descriptors, and the selector.
  pub close_internal : (pid : ℕ) → EPoll K → Bool × EPoll K
  close_internal pid s =
      if ltb_ℤ s.descriptor (pos 0)
      then (false, s)
      else (s.owner == pid, record s { descriptor = negsuc 0 })

  -- `IO_Event_Selector_EPoll_closed_p`
  pub closed_p : (pid : ℕ) → EPoll K → Bool
  closed_p pid s = ltb_ℤ s.descriptor (pos 0) || not (s.owner == pid)

  abbrev free_element : Ptr → Option (EPoll K) → Option (EPoll K)
  free_element d none = none
  free_element d (some s) = elim (descriptor_free d s) [ none ↦ none | some (u, t) ↦ some t ]

  -- `IO_Event_Selector_EPoll_Type_free`
  unfoldable type_free : (pid : ℕ) → EPoll K → Option (Bool × EPoll K)
  unfolding close_internal
  type_free pid s =
      let (closed, t) = close_internal pid s in
      elim (Array.free free_element t.descriptors (some t)) [
        | none ↦ none
        | some (none, array) ↦ none
        | some (some u, array) ↦ some (closed, record u { descriptors = array })
      ]

  -- `IO_Event_Selector_EPoll_Type_size`
  unfoldable type_size : EPoll K → ℕ
  type_size s = (selector_size + Array.memory_size s.descriptors) % 2 ^ 64

  -- `IO_Event_Selector_EPoll_allocate`: `class` is its argument, which it passes on as the selector.
  unfoldable allocate :
      (granted : Bool) (class : ℕ) → Selector (EPoll K) → Result (Selector (EPoll K))
  allocate granted class s =
      let t = Selector.initialize class Fiber.nil s in
      elim (Array.initialize granted Array.default_count descriptor_size) [
        | err e ↦ err e
        | ok array ↦ ok (record t {
          outside = record t.outside { descriptor = negsuc 0; owner = 0; descriptors = array };
        })
      ]

  module _ (kernel : Kernel K) where
    -- `IO_Event_Interrupt_add`, on the descriptor of the interrupt.
    unfoldable pub interrupt_add : (interrupt : ℕ) → EPoll K → Initialized × EPoll K
    interrupt_add interrupt s =
        let (r, k) = kernel.epoll_ctl add interrupt (bit_or epollin epollrdhup) s.kernel in
        (added r, record s { kernel = k })

    interrupt_add_lem :
        (interrupt : ℕ) (s : EPoll K)
        → (interrupt_add interrupt s).0 ≡ initialized
        → kernel.interest (interrupt_add interrupt s).1.kernel interrupt
          ≡ some (bit_or epollin epollrdhup)
    unfolding interrupt_add
    interrupt_add_lem interrupt s done =
        let flags = bit_or epollin epollrdhup in
        elim (Call-cases (kernel.epoll_ctl add interrupt flags s.kernel).0) [
          | inl (n, e) ↦ kernel.control_done add interrupt flags n s.kernel e
          | inr (n, e) ↦ absurd (ground (arith, ap added e, done))
        ]

    -- `IO_Event_Selector_EPoll_initialize`: `created` is what `epoll_create1` returns, `interrupt` the
    -- descriptor that `IO_Event_Interrupt_open` opens.
    unfoldable pub initialize :
        (created : Call) (pid interrupt self loop : ℕ)
        → Selector (EPoll K)
        → Initialized × Selector (EPoll K)
    unfolding interrupt_add
    initialize created pid interrupt self loop s =
        let t = Selector.initialize self loop s in
        elim created [
          | failure e ↦ (sys_fail e, t)
          | success n ↦
              let (r, e) =
                interrupt_add interrupt (record t.outside { descriptor = pos n; owner = pid }) in
              (r, record t { outside = e })
        ]

    -- A selector that has been initialized is open for the process that did it and closed for each
    -- other one, its ready queue is empty, and the kernel watches the interrupt for reading.
    pub initialize_lem :
        (created : Call) (pid other interrupt self loop : ℕ) (s : Selector (EPoll K))
        → (initialize created pid interrupt self loop s).0 ≡ initialized
        → other ≢ pid
        → (closed_p pid (initialize created pid interrupt self loop s).1.outside ≡ false)
          × (closed_p other (initialize created pid interrupt self loop s).1.outside ≡ true)
          × ((initialize created pid interrupt self loop s).1.ready ≡ null)
          × (kernel.interest
                (initialize created pid interrupt self loop s).1.outside.kernel
                interrupt
              ≡ some (bit_or epollin epollrdhup))
    unfolding initialize interrupt_add closed_p Selector.initialize
    initialize_lem (failure e) pid other interrupt self loop s done ne = ground (arith, done)
    initialize_lem (success n) pid other interrupt self loop s done ne = (
      ground arith,
      ground (arith, ne),
      refl,
      interrupt_add_lem interrupt (record s.outside { descriptor = pos n; owner = pid }) done,
    )

  -- Closing closes the descriptors only in the process that opened them, and at most once; whether it
  -- does or not, the selector is closed then.
  pub close_internal_lem :
      (pid other : ℕ) (s : EPoll K)
      → ((close_internal pid s).0 ≡ true → (s.owner ≡ pid) × (closed_p pid s ≡ false))
        × (closed_p pid (close_internal pid s).1 ≡ true)
        × ((close_internal other (close_internal pid s).1).0 ≡ false)
  unfolding close_internal closed_p
  close_internal_lem pid other s = elim (Bool-cases (ltb_ℤ s.descriptor (pos 0))) [
    | inl e ↦ ground (arith, e)
    | inr e ↦ ground (arith, e)
  ]

  module _ (fd : EventFd K) where
    -- `IO_Event_Selector_EPoll_wakeup`
    pub wakeup : Selector (EPoll K) → Bool × Checked × Selector (EPoll K)
    wakeup s =
        let (c, k) = signal fd s.outside.kernel in
        if s.blocked == 0
        then (false, Interrupt.returned, s)
        else (true, c, record s { outside = record s.outside { kernel = k } })

    -- Waking up a selector returns true and leaves its interrupt readable if it is blocked, unless the
    -- write fails; if it is not blocked it returns false and changes nothing.
    pub wakeup_lem :
        (s : Selector (EPoll K))
        → ((wakeup s).0 ≡ true
            → (wakeup s).1 ≡ Interrupt.returned
            → 0 < fd.counter (wakeup s).2.outside.kernel)
          × ((wakeup s).0 ≡ false → (s.blocked ≡ 0) × ((wakeup s).2 ≡ s))
    unfolding wakeup
    wakeup_lem s = elim (Bool-cases (s.blocked == 0)) [
      | inl e ↦ simp e (λ woke ok. ground (arith, woke), λ idle. ((==_iff s.blocked 0).0 e, refl))
      | inr e ↦
          simp e (λ woke ok. signal-readable fd s.outside.kernel ok, λ idle. ground (arith, idle))
    ]
