-- ===== src/Sched/Switch.antt =====
-- Which thread runs: the functions of kernel/sched/thread.c that change threads' states. A
-- function that switches to another thread returns the state at the switch.
use mini_kernel.Prelude.{
  ℕ, zero, suc, ◌+◌, ◌%◌, pos, negsuc, ◌-ℤ◌, Bool, true, false, ◌&&◌, Option, none, some,
  if◌then◌else◌, ltb, ltb_ℤ, ◌==◌,
}
use mini_kernel.Sched.{
  ThreadState, ready, running, blocked, Channel, null_channel, id_channel, channel_eq, Thread,
  Sched, thread_stack_size, quantum_ticks, with_thread, sched_is_alive,
}

-- How a call that may give up the processor ends: it returns in the same thread, it has switched
-- to another thread, or it halts the processor until an interrupt.
pub data Outcome : Type 0 where
  returns switches halts : Outcome

abbrev pub is_runnable : ThreadState → Bool
is_runnable ready = true
is_runnable running = true
is_runnable _ = false

-- The loop of `find_next_runnable` with `rounds` rounds left.
unfoldable pub find_runnable : (ℕ → Thread) → ℕ → ℕ → ℕ → ℕ
find_runnable threads capacity zero next = next
find_runnable threads capacity (suc rounds) next =
    let rest = find_runnable threads capacity rounds ((next + 1) % capacity) in
    if is_runnable (threads ((next + 1) % capacity)).state then (next + 1) % capacity else rest

unfoldable pub find_next_runnable : Sched → ℕ → ℕ
find_next_runnable s from = find_runnable s.threads s.thread_capacity s.thread_capacity from

unfoldable pub activate : Sched → ℕ → Sched
activate s tid = record s {
  tss_rsp0 = (s.threads tid).stack_low + thread_stack_size;
  cr3 = (s.threads tid).address_space;
}

-- What `sched_yield` and `sched_sleep` do to the thread that they switch to.
abbrev pub start_running : Thread → Thread
start_running t = record t { state = running; ticks_remaining = pos (quantum_ticks t.priority) }

-- The thread `tid` becomes the current one.
abbrev pub make_current : Sched → ℕ → Sched
make_current s tid = activate (record s { current_thread = pos tid }) tid

-- Both together.
abbrev pub switch_to : Sched → ℕ → Sched
switch_to s tid = make_current (with_thread s tid start_running) tid

-- The thread that yields becomes ready, whatever its state was.
abbrev pub with_ready : Sched → ℕ → Sched
with_ready s tid = with_thread s tid λ t. record t { state = ready }

-- The thread that goes to sleep.
abbrev pub with_blocked : Sched → ℕ → Channel → Sched
with_blocked s tid channel =
    with_thread s tid λ t. record t { wait_channel = channel; state = blocked }

yield_to : Sched → ℕ → ℕ → Sched × Outcome
yield_to s current next =
    if next == current then (s, returns) else (switch_to (with_ready s current) next, switches)

unfoldable pub sched_yield : Sched → Sched × Outcome
unfolding yield_to
sched_yield s = elim s.current_thread [
  | negsuc n ↦ (s, returns)
  | pos current ↦ yield_to s current (find_next_runnable s current)
]

abbrev pub count_tick : Thread → Thread
count_tick t = record t { ticks_remaining = t.ticks_remaining -ℤ pos 1 }

-- `sched_tick`, from the timer's interrupt
unfoldable pub sched_tick : Sched → Sched × Outcome
sched_tick s = elim s.current_thread [
  | negsuc n ↦ (s, returns)
  | pos current ↦
      let s' = with_thread s current count_tick in
      if ltb_ℤ (pos 0) (s'.threads current).ticks_remaining then (s', returns) else sched_yield s'
]

-- A thread goes to sleep on a channel. With no other thread to run it halts the processor, and
-- goes on when an interrupt has changed its state (`end_halt`).
unfoldable pub sched_sleep : Sched → Channel → Sched × Outcome
sched_sleep s channel = elim s.current_thread [
  | negsuc n ↦ (s, halts)
  | pos current ↦
      let s' = with_blocked s current channel in
      let next = find_next_runnable s' current in
      if next == current then (s', halts) else (switch_to s' next, switches)
]

abbrev pub is_blocked : ThreadState → Bool
is_blocked blocked = true
is_blocked _ = false

-- The end of the `hlt` loop of `sched_sleep`: `none` while the thread is still blocked.
unfoldable pub end_halt : Sched → Option Sched
end_halt s = elim s.current_thread [
  | negsuc n ↦ none
  | pos current ↦
      if is_blocked (s.threads current).state
      then none
      else some (with_thread s current λ t. record t { state = running })
]

abbrev pub sleeps_on : Channel → Thread → Bool
sleeps_on channel t = is_blocked t.state && channel_eq t.wait_channel channel

-- `sched_wakeup`: every thread that sleeps on the channel is made ready.
unfoldable pub sched_wakeup : Sched → Channel → Sched
sched_wakeup s channel = record s {
  threads = λ i.
      if ltb i s.thread_capacity && sleeps_on channel (s.threads i)
      then record (s.threads i) { state = ready; wait_channel = null_channel }
      else s.threads i;
}

-- One round of the loop of `sched_wait`: `none` when the thread waited for is gone.
unfoldable pub sched_wait_round : Sched → ℕ → Option (Sched × Outcome)
unfolding sched_is_alive
sched_wait_round s tid =
    if sched_is_alive s (pos tid) then some (sched_sleep s (id_channel tid)) else none
