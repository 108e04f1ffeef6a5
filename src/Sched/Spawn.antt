-- ===== src/Sched/Spawn.antt =====
-- Threads come into being: `sched_init` and `sched_spawn` of kernel/sched/thread.c. The memory of
-- a grown table and the guarded stack come from other parts of the kernel, as arguments: what
-- `kmalloc` and `alloc_guarded_stack` returned, `none` where they failed.
use mini_kernel.Prelude.{
  ℕ, zero, suc, ◌+◌, ◌-◌, ◌*◌, ℤ, pos, negsuc, minus_one, eqb_ℤ, Bool, true, false, Option, none,
  some, List, [], ◌∷◌, if◌then◌else◌, ltb, ◌==◌, update,
}
use mini_kernel.Sched.{
  ThreadState, unused, ready, running, FdSlot, Thread, Sched, thread_stack_size, quantum_ticks,
  prio_normal, prio_count, empty_fd_slot, console_fd_slot, with_thread, grow_thread_table,
}
use mini_kernel.Sched.Switch.{activate}

-- A stack with a guard page below it.
pub record Stack : Type 0 where
  pub stack_low : ℕ
  pub guard_page : ℕ

-- Descriptors 0 and 1 are the console, the others are free.
abbrev pub console_fds : ℕ → FdSlot
console_fds fd = if ltb fd 2 then console_fd_slot else empty_fd_slot

abbrev pub is_unused : ThreadState → Bool
is_unused unused = true
is_unused _ = false

-- The search for a free slot with `rounds` slots left from `i` on.
unfoldable pub first_unused_thread : (ℕ → Thread) → ℕ → ℕ → Option ℕ
first_unused_thread threads zero i = none
first_unused_thread threads (suc rounds) i =
    let rest = first_unused_thread threads rounds (i + 1) in
    if is_unused (threads i).state then some i else rest

-- The slot of the new thread: a free one, or the first of a grown table.
unfoldable pub claim_slot : Option (ℕ → Thread) → Sched → Option (ℕ × Sched)
unfolding first_unused_thread grow_thread_table
claim_slot table s = elim (first_unused_thread s.threads s.thread_capacity 0) [
  | some slot ↦ some (slot, s)
  | none ↦
      let (r, s') = grow_thread_table table s in
      if eqb_ℤ r (pos 0) then some (s.thread_capacity, s') else none
]

-- What the new thread's slot is set to: `uid` is inherited from the thread that spawns.
abbrev pub spawned : Stack → ℕ → ℕ → ℕ → Thread → Thread
spawned stack priority context uid t = record t {
  rsp = stack.stack_low + thread_stack_size - 8 * 8;
  state = ready;
  stack_low = stack.stack_low;
  guard_page = stack.guard_page;
  priority = priority;
  ticks_remaining = pos (quantum_ticks priority);
  context = context;
  fds = console_fds;
  uid = uid;
}

abbrev pub current_uid : Sched → ℕ
current_uid s = elim s.current_thread [ negsuc n ↦ 0 | pos c ↦ (s.threads c).uid ]

-- The words that are written on the new stack, from the new stack pointer up: six registers, the
-- flags, and the address at which the thread starts.
abbrev pub initial_frame : ℕ → List ℕ
initial_frame entry = 0 ∷ 0 ∷ 0 ∷ 0 ∷ 0 ∷ 0 ∷ 0x202 ∷ entry ∷ []

abbrev pub valid_priority : ℕ → ℕ
valid_priority priority = if ltb priority prio_count then priority else prio_normal

-- The end of `sched_spawn_prio_with_context`, with the slot and the stack at hand.
abbrev pub fill_slot : ℕ → Stack → ℕ → ℕ → Sched → Sched
fill_slot slot stack priority context s =
    let uid = current_uid s in
    let s' = with_thread s slot (spawned stack priority context uid) in
    with_thread s' slot λ t. record t { address_space = s.kernel_space }

unfoldable pub fill_or_fail : Option Stack → ℕ → ℕ → ℕ → ℕ → Sched → ℤ × List ℕ × Sched
fill_or_fail none entry priority context slot s = (minus_one, [], s)
fill_or_fail (some stack) entry priority context slot s =
    (pos slot, initial_frame entry, fill_slot slot stack priority context s)

-- `sched_spawn_prio_with_context`: the thread's id or -1, and the frame on its stack.
unfoldable pub sched_spawn_prio_with_context :
    Option (ℕ → Thread) → Option Stack → ℕ → ℕ → ℕ → Sched → ℤ × List ℕ × Sched
unfolding claim_slot fill_or_fail
sched_spawn_prio_with_context table stack entry priority context s = elim (claim_slot table s) [
  | none ↦ (minus_one, [], s)
  | some (slot, s') ↦ fill_or_fail stack entry (valid_priority priority) context slot s'
]

unfoldable pub sched_spawn_prio :
    Option (ℕ → Thread) → Option Stack → ℕ → ℕ → Sched → ℤ × List ℕ × Sched
unfolding sched_spawn_prio_with_context
sched_spawn_prio table stack entry priority s =
    sched_spawn_prio_with_context table stack entry priority 0 s

unfoldable pub sched_spawn : Option (ℕ → Thread) → Option Stack → ℕ → Sched → ℤ × List ℕ × Sched
unfolding sched_spawn_prio_with_context
sched_spawn table stack entry s = sched_spawn_prio_with_context table stack entry prio_normal 0 s

unfoldable pub sched_spawn_with_context :
    Option (ℕ → Thread) → Option Stack → ℕ → ℕ → Sched → ℤ × List ℕ × Sched
unfolding sched_spawn_prio_with_context
sched_spawn_with_context table stack entry context s =
    sched_spawn_prio_with_context table stack entry prio_normal context s

-- `sched_init` from the statics' first values: an empty table, no current thread.
abbrev pub boot_slot : Stack → ℕ → Thread → Thread
boot_slot stack kernel_space t = record t {
  state = running;
  address_space = kernel_space;
  stack_low = stack.stack_low;
  guard_page = stack.guard_page;
  fds = update (update t.fds 0 console_fd_slot) 1 console_fd_slot;
  uid = 0;
}

abbrev pub stack_or_zero : Option Stack → Stack
stack_or_zero none = record { stack_low = 0; guard_page = 0 }
stack_or_zero (some st) = st

-- `none` is a write through the null pointer, where the table could not be made.
unfoldable pub sched_init : Option (ℕ → Thread) → Option Stack → Sched → Option Sched
unfolding grow_thread_table activate
sched_init table stack s =
    let grown = (grow_thread_table table s).1 in
    let st = stack_or_zero stack in
    let boot = with_thread grown 0 (boot_slot st s.kernel_space) in
    if grown.thread_capacity == 0
    then none
    else some (activate (record boot { current_thread = pos 0 }) 0)
