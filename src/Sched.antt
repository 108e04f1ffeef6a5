-- ===== src/Sched.antt =====
-- The thread table of kernel/sched/thread.c: its data, the slots, and the queries on it.
pub mod Switch
pub mod Fds
pub mod Spawn
pub mod Next
pub mod Fairness
pub mod Growth
pub mod Tests
pub mod Invariant
use mini_kernel.Prelude.{
  ℕ, ◌+◌, ◌*◌, ℤ, pos, negsuc, minus_one, Bool, true, false, ◌&&◌, ◌||◌, Option, none, some,
  if◌then◌else◌, ltb, ◌==◌, eqb_ℤ, update,
}

-- `thread_state_t`
pub data ThreadState : Type 0 where
  unused ready running blocked zombie : ThreadState

-- `FD_KIND_*`
pub data FdKind : Type 0 where
  unused_kind console memfs ufs pipe_read pipe_write : FdKind

-- `fd_slot_t`
pub record FdSlot : Type 0 where
  pub kind : FdKind
  pub handle : ℤ
  pub cursor : ℕ

-- A `wait_channel`. A thread or process id stands for itself cast to a pointer, so `id 0` is the
-- null pointer; the addresses of the kernel's objects are other pointers.
pub data Channel : Type 0 where
  id_channel : ℕ → Channel
  pipe_channel : ℕ → Channel
  kbd_channel : Channel

abbrev pub null_channel : Channel
null_channel = id_channel 0

abbrev pub channel_eq : Channel → Channel → Bool
channel_eq (id_channel a) (id_channel b) = a == b
channel_eq (pipe_channel a) (pipe_channel b) = a == b
channel_eq kbd_channel kbd_channel = true
channel_eq _ _ = false

-- `thread_t`
pub record Thread : Type 0 where
  pub rsp : ℕ
  pub state : ThreadState
  pub stack_low : ℕ
  pub guard_page : ℕ
  pub priority : ℕ
  pub ticks_remaining : ℤ
  pub address_space : ℕ
  pub wait_channel : Channel
  pub context : ℕ
  pub fds : ℕ → FdSlot
  pub uid : ℕ

-- The statics of thread.c, and the two registers that `activate` writes: the stack pointer of the
-- TSS and CR3. `kernel_space` is what `vmm_kernel_address_space` returns.
pub record Sched : Type 0 where
  pub threads : ℕ → Thread
  pub thread_capacity : ℕ
  pub current_thread : ℤ
  pub kernel_space : ℕ
  pub tss_rsp0 : ℕ
  pub cr3 : ℕ

abbrev pub thread_max_fds : ℕ
thread_max_fds = 8

abbrev pub pmm_frame_size : ℕ
pmm_frame_size = 4096

abbrev pub thread_stack_size : ℕ
thread_stack_size = 2 * pmm_frame_size

abbrev pub prio_normal : ℕ
prio_normal = 1

abbrev pub prio_count : ℕ
prio_count = 3

-- `quantum_ticks`
abbrev pub quantum_ticks : ℕ → ℕ
quantum_ticks priority = if priority == 0 then 2 else if priority == 1 then 4 else 8

abbrev pub empty_fd_slot : FdSlot
empty_fd_slot = record { kind = unused_kind; handle = minus_one; cursor = 0 }

abbrev pub console_fd_slot : FdSlot
console_fd_slot = record { kind = console; handle = pos 0; cursor = 0 }

-- `reset_fd_slot` on every slot of a thread
abbrev pub no_fds : ℕ → FdSlot
no_fds fd = empty_fd_slot

-- `init_thread_slot`. It does not write `uid`, so the slot keeps what the memory held.
unfoldable pub init_thread_slot : Thread → Thread
init_thread_slot t = record t {
  state = unused;
  stack_low = 0;
  guard_page = 0;
  rsp = 0;
  priority = prio_normal;
  ticks_remaining = pos (quantum_ticks prio_normal);
  address_space = 0;
  wait_channel = null_channel;
  context = 0;
  fds = no_fds;
}

-- `copy_thread_slot(dst, src)`. It does not copy `uid` either.
unfoldable pub copy_thread_slot : Thread → Thread → Thread
copy_thread_slot dst src = record dst {
  rsp = src.rsp;
  state = src.state;
  stack_low = src.stack_low;
  guard_page = src.guard_page;
  priority = src.priority;
  ticks_remaining = src.ticks_remaining;
  address_space = src.address_space;
  wait_channel = src.wait_channel;
  context = src.context;
  fds = src.fds;
}

-- One thread's slot, changed.
abbrev pub with_thread : Sched → ℕ → (Thread → Thread) → Sched
with_thread s tid f = record s { threads = update s.threads tid (f (s.threads tid)) }

-- `tid < 0 || tid >= thread_capacity`, refused: the slot's index otherwise.
abbrev pub slot_of : Sched → ℤ → Option ℕ
slot_of s (negsuc n) = none
slot_of s (pos tid) = if ltb tid s.thread_capacity then some tid else none

-- `INITIAL_THREAD_CAPACITY`, doubled at each growth
abbrev pub grown_capacity : ℕ → ℕ
grown_capacity capacity = if capacity == 0 then 4 else capacity * 2

-- `grow_thread_table`. `table` is what `kmalloc` returned: nothing, or an array of slots with
-- what its memory held. The result is 0, or -1 if there was no memory.
unfoldable pub grow_thread_table : Option (ℕ → Thread) → Sched → ℤ × Sched
unfolding copy_thread_slot init_thread_slot
grow_thread_table none s = (minus_one, s)
grow_thread_table (some table) s = (
  pos 0,
  record s {
    threads = λ i.
        if ltb i s.thread_capacity
        then copy_thread_slot (table i) (s.threads i)
        else if ltb i (grown_capacity s.thread_capacity)
        then init_thread_slot (table i)
        else table i;
    thread_capacity = grown_capacity s.thread_capacity;
  },
)

unfoldable pub sched_current_tid : Sched → ℤ
sched_current_tid s = s.current_thread

unfoldable pub sched_get_uid : Sched → ℤ → ℕ
sched_get_uid s tid = elim (slot_of s tid) [ none ↦ 0 | some i ↦ (s.threads i).uid ]

unfoldable pub sched_set_uid : Sched → ℤ → ℕ → ℤ × Sched
sched_set_uid s tid uid = elim (slot_of s tid) [
  | none ↦ (minus_one, s)
  | some i ↦ (pos 0, with_thread s i λ t. record t { uid = uid })
]

unfoldable pub sched_current_context : Sched → ℕ
sched_current_context s = elim (slot_of s s.current_thread) [
  | none ↦ 0
  | some i ↦ (s.threads i).context
]

unfoldable pub sched_set_current_context : Sched → ℕ → Sched
sched_set_current_context s context = elim (slot_of s s.current_thread) [
  | none ↦ s
  | some i ↦ with_thread s i λ t. record t { context = context }
]

abbrev pub is_alive_state : ThreadState → Bool
is_alive_state ready = true
is_alive_state running = true
is_alive_state blocked = true
is_alive_state _ = false

unfoldable pub sched_is_alive : Sched → ℤ → Bool
sched_is_alive s tid = elim (slot_of s tid) [
  | none ↦ false
  | some i ↦ is_alive_state (s.threads i).state
]

unfoldable pub sched_set_priority : Sched → ℤ → ℕ → Sched
sched_set_priority s tid priority = elim (slot_of s tid) [
  | none ↦ s
  | some i ↦
      if ltb priority prio_count then with_thread s i (λ t. record t { priority = priority }) else s
]

-- `sched_set_address_space`: the running thread's is loaded at once.
unfoldable pub sched_set_address_space : Sched → ℤ → ℕ → Sched
sched_set_address_space s tid space = elim (slot_of s tid) [
  | none ↦ s
  | some i ↦
      let s' = with_thread s i (λ t. record t { address_space = space }) in
      if eqb_ℤ tid s.current_thread then record s' { cr3 = space } else s'
]
