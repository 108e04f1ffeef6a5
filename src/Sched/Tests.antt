-- ===== src/Sched/Tests.antt =====
-- The scheduler at concrete inputs.
use mini_kernel.Prelude.{
  ℕ, ◌≡◌, ◌<◌, refl, pos, Bool, true, false, none, some, arith, if◌then◌else◌, ◌==◌,
}
use mini_kernel.Sched.{
  Thread, ThreadState, unused, ready, running, blocked, null_channel, pipe_channel, Sched, no_fds,
  grow_thread_table, sched_get_uid,
}
use mini_kernel.Sched.Switch.{
  switches, find_next_runnable, find_runnable, sched_yield, sched_wakeup, sched_tick,
}
use mini_kernel.Sched.Spawn.{Stack, sched_spawn_prio_with_context}
use mini_kernel.Sched.Next.{Found, find_next_runnable_lem}
use mini_kernel.Sched.Fairness.{yields, yields-run}
use mini_kernel.Sched.Invariant.{IsValid}
use mini_kernel.Sched.Growth.{grow_changes_uid, spawn-IsValid}

abbrev pub a_thread : ThreadState → ℕ → Thread
a_thread state uid = record {
  rsp = 0;
  state = state;
  stack_low = 0;
  guard_page = 0;
  priority = 1;
  ticks_remaining = pos 1;
  address_space = 7;
  wait_channel = if state_is_blocked state then pipe_channel 0 else null_channel;
  context = 0;
  fds = no_fds;
  uid = uid;
}
  where
    state_is_blocked : ThreadState → Bool
    state_is_blocked blocked = true
    state_is_blocked _ = false

-- Thread 0 runs, 1 is ready, 2 sleeps on pipe 0, 3 is free.
abbrev pub four : Sched
four = record {
  threads = λ i.
      if i == 0
      then a_thread running 1000
      else if i == 1
      then a_thread ready 0
      else if i == 2
      then a_thread blocked 1000
      else a_thread unused 5;
  thread_capacity = 4;
  current_thread = pos 0;
  kernel_space = 7;
  tss_rsp0 = 8192;
  cr3 = 7;
}

abbrev a_stack : Stack
a_stack = record { stack_low = 0x9000; guard_page = 0x8000 }

four-IsValid : IsValid four
four-IsValid = record {
  cur = 0;
  is_current = refl;
  cur_in = omega arith;
  alone = λ i h r. ground arith;
  occupied = λ e. cc;
  stack = refl;
  space = refl;
}

-- The thread that yields and the one that sleeps on a pipe both give way to thread 1.
next_of_four : find_next_runnable four 0 ≡ 1
unfolding find_next_runnable find_runnable
next_of_four = refl

tick_switches : (sched_tick four).1 ≡ switches
unfolding sched_tick sched_yield find_next_runnable find_runnable
tick_switches = refl

wake_of_four : ((sched_wakeup four (pipe_channel 0)).threads 2).state ≡ ready
unfolding sched_wakeup
wake_of_four = refl

find_next_runnable_lem_example : Found four.threads 4 0 4 (find_next_runnable four 0)
find_next_runnable_lem_example = find_next_runnable_lem four 0 (omega arith)

yields-run_example : (n : ℕ) × (0 < n) × (n < 4) × ((yields n four).current_thread ≡ pos 1)
yields-run_example = yields-run four 0 1 refl (omega arith) (omega arith) (omega arith) refl

grow_changes_uid_example :
    sched_get_uid (grow_thread_table (some λ i. a_thread unused 0) four).1 (pos 0) ≡ 0
unfolding sched_get_uid
grow_changes_uid_example =
    grow_changes_uid (λ i. a_thread unused 0) four 0 (omega arith) (omega arith) refl

spawn-IsValid_example :
    IsValid (sched_spawn_prio_with_context none (some a_stack) 0x400000 2 0 four).2
spawn-IsValid_example = spawn-IsValid none (some a_stack) 0x400000 2 0 four-IsValid
