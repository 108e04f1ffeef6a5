-- ===== src/Sched/Invariant.antt =====
-- The scheduler's invariant: no thread but the current one is marked as running, and the
-- processor's registers are those of the current thread.
use native.Mathlib.Nat.{mod-lt}
use mini_kernel.Prelude.{
  ℕ, ◌+◌, ◌<◌, ◌≡◌, refl, ◌≢◌, ℤ, pos, negsuc, eqb_ℤ, eqb_ℤ→eq, eq→eqb_ℤ, Option, none, some,
  if_elim, Option-cases, inl, inr, ◌==◌, arith, ltb,
}
use mini_kernel.Sched.{
  Thread, unused, running, Channel, Sched, thread_stack_size, with_thread, sched_set_uid,
  sched_set_priority, sched_set_address_space, slot_of, prio_count,
}
use mini_kernel.Sched.Switch.{
  Outcome, sched_yield, sched_tick, sched_sleep, sched_wakeup, end_halt, is_blocked,
  find_next_runnable, activate, make_current, switch_to, with_ready, with_blocked, start_running,
  count_tick,
}
use mini_kernel.Sched.Next.{find_next_runnable_lem}

pub record IsValid (s : Sched) : Type 0 where
  pub cur : ℕ
  pub is_current : s.current_thread ≡ pos cur
  pub cur_in : cur < s.thread_capacity
  pub alone : (i : ℕ) → i < s.thread_capacity → (s.threads i).state ≡ running → i ≡ cur
  pub occupied : (s.threads cur).state ≢ unused
  pub stack : s.tss_rsp0 ≡ (s.threads cur).stack_low + thread_stack_size
  pub space : s.cr3 ≡ (s.threads cur).address_space

pub next_in :
    (s : Sched) (from : ℕ)
    → from < s.thread_capacity
    → find_next_runnable s from < s.thread_capacity
next_in s from h =
    let found = find_next_runnable_lem s from h in rw found.place (mod-lt _ (omega arith))

-- Only the thread `n` may be marked as running.
abbrev Alone : Sched → ℕ → Type 0
Alone s n = (i : ℕ) → i < s.thread_capacity → (s.threads i).state ≡ running → i ≡ n

make_current-IsValid :
    (s : Sched) (n : ℕ)
    → n < s.thread_capacity
    → Alone s n
    → (s.threads n).state ≢ unused
    → IsValid (make_current s n)
unfolding activate
make_current-IsValid s n h alone occupied = record {
  cur = n;
  is_current = refl;
  cur_in = h;
  alone = alone;
  occupied = occupied;
  stack = refl;
  space = refl;
}

switch_to-IsValid :
    (s : Sched) (n : ℕ) → n < s.thread_capacity → Alone s n → IsValid (switch_to s n)
switch_to-IsValid s n h alone =
    make_current-IsValid (with_thread s n start_running) n h (λ i k r. ground (arith, alone i k))
      (ground arith)

-- `sched_yield` keeps the scheduler's invariant: no thread but the current one is marked as
-- running, the current one's slot is in the table and in use, and the stack pointer of the TSS
-- and CR3 are its own.
pub yield-IsValid : {s : Sched} → IsValid s → IsValid (sched_yield s).0
unfolding sched_yield
yield-IsValid {s} v =
    rw (v.is_current, sched_yield)
      (if_elim (λ (r : Sched × Outcome). IsValid r.0) (find_next_runnable s v.cur == v.cur) (λ e. v)
        λ e.
          switch_to-IsValid (with_ready s v.cur) (find_next_runnable s v.cur)
            (next_in s v.cur v.cur_in) (λ i h r. ground (arith, v.alone i h)))

-- Some changes of one slot that leave the invariant's parts of it alone.
with_thread-IsValid :
    {s : Sched} (i : ℕ) (f : Thread → Thread)
    → ((t : Thread) → (f t).state ≡ t.state)
    → ((t : Thread) → (f t).stack_low ≡ t.stack_low)
    → ((t : Thread) → (f t).address_space ≡ t.address_space)
    → IsValid s
    → IsValid (with_thread s i f)
with_thread-IsValid {s} i f p q r v = record {
  cur = v.cur;
  is_current = v.is_current;
  cur_in = v.cur_in;
  alone = λ j h e. ground (arith, v.alone j h, p (s.threads i));
  occupied = ground (arith, p (s.threads i));
  stack = ground (arith, q (s.threads i));
  space = ground (arith, r (s.threads i));
}

pub tick-IsValid : {s : Sched} → IsValid s → IsValid (sched_tick s).0
unfolding sched_tick
tick-IsValid {s} v =
    let counted : IsValid (with_thread s v.cur count_tick) =
      with_thread-IsValid v.cur count_tick (λ t. refl) (λ t. refl) (λ t. refl) v in
    rw (v.is_current, sched_tick) (ground (arith, counted, yield-IsValid counted))

-- `sched_sleep` keeps the invariant, both where it switches to another thread and where it halts
-- the processor.
pub sleep-IsValid : {s : Sched} (channel : Channel) → IsValid s → IsValid (sched_sleep s channel).0
unfolding sched_sleep
sleep-IsValid {s} channel v =
    let s' = with_blocked s v.cur channel in
    let next = find_next_runnable s' v.cur in
    rw (v.is_current, sched_sleep)
      (if_elim (λ (r : Sched × Outcome). IsValid r.0) (next == v.cur)
        (λ e. record {
          cur = v.cur;
          is_current = v.is_current;
          cur_in = v.cur_in;
          alone = λ i h r. ground (arith, v.alone i h);
          occupied = ground (arith, v.occupied);
          stack = ground arith;
          space = ground arith;
        })
        (λ e.
          switch_to-IsValid s' next (next_in s' v.cur v.cur_in)
            (λ i h r. ground (arith, v.alone i h))))

pub wakeup-IsValid : {s : Sched} (channel : Channel) → IsValid s → IsValid (sched_wakeup s channel)
unfolding sched_wakeup
wakeup-IsValid {s} channel v = record {
  cur = v.cur;
  is_current = v.is_current;
  cur_in = v.cur_in;
  alone = λ j h e. ground (arith, v.alone j h);
  occupied = ground (arith, v.occupied);
  stack = ground arith;
  space = ground arith;
}

-- What holds of the state that a call gives, if it gives one.
abbrev pub AllSome {ℓ} : {A : Type 0} → (A → Type ℓ) → Option A → Type ℓ
AllSome P none = Unit
AllSome P (some a) = P a

-- An interrupt has ended the wait of a thread that halted the processor.
pub end_halt-IsValid : {s : Sched} → IsValid s → AllSome IsValid (end_halt s)
unfolding end_halt
end_halt-IsValid {s} v =
    rw (v.is_current, end_halt)
      (if_elim (AllSome IsValid) (is_blocked (s.threads v.cur).state) (λ e. tt)
        λ e. record {
          cur = v.cur;
          is_current = v.is_current;
          cur_in = v.cur_in;
          alone = λ i h r. ground (arith, v.alone i h);
          occupied = ground arith;
          stack = ground arith;
          space = ground arith;
        })

pub set_uid-IsValid :
    {s : Sched} (tid : ℤ) (uid : ℕ) → IsValid s → IsValid (sched_set_uid s tid uid).1
unfolding sched_set_uid
set_uid-IsValid {s} tid uid v = elim (Option-cases (slot_of s tid)) [
  | inl e ↦ rw (e, sched_set_uid) v
  | inr (i, e) ↦
      rw (e, sched_set_uid)
        (with_thread-IsValid i (λ t. record t { uid = uid }) (λ t. refl) (λ t. refl) (λ t. refl) v)
]

pub set_priority-IsValid :
    {s : Sched} (tid : ℤ) (priority : ℕ) → IsValid s → IsValid (sched_set_priority s tid priority)
unfolding sched_set_priority
set_priority-IsValid {s} tid priority v = elim (Option-cases (slot_of s tid)) [
  | inl e ↦ rw (e, sched_set_priority) v
  | inr (i, e) ↦
      rw (e, sched_set_priority)
        (if_elim IsValid (ltb priority prio_count)
          (λ p.
            with_thread-IsValid i (λ t. record t { priority = priority }) (λ t. refl) (λ t. refl)
              (λ t. refl) v)
          (λ p. v))
]

slot_of-some :
    (s : Sched) (tid : ℤ) (i : ℕ) → slot_of s tid ≡ some i → (tid ≡ pos i) × (i < s.thread_capacity)
slot_of-some s (pos n) i e = ground arith
slot_of-some s (negsuc n) i e = cc

-- `sched_set_address_space` keeps CR3 the current thread's.
pub set_address_space-IsValid :
    {s : Sched} (tid : ℤ) (space : ℕ) → IsValid s → IsValid (sched_set_address_space s tid space)
unfolding sched_set_address_space
set_address_space-IsValid {s} tid space v = elim (Option-cases (slot_of s tid)) [
  | inl e ↦ rw (e, sched_set_address_space) v
  | inr (i, e) ↦
      let (at, h) = slot_of-some s tid i e in
      rw (e, sched_set_address_space)
        (if_elim IsValid (eqb_ℤ tid s.current_thread)
          (λ p. record {
            cur = v.cur;
            is_current = v.is_current;
            cur_in = v.cur_in;
            alone = λ j k r. ground (arith, v.alone j k);
            occupied = ground (arith, v.occupied);
            stack = ground arith;
            space = ground (arith, eqb_ℤ→eq tid s.current_thread);
          })
          (λ p. record {
            cur = v.cur;
            is_current = v.is_current;
            cur_in = v.cur_in;
            alone = λ j k r. ground (arith, v.alone j k);
            occupied = ground (arith, v.occupied);
            stack = ground arith;
            space = ground (arith, eq→eqb_ℤ tid s.current_thread);
          }))
]
