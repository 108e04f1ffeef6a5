-- ===== src/Sched/Growth.antt =====
-- The thread table as it grows and as threads are spawned into it.
use mini_kernel.Prelude.{
  ℕ, zero, suc, ◌+◌, ◌≤◌, ◌<◌, ◌≡◌, refl, ◌∙◌, ◌≢◌, inl, inr, pos, Option, none, some, arith, ap,
  subst, Option-cases,
}
use mini_kernel.Sched.{Thread, unused, ready, Sched, grow_thread_table, sched_get_uid}
use mini_kernel.Sched.Spawn.{
  Stack, first_unused_thread, claim_slot, sched_spawn_prio_with_context, fill_slot, fill_or_fail,
  current_uid, valid_priority, console_fds,
}
use mini_kernel.Sched.Invariant.{IsValid, AllSome}

-- `grow_thread_table` keeps all of a thread but its user id, which it takes from the memory of
-- the new table; the slots that it adds are free.
pub grow_keeps :
    (table : ℕ → Thread) (s : Sched) (i : ℕ)
    → let s' = (grow_thread_table (some table) s).1 in
      (i < s.thread_capacity → s'.threads i ≡ record (s.threads i) { uid = (table i).uid })
      × (s.thread_capacity ≤ i → i < s'.thread_capacity → (s'.threads i).state ≡ unused)
      × (s.thread_capacity < s'.thread_capacity)
unfolding grow_thread_table
grow_keeps table s i = (λ h. ground arith, λ h k. ground arith, ground arith)

-- So a thread that is not root's is root's after a growth, if the new memory holds a zero there.
pub grow_changes_uid :
    (table : ℕ → Thread) (s : Sched) (i : ℕ)
    → i < s.thread_capacity
    → 0 < sched_get_uid s (pos i)
    → (table i).uid ≡ 0
    → sched_get_uid (grow_thread_table (some table) s).1 (pos i) ≡ 0
unfolding grow_thread_table sched_get_uid
grow_changes_uid table s i h p z = ground arith

first_unused_lem :
    (threads : ℕ → Thread) (rounds i slot : ℕ)
    → first_unused_thread threads rounds i ≡ some slot
    → (i ≤ slot) × (slot < i + rounds) × ((threads slot).state ≡ unused)
unfolding first_unused_thread
first_unused_lem threads zero i slot e = cc
first_unused_lem threads (suc rounds) i slot e =
    ground (arith, first_unused_lem threads rounds (i + 1) slot)

-- What a growth leaves as it is.
grow_rest :
    (table : ℕ → Thread) (s : Sched)
    → let s' = (grow_thread_table (some table) s).1 in
      (s'.current_thread ≡ s.current_thread) × (s'.cr3 ≡ s.cr3) × (s'.tss_rsp0 ≡ s.tss_rsp0)
unfolding grow_thread_table
grow_rest table s = (refl, refl, refl)

pub grow-IsValid :
    (table : Option (ℕ → Thread)) {s : Sched} → IsValid s → IsValid (grow_thread_table table s).1
unfolding grow_thread_table
grow-IsValid none v = v
grow-IsValid (some table) {s} v = record {
  cur = v.cur;
  is_current = v.is_current;
  cur_in = ground arith;
  alone = λ i h r. ground (arith, v.alone i);
  occupied = ground (arith, v.occupied);
  stack = ground arith;
  space = ground arith;
}

-- The new thread's slot is free and in the table, which stays valid.
abbrev IsClaim : ℕ × Sched → Type 0
IsClaim (slot, s) = (slot < s.thread_capacity) × ((s.threads slot).state ≡ unused) × IsValid s

claim_slot_lem :
    (table : Option (ℕ → Thread)) {s : Sched} → IsValid s → AllSome IsClaim (claim_slot table s)
unfolding claim_slot grow_thread_table
claim_slot_lem none {s} v =
    elim (Option-cases (first_unused_thread s.threads s.thread_capacity 0)) [
      | inl e ↦ rw (e, claim_slot) tt
      | inr (slot, e) ↦
          let (p, q, r) = first_unused_lem s.threads s.thread_capacity 0 slot e in
          rw (e, claim_slot) (omega arith, r, v)
    ]
claim_slot_lem (some table) {s} v =
    elim (Option-cases (first_unused_thread s.threads s.thread_capacity 0)) [
      | inl e ↦ rw (e, claim_slot) (ground arith, ground arith, grow-IsValid (some table) v)
      | inr (slot, e) ↦
          let (p, q, r) = first_unused_lem s.threads s.thread_capacity 0 slot e in
          rw (e, claim_slot) (omega arith, r, v)
    ]

fill_slot-IsValid :
    {s : Sched} (slot : ℕ) (stack : Stack) (priority context : ℕ)
    → (s.threads slot).state ≡ unused
    → IsValid s
    → IsValid (fill_slot slot stack priority context s)
fill_slot-IsValid {s} slot stack priority context free v =
    let other : v.cur ≢ slot = λ e. v.occupied (ap (λ i. (s.threads i).state) e ∙ free) in
    record {
      cur = v.cur;
      is_current = v.is_current;
      cur_in = v.cur_in;
      alone = λ i h r. ground (arith, v.alone i h);
      occupied = ground (arith, v.occupied);
      stack = ground arith;
      space = ground arith;
    }

fill_or_fail-IsValid :
    (stack : Option Stack) (entry priority context slot : ℕ) {s : Sched}
    → (s.threads slot).state ≡ unused
    → IsValid s
    → IsValid (fill_or_fail stack entry priority context slot s).2
unfolding fill_or_fail
fill_or_fail-IsValid none entry priority context slot free v = v
fill_or_fail-IsValid (some stack) entry priority context slot free v =
    fill_slot-IsValid slot stack priority context free v

-- A spawn keeps the invariant, whatever memory it gets and also where it fails.
pub spawn-IsValid :
    (table : Option (ℕ → Thread)) (stack : Option Stack) (entry priority context : ℕ) {s : Sched}
    → IsValid s
    → IsValid (sched_spawn_prio_with_context table stack entry priority context s).2
unfolding sched_spawn_prio_with_context
spawn-IsValid table stack entry priority context {s} v = elim (Option-cases (claim_slot table s)) [
  | inl e ↦ rw (e, sched_spawn_prio_with_context) v
  | inr ((slot, s'), e) ↦
      let (p, q, v') = subst (AllSome IsClaim) e (claim_slot_lem table v) in
      rw (e, sched_spawn_prio_with_context)
        (fill_or_fail-IsValid stack entry (valid_priority priority) context slot q v')
]

-- With a free slot and a stack, a spawn returns the slot's index. The new thread is ready, runs
-- as the thread that spawns it, has the console as descriptors 0 and 1 and no others; and no
-- other thread is changed.
pub spawn_lem :
    (table : Option (ℕ → Thread)) (stack : Stack) (entry priority context slot : ℕ) (s : Sched)
    → first_unused_thread s.threads s.thread_capacity 0 ≡ some slot
    → let (tid, frame, s') =
        sched_spawn_prio_with_context table (some stack) entry priority context s in
      (tid ≡ pos slot)
      × ((s'.threads slot).state ≡ ready)
      × ((s'.threads slot).uid ≡ current_uid s)
      × ((s'.threads slot).fds ≡ console_fds)
      × ((s'.threads slot).address_space ≡ s.kernel_space)
      × ((i : ℕ) → i ≢ slot → s'.threads i ≡ s.threads i)
unfolding sched_spawn_prio_with_context
spawn_lem table stack entry priority context slot s e =
    rw (e, sched_spawn_prio_with_context)
      (refl, ground arith, ground arith, ground arith, ground arith, λ i ne. ground arith)
