-- ===== src/Sched/Fairness.antt =====
-- Round robin: a thread that is ready runs after at most as many yields as the table has slots.
use native.Mathlib.Nat.{mod-lt}
use mini_kernel.Prelude.{
  ℕ, zero, suc, ◌+◌, ◌-◌, ◌%◌, ◌≤◌, ◌<◌, ◌≡◌, refl, ap, subst, ◌∙◌, sym, ◌⊎◌, inl, inr, true, false,
  arith, mod_small, mod-wrap, ◌≢◌, dec_lt, distance, distance_cases, ℕ_discrete, pos,
}
use mini_kernel.Sched.{Thread, ready, Sched}
use mini_kernel.Sched.Switch.{find_next_runnable, sched_yield, activate}
use mini_kernel.Sched.Next.{find_next_runnable_lem, runs}

add-distance :
    (capacity from to : ℕ)
    → from < capacity
    → to < capacity
    → (from + distance capacity from to) % capacity ≡ to
add-distance capacity from to h k = ground (
  arith,
  distance_cases capacity from to,
  mod_small (from + distance capacity from to) capacity,
  mod-wrap (from + distance capacity from to) capacity,
)

distance-add :
    (capacity from to n : ℕ)
    → from < capacity
    → to < capacity
    → n ≤ distance capacity from to
    → distance capacity ((from + n) % capacity) to ≡ distance capacity from to - n
distance-add capacity from to n h k le = ground (
  arith,
  distance_cases capacity from to,
  distance_cases capacity ((from + n) % capacity) to,
  mod_small (from + n) capacity,
  mod-wrap (from + n) capacity,
)

-- The next thread lies between the current one and any other that is runnable.
find_next_closer :
    (s : Sched) (from to : ℕ)
    → from < s.thread_capacity
    → to < s.thread_capacity
    → to ≢ from
    → runs s.threads s.thread_capacity to ≡ true
    → let next = find_next_runnable s from in
      distance s.thread_capacity next to < distance s.thread_capacity from to
find_next_closer s from to h k ne hit =
    let f = find_next_runnable_lem s from h in
    let capacity = s.thread_capacity in
    let far : 0 < distance capacity from to = ground (arith, distance_cases capacity from to) in
    let there = add-distance capacity from to h k in
    let tried : (p : runs s.threads capacity ((from + distance capacity from to) % capacity)
          ≡ false)
        → ⊥ =
      λ p. cc (ap (runs s.threads capacity) there) in
    let steps_le : f.steps ≤ distance capacity from to =
      elim (dec_lt (distance capacity from to) f.steps) [
        | yes p ↦ absurd (tried (f.skipped _ far p))
        | no p ↦ omega arith
      ] in
    let steps_pos : 0 < f.steps = elim f.stops [
      | inl (p, q) ↦ p
      | inr (e, idle) ↦
          absurd (tried (idle _ far (ground (arith, distance_cases capacity from to))))
    ] in
    rw f.place (omega (arith, distance-add capacity from to f.steps h k steps_le))

-- What a yield leaves in place.
module _ (s : Sched) (c : ℕ) (current : s.current_thread ≡ pos c) where
  capacity-yield : (sched_yield s).0.thread_capacity ≡ s.thread_capacity
  unfolding sched_yield activate
  capacity-yield = ground arith

  current-yield : (sched_yield s).0.current_thread ≡ pos (find_next_runnable s c)
  unfolding sched_yield activate
  current-yield = ground arith

  others-yield :
      (t : ℕ) → t ≢ c → t ≢ find_next_runnable s c → ((sched_yield s).0.threads t) ≡ s.threads t
  unfolding sched_yield activate
  others-yield t p q = ground arith

-- Some yields in a row, with no other event between them.
pub yields : ℕ → Sched → Sched
yields zero s = s
yields (suc n) s = yields n (sched_yield s).0

-- A thread that is ready and not the current one, at most `k` slots after it.
record Waits (k t : ℕ) (s : Sched) : Type 0 where
  cur : ℕ
  is_current : s.current_thread ≡ pos cur
  cur_in : cur < s.thread_capacity
  t_in : t < s.thread_capacity
  is_ready : (s.threads t).state ≡ ready
  other : t ≢ cur
  near : distance s.thread_capacity cur t ≤ k

-- A yield runs the thread, or brings it nearer.
yield-Waits :
    (k t : ℕ) (s : Sched)
    → Waits k t s
    → ((0 < k) × ((sched_yield s).0.current_thread ≡ pos t))
      ⊎ ((j : ℕ) × (k ≡ suc j) × Waits j t (sched_yield s).0)
yield-Waits k t s w =
    let next = find_next_runnable s w.cur in
    let hit : runs s.threads s.thread_capacity t ≡ true = rw w.is_ready refl in
    let closer = find_next_closer s w.cur t w.cur_in w.t_in w.other hit in
    let found = find_next_runnable_lem s w.cur w.cur_in in
    elim (ℕ_discrete t next) [
      | yes e ↦ inl (omega arith, current-yield s w.cur w.is_current ∙ ap pos (sym e))
      | no ne ↦ inr (
        k - 1,
        omega arith,
        record {
          cur = next;
          is_current = current-yield s w.cur w.is_current;
          cur_in = rw (capacity-yield s w.cur w.is_current, found.place) (mod-lt _ (omega arith));
          t_in = rw (capacity-yield s w.cur w.is_current) w.t_in;
          is_ready =
              ap (λ (x : Thread). x.state) (others-yield s w.cur w.is_current t w.other ne)
              ∙ w.is_ready;
          other = ne;
          near = rw (capacity-yield s w.cur w.is_current) (omega arith);
        },
      )
    ]

Waits-runs :
    (k t : ℕ) (s : Sched)
    → Waits k t s
    → (n : ℕ) × (0 < n) × (n ≤ k) × ((yields n s).current_thread ≡ pos t)
unfolding yields
Waits-runs zero t s w = elim (yield-Waits zero t s w) [
  | inl (p, e) ↦ absurd (omega arith)
  | inr (j, e, w') ↦ absurd (omega arith)
]
Waits-runs (suc k) t s w = elim (yield-Waits (suc k) t s w) [
  | inl (p, e) ↦ (1, omega arith, omega arith, e)
  | inr (j, e, w') ↦
      let w'' : Waits k t (sched_yield s).0 =
        subst (λ m. Waits m t (sched_yield s).0) (omega arith) w' in
      let (n, p, q, r) = Waits-runs k t (sched_yield s).0 w'' in
      (suc n, omega arith, omega arith, r)
]

-- A thread that is ready, and not the current one, becomes the current one after fewer yields
-- than the table has slots, when nothing else happens between them.
pub yields-run :
    (s : Sched) (c t : ℕ)
    → s.current_thread ≡ pos c
    → c < s.thread_capacity
    → t < s.thread_capacity
    → t ≢ c
    → (s.threads t).state ≡ ready
    → (n : ℕ) × (0 < n) × (n < s.thread_capacity) × ((yields n s).current_thread ≡ pos t)
yields-run s c t current h k ne r =
    let w : Waits (distance s.thread_capacity c t) t s = record {
      cur = c;
      is_current = current;
      cur_in = h;
      t_in = k;
      is_ready = r;
      other = ne;
      near = omega arith;
    } in
    let (n, p, q, e) = Waits-runs (distance s.thread_capacity c t) t s w in
    (n, p, ground (arith, mod-lt (t + s.thread_capacity - c) {m = s.thread_capacity}), e)
