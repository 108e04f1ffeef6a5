-- ===== src/Sched/Next.antt =====
-- What `find_next_runnable` of kernel/sched/thread.c finds: the first runnable thread after the
-- given one, going round the table.
use native.Mathlib.Nat.{mod-lt, mod-add-mod}
use mini_kernel.Prelude.{
  ℕ, zero, suc, ◌+◌, ◌%◌, ◌≤◌, ◌<◌, ◌≡◌, refl, ap, ◌∙◌, sym, ◌⊎◌, inl, inr, Bool, true, false,
  Bool-cases, arith, mod_small,
}
use mini_kernel.Sched.{Thread, Sched}
use mini_kernel.Sched.Switch.{find_runnable, find_next_runnable, is_runnable}

module _ (threads : ℕ → Thread) (capacity : ℕ) where
  abbrev pub runs : ℕ → Bool
  runs i = is_runnable (threads i).state

  -- None of the next slots after `from` is runnable, `n` of them less one.
  abbrev pub Idle : ℕ → ℕ → Type 0
  Idle from n = (e : ℕ) → 0 < e → e < n → runs ((from + e) % capacity) ≡ false

  -- `next` is `steps` slots after `from`, and the slots between are not runnable. It is runnable
  -- itself, unless none of the `rounds` slots tried is.
  pub record Found (from rounds next : ℕ) : Type 0 where
    pub steps : ℕ
    pub within : steps ≤ rounds
    pub place : next ≡ (from + steps) % capacity
    pub skipped : Idle from steps
    pub stops : ((0 < steps) × (runs next ≡ true)) ⊎ ((steps ≡ rounds) × Idle from (suc rounds))

  step_round : (from e : ℕ) → ((from + 1) % capacity + e) % capacity ≡ (from + suc e) % capacity
  step_round from e = mod-add-mod (from + 1) capacity e ∙ ap (λ k. k % capacity) (omega arith)

  Idle-suc :
      (from n : ℕ)
      → runs ((from + 1) % capacity) ≡ false
      → Idle ((from + 1) % capacity) n
      → Idle from (suc n)
  Idle-suc from n miss idle zero p q = absurd (omega arith)
  Idle-suc from n miss idle (suc zero) p q = miss
  Idle-suc from n miss idle (suc (suc e)) p q =
      rw (← step_round from (suc e)) (idle (suc e) (omega arith) (omega arith))

  further :
      (from rounds next : ℕ)
      → runs ((from + 1) % capacity) ≡ false
      → Found ((from + 1) % capacity) rounds next
      → Found from (suc rounds) next
  further from rounds next miss f = record {
    steps = suc f.steps;
    within = omega arith;
    place = f.place ∙ step_round from f.steps;
    skipped = Idle-suc from f.steps miss f.skipped;
    stops = elim f.stops [
      | inl (p, hit) ↦ inl (omega arith, hit)
      | inr (e, idle) ↦ inr (ap suc e, Idle-suc from (suc rounds) miss idle)
    ];
  }

  find_runnable-Found :
      (rounds from : ℕ)
      → from < capacity
      → Found from rounds (find_runnable threads capacity rounds from)
  unfolding find_runnable
  find_runnable-Found zero from h = record {
    steps = 0;
    within = omega arith;
    place = sym (ap (λ k. k % capacity) (omega arith) ∙ mod_small from capacity h);
    skipped = λ e p q. absurd (omega arith);
    stops = inr (refl, λ e p q. absurd (omega arith));
  }
  find_runnable-Found (suc rounds) from h = elim (Bool-cases (runs ((from + 1) % capacity))) [
    | inl hit ↦ rw hit (record {
      steps = 1;
      within = omega arith;
      place = refl;
      skipped = λ e p q. absurd (omega arith);
      stops = inl (omega arith, hit);
    })
    | inr miss ↦ rw miss (
        further from rounds _ miss
          (find_runnable-Found rounds ((from + 1) % capacity) (mod-lt (from + 1) (omega arith))))
  ]

-- `find_next_runnable` gives the first runnable thread after `from` going round the table, and
-- `from` itself where no other thread is runnable.
pub find_next_runnable_lem :
    (s : Sched) (from : ℕ)
    → from < s.thread_capacity
    → Found s.threads s.thread_capacity from s.thread_capacity (find_next_runnable s from)
unfolding find_next_runnable
find_next_runnable_lem s from h =
    find_runnable-Found s.threads s.thread_capacity s.thread_capacity from h
