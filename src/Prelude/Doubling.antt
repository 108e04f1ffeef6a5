-- ===== src/Prelude/Doubling.antt =====
-- The loop that doubles a capacity, in kernel/core/memfs.c and kernel/core/ufs.c.
use Prim.Native.Nat.{ℕ, zero, suc, ◌*◌, ◌%◌, ◌^◌, ◌≤◌, ◌<◌}
use mathlib.Core.Path.{◌≡◌, ap, sym, subst, ◌∙◌}
use mathlib.Core.Logic.{◌⊎◌, inl, inr}
use mathlib.Core.Option.{Option, none, some}
use native.Mathlib.Nat.{mul_assoc, pow-succ'}
use native.Mathlib.Decide.{dec_lt}
use native.Mathlib.Omega.{arith}
use mini_kernel.Prelude.Tests.{if◌then◌else◌, ltb}
use mini_kernel.Prelude.Arrays.{mod_small}

-- `while (new_capacity < needed) new_capacity *= 2;` in `unsigned int`: `none` where it has not
-- ended after the rounds given.
unfoldable pub doubled : ℕ → ℕ → ℕ → Option ℕ
doubled zero capacity needed = none
doubled (suc rounds) capacity needed =
    let rest = doubled rounds (capacity * 2 % 2 ^ 32) needed in
    if ltb capacity needed then rest else some capacity

-- The doubling of a capacity that is not 0 ends where at most 2^31 bytes are needed.
pub doubled_ends :
    (rounds capacity needed : ℕ)
    → needed ≤ 2 ^ 31
    → needed ≤ capacity * 2 ^ rounds
    → (c : ℕ) × (doubled (suc rounds) capacity needed ≡ some c) × (needed ≤ c)
unfolding doubled
doubled_ends zero capacity needed small h = (capacity, ground arith, omega arith)
doubled_ends (suc rounds) capacity needed small h = elim (dec_lt capacity needed) [
  | no p ↦ (capacity, ground arith, omega arith)
  | yes p ↦
      let twice : capacity * 2 * 2 ^ rounds ≡ capacity * 2 ^ suc rounds =
        mul_assoc capacity 2 (2 ^ rounds) ∙ ap (λ k. capacity * k) (sym (pow-succ' 2 rounds)) in
      let room : needed ≤ capacity * 2 % 2 ^ 32 * 2 ^ rounds =
        subst (λ k. needed ≤ k * 2 ^ rounds) (sym (mod_small (capacity * 2) (2 ^ 32) (omega arith)))
          (subst (λ k. needed ≤ k) (sym twice) h) in
      let (c, e, le) = doubled_ends rounds (capacity * 2 % 2 ^ 32) needed small room in
      (c, ground (arith, e), le)
]

-- The doubling stops before twice what is needed.
pub doubled_stops :
    (rounds capacity needed c : ℕ)
    → needed ≤ 2 ^ 31
    → doubled rounds capacity needed ≡ some c
    → (c ≡ capacity) ⊎ (c < 2 * needed)
unfolding doubled
doubled_stops zero capacity needed c small e = ground arith
doubled_stops (suc rounds) capacity needed c small e = elim (dec_lt capacity needed) [
  | no p ↦ inl (ground arith)
  | yes p ↦
      let later : doubled rounds (capacity * 2 % 2 ^ 32) needed ≡ some c = ground arith in
      elim (doubled_stops rounds (capacity * 2 % 2 ^ 32) needed c small later) [
        | inl same ↦ inr (omega (arith, mod_small (capacity * 2) (2 ^ 32)))
        | inr less ↦ inr less
      ]
]
