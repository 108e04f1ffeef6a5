-- ===== src/Memfs/Overflow.antt =====
-- The doubling of capacities in kernel/core/memfs.c at the end of the 32-bit range.
use native.Mathlib.Nat.{pow-le-pow_right, pow-suc}
use mini_kernel.Prelude.{
  doubled, ℕ, zero, suc, ◌*◌, ◌%◌, ◌^◌, ◌≤◌, ◌<◌, ◌≡◌, refl, ap, ◌∙◌, sym, ◌⊎◌, inl, inr, none,
  arith, mod_small, ℕ_discrete, subst,
}

-- The capacities that doubling goes through: powers of two, and 0 from then on.
abbrev Reached : ℕ → Type 0
Reached c = (c ≡ 0) ⊎ (j : ℕ) × (j ≤ 31) × (c ≡ 2 ^ j)

Reached-small : (c : ℕ) → Reached c → c ≤ 2 ^ 31
Reached-small c r = elim r [
  | inl e ↦ omega arith
  | inr (j, h, e) ↦ subst (λ k. k ≤ 2 ^ 31) (sym e) (pow-le-pow_right {n = 2} (omega arith) h)
]

twice-Reached : (c : ℕ) → Reached c → Reached (c * 2 % 2 ^ 32)
twice-Reached c r = elim r [
  | inl e ↦ inl (rw e refl)
  | inr (j, h, e) ↦ elim (ℕ_discrete j 31) [
    | yes q ↦ inl (rw (e, q) refl)
    | no ne ↦
        let doubled_e : c * 2 ≡ 2 ^ suc j = ap (λ k. k * 2) e ∙ sym (pow-suc 2 j) in
        let small : c * 2 ≤ 2 ^ 31 = Reached-small (c * 2) (inr (suc j, omega arith, doubled_e)) in
        inr (suc j, omega arith, mod_small (c * 2) (2 ^ 32) (omega arith) ∙ doubled_e)
  ]
]

stuck : (rounds c needed : ℕ) → 2 ^ 31 < needed → Reached c → doubled rounds c needed ≡ none
unfolding doubled
stuck zero c needed h r = refl
stuck (suc rounds) c needed h r =
    ground (arith, stuck rounds (c * 2 % 2 ^ 32) needed h (twice-Reached c r), Reached-small c r)

-- Where more than 2^31 bytes are needed, the doubling of a capacity that is a power of two (as
-- every capacity of a file is) does not end, however many rounds it is given.
pub doubling_stuck :
    (rounds j needed : ℕ) → 2 ^ 31 < needed → j ≤ 31 → doubled rounds (2 ^ j) needed ≡ none
doubling_stuck rounds j needed h small = stuck rounds (2 ^ j) needed h (inr (j, small, refl))
