-- ===== src/Prelude/Arrays.antt =====
-- A C array as the function from its indices to its elements. A write changes one index; that
-- an index is within the array's bounds is stated by theorems about the code that uses it.
use Prim.Native.Nat.{ℕ, zero, suc, ◌+◌, ◌-◌, ◌%◌, ◌≤◌, ◌<◌}
use mathlib.Core.Path.{◌≡◌, refl, ap, ap₂, ◌∙◌}
use mathlib.Core.Logic.{◌≢◌, ◌⊎◌, inl, inr}
use mathlib.Core.List.{List, [], ◌∷◌, ◌++◌}
use native.Mathlib.Nat.{mod-eq_of_lt, mod-eq-sub-mod, mod-add-mod, add-zero}
use native.Mathlib.Decide.{dec_lt}
use native.Mathlib.Omega.{arith}
use mini_kernel.Prelude.Tests.{if◌then◌else◌, ◌==◌}
use mini_kernel.Prelude.Lists.{length}

module _ {ℓ} {A : Type ℓ} where
  abbrev pub update : (ℕ → A) → ℕ → A → ℕ → A
  update f i v j = if j == i then v else f j

  pub update_self : (f : ℕ → A) (i : ℕ) (v : A) → update f i v i ≡ v
  update_self f i v = ground arith

  pub update_ne : (f : ℕ → A) (i j : ℕ) (v : A) → j ≢ i → update f i v j ≡ f j
  update_ne f i j v h = ground arith

  -- The elements at the indices from `i` on, `n` of them.
  abbrev pub slice : (ℕ → A) → ℕ → ℕ → List A
  slice f i zero = []
  slice f i (suc n) = f i ∷ slice f (i + 1) n

  pub length-slice : (f : ℕ → A) (i n : ℕ) → length (slice f i n) ≡ n
  length-slice f i zero = refl
  length-slice f i (suc n) = ap suc (length-slice f (i + 1) n)

  -- The `n` elements from index `h` on of an array of `cap` elements, going round at its end.
  abbrev pub cycle : (ℕ → A) → ℕ → ℕ → ℕ → List A
  cycle f cap h zero = []
  cycle f cap h (suc n) = f h ∷ cycle f cap ((h + 1) % cap) n

  pub length-cycle : (f : ℕ → A) (cap h n : ℕ) → length (cycle f cap h n) ≡ n
  length-cycle f cap h zero = refl
  length-cycle f cap h (suc n) = ap suc (length-cycle f cap ((h + 1) % cap) n)

-- One turn round at most.
pub mod-wrap : (x m : ℕ) → m ≤ x → x < m + m → x % m ≡ x - m
mod-wrap x m h k = mod-eq-sub-mod h ∙ mod-eq_of_lt (omega arith)

pub mod_small : (x m : ℕ) → x < m → x % m ≡ x
mod_small x m h = mod-eq_of_lt h

-- How far `to` lies after `from` in an array that goes round at its end.
abbrev pub distance : ℕ → ℕ → ℕ → ℕ
distance capacity from to = (to + capacity - from) % capacity

pub distance_cases :
    (capacity from to : ℕ)
    → from < capacity
    → to < capacity
    → ((from ≤ to) × (distance capacity from to ≡ to - from))
      ⊎ ((to < from) × (distance capacity from to ≡ to + capacity - from))
distance_cases capacity from to h k = elim (dec_lt to from) [
  | yes p ↦ inr (p, mod_small _ _ (omega arith))
  | no p ↦ inl (omega arith, ground (arith, mod-wrap (to + capacity - from) capacity))
]

-- Fewer steps than the array has elements do not come back to the start.
pub add-mod-ne : (cap h k : ℕ) → h < cap → suc k < cap → h ≢ (h + suc k) % cap
add-mod-ne cap h k hh hk = elim (dec_lt (h + suc k) cap) [
  | yes p ↦ omega (arith, mod-eq_of_lt p)
  | no p ↦ ground (arith, mod-wrap (h + suc k) cap)
]

module _ {ℓ} {A : Type ℓ} where
  -- A write just behind a cycle that does not fill the array makes it one element longer.
  pub cycle-update :
      (f : ℕ → A) (cap : ℕ) (v : A) (n h i : ℕ)
      → h < cap
      → n < cap
      → i ≡ (h + n) % cap
      → cycle (update f i v) cap h (suc n) ≡ cycle f cap h n ++ v ∷ []
  cycle-update f cap v zero h i hh hn e = rw (e, add-zero, mod-eq_of_lt hh, update_self f h v)
  cycle-update f cap v (suc n) h i hh hn e =
      ap₂ ◌∷◌ (update_ne f i h v (λ q. add-mod-ne cap h n hh hn (q ∙ e)))
        (cycle-update f cap v n ((h + 1) % cap) i (omega arith) (omega arith) (e ∙ shifted))
    where
      shifted : (h + suc n) % cap ≡ ((h + 1) % cap + n) % cap
      shifted = rw mod-add-mod (ap (λ k. k % cap) (omega arith))
