-- ===== src/Prelude/Text.antt =====
-- Texts as lists of character codes, and chains of fallible steps.
use Prim.Native.Nat.{ℕ}
use Prim.Native.Char.{code}
use Prim.Native.String.{String}
use mathlib.Core.Path.{◌≡◌, refl, ap₂}
use mathlib.Core.Logic.{inl, inr}
use mathlib.Core.Bool.{Bool, true, false}
use mathlib.Core.Option.{Option, none, some}
use mathlib.Core.List.{List, [], ◌∷◌}
use native.Mathlib.Omega.{arith}
use mini_kernel.Prelude.Tests.{if◌then◌else◌, ◌==◌, ==_iff, Bool-cases}

-- The codes of a literal.
abbrev pub codes : String → List ℕ
codes String.[] = []
codes (String.◌∷◌ c s) = code c ∷ codes s

infixl 5 ◌>>=◌
abbrev pub ◌>>=◌ {ℓ κ} : {A : Type ℓ} {B : Type κ} → Option A → (A → Option B) → Option B
none >>= f = none
some a >>= f = f a

-- The `str_eq` that the source's files each have a copy of.
unfoldable pub str_eq : List ℕ → List ℕ → Bool
str_eq [] [] = true
str_eq [] (b ∷ bs) = false
str_eq (a ∷ ks) [] = false
str_eq (a ∷ ks) (b ∷ bs) = let rest = str_eq ks bs in if a == b then rest else false

pub str_eq_sound : (a b : List ℕ) → str_eq a b ≡ true → a ≡ b
unfolding str_eq
str_eq_sound [] [] e = refl
str_eq_sound [] (b ∷ bs) e = cc
str_eq_sound (a ∷ ks) [] e = cc
str_eq_sound (a ∷ ks) (b ∷ bs) e = elim (Bool-cases (a == b)) [
  | inl h ↦ ap₂ ◌∷◌ ((==_iff a b).0 h) (str_eq_sound ks bs (ground arith))
  | inr h ↦ absurd (ground arith)
]

pub str_eq_refl : (a : List ℕ) → str_eq a a ≡ true
unfolding str_eq
str_eq_refl [] = refl
str_eq_refl (a ∷ ks) = ground (arith, str_eq_refl ks)
