-- ===== src/Lang/Division.antt =====
-- The division of programs/lang.c on the signs of its operands.
use mini_kernel.Prelude.{
  ℕ, zero, suc, ◌/◌, ◌^◌, ◌≡◌, refl, ℤ, pos, negsuc, ◌-ℤ◌, sub_ℕ, none, some, ◌>>=◌, if◌then◌else◌,
  leb, arith,
}
use mini_kernel.Lang.{Value, quotient, times}
use mini_kernel.Lang.Grammar.{in_range, divided}

opposite : (n : ℕ) → (if leb n (2 ^ 63) then some (sub_ℕ 0 n) else none) ≡ in_range (pos 0 -ℤ pos n)
opposite zero = refl
opposite (suc n) = ground arith

-- The source's division is the quotient towards zero.
pub quotient_lem : (v rhs : ℤ) → quotient v rhs ≡ divided v rhs
unfolding quotient divided
quotient_lem (pos a) (pos zero) = refl
quotient_lem (negsuc a) (pos zero) = refl
quotient_lem (pos a) (pos (suc b)) = ground arith
quotient_lem (pos a) (negsuc b) = ground (arith, opposite (a / suc b))
quotient_lem (negsuc a) (pos (suc b)) = ground (arith, opposite (suc a / suc b))
quotient_lem (negsuc a) (negsuc b) = ground arith

-- The division of two values that an expression has computed.
pub times-div : (v rhs : Value) → times b'/' v rhs ≡ (v >>= λ a. rhs >>= λ b. divided a b)
unfolding times
times-div none rhs = refl
times-div (some a) none = refl
times-div (some a) (some b) = quotient_lem a b
