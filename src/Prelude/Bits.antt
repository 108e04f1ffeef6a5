-- ===== src/Prelude/Bits.antt =====
-- Joining numbers by `|`: the parts' binary digits do not overlap.
use Prim.Native.Nat.{
  ℕ, zero, suc, ◌+◌, ◌*◌, ◌/◌, ◌^◌, ◌≤◌, ◌<◌, max, bit_or, bit_or-bitwise, digits,
}
use mathlib.Core.Path.{◌≡◌, ap, sym, ◌∙◌}
use native.Mathlib.Nat.{pow-suc, mul_assoc}
use native.Mathlib.Omega.{arith}

abbrev or_digits : ℕ → ℕ → ℕ → ℕ
or_digits n a b = digits (λ x. x) max n a b

-- The digits of `a` below position `k`, and those of `b` from there on.
or_digits_apart : (k n a b : ℕ) → a < 2 ^ k → a ≤ n → or_digits n a (b * 2 ^ k) ≡ a + b * 2 ^ k
or_digits_apart k zero a b small le = omega arith
or_digits_apart k (suc n) zero b small le = omega arith
or_digits_apart zero (suc n) (suc a) b small le = absurd (omega arith)
or_digits_apart (suc k) (suc n) (suc a) b small le =
    let twice : b * 2 ^ suc k ≡ b * 2 ^ k * 2 =
      ap (λ x. b * x) (pow-suc 2 k) ∙ sym (mul_assoc b (2 ^ k) 2) in
    let half : b * 2 ^ suc k / 2 ≡ b * 2 ^ k = omega (arith, twice) in
    let ih = or_digits_apart k n (suc a / 2) b (omega (arith, pow-suc 2 k)) (omega arith) in
    let ih' : or_digits n (suc a / 2) (b * 2 ^ suc k / 2) ≡ suc a / 2 + b * 2 ^ k =
      ap (or_digits n (suc a / 2)) half ∙ ih in
    omega (arith, twice, ih')

-- `a | (b << k)`, where `a` has k bits.
pub bit_or_apart : (k a b : ℕ) → a < 2 ^ k → bit_or a (b * 2 ^ k) ≡ a + b * 2 ^ k
bit_or_apart k a b h = bit_or-bitwise a (b * 2 ^ k) ∙ or_digits_apart k a a b h (omega arith)
