-- ===== src/Pmm/Bits.antt =====
-- The bits of the bitmap of kernel/mm/pmm.c.
use mini_kernel.Prelude.{
  ◌+◌, ◌≤◌, subst, ℕ, zero, suc, ◌-◌, ◌/◌, ◌%◌, ◌^◌, ◌<◌, ◌≡◌, refl, ap, ◌∙◌, sym, Bool, true,
  false, not, ◌&&◌, ◌==◌, ltb→lt, and_split, arith, bit_and, bit_or, update, update_ne, ltb,
  if◌then◌else◌, ℕ_discrete,
}
use mini_kernel.Pmm.{is_set, bit_of}

-- A test that holds at `from` and at each of the `n` numbers behind it.
through : (ℕ → Bool) → ℕ → ℕ → Bool
through check from zero = check from
through check from (suc n) =
    let later = through check (from + 1) n in if check from then later else false

through_lem :
    (check : ℕ → Bool) (from n k : ℕ)
    → through check from n ≡ true
    → k ≤ n
    → check (from + k) ≡ true
unfolding through
through_lem check from zero k seen le = subst (λ i. check i ≡ true) (omega arith) seen
through_lem check from (suc n) zero seen le = ground arith
through_lem check from (suc n) (suc k) seen le =
    subst (λ i. check i ≡ true) (omega arith)
      (through_lem check (from + 1) n k (ground arith) (omega arith))

up_to : (check : ℕ → Bool) (n k : ℕ) → through check 0 n ≡ true → k ≤ n → check k ≡ true
up_to check n k seen le =
    subst (λ i. check i ≡ true) (omega arith) (through_lem check 0 n k seen le)

-- The bit `b` of a byte.
abbrev pub test : ℕ → ℕ → Bool
test byte b = not (bit_and byte (2 ^ b) == 0)

full_table : through (test 255) 0 7 ≡ true
unfolding through
full_table = refl

pub full_byte : (b : ℕ) → b < 8 → test 255 b ≡ true
full_byte b h = up_to (test 255) 7 b full_table (omega arith)

bool_eq : Bool → Bool → Bool
bool_eq true b = b
bool_eq false b = not b

-- Setting and clearing bit `b` of a byte, as seen at bit `c`.
set_table :
    through
      (λ x.
        through
          (λ b.
            through
              (λ c.
                bool_eq (test (bit_or x (2 ^ b)) c) (if b == c then true else test x c)
                && bool_eq (test (bit_and x (255 - 2 ^ b)) c) (if b == c then false else test x c)
                && ltb (bit_or x (2 ^ b)) 256
                && ltb (bit_and x (255 - 2 ^ b)) 256)
              0
              7)
          0
          7)
      0
      255
    ≡ true
unfolding through bool_eq
set_table = refl

bool_eq_sound : (a b : Bool) → bool_eq a b ≡ true → a ≡ b
unfolding bool_eq
bool_eq_sound true b e = sym e
bool_eq_sound false true e = cc
bool_eq_sound false false e = refl

-- Setting and clearing one bit of a byte: what every bit is then, and that it stays a byte.
pub byte_laws :
    (x b c : ℕ)
    → x < 256
    → b < 8
    → c < 8
    → (test (bit_or x (2 ^ b)) c ≡ (if b == c then true else test x c))
      × (test (bit_and x (255 - 2 ^ b)) c ≡ (if b == c then false else test x c))
      × (bit_or x (2 ^ b) < 256)
      × (bit_and x (255 - 2 ^ b) < 256)
byte_laws x b c hx hb hc =
    let row = up_to _ 255 x set_table (omega arith) in
    let cell = up_to _ 7 c (up_to _ 7 b row (omega arith)) (omega arith) in
    let (three, m) = and_split _ _ cell in
    let (two, l) = and_split _ _ three in
    let (p, q) = and_split _ _ two in
    (bool_eq_sound _ _ p, bool_eq_sound _ _ q, ltb→lt _ _ l, ltb→lt _ _ m)

abbrev pub AllBytes : (ℕ → ℕ) → Type 0
AllBytes bitmap = (i : ℕ) → bitmap i < 256

-- One frame's bit set, in the bitmap.
abbrev pub with_bit_set : (ℕ → ℕ) → ℕ → ℕ → ℕ
with_bit_set bitmap f = update bitmap (f / 8) (bit_or (bitmap (f / 8)) (bit_of f))

abbrev pub with_bit_clear : (ℕ → ℕ) → ℕ → ℕ → ℕ
with_bit_clear bitmap f = update bitmap (f / 8) (bit_and (bitmap (f / 8)) (255 - bit_of f))

update_at {ℓ} : {A : Type ℓ} (f : ℕ → A) (i j : ℕ) (v : A) → j ≡ i → update f i v j ≡ v
update_at f i j v e = ground arith

same_frame :
    (f g : ℕ) (x y : Bool)
    → g / 8 ≡ f / 8
    → (if f % 8 == g % 8 then x else y) ≡ (if g == f then x else y)
same_frame f g x y e = ground arith

-- Setting a frame's bit sets it and no other.
pub is_set-with_bit_set :
    (bitmap : ℕ → ℕ) (f g : ℕ)
    → AllBytes bitmap
    → is_set (with_bit_set bitmap f) g ≡ (if g == f then true else is_set bitmap g)
is_set-with_bit_set bitmap f g v =
    let (p, q, r, t) =
      byte_laws (bitmap (f / 8)) (f % 8) (g % 8) (v (f / 8)) (omega arith) (omega arith) in
    elim (ℕ_discrete (g / 8) (f / 8)) [
      | yes e ↦
          ap (λ x. test x (g % 8)) (update_at bitmap (f / 8) (g / 8) _ e)
          ∙ p
          ∙ rw (← e) (same_frame f g true (test (bitmap (g / 8)) (g % 8)) e)
      | no ne ↦ ap (λ x. test x (g % 8)) (update_ne bitmap (f / 8) (g / 8) _ ne) ∙ ground arith
    ]

-- Clearing a frame's bit clears it and no other.
pub is_set-with_bit_clear :
    (bitmap : ℕ → ℕ) (f g : ℕ)
    → AllBytes bitmap
    → is_set (with_bit_clear bitmap f) g ≡ (if g == f then false else is_set bitmap g)
is_set-with_bit_clear bitmap f g v =
    let (p, q, r, t) =
      byte_laws (bitmap (f / 8)) (f % 8) (g % 8) (v (f / 8)) (omega arith) (omega arith) in
    elim (ℕ_discrete (g / 8) (f / 8)) [
      | yes e ↦
          ap (λ x. test x (g % 8)) (update_at bitmap (f / 8) (g / 8) _ e)
          ∙ q
          ∙ rw (← e) (same_frame f g false (test (bitmap (g / 8)) (g % 8)) e)
      | no ne ↦ ap (λ x. test x (g % 8)) (update_ne bitmap (f / 8) (g / 8) _ ne) ∙ ground arith
    ]

pub AllBytes-with_bit_set :
    (bitmap : ℕ → ℕ) (f : ℕ) → AllBytes bitmap → AllBytes (with_bit_set bitmap f)
AllBytes-with_bit_set bitmap f v i =
    ground
      (arith, v i, byte_laws (bitmap (f / 8)) (f % 8) 0 (v (f / 8)) (omega arith) (omega arith))

pub AllBytes-with_bit_clear :
    (bitmap : ℕ → ℕ) (f : ℕ) → AllBytes bitmap → AllBytes (with_bit_clear bitmap f)
AllBytes-with_bit_clear bitmap f v i =
    ground
      (arith, v i, byte_laws (bitmap (f / 8)) (f % 8) 0 (v (f / 8)) (omega arith) (omega arith))
