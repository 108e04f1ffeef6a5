-- ===== src/Prelude/Bytes.antt =====
-- Bytes in arrays.
use Prim.Native.Nat.{ℕ, zero, suc, ◌+◌, ◌-◌, ◌^◌, ◌≤◌, ◌<◌}
use mathlib.Core.Path.{◌≡◌, refl, ap, ap₂, ◌∙◌}
use mathlib.Core.Bool.{Bool, false}
use mathlib.Core.List.{List, [], ◌∷◌, ◌++◌}
use native.Mathlib.Omega.{arith}
use mini_kernel.Prelude.Tests.{if◌then◌else◌, ltb, ◌==◌}
use mini_kernel.Prelude.Lists.{length, take, drop}
use mini_kernel.Prelude.Int.{ℤ, pos, negsuc}
use mini_kernel.Prelude.Arrays.{update, slice}

-- An `unsigned int` converted to `int`.
abbrev pub int_of : ℕ → ℤ
int_of n = if ltb n (2 ^ 31) then pos n else negsuc (2 ^ 32 - n - 1)

-- The bytes stored from `at` on.
unfoldable pub store : (ℕ → ℕ) → ℕ → List ℕ → ℕ → ℕ
store dest at [] = dest
store dest at (b ∷ bytes) = store (update dest at b) (at + 1) bytes

pub slice_agree {ℓ} :
    {A : Type ℓ} (f g : ℕ → A) (i n : ℕ)
    → ((k : ℕ) → i ≤ k → k < i + n → f k ≡ g k)
    → slice f i n ≡ slice g i n
slice_agree f g i zero h = refl
slice_agree f g i (suc n) h =
    ap₂ ◌∷◌ (h i (omega arith) (omega arith))
      (slice_agree f g (i + 1) n λ k p q. h k (omega arith) (omega arith))

pub store_before : (bytes : List ℕ) (f : ℕ → ℕ) (at k : ℕ) → k < at → store f at bytes k ≡ f k
unfolding store
store_before [] f at k h = refl
store_before (b ∷ bytes) f at k h =
    store_before bytes (update f at b) (at + 1) k (omega arith) ∙ ground arith

pub store_behind :
    (bytes : List ℕ) (f : ℕ → ℕ) (at k : ℕ) → at + length bytes ≤ k → store f at bytes k ≡ f k
unfolding store
store_behind [] f at k h = refl
store_behind (b ∷ bytes) f at k h =
    store_behind bytes (update f at b) (at + 1) k (omega arith) ∙ ground arith

pub slice-store :
    (bytes : List ℕ) (f : ℕ → ℕ) (at : ℕ) → slice (store f at bytes) at (length bytes) ≡ bytes
unfolding store
slice-store [] f at = refl
slice-store (b ∷ bytes) f at =
    ap₂ ◌∷◌ (store_before bytes (update f at b) (at + 1) at (omega arith) ∙ ground arith)
      (slice-store bytes (update f at b) (at + 1))

-- The string in an array from index `i` on, compared with one that is passed in, as the files'
-- `str_eq` do.
unfoldable pub str_eq_at : (ℕ → ℕ) → ℕ → List ℕ → Bool
str_eq_at a i [] = a i == 0
str_eq_at a i (c ∷ cs) = let rest = str_eq_at a (i + 1) cs in if a i == c then rest else false

-- What is stored at an index depends on how far behind the start it lies, and on the byte there.
pub store_shift :
    (bytes : List ℕ) (f g : ℕ → ℕ) (i j k l : ℕ)
    → k + j ≡ l + i
    → f k ≡ g l
    → store f i bytes k ≡ store g j bytes l
unfolding store
store_shift [] f g i j k l e h = h
store_shift (b ∷ bytes) f g i j k l e h =
    store_shift bytes (update f i b) (update g j b) (i + 1) (j + 1) k l (omega arith) (ground arith)

-- Bytes stored in two parts.
pub store_split :
    (n : ℕ) (bytes : List ℕ) (f : ℕ → ℕ) (i k : ℕ)
    → n ≤ length bytes
    → store (store f i (take n bytes)) (i + n) (drop n bytes) k ≡ store f i bytes k
unfolding store
store_split zero bytes f i k h = ap (λ j. store f j bytes k) (omega arith)
store_split (suc n) [] f i k h = elim h [ ]
store_split (suc n) (b ∷ bytes) f i k h =
    ap (λ j. store (store (update f i b) (i + 1) (take n bytes)) j (drop n bytes) k) (omega arith)
    ∙ store_split n bytes (update f i b) (i + 1) k (omega arith)

pub slice_shift {ℓ} :
    {A : Type ℓ} (f g : ℕ → A) (i j n : ℕ)
    → ((k : ℕ) → k < n → f (i + k) ≡ g (j + k))
    → slice f i n ≡ slice g j n
slice_shift f g i j zero h = refl
slice_shift f g i j (suc n) h =
    ap₂ ◌∷◌ (ap f (omega arith) ∙ h 0 (omega arith) ∙ ap g (omega arith)) (
      slice_shift f g (i + 1) (j + 1) n
        λ k lt. ap f (omega arith) ∙ h (suc k) (omega arith) ∙ ap g (omega arith))

pub slice-append {ℓ} :
    {A : Type ℓ} (f : ℕ → A) (i n m : ℕ)
    → n ≤ m
    → slice f i n ++ slice f (i + n) (m - n) ≡ slice f i m
slice-append f i zero m h = ap₂ (λ j l. slice f j l) (omega arith) (omega arith)
slice-append f i (suc n) zero h = elim h [ ]
slice-append f i (suc n) (suc m) h =
    ap₂ (λ j l. slice f i (suc n) ++ slice f j l) (omega arith) (omega arith)
    ∙ ap (λ xs. f i ∷ xs) (slice-append f (i + 1) n m (omega arith))

-- A slice that is stored stands there.
pub store-slice :
    (n : ℕ) (f g : ℕ → ℕ) (i j k : ℕ) → k < n → store g j (slice f i n) (j + k) ≡ f (i + k)
unfolding store
store-slice zero f g i j k h = elim h [ ]
store-slice (suc n) f g i j zero h =
    store_before (slice f (i + 1) n) (update g j (f i)) (j + 1) (j + 0) (omega arith) ∙ ground arith
store-slice (suc n) f g i j (suc k) h =
    ap (store (update g j (f i)) (j + 1) (slice f (i + 1) n)) (omega arith)
    ∙ store-slice n f (update g j (f i)) (i + 1) (j + 1) k (omega arith)
    ∙ ap f (omega arith)
