-- ===== src/Pmm/Frames.antt =====
-- The frames of kernel/mm/pmm.c as a set: what marking and freeing a frame does to it, and the
-- count of free frames that is kept beside it.
use mini_kernel.Prelude.{
  ℕ, zero, suc, ◌+◌, ◌%◌, ◌≤◌, ◌<◌, ◌≡◌, refl, true, false, ◌==◌, arith, ltb, leb, if◌then◌else◌,
}
use mini_kernel.Pmm.{Pmm, is_set, set_used, set_free, is_used, use_frames, max_frames}
use mini_kernel.Pmm.Bits.{
  full_byte, AllBytes, with_bit_set, with_bit_clear, is_set-with_bit_set, is_set-with_bit_clear,
  AllBytes-with_bit_set, AllBytes-with_bit_clear,
}

-- The frames below `n` whose bit is clear.
pub free_below : ℕ → (ℕ → ℕ) → ℕ
free_below zero bitmap = 0
free_below (suc n) bitmap = free_below n bitmap + (if is_set bitmap n then 0 else 1)

-- Where every bit is set, no frame is free.
pub fresh_count : (n : ℕ) → free_below n (λ i. 255) ≡ 0
unfolding free_below
fresh_count zero = refl
fresh_count (suc n) = ground (arith, fresh_count n, full_byte (n % 8))

-- The bitmap holds bytes, `free_frames` is the number of its clear bits, and the next search
-- starts in the bitmap or at its end.
pub record IsValid (s : Pmm) : Type 0 where
  pub bytes : AllBytes s.bitmap
  pub counted : free_below max_frames s.bitmap ≡ s.free_frames
  pub hint_in : s.search_hint ≤ max_frames

free_below-set :
    (n f : ℕ) (bitmap : ℕ → ℕ)
    → AllBytes bitmap
    → is_set bitmap f ≡ false
    → free_below n (with_bit_set bitmap f) + (if ltb f n then 1 else 0) ≡ free_below n bitmap
unfolding free_below
free_below-set zero f bitmap v h = ground arith
free_below-set (suc n) f bitmap v h =
    ground (arith, free_below-set n f bitmap v h, is_set-with_bit_set bitmap f n v)

free_below-clear :
    (n f : ℕ) (bitmap : ℕ → ℕ)
    → AllBytes bitmap
    → is_set bitmap f ≡ true
    → free_below n (with_bit_clear bitmap f) ≡ free_below n bitmap + (if ltb f n then 1 else 0)
unfolding free_below
free_below-clear zero f bitmap v h = ground arith
free_below-clear (suc n) f bitmap v h =
    ground (arith, free_below-clear n f bitmap v h, is_set-with_bit_clear bitmap f n v)

pub set_used-IsValid : (f : ℕ) {s : Pmm} → IsValid s → IsValid (set_used f s)
unfolding set_used
set_used-IsValid f {s} v = record {
  bytes = λ i. ground (arith, v.bytes i, AllBytes-with_bit_set s.bitmap f v.bytes i);
  counted = ground (arith, v.counted, free_below-set max_frames f s.bitmap v.bytes);
  hint_in = ground (arith, v.hint_in);
}

pub set_free-IsValid : (f : ℕ) {s : Pmm} → IsValid s → IsValid (set_free f s)
unfolding set_free
set_free-IsValid f {s} v = record {
  bytes = λ i. ground (arith, v.bytes i, AllBytes-with_bit_clear s.bitmap f v.bytes i);
  counted = ground (arith, v.counted, free_below-clear max_frames f s.bitmap v.bytes);
  hint_in = ground (arith, v.hint_in);
}

-- Marking a frame changes that frame alone.
pub is_used-set_used :
    (f g : ℕ) {s : Pmm}
    → IsValid s
    → is_used g (set_used f s) ≡ (if g == f then true else is_used g s)
unfolding set_used is_used
is_used-set_used f g {s} v = ground (arith, is_set-with_bit_set s.bitmap f g v.bytes)

-- Freeing a frame that is tracked changes that frame alone.
pub is_used-set_free :
    (f g : ℕ) {s : Pmm}
    → IsValid s
    → is_used g (set_free f s) ≡ (if g == f then leb max_frames f else is_used g s)
unfolding set_free is_used
is_used-set_free f g {s} v = ground (arith, is_set-with_bit_clear s.bitmap f g v.bytes)

-- Marking a run of frames.
pub use_frames-IsValid : (n f : ℕ) {s : Pmm} → IsValid s → IsValid (use_frames f n s)
unfolding use_frames
use_frames-IsValid zero f v = v
use_frames-IsValid (suc n) f v = use_frames-IsValid n (f + 1) (set_used-IsValid f v)

pub is_used-use_frames :
    (n f g : ℕ) {s : Pmm}
    → IsValid s
    → is_used g (use_frames f n s)
      ≡ (if leb f g then (if ltb g (f + n) then true else is_used g s) else is_used g s)
unfolding use_frames
is_used-use_frames zero f g {s} v = ground arith
is_used-use_frames (suc n) f g {s} v =
    ground (arith, is_used-use_frames n (f + 1) g (set_used-IsValid f v), is_used-set_used f g v)

-- The count falls by one where a free frame is marked.
pub free_frames-set_used :
    (f : ℕ) {s : Pmm}
    → IsValid s
    → is_used f s ≡ false
    → (set_used f s).free_frames + 1 ≡ s.free_frames
unfolding set_used is_used
free_frames-set_used f {s} v h =
    ground (arith, v.counted, free_below-set max_frames f s.bitmap v.bytes)

pub is_used_lt : (f : ℕ) (s : Pmm) → is_used f s ≡ false → f < max_frames
unfolding is_used
is_used_lt f s h = ground arith
