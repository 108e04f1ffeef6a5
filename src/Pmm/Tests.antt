-- ===== src/Pmm/Tests.antt =====
-- The frame allocator of kernel/mm/pmm.c at concrete states.
use mini_kernel.Prelude.{
  ℕ, ◌*◌, ◌/◌, ◌≡◌, refl, true, ◌⊎◌, inl, arith, List, [], ◌∷◌, ◌==◌, if◌then◌else◌,
}
use mini_kernel.Pmm.{
  alloc_from, contiguous_from, Pmm, Entry, frame_size, is_used, pmm_init, set_free, pmm_alloc_frame,
  pmm_alloc_contiguous,
}
use mini_kernel.Pmm.Frames.{IsValid}
use mini_kernel.Pmm.Init.{init_lem, Reserved}
use mini_kernel.Pmm.Alloc.{alloc_frame_lem, NoFrame, OneFrame}
use mini_kernel.Pmm.Runs.{alloc_contiguous_lem, NoFrames, Frames}

-- A machine with 16 MiB from 1 MiB on.
abbrev entries : List Entry
entries = record { base = 0x100000; length = 0x1000000; type = 1 } ∷ []

abbrev booted : Pmm
booted = pmm_init entries 0x20000

init_lem_example :
    IsValid booted
    × ((addr : ℕ) → addr / frame_size ≡ 0 → Reserved 0x20000 addr → is_used 0 booted ≡ true)
init_lem_example = init_lem entries 0x20000 0 (omega arith)

booted-IsValid : IsValid booted
booted-IsValid = (init_lem entries 0x20000 0 (omega arith)).0

zero_used : is_used 0 booted ≡ true
zero_used = (init_lem entries 0x20000 0 (omega arith)).1 0 (omega arith) (inl (omega arith))

alloc_frame_lem_example :
    NoFrame booted (pmm_alloc_frame booted) ⊎ OneFrame booted (pmm_alloc_frame booted)
alloc_frame_lem_example = alloc_frame_lem booted booted-IsValid zero_used

alloc_contiguous_lem_example :
    NoFrames 3 booted (pmm_alloc_contiguous 3 booted)
    ⊎ Frames 3 booted (pmm_alloc_contiguous 3 booted)
alloc_contiguous_lem_example = alloc_contiguous_lem 3 booted (omega arith) booted-IsValid

-- Small states run.
abbrev with_frames : ℕ → Pmm
with_frames byte = record {
  bitmap = λ i. if i == 2 then byte else 255;
  total_frames = 8;
  free_frames = 0;
  search_hint = 20;
}

next_free : (alloc_from 3 0 (with_frames 0xDF)).0 ≡ 21 * 4096
unfolding alloc_from
next_free = refl

one_run : (contiguous_from 8 16 0 0 2 (with_frames 0xCD)).0 ≡ 20 * 4096
unfolding contiguous_from
one_run = refl

freed_bit : (set_free 18 (with_frames 0xFF)).bitmap 2 ≡ 0xFB
unfolding set_free
freed_bit = refl
