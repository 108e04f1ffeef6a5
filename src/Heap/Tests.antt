-- ===== src/Heap/Tests.antt =====
-- The heap of kernel/mm/heap.c at concrete states.
use mini_kernel.Prelude.{
  ℕ, ◌<◌, ◌≡◌, ◌/◌, refl, subst, Bool, true, false, arith, List, [], ◌∷◌, none, some, inl,
}
use mini_kernel.Pmm.{Entry, is_used, pmm_init}
use mini_kernel.Pmm.Init.{init_lem}
use mini_kernel.Heap.{Block, Heap, kmalloc, kfree, take_fit, mark_free, coalesce}
use mini_kernel.Heap.Blocks.{covered}
use mini_kernel.Heap.Calls.{IsValid, Allocated, Freed, kmalloc_lem, kfree_lem}

abbrev entries : List Entry
entries = record { base = 0x100000; length = 0x1000000; type = 1 } ∷ []

-- The heap after `heap_init`.
abbrev fresh : Heap
fresh = record { blocks = []; frames = pmm_init entries 0x20000 }

fresh-IsValid : IsValid fresh
unfolding covered
fresh-IsValid =
    let (v, reserved) = init_lem entries 0x20000 0 (omega arith) in
    record {
      frames_valid = v;
      zero_used = reserved 0 (omega arith) (inl (omega arith));
      apart = λ x. omega arith;
      owned = λ x h. absurd (omega arith);
      low = λ x h. absurd (omega arith);
    }

kmalloc_lem_example : Allocated 100 fresh (kmalloc 100 fresh)
kmalloc_lem_example = kmalloc_lem 100 fresh (omega arith) fresh-IsValid

-- One block of the reserved frame 1, in use.
abbrev one_block : Heap
one_block = record {
  blocks = record { addr = 4096; size = 200; free = false } ∷ [];
  frames = pmm_init entries 0x20000;
}

in_frame : (x : ℕ) → 0 < covered x one_block.blocks → 1 ≡ x / 4096
unfolding covered
in_frame x h = ground arith

one_block-IsValid : IsValid one_block
unfolding covered
one_block-IsValid =
    let (v, reserved) = init_lem entries 0x20000 0 (omega arith) in
    let (v1, reserved1) = init_lem entries 0x20000 1 (omega arith) in
    let used_1 = reserved1 4096 (omega arith) (inl (omega arith)) in
    record {
      frames_valid = v;
      zero_used = reserved 0 (omega arith) (inl (omega arith));
      apart = λ x. ground arith;
      owned = λ x h. subst (λ k. is_used k (pmm_init entries 0x20000) ≡ true) (in_frame x h) used_1;
      low = λ x h. ground arith;
    }

kfree_lem_example : Freed 4120 one_block (kfree 4120 one_block)
kfree_lem_example = kfree_lem 4120 one_block one_block-IsValid

-- Taking splits a block; freeing joins the two again.
abbrev a_block : ℕ → ℕ → Bool → Block
a_block addr size free = record { addr = addr; size = size; free = free }

taken :
    take_fit 16 (a_block 4096 4072 true ∷ [])
    ≡ some (4096, a_block 4096 16 false ∷ a_block 4136 4032 true ∷ [])
unfolding take_fit
taken = refl

rejoined :
    coalesce (a_block 4096 16 true ∷ a_block 4136 4032 true ∷ []) ≡ a_block 4096 4072 true ∷ []
unfolding coalesce
rejoined = refl

freed_twice : mark_free 4120 (a_block 4096 16 true ∷ []) ≡ none
unfolding mark_free
freed_twice = refl
