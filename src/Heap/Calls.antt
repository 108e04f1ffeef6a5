-- ===== src/Heap/Calls.antt =====
-- What `kmalloc` and `kfree` of kernel/mm/heap.c do.
use mini_kernel.Prelude.{
  ℕ, ◌+◌, ◌-◌, ◌*◌, ◌/◌, ◌%◌, ◌^◌, ◌≤◌, ◌<◌, ◌≡◌, refl, ap, sym, subst, ◌∙◌, ◌⊎◌, inl, inr, Bool,
  true, false, if_elim, List, ◌∷◌, if◌then◌else◌, ltb, leb, ◌==◌, arith, mod_small,
}
use mini_kernel.Pmm.{Pmm, word, max_frames, is_used, pmm_alloc_contiguous}
use mini_kernel.Pmm.Frames
use mini_kernel.Pmm.Runs.{alloc_contiguous_lem, FreeIn}
use mini_kernel.Heap.{
  Block, Heap, grow_heap, split, take_head, alloc_aligned, align_up, kmalloc, coalesce, kfree,
}
use mini_kernel.Heap.Blocks.{
  among, NoneInUse, InUse, covered, used, covered-cons, used-cons, split-Taken, take_fit_cases,
  mark_free_cases, covered-coalesce,
}

-- No byte is in two blocks, every block lies in used frames below 4 GiB, and the frame allocator
-- is valid with frame 0 in use.
pub record IsValid (s : Heap) : Type 0 where
  pub frames_valid : Frames.IsValid s.frames
  pub zero_used : is_used 0 s.frames ≡ true
  pub apart : (x : ℕ) → covered x s.blocks ≤ 1
  pub owned : (x : ℕ) → 0 < covered x s.blocks → is_used (x / 4096) s.frames ≡ true
  pub low : (x : ℕ) → 0 < covered x s.blocks → x < 2 ^ 32

-- Another list that covers the same bytes.
blocks-IsValid :
    (s : Heap) (bs : List Block)
    → ((x : ℕ) → covered x bs ≡ covered x s.blocks)
    → IsValid s
    → IsValid (record s { blocks = bs })
blocks-IsValid s bs same v = record {
  frames_valid = v.frames_valid;
  zero_used = v.zero_used;
  apart = λ x. omega (arith, same x, v.apart x);
  owned = λ x h. v.owned x (omega (arith, same x));
  low = λ x h. v.low x (omega (arith, same x));
}

-- What a block more does.
abbrev Grown : ℕ → Heap → Bool × Heap → Type 0
Grown size s (grown, s') =
    ((grown ≡ false) × (s'.blocks ≡ s.blocks) × IsValid s')
    ⊎ (b : Block) × (grown ≡ true)
      × (s'.blocks ≡ b ∷ s.blocks)
      × (b.free ≡ true)
      × (size ≤ b.size)
      × IsValid s'

grown-IsValid :
    (s : Heap) (start count : ℕ) (frames : Pmm)
    → IsValid s
    → 0 < count
    → start + count ≤ max_frames
    → FreeIn s.frames start (start + count)
    → ((g : ℕ)
        → is_used g frames ≡ (
            if leb start g
            then (if ltb g (start + count) then true else is_used g s.frames)
            else is_used g s.frames))
    → Frames.IsValid frames
    → let b : Block = record { addr = start * 4096; size = count * 4096 - 24; free = true } in
      IsValid (record { blocks = b ∷ s.blocks; frames = frames })
grown-IsValid s start count frames v pos_c room free marked fv =
    let b : Block = record { addr = start * 4096; size = count * 4096 - 24; free = true } in
    record {
      frames_valid = fv;
      zero_used = ground (arith, marked 0, v.zero_used);
      apart = λ x. ground (arith, covered-cons x b s.blocks, v.apart x, v.owned x, free (x / 4096));
      owned = λ x h. ground (arith, covered-cons x b s.blocks, v.owned x, marked (x / 4096));
      low = λ x h. ground (arith, covered-cons x b s.blocks, v.low x);
    }

grow_heap_lem : (size : ℕ) (s : Heap) → size < 2 ^ 63 → IsValid s → Grown size s (grow_heap size s)
unfolding grow_heap
grow_heap_lem size s h v =
    let total : (24 + size + 4096 - 1) % 2 ^ 64 ≡ 24 + size + 4096 - 1 =
      mod_small (24 + size + 4096 - 1) (2 ^ 64) (omega arith) in
    let count = (24 + size + 4096 - 1) % 2 ^ 64 / 4096 in
    let pos_c : 0 < count = omega (arith, total) in
    if_elim (Grown size s) (ltb (word - 1 - 24) size) (λ e. absurd (ground arith))
      λ e. elim (alloc_contiguous_lem count s.frames pos_c v.frames_valid) [
        | inl (at_zero, same, no_run) ↦
            if_elim (Grown size s) ((pmm_alloc_contiguous count s.frames).0 == 0)
              (λ z. inl (
                refl,
                refl,
                subst (λ f. IsValid (record { blocks = s.blocks; frames = f })) (sym same) v,
              ))
              (λ z. absurd (ground (arith, at_zero)))
        | inr (start, at, room, free, marked, fv) ↦
            if_elim (Grown size s) ((pmm_alloc_contiguous count s.frames).0 == 0)
              (λ z. absurd (ground (arith, at, free 0, v.zero_used)))
              (λ z. inr (
                _,
                refl,
                refl,
                refl,
                omega (arith, total),
                subst
                    (λ a.
                      let b : Block = record { addr = a; size = count * 4096 - 24; free = true } in
                      IsValid (record {
                        blocks = b ∷ s.blocks;
                        frames = (pmm_alloc_contiguous count s.frames).1;
                      }))
                    (sym at)
                    (grown-IsValid s start count (pmm_alloc_contiguous count s.frames).1 v pos_c
                      room free marked fv),
              ))
      ]

-- What `kmalloc` gives: the null pointer, with no block changed, or a pointer behind the header of
-- a block of at least the size, whose bytes were in no block in use.
abbrev pub Allocated : ℕ → Heap → ℕ × Heap → Type 0
Allocated size s (p, s') =
    ((p ≡ 0) × (s'.blocks ≡ s.blocks) × IsValid s')
    ⊎ (a n : ℕ) × (p ≡ a + 24)
      × (size ≤ n)
      × ((x : ℕ) → used x s'.blocks ≡ used x s.blocks + among a (24 + n) x)
      × IsValid s'

alloc_aligned_lem :
    (size : ℕ) (s : Heap) → size < 2 ^ 63 → IsValid s → Allocated size s (alloc_aligned size s)
unfolding alloc_aligned
alloc_aligned_lem size s h v = elim (take_fit_cases size s.blocks h) [
  | inr (a, bs, e, taken) ↦
      let (same, n, le, more) = taken in
      subst (Allocated size s) (sym (rw (e, alloc_aligned) refl))
        (inr (a, n, refl, le, more, blocks-IsValid s bs same v))
  | inl e ↦ elim (grow_heap_lem size s h v) [
    | inl (not_grown, same, v') ↦
        subst (Allocated size s) (sym (rw (e, alloc_aligned, not_grown) refl))
          (inl (refl, same, v'))
    | inr (b, yes_grown, list, bf, le, v') ↦
        let s' = (grow_heap size s).1 in
        let (same, n, le_n, more) = split-Taken size b s.blocks h le bf in
        subst (Allocated size s) (sym (rw (e, alloc_aligned, yes_grown, take_head, list) refl)) (
          inr (
            b.addr,
            n,
            refl,
            le_n,
            (λ x. more x ∙ ap (λ k. k + among b.addr (24 + n) x) (used-cons x b s.blocks bf)),
            blocks-IsValid s' (split size b s.blocks) (λ x. same x ∙ ap (covered x) (sym list)) v',
          ))
  ]
]

-- `kmalloc` in a valid heap, for a size of at most 2^62: the heap stays valid. It returns the null
-- pointer and changes no block, or it returns a pointer behind the header of a block of at least
-- the size asked for; the bytes of this block become used, and by validity none of them was in
-- another block in use.
pub kmalloc_lem :
    (size : ℕ) (s : Heap) → size ≤ 2 ^ 62 → IsValid s → Allocated size s (kmalloc size s)
unfolding kmalloc
kmalloc_lem size s h v =
    if_elim (Allocated size s) (size == 0) (λ e. inl (refl, refl, v))
      λ e.
        if_elim (Allocated size s) (ltb (word - 1 - (16 - 1)) size) (λ e2. inl (refl, refl, v))
          λ e2. elim (alloc_aligned_lem (align_up size) s (omega arith) v) [
            | inl failed ↦ inl failed
            | inr (a, n, p, le, more, v') ↦ inr (a, n, p, omega arith, more, v')
          ]

-- What `kfree` gives: nothing changed where no block in use has its bytes begin at the pointer, or
-- the bytes of such a block, with its header, and no others no longer used.
abbrev pub Freed : ℕ → Heap → Heap → Type 0
Freed ptr s s' =
    IsValid s'
    × ((x : ℕ) → covered x s'.blocks ≡ covered x s.blocks)
    × ((s' ≡ s) × ((ptr ≡ 0) ⊎ NoneInUse ptr s.blocks)
        ⊎ (n : ℕ) × InUse ptr n s.blocks
          × ((x : ℕ) → used x s'.blocks + among (ptr - 24) (24 + n) x ≡ used x s.blocks))

-- `kfree` in a valid heap: the heap stays valid, and the blocks cover the same bytes, whatever was
-- joined. Either nothing is changed, and the pointer is null or no block in use has its bytes begin
-- there; or a block in use has its bytes begin there, and all of them and its header, and no other
-- bytes, are no longer in use.
pub kfree_lem : (ptr : ℕ) (s : Heap) → IsValid s → Freed ptr s (kfree ptr s)
unfolding kfree
kfree_lem ptr s v =
    if_elim (Freed ptr s) (ptr == 0) (λ e. (v, (λ x. refl), inl (refl, inl (ground arith))))
      λ e. elim (mark_free_cases ptr s.blocks v.apart) [
        | inl (m, none_here) ↦
            subst (Freed ptr s) (sym (rw m refl)) (v, (λ x. refl), inl (refl, inr none_here))
        | inr (bs, n, m, here, same, less) ↦
            let low' = λ (x : ℕ) (h : 0 < covered x bs). v.low x (omega (arith, same x)) in
            let all = covered-coalesce bs low' in
            subst (Freed ptr s) (sym (rw m refl)) (
              blocks-IsValid s (coalesce bs) (λ x. (all x).0 ∙ same x) v,
              (λ x. (all x).0 ∙ same x),
              inr (n, here, λ x. ap (λ k. k + among (ptr - 24) (24 + n) x) (all x).1 ∙ less x),
            )
      ]
