-- ===== src/Heap.antt =====
-- The heap of kernel/mm/heap.c: its list of blocks, in the order of the `next` pointers, over the
-- frame allocator. That no one else writes the blocks' headers is part of the model.
pub mod Blocks
pub mod Calls
mod Tests
use mini_kernel.Prelude.{
  ℕ, zero, suc, ◌+◌, ◌-◌, ◌*◌, ◌/◌, ◌%◌, ◌^◌, Bool, true, false, Option, none, some, List, [], ◌∷◌,
  if◌then◌else◌, ltb, leb, ◌==◌,
}
use mini_kernel.Pmm.{Pmm, frame_size, word, pmm_alloc_contiguous}

-- `heap_block_t`, with its address.
pub record Block : Type 0 where
  pub addr : ℕ
  pub size : ℕ
  pub free : Bool

pub record Heap : Type 0 where
  pub blocks : List Block
  pub frames : Pmm

pub heap_init : Heap → Heap
heap_init s = record s { blocks = [] }

abbrev pub heap_align : ℕ
heap_align = 16

-- `sizeof(heap_block_t)`
abbrev pub header_size : ℕ
header_size = 24

-- `align_up` to a multiple of 16
abbrev pub align_up : ℕ → ℕ
align_up value = (value + heap_align - 1) % word / heap_align * heap_align

-- `grow_heap`: whether a block was added at the head of the list.
unfoldable pub grow_heap : ℕ → Heap → Bool × Heap
grow_heap required s =
    let total = header_size + required in
    let frame_count = (total + frame_size - 1) % word / frame_size in
    let (frame, frames) = pmm_alloc_contiguous frame_count s.frames in
    let block : Block = record {
      addr = frame;
      size = frame_count * frame_size - header_size;
      free = true;
    } in
    if ltb (word - 1 - header_size) required
    then (false, s)
    else if frame == 0
    then (false, record s { frames = frames })
    else (true, record { blocks = block ∷ s.blocks; frames = frames })

-- A block that is taken, and what is split off it.
unfoldable pub split : ℕ → Block → List Block → List Block
split size b rest =
    if leb ((size + header_size + heap_align) % word) b.size
    then record { addr = b.addr; size = size; free = false }
      ∷ record {
        addr = b.addr + header_size + size;
        size = b.size - size - header_size;
        free = true;
      }
      ∷ rest
    else record b { free = false } ∷ rest

-- The first free block that is large enough is taken: its address, and the list then.
unfoldable pub take_fit : ℕ → List Block → Option (ℕ × List Block)
unfolding split
take_fit size [] = none
take_fit size (b ∷ bs) =
    let later : Option (ℕ × List Block) = elim (take_fit size bs) [
      | none ↦ none
      | some (a, bs') ↦ some (a, b ∷ bs')
    ] in
    let here = some (b.addr, split size b bs) in
    if b.free then if leb size b.size then here else later else later

-- The block at the head of the list, taken.
unfoldable pub take_head : ℕ → Heap → ℕ × Heap
unfolding split
take_head size s = elim s.blocks [
  | [] ↦ (0, s)
  | b ∷ bs ↦ (b.addr + header_size, record s { blocks = split size b bs })
]

-- `kmalloc` of a size that is aligned already.
unfoldable pub alloc_aligned : ℕ → Heap → ℕ × Heap
unfolding take_fit grow_heap take_head
alloc_aligned size s = elim (take_fit size s.blocks) [
  | some (a, blocks) ↦ (a + header_size, record s { blocks = blocks })
  | none ↦
      let (grown, s') = grow_heap size s in
      let taken = take_head size s' in if grown then taken else (0, s')
]

unfoldable pub kmalloc : ℕ → Heap → ℕ × Heap
unfolding alloc_aligned
kmalloc size s =
    let result = alloc_aligned (align_up size) s in
    if size == 0 then (0, s) else if ltb (word - 1 - (heap_align - 1)) size then (0, s) else result

-- The list with its block for the pointer marked free: `none` where there is no such block, or it
-- is free already.
unfoldable pub mark_free : ℕ → List Block → Option (List Block)
mark_free ptr [] = none
mark_free ptr (b ∷ bs) =
    let later : Option (List Block) = elim (mark_free ptr bs) [
      | none ↦ none
      | some bs' ↦ some (b ∷ bs')
    ] in
    if b.addr + header_size == ptr
    then if b.free then none else some (record b { free = true } ∷ bs)
    else later

-- `current->free && next->free && current_end == next`
abbrev pub joins : Block → Block → Bool
joins b c =
    if b.free then if c.free then b.addr + header_size + b.size == c.addr else false else false

-- The loop that joins neighbours, from block `b` on.
unfoldable pub merge : Block → List Block → List Block
merge b [] = b ∷ []
merge b (c ∷ cs) = elim (joins b c) [
  | true ↦ merge (record b { size = (b.size + header_size + c.size) % word }) cs
  | false ↦ b ∷ merge c cs
]

unfoldable pub coalesce : List Block → List Block
unfolding merge
coalesce [] = []
coalesce (b ∷ bs) = merge b bs

unfoldable pub kfree : ℕ → Heap → Heap
unfolding mark_free coalesce
kfree ptr s =
    let freed : Heap = elim (mark_free ptr s.blocks) [
      | none ↦ s
      | some blocks ↦ record s { blocks = coalesce blocks }
    ] in
    if ptr == 0 then s else freed
