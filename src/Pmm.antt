-- ===== src/Pmm.antt =====
-- The frame allocator of kernel/mm/pmm.c over its bitmap: a set bit is a used frame. The memory map
-- that `pmm_init` reads is the argument `entries`, and the end of the kernel's image `kernel_end`.
pub mod Bits
pub mod Frames
pub mod Alloc
pub mod Runs
pub mod Init
pub mod Tests
use mini_kernel.Prelude.{
  ℕ, zero, suc, ◌+◌, ◌-◌, ◌*◌, ◌/◌, ◌%◌, ◌^◌, Bool, true, false, not, List, [], ◌∷◌, if◌then◌else◌,
  ltb, leb, ◌==◌, update, bit_and, bit_or,
}

abbrev pub frame_size : ℕ
frame_size = 4096

-- `PMM_MAX_MEMORY`
abbrev pub max_memory : ℕ
max_memory = 0x100000000

-- `PMM_MAX_FRAMES`
abbrev pub max_frames : ℕ
max_frames = 0x100000

abbrev pub word : ℕ
word = 2 ^ 64

-- The statics of pmm.c.
pub record Pmm : Type 0 where
  pub bitmap : ℕ → ℕ
  pub total_frames : ℕ
  pub free_frames : ℕ
  pub search_hint : ℕ

-- `e820_entry_t`, as much of it as is read.
pub record Entry : Type 0 where
  pub base : ℕ
  pub length : ℕ
  pub type : ℕ

abbrev pub usable : ℕ
usable = 1

unfoldable pub frame_of : ℕ → ℕ
frame_of addr = addr / frame_size

-- `1 << (frame % 8)`
abbrev pub bit_of : ℕ → ℕ
bit_of frame = 2 ^ (frame % 8)

-- `bitmap[frame / 8] & bit`, as a test
abbrev pub is_set : (ℕ → ℕ) → ℕ → Bool
is_set bitmap frame = not (bit_and (bitmap (frame / 8)) (bit_of frame) == 0)

unfoldable pub set_used : ℕ → Pmm → Pmm
set_used frame s =
    if leb max_frames frame then s else if is_set s.bitmap frame then s else record s {
      bitmap = update s.bitmap (frame / 8) (bit_or (s.bitmap (frame / 8)) (bit_of frame));
      free_frames = if ltb 0 s.free_frames then s.free_frames - 1 else s.free_frames;
    }

-- `~bit` in an unsigned char is `255 - bit`.
unfoldable pub set_free : ℕ → Pmm → Pmm
set_free frame s =
    if leb max_frames frame
    then s
    else if is_set s.bitmap frame
    then record s {
      bitmap = update s.bitmap (frame / 8) (bit_and (s.bitmap (frame / 8)) (255 - bit_of frame));
      free_frames = s.free_frames + 1;
    }
    else s

unfoldable pub is_used : ℕ → Pmm → Bool
is_used frame s = if leb max_frames frame then true else is_set s.bitmap frame

-- `for (f = first; f < last; f++) set_used(f);`, as many rounds as there are frames.
unfoldable pub use_frames : ℕ → ℕ → Pmm → Pmm
unfolding set_used
use_frames first zero s = s
use_frames first (suc n) s = use_frames (first + 1) n (set_used first s)

unfoldable pub reserve_range : ℕ → ℕ → Pmm → Pmm
unfolding use_frames
reserve_range start end s =
    let first = frame_of start in
    let last = frame_of ((end + frame_size - 1) % word) in use_frames first (last - first) s

-- `set_free(f); total_frames++;` for `n` frames
unfoldable pub free_up : ℕ → ℕ → Pmm → Pmm
unfolding set_free
free_up first zero s = s
free_up first (suc n) s =
    let s' = set_free first s in
    free_up (first + 1) n (record s' { total_frames = s'.total_frames + 1 })

-- One entry of the memory map in `pmm_init`.
unfoldable pub add_entry : Entry → Pmm → Pmm
unfolding free_up
add_entry e s =
    let end = (e.base + e.length) % word in
    let first = frame_of ((e.base + frame_size - 1) % word) in
    let last = frame_of (if ltb max_memory end then max_memory else end) in
    if not (e.type == usable)
    then s
    else if leb max_memory e.base
    then s
    else free_up first (last - first) s

unfoldable pub add_entries : List Entry → Pmm → Pmm
unfolding add_entry
add_entries [] s = s
add_entries (e ∷ es) s = add_entries es (add_entry e s)

unfoldable pub pmm_init : List Entry → ℕ → Pmm
unfolding add_entries reserve_range
pmm_init entries kernel_end =
    let fresh : Pmm = record {
      bitmap = λ i. 255;
      total_frames = 0;
      free_frames = 0;
      search_hint = 0;
    } in
    let mapped = add_entries entries fresh in
    let low = reserve_range 0x80000 0xA0000 (reserve_range 0 0x8200 mapped) in
    reserve_range 0xB8000 (0xB8000 + 4000) (reserve_range 0x8200 kernel_end low)

-- The loop of `pmm_alloc_frame` with `rounds` rounds left, the next with `i`.
unfoldable pub alloc_from : ℕ → ℕ → Pmm → ℕ × Pmm
unfolding is_used set_used
alloc_from zero i s = (0, s)
alloc_from (suc rounds) i s =
    let f = (s.search_hint + i) % word % max_frames in
    let rest = alloc_from rounds (i + 1) s in
    if is_used f s then rest else (f * frame_size, record (set_used f s) { search_hint = f + 1 })

-- The address of the frame, or 0 where none is free.
unfoldable pub pmm_alloc_frame : Pmm → ℕ × Pmm
pmm_alloc_frame s = alloc_from max_frames 0 s

-- The loop of `pmm_alloc_contiguous` with `rounds` rounds left, the next at frame `f`, with a run
-- of `run_len` free frames behind it that starts at `run_start`.
unfoldable pub contiguous_from : ℕ → ℕ → ℕ → ℕ → ℕ → Pmm → ℕ × Pmm
unfolding is_used use_frames
contiguous_from zero f run_start run_len count s = (0, s)
contiguous_from (suc rounds) f run_start run_len count s =
    let start = if run_len == 0 then f else run_start in
    let longer = contiguous_from rounds (f + 1) start (run_len + 1) count s in
    let broken = contiguous_from rounds (f + 1) run_start 0 count s in
    if is_used f s
    then broken
    else if run_len + 1 == count
    then (start * frame_size, use_frames start count s)
    else longer

unfoldable pub pmm_alloc_contiguous : ℕ → Pmm → ℕ × Pmm
pmm_alloc_contiguous count s =
    let found = contiguous_from max_frames 0 0 0 count s in if count == 0 then (0, s) else found

unfoldable pub pmm_free_frame : ℕ → Pmm → Pmm
unfolding set_free
pmm_free_frame addr s = set_free (frame_of addr) s

unfoldable pub pmm_total_frames : Pmm → ℕ
pmm_total_frames s = s.total_frames

unfoldable pub pmm_free_frames : Pmm → ℕ
pmm_free_frames s = s.free_frames
