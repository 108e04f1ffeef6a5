-- ===== src/Pmm/Init.antt =====
-- What `pmm_init` of kernel/mm/pmm.c leaves behind.
use mini_kernel.Prelude.{
  ◌⊎◌, inl, inr, ℕ, zero, suc, ◌+◌, ◌-◌, ◌*◌, ◌/◌, ◌%◌, ◌≤◌, ◌<◌, ◌≡◌, true, not, ◌==◌, arith, ltb,
  leb, if◌then◌else◌, if_elim, List, [], ◌∷◌,
}
use mini_kernel.Pmm.{
  Pmm, Entry, word, is_used, reserve_range, free_up, add_entry, add_entries, pmm_init, max_frames,
  frame_of, frame_size, usable, max_memory,
}
use mini_kernel.Pmm.Frames.{
  IsValid, fresh_count, use_frames-IsValid, is_used-use_frames, set_free-IsValid,
}

fresh-IsValid :
    IsValid (record { bitmap = λ i. 255; total_frames = 0; free_frames = 0; search_hint = 0 })
fresh-IsValid = record {
  bytes = λ i. omega arith;
  counted = fresh_count max_frames;
  hint_in = omega arith;
}

total-IsValid : {s : Pmm} (n : ℕ) → IsValid s → IsValid (record s { total_frames = n })
total-IsValid n v = record { bytes = v.bytes; counted = v.counted; hint_in = v.hint_in }

free_up-IsValid : (n f : ℕ) {s : Pmm} → IsValid s → IsValid (free_up f n s)
unfolding free_up
free_up-IsValid zero f v = v
free_up-IsValid (suc n) f v = free_up-IsValid n (f + 1) (total-IsValid _ (set_free-IsValid f v))

add_entry-IsValid : (e : Entry) {s : Pmm} → IsValid s → IsValid (add_entry e s)
unfolding add_entry
add_entry-IsValid e {s} v =
    let end = (e.base + e.length) % word in
    let first = frame_of ((e.base + frame_size - 1) % word) in
    let last = frame_of (if ltb max_memory end then max_memory else end) in
    if_elim IsValid (not (e.type == usable)) (λ p. v)
      (λ p.
        if_elim IsValid (leb max_memory e.base) (λ q. v)
          (λ q. free_up-IsValid (last - first) first v))

add_entries-IsValid : (es : List Entry) {s : Pmm} → IsValid s → IsValid (add_entries es s)
unfolding add_entries
add_entries-IsValid [] v = v
add_entries-IsValid (e ∷ es) v = add_entries-IsValid es (add_entry-IsValid e v)

reserve_range-IsValid : (a b : ℕ) {s : Pmm} → IsValid s → IsValid (reserve_range a b s)
unfolding reserve_range
reserve_range-IsValid a b v =
    use_frames-IsValid (frame_of ((b + frame_size - 1) % word) - frame_of a) (frame_of a) v

-- A frame with a byte in the range is used, and no frame becomes free.
reserve_range_lem :
    (a b g : ℕ) {s : Pmm}
    → IsValid s
    → b + frame_size ≤ word
    → (a < (g + 1) * frame_size → g * frame_size < b → is_used g (reserve_range a b s) ≡ true)
      × (is_used g s ≡ true → is_used g (reserve_range a b s) ≡ true)
unfolding reserve_range frame_of
reserve_range_lem a b g {s} v small =
    let n = (b + frame_size - 1) % word / frame_size - a / frame_size in
    let e = is_used-use_frames n (a / frame_size) g v in
    (λ p q. ground (arith, e), λ u. ground (arith, e))

-- A byte of the boot code and its stack, of the memory that the BIOS keeps, of the kernel's image
-- or of the text screen.
abbrev pub Reserved : ℕ → ℕ → Type 0
Reserved kernel_end addr =
    (addr < 0x8200)
    ⊎ (0x80000 ≤ addr) × (addr < 0xA0000)
    ⊎ (0x8200 ≤ addr) × (addr < kernel_end)
    ⊎ (0xB8000 ≤ addr) × (addr < 0xB8000 + 4000)

-- `pmm_init`, for any memory map: the state is valid, and every frame that holds a reserved byte
-- is used, whatever the map says of it.
pub init_lem :
    (entries : List Entry) (kernel_end g : ℕ)
    → kernel_end + frame_size ≤ word
    → let s = pmm_init entries kernel_end in
      IsValid s
      × ((addr : ℕ) → addr / frame_size ≡ g → Reserved kernel_end addr → is_used g s ≡ true)
unfolding pmm_init
init_lem entries kernel_end g small =
    let v0 = add_entries-IsValid entries fresh-IsValid in
    let v1 = reserve_range-IsValid 0 0x8200 v0 in
    let v2 = reserve_range-IsValid 0x80000 0xA0000 v1 in
    let v3 = reserve_range-IsValid 0x8200 kernel_end v2 in
    let (a1, b1) = reserve_range_lem 0 0x8200 g v0 (omega arith) in
    let (a2, b2) = reserve_range_lem 0x80000 0xA0000 g v1 (omega arith) in
    let (a3, b3) = reserve_range_lem 0x8200 kernel_end g v2 small in
    let (a4, b4) = reserve_range_lem 0xB8000 (0xB8000 + 4000) g v3 (omega arith) in
    (
      reserve_range-IsValid 0xB8000 (0xB8000 + 4000) v3,
      λ addr e r. elim r [
        | inl p ↦ b4 (b3 (b2 (a1 (omega arith) (omega arith))))
        | inr (inl (p, q)) ↦ b4 (b3 (a2 (omega arith) (omega arith)))
        | inr (inr (inl (p, q))) ↦ b4 (a3 (omega arith) (omega arith))
        | inr (inr (inr (p, q))) ↦ a4 (omega arith) (omega arith)
      ],
    )
