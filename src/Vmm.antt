-- ===== src/Vmm.antt =====
-- The page tables of kernel/mm/vmm.c over the frame allocator. A table is named by its frame, as
-- memory is mapped to itself; `tables` holds the 512 words of each frame. A flag is one binary
-- digit of an entry. Flushing the processor's cached translations is left out.
pub mod Walk
pub mod Steps
pub mod Install
pub mod Grow
pub mod Descend
pub mod Way
pub mod Mapping
pub mod Calls
pub mod Access
pub mod Unlinked
pub mod Spaces
pub mod Destroy
pub mod Stacks
pub mod Huge
pub mod Boot
mod Tests
use mini_kernel.Prelude.{
  ℕ, zero, suc, ◌+◌, ◌-◌, ◌*◌, ◌/◌, ◌%◌, ◌^◌, ℤ, pos, minus_one, Bool, true, false, not, Option,
  none, some, List, [], ◌∷◌, if◌then◌else◌, ltb, leb, ◌==◌,
}
use mini_kernel.Pmm.{Pmm, Entry, word, usable, pmm_alloc_frame, pmm_free_frame}

abbrev pub page_present : ℕ
page_present = 1

abbrev pub page_writable : ℕ
page_writable = 2

abbrev pub page_user : ℕ
page_user = 4

abbrev pub page_size_2mb : ℕ
page_size_2mb = 128

abbrev pub entries_per_table : ℕ
entries_per_table = 512

abbrev pub page_4kb_size : ℕ
page_4kb_size = 4096

abbrev pub page_2mb_size : ℕ
page_2mb_size = 2 ^ 21

abbrev pub pml4_index : ℕ → ℕ
pml4_index addr = addr / 2 ^ 39 % 512

abbrev pub pdpt_index : ℕ → ℕ
pdpt_index addr = addr / 2 ^ 30 % 512

abbrev pub pd_index : ℕ → ℕ
pd_index addr = addr / 2 ^ 21 % 512

abbrev pub pt_index : ℕ → ℕ
pt_index addr = addr / 2 ^ 12 % 512

-- The statics of vmm.c, and what it changes.
pub record Vmm : Type 0 where
  pub tables : ℕ → ℕ → ℕ
  pub pmm : Pmm
  pub kernel_pml4 : ℕ

-- `e & flag`, as a test, for a flag of one bit
abbrev pub has : ℕ → ℕ → Bool
has flag e = e / flag % 2 == 1

-- `e | flag`
abbrev pub with_flag : ℕ → ℕ → ℕ
with_flag flag e = if has flag e then e else e + flag

-- `e & PAGE_ADDR_MASK`, as a frame
abbrev pub frame_of : ℕ → ℕ
frame_of e = e / 4096 % 2 ^ 40

abbrev pub set_entry : (ℕ → ℕ → ℕ) → ℕ → ℕ → ℕ → ℕ → ℕ → ℕ
set_entry tables f i v g j = if g == f then if j == i then v else tables g j else tables g j

-- All entries of the table in a frame.
abbrev pub fill_table : (ℕ → ℕ → ℕ) → ℕ → (ℕ → ℕ) → ℕ → ℕ → ℕ
fill_table tables f row g j =
    if g == f then if ltb j entries_per_table then row j else tables g j else tables g j

-- `pmm_alloc_frame` and the loop that fills the new table: its frame, or 0 where none is free.
unfoldable pub new_table : (ℕ → ℕ) → Vmm → ℕ × Vmm
unfolding pmm_alloc_frame
new_table row s =
    let (addr, pmm) = pmm_alloc_frame s.pmm in
    let frame = addr / page_4kb_size in
    if addr == 0
    then (0, record s { pmm = pmm })
    else (frame, record s { tables = fill_table s.tables frame row; pmm = pmm })

-- `pmm_alloc_zeroed_frame` of pmm.c
unfoldable pub pmm_alloc_zeroed_frame : Vmm → ℕ × Vmm
unfolding new_table
pmm_alloc_zeroed_frame s = new_table (λ i. 0) s

-- The end of `get_or_create_table`: the entry's table, open to users.
unfoldable pub open_entry : ℕ → ℕ → Vmm → ℕ × Vmm
open_entry table index s =
    let e = with_flag page_user (s.tables table index) in
    (frame_of e, record s { tables = set_entry s.tables table index e })

-- The frame of the table, where 0 is the null pointer.
unfoldable pub get_or_create_table : ℕ → ℕ → Vmm → ℕ × Vmm
unfolding new_table open_entry
get_or_create_table table index s =
    let (frame, s1) = new_table (λ i. 0) s in
    let linked = record s1 {
      tables =
          set_entry s1.tables table index (frame * page_4kb_size + page_present + page_writable);
    } in
    if has page_present (s.tables table index)
    then open_entry table index s
    else if frame == 0
    then (0, s1)
    else open_entry table index linked

unfoldable pub map_2mb_identity : ℕ → ℕ → Vmm → Vmm
unfolding get_or_create_table
map_2mb_identity pml4 phys_addr s =
    let (pdpt, s1) = get_or_create_table pml4 (pml4_index phys_addr) s in
    let (pd, s2) = get_or_create_table pdpt (pdpt_index phys_addr) s1 in
    let pdi = pd_index phys_addr in
    let flags = page_present + page_writable + page_size_2mb in
    if pdpt == 0
    then s1
    else if pd == 0
    then s2
    else if has page_present (s2.tables pd pdi)
    then s2
    else record s2 { tables = set_entry s2.tables pd pdi (phys_addr + flags) }

-- The table that holds the entry, where `get_pd_entry` returns one.
unfoldable pub get_pd_entry : (ℕ → ℕ → ℕ) → ℕ → ℕ → Option ℕ
get_pd_entry tables pml4 virt_addr =
    let l4 = tables pml4 (pml4_index virt_addr) in
    let l3 = tables (frame_of l4) (pdpt_index virt_addr) in
    if has page_present l4 then if has page_present l3 then some (frame_of l3) else none else none

-- A new table of 4 KB pages, linked from the page directory; its frame, or none.
unfoldable pub install : ℕ → ℕ → (ℕ → ℕ) → Vmm → Option ℕ × Vmm
unfolding new_table
install pd pdi row s =
    let (frame, s1) = new_table row s in
    let e = frame * page_4kb_size + page_present + page_writable + page_user in
    if frame == 0
    then (none, s1)
    else (some frame, record s1 { tables = set_entry s1.tables pd pdi e })

-- `get_or_split_pt_entry` behind the two upper tables: the table that holds the entry, or none.
unfoldable pub pt_of : ℕ → ℕ → Vmm → Option ℕ × Vmm
unfolding install
pt_of pd pdi s =
    let pd_entry = s.tables pd pdi in
    let split : ℕ → ℕ = λ i. (frame_of pd_entry + i) * page_4kb_size + pd_entry % 4 in
    if has page_present pd_entry
    then if has page_size_2mb pd_entry then install pd pdi split s else (
      some (frame_of pd_entry),
      record s { tables = set_entry s.tables pd pdi (with_flag page_user pd_entry) },
    )
    else install pd pdi (λ i. 0) s

unfoldable pub get_or_split_pt_entry : ℕ → ℕ → Vmm → Option ℕ × Vmm
unfolding get_or_create_table pt_of
get_or_split_pt_entry pml4 virt_addr s =
    let (pdpt, s1) = get_or_create_table pml4 (pml4_index virt_addr) s in
    let (pd, s2) = get_or_create_table pdpt (pdpt_index virt_addr) s1 in
    if pdpt == 0
    then (none, s1)
    else if pd == 0
    then (none, s2)
    else pt_of pd (pd_index virt_addr) s2

-- `*pte = value` where there is an entry, with the result 0, and -1 otherwise.
unfoldable pub set_pte : ℕ → ℕ → Option ℕ × Vmm → ℤ × Vmm
set_pte virt_addr value (none, s) = (minus_one, s)
set_pte virt_addr value (some pt, s) =
    (pos 0, record s { tables = set_entry s.tables pt (pt_index virt_addr) value })

-- `(phys_addr & PAGE_ADDR_MASK) | (flags & 0xFFF) | PAGE_PRESENT`
abbrev pub pte_of : ℕ → ℕ → ℕ
pte_of phys_addr flags = frame_of phys_addr * page_4kb_size + with_flag page_present (flags % 4096)

unfoldable pub vmm_map_page_in : ℕ → ℕ → ℕ → ℕ → Vmm → ℤ × Vmm
unfolding get_or_split_pt_entry set_pte
vmm_map_page_in space virt_addr phys_addr flags s =
    set_pte virt_addr (pte_of phys_addr flags) (get_or_split_pt_entry (frame_of space) virt_addr s)

unfoldable pub vmm_unmap_page_in : ℕ → ℕ → Vmm → ℤ × Vmm
unfolding get_pd_entry get_or_split_pt_entry set_pte
vmm_unmap_page_in space virt_addr s = elim (get_pd_entry s.tables (frame_of space) virt_addr) [
  | none ↦ (pos 0, s)
  | some pd ↦
      let unmapped = set_pte virt_addr 0 (get_or_split_pt_entry (frame_of space) virt_addr s) in
      if has page_present (s.tables pd (pd_index virt_addr)) then unmapped else (pos 0, s)
]

unfoldable pub vmm_is_mapped_in : (ℕ → ℕ → ℕ) → ℕ → ℕ → Bool
unfolding get_pd_entry
vmm_is_mapped_in tables space virt_addr = elim (get_pd_entry tables (frame_of space) virt_addr) [
  | none ↦ false
  | some pd ↦
      let pd_entry = tables pd (pd_index virt_addr) in
      if has page_present pd_entry
      then if has page_size_2mb pd_entry
        then true
        else has page_present (tables (frame_of pd_entry) (pt_index virt_addr))
      else false
]

-- Present and open to users.
abbrev pub user_entry : ℕ → Bool
user_entry e = if has page_present e then has page_user e else false

unfoldable pub vmm_is_user_accessible_in : (ℕ → ℕ → ℕ) → ℕ → ℕ → Bool
vmm_is_user_accessible_in tables space virt_addr =
    let l4 = tables (frame_of space) (pml4_index virt_addr) in
    let l3 = tables (frame_of l4) (pdpt_index virt_addr) in
    let l2 = tables (frame_of l3) (pd_index virt_addr) in
    let l1 = tables (frame_of l2) (pt_index virt_addr) in
    if user_entry l4
    then if user_entry l3
      then if user_entry l2 then if has page_size_2mb l2 then true else user_entry l1 else false
      else false
    else false

unfoldable pub vmm_guard_page_in : ℕ → ℕ → Vmm → Vmm
unfolding vmm_unmap_page_in
vmm_guard_page_in space virt_addr s = (vmm_unmap_page_in space virt_addr s).1

unfoldable pub vmm_mark_user_in : ℕ → ℕ → Vmm → Vmm
unfolding vmm_map_page_in
vmm_mark_user_in space virt_addr s =
    (vmm_map_page_in space virt_addr virt_addr (page_writable + page_user) s).1

-- `l4 | (l3 << 12) | (l2 << 24) | (l1 << 36)` of the lower 12 bits of the entries that are there
unfoldable pub vmm_debug_walk_flags_in : (ℕ → ℕ → ℕ) → ℕ → ℕ → ℕ
vmm_debug_walk_flags_in tables space virt_addr =
    let e4 = tables (frame_of space) (pml4_index virt_addr) in
    let e3 = tables (frame_of e4) (pdpt_index virt_addr) in
    let e2 = tables (frame_of e3) (pd_index virt_addr) in
    let e1 = tables (frame_of e2) (pt_index virt_addr) in
    let upper = e4 % 4096 + e3 % 4096 * 2 ^ 12 in
    let three = upper + e2 % 4096 * 2 ^ 24 in
    if has page_present e4
    then if has page_present e3
      then if has page_present e2
        then if has page_size_2mb e2 then three else three + e1 % 4096 * 2 ^ 36
        else three
      else upper
    else e4 % 4096

-- `vmm_create_address_space`: the address of the new table, or 0.
unfoldable pub vmm_create_address_space : Vmm → ℕ × Vmm
unfolding new_table
vmm_create_address_space s =
    let (frame, s') = new_table (s.tables s.kernel_pml4) s in (frame * page_4kb_size, s')
