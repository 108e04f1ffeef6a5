-- ===== src/Vmm/Boot.antt =====
-- `vmm_init` of kernel/mm/vmm.c: the pages of 2 MB that the kernel starts with. The memory map is the
-- argument `entries`. An entry ends where `addr += PAGE_2MB_SIZE` does not wrap around.
use mini_kernel.Prelude.{
  ℕ, zero, suc, ◌+◌, ◌-◌, ◌*◌, ◌/◌, ◌%◌, ◌^◌, ◌≤◌, ◌<◌, ◌≡◌, ◌≢◌, refl, sym, subst, inl, inr, false,
  Option, some, List, [], ◌∷◌, if◌then◌else◌, if-false, if_elim, ◌==◌, arith,
}
use mini_kernel.Pmm.{Entry, word, usable}
use mini_kernel.Vmm.{
  Vmm, page_present, page_writable, page_size_2mb, page_2mb_size, pml4_index, pdpt_index, pd_index,
  has, frame_of, set_entry, get_or_create_table, map_2mb_identity,
}
use mini_kernel.Vmm.Walk.{Tree}
use mini_kernel.Vmm.Descend.{Opened-not_null, get_or_create_table_lem}
use mini_kernel.Vmm.Way.{Kept, Kept-refl, Kept-trans, Opened-Kept, Link, Link-kept}
use mini_kernel.Vmm.Huge.{
  MapsMore, KeepsOrMaps-trans, Kept-MapsMore, PdWay, mapped, mapped-MapsMore,
}

-- `for (addr = ...; addr < end; addr += PAGE_2MB_SIZE)`
unfoldable map_range : ℕ → ℕ → ℕ → Vmm → Vmm
unfolding map_2mb_identity
map_range pml4 addr zero s = s
map_range pml4 addr (suc rounds) s =
    map_range pml4 (addr + page_2mb_size) rounds (map_2mb_identity pml4 addr s)

unfoldable map_entry : ℕ → Entry → Vmm → Vmm
unfolding map_range
map_entry pml4 entry s =
    let start = entry.base / page_2mb_size * page_2mb_size in
    let end = (entry.base + entry.length) % word in
    if entry.type == usable
    then map_range pml4 start ((end - start + (page_2mb_size - 1)) / page_2mb_size) s
    else s

unfoldable map_entries : ℕ → List Entry → Vmm → Vmm
unfolding map_entry
map_entries pml4 [] s = s
map_entries pml4 (entry ∷ entries) s = map_entries pml4 entries (map_entry pml4 entry s)

pub vmm_init : ℕ → List Entry → Vmm → Vmm
unfolding map_entries
vmm_init cr3 entries s =
    let s' = record s { kernel_pml4 = frame_of cr3 } in map_entries s'.kernel_pml4 entries s'

MapsMore-trans :
    (root : ℕ) (s s1 s2 : Vmm) → MapsMore root s s1 → MapsMore root s1 s2 → MapsMore root s s2
MapsMore-trans root s s1 s2 (_, first) (tree, second) =
    (tree, λ addr. KeepsOrMaps-trans _ _ _ addr (first addr) (second addr))

-- One page of 2 MB.
module _ (root phys : ℕ) (aligned : phys % 2 ^ 21 ≡ 0) (below : phys < 2 ^ 48) where
  after_pd : ℕ × Vmm → Vmm
  after_pd (pd, s2) =
      let pdi = pd_index phys in
      if pd == 0 then s2 else if has page_present (s2.tables pd pdi) then s2 else record s2 {
        tables = set_entry s2.tables pd pdi (phys + (page_present + page_writable + page_size_2mb));
      }

  after_pdpt : ℕ × Vmm → Vmm
  after_pdpt (pdpt, s1) =
      if pdpt == 0 then s1 else after_pd (get_or_create_table pdpt (pdpt_index phys) s1)

  set_huge :
      (label : ℕ → Option (List ℕ)) (s s2 : Vmm) (pd : ℕ)
      → (k : Kept root label s s2)
      → PdWay root k.label' s2.tables (pml4_index phys) (pdpt_index phys) pd
      → pd ≢ 0
      → MapsMore root s (after_pd (pd, s2))
  unfolding after_pd
  set_huge label s s2 pd k way ne =
      let some_frame : (pd == 0) ≡ false = ground arith in
      let kept = Kept-MapsMore root label s s2 k in
      subst (MapsMore root s) (sym (if-false _ _ some_frame)) (
        if_elim (MapsMore root s) (has page_present (s2.tables pd (pd_index phys))) (λ e. kept)
          (λ absent.
            MapsMore-trans root s s2
              (mapped root k.label' s2 phys pd k.tree aligned below way absent) kept
              (mapped-MapsMore root k.label' s2 phys pd k.tree aligned below way absent)))

  second_step :
      (label : ℕ → Option (List ℕ)) (s s1 : Vmm) (pdpt : ℕ)
      → (k : Kept root label s s1) → k.label' pdpt ≡ some (pml4_index phys ∷ [])
      → Link 0 s1.tables root (pml4_index phys) pdpt
      → MapsMore root s (after_pd (get_or_create_table pdpt (pdpt_index phys) s1))
  unfolding after_pd Kept-trans Opened-Kept
  second_step label s s1 pdpt k at1 link1 =
      let a = pml4_index phys in
      let b = pdpt_index phys in
      elim (get_or_create_table_lem root k.label' s1 pdpt b (a ∷ []) k.tree at1 (omega arith)
        (omega arith)) [
          | inl stuck ↦
              subst (λ r. MapsMore root s (after_pd r)) (sym stuck)
                (Kept-MapsMore root label s s1 k)
          | inr (o, user) ↦
              let pd = (get_or_create_table pdpt b s1).0 in
              let s2 = (get_or_create_table pdpt b s1).1 in
              let k2 =
                Kept-trans root label s s1 s2 k
                  (Opened-Kept root k.label' s1 pdpt b (a ∷ []) pd s2 o) in
              let way : PdWay root o.label' s2.tables a b pd = record {
                pdpt = pdpt;
                pdpt_label = o.extends pdpt (a ∷ []) at1;
                pd_label = o.child;
                first =
                    Link-kept k.label' s1.tables s2.tables pdpt b (a ∷ []) root a [] pdpt
                      o.one_entry at1 k.tree.root_label (omega arith) (omega arith) link1;
                second = (o.entry, o.target, user);
              } in
              set_huge label s s2 pd k2 way
                (Opened-not_null root k.label' s1 pdpt b (a ∷ []) pd s2 o)
        ]

  map_2mb_identity_lem :
      (label : ℕ → Option (List ℕ)) (s : Vmm)
      → Tree root label s
      → MapsMore root s (map_2mb_identity root phys s)
  unfolding map_2mb_identity after_pd after_pdpt Opened-Kept
  map_2mb_identity_lem label s tree =
      let a = pml4_index phys in
      elim (get_or_create_table_lem root label s root a [] tree tree.root_label (omega arith)
        (omega arith)) [
          | inl stuck ↦
              subst (λ r. MapsMore root s (after_pdpt r)) (sym stuck)
                (Kept-MapsMore root label s s (Kept-refl root label s tree))
          | inr (o, user) ↦
              let pdpt = (get_or_create_table root a s).0 in
              let s1 = (get_or_create_table root a s).1 in
              let ne = Opened-not_null root label s root a [] pdpt s1 o in
              let some_frame : (pdpt == 0) ≡ false = ground arith in
              subst (MapsMore root s) (sym (if-false _ _ some_frame)) (
                second_step label s s1 pdpt (Opened-Kept root label s root a [] pdpt s1 o) o.child
                  (o.entry, o.target, user))
        ]

MapsMore-refl :
    (root : ℕ) (label : ℕ → Option (List ℕ)) (s : Vmm) → Tree root label s → MapsMore root s s
MapsMore-refl root label s tree = ((label, tree), λ addr. inl refl)

-- One step, then steps from the tree that it leaves.
then_steps :
    (root : ℕ) (s s1 s2 : Vmm)
    → MapsMore root s s1
    → ((label : ℕ → Option (List ℕ)) → Tree root label s1 → MapsMore root s1 s2)
    → MapsMore root s s2
then_steps root s s1 s2 ((label, tree), first) rest =
    MapsMore-trans root s s1 s2 ((label, tree), first) (rest label tree)

map_range_lem :
    (root addr rounds : ℕ) (label : ℕ → Option (List ℕ)) (s : Vmm)
    → addr % 2 ^ 21 ≡ 0
    → addr + rounds * 2 ^ 21 ≤ 2 ^ 48
    → Tree root label s
    → MapsMore root s (map_range root addr rounds s)
unfolding map_range
map_range_lem root addr zero label s aligned fits tree = MapsMore-refl root label s tree
map_range_lem root addr (suc rounds) label s aligned fits tree =
    then_steps root s (map_2mb_identity root addr s) _
      (map_2mb_identity_lem root addr aligned (omega arith) label s tree)
      (λ label' tree'.
        map_range_lem root (addr + page_2mb_size) rounds label' (map_2mb_identity root addr s)
          (omega arith) (omega arith) tree')

map_entry_lem :
    (root : ℕ) (entry : Entry) (label : ℕ → Option (List ℕ)) (s : Vmm)
    → entry.base + entry.length ≤ 2 ^ 48
    → Tree root label s
    → MapsMore root s (map_entry root entry s)
unfolding map_entry
map_entry_lem root entry label s fits tree =
    let start = entry.base / page_2mb_size * page_2mb_size in
    let rounds =
      ((entry.base + entry.length) % word - start + (page_2mb_size - 1)) / page_2mb_size in
    if_elim (MapsMore root s) (entry.type == usable)
      (λ e. map_range_lem root start rounds label s (omega arith) (omega arith) tree)
      (λ e. MapsMore-refl root label s tree)

-- The entries end below 2 ^ 48.
abbrev pub AllBelow : List Entry → Type 0
AllBelow [] = Unit {0}
AllBelow (entry ∷ entries) = (entry.base + entry.length ≤ 2 ^ 48) × AllBelow entries

map_entries_lem :
    (root : ℕ) (entries : List Entry) (label : ℕ → Option (List ℕ)) (s : Vmm)
    → AllBelow entries
    → Tree root label s
    → MapsMore root s (map_entries root entries s)
unfolding map_entries
map_entries_lem root [] label s fit tree = MapsMore-refl root label s tree
map_entries_lem root (entry ∷ entries) label s (fits, fit) tree =
    then_steps root s (map_entry root entry s) _ (map_entry_lem root entry label s fits tree)
      (λ label' tree'. map_entries_lem root entries label' (map_entry root entry s) fit tree')

-- For a memory map whose entries end below 2 ^ 48, and boot tables that are a tree, `vmm_init` leaves
-- a tree of tables in which every address has the page it had, or had none and is mapped to
-- itself, writable.
pub vmm_init_lem :
    (cr3 : ℕ) (entries : List Entry) (label : ℕ → Option (List ℕ)) (s : Vmm)
    → AllBelow entries
    → Tree (frame_of cr3) label s
    → MapsMore (frame_of cr3) s (vmm_init cr3 entries s)
unfolding vmm_init
vmm_init_lem cr3 entries label s fit tree =
    let s' = record s { kernel_pml4 = frame_of cr3 } in
    let tree' : Tree (frame_of cr3) label s' = record {
      root_label = tree.root_label;
      null_label = tree.null_label;
      frame_used = tree.frame_used;
      child_label = tree.child_label;
      huge_aligned = tree.huge_aligned;
      pmm_valid = tree.pmm_valid;
      zero_used = tree.zero_used;
    } in
    map_entries_lem (frame_of cr3) entries label s' fit tree'
