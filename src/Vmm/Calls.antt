-- ===== src/Vmm/Calls.antt =====
-- The calls of kernel/mm/vmm.c on one page of an address space, against the pages it has.
use mini_kernel.Prelude.{
  ℕ, ◌/◌, ◌%◌, ◌<◌, ◌≡◌, refl, ap, ap₂, sym, subst, ◌∙◌, ◌⊎◌, inl, inr, ℤ, pos, minus_one, Bool,
  true, false, Option, none, some, List, [], ◌∷◌, if◌then◌else◌, if-true, if-false, if_elim, ◌==◌,
  ==_iff, arith, Bool-cases,
}
use mini_kernel.Vmm.{
  Vmm, page_present, page_writable, page_size_2mb, pml4_index, pdpt_index, pd_index, pt_index, has,
  with_flag, frame_of, get_pd_entry, get_or_split_pt_entry, set_pte, pte_of, vmm_map_page_in,
  vmm_unmap_page_in, vmm_is_mapped_in,
}
use mini_kernel.Vmm.Walk.{Page, walk, indexes, translate, Tree}
use mini_kernel.Vmm.Way.{Reached, get_or_split_pt_entry_lem}
use mini_kernel.Vmm.Mapping.{
  page_number, set_page, page_in, small_indexes, same_indexes, written_pages, written-Tree,
}

-- The tables are a tree; with the result 0 the page is set, with -1 no page is changed.
abbrev pub SetsPage : ℕ → Vmm → ℕ → Option Page → ℤ × Vmm → Type 0
SetsPage space s virt page (r, s') =
    ((label : ℕ → Option (List ℕ)) × Tree (frame_of space) label s')
    × (((r ≡ minus_one)
          × ((addr : ℕ) → translate s'.tables space addr ≡ translate s.tables space addr))
        ⊎ ((r ≡ pos 0)
            × ((addr : ℕ)
                → translate s'.tables space addr
                  ≡ set_page (translate s.tables space) virt page addr)))

set_pte_lem :
    (space : ℕ) (label : ℕ → Option (List ℕ)) (s : Vmm) (virt v : ℕ) (r : Option ℕ × Vmm)
    → Reached (frame_of space) label s (pml4_index virt) (pdpt_index virt) (pd_index virt) r
    → SetsPage space s virt (page_in v) (set_pte virt v r)
unfolding set_pte
set_pte_lem space label s virt v (none, s') k =
    ((k.label', k.tree), inl (refl, λ addr. k.same_walks (indexes addr) (small_indexes addr) refl))
set_pte_lem space label s virt v (some pt, s') (k, way) = (
  (k.label', written-Tree (frame_of space) k.label' s' virt v pt k.tree way),
  inr (
    refl,
    λ addr.
        written_pages (frame_of space) k.label' s' virt v pt k.tree way addr
        ∙ ap (λ x. if page_number addr == page_number virt then page_in v else x)
            (k.same_walks (indexes addr) (small_indexes addr) refl),
  ),
)

-- The lower digits of the entry that mapping writes.
pub present_flags :
    (flags : ℕ)
    → let w = with_flag page_present (flags % 4096) in
      (w < 4096) × (w % 2 ≡ 1) × (w / 2 % 2 ≡ flags / 2 % 2) × (w / 4 % 2 ≡ flags / 4 % 2)
present_flags flags =
    if_elim
      (λ w. (w < 4096) × (w % 2 ≡ 1) × (w / 2 % 2 ≡ flags / 2 % 2) × (w / 4 % 2 ≡ flags / 4 % 2))
      (has page_present (flags % 4096))
      (λ h.
        let one : flags % 4096 / 1 % 2 ≡ 1 = ground arith in
        (omega arith, omega arith, omega arith, omega arith))
      (λ h.
        let clear : flags % 4096 / 1 % 2 ≡ 0 = ground arith in
        (omega arith, omega arith, omega arith, omega arith))

pte_of_page :
    (phys flags : ℕ)
    → page_in (pte_of phys flags)
      ≡ some (record { frame = frame_of phys; writable = has page_writable flags })
pte_of_page phys flags =
    let v = pte_of phys flags in
    let (below, odd, bit, third) = present_flags flags in
    let one : v / 1 % 2 ≡ 1 = omega arith in
    let second : v / 2 % 2 ≡ flags / 2 % 2 = omega arith in
    let present : has page_present v ≡ true = ap (λ (x : ℕ). x == 1) one in
    let same_frame : frame_of v ≡ frame_of phys = omega arith in
    let writable : has page_writable v ≡ has page_writable flags = ap (λ (x : ℕ). x == 1) second in
    if-true _ _ present
    ∙ ap₂ (λ x y. let r : Page = record { frame = x; writable = y } in some r) same_frame writable

-- Mapping a page, in an address space whose tables are a tree, either returns -1 and changes the
-- page of no address, or returns 0, and then the addresses of the page have the frame and the
-- writable flag that were asked for, and every other address has the page it had. The tables
-- are a tree again.
pub vmm_map_page_in_lem :
    (space virt phys flags : ℕ) (label : ℕ → Option (List ℕ)) (s : Vmm)
    → Tree (frame_of space) label s
    → SetsPage space s virt
        (some (record { frame = frame_of phys; writable = has page_writable flags }))
        (vmm_map_page_in space virt phys flags s)
unfolding vmm_map_page_in
vmm_map_page_in_lem space virt phys flags label s tree =
    let v = pte_of phys flags in
    let r = get_or_split_pt_entry (frame_of space) virt s in
    subst (λ page. SetsPage space s virt page (set_pte virt v r)) (pte_of_page phys flags)
      (set_pte_lem space label s virt v r
        (get_or_split_pt_entry_lem (frame_of space) label s virt tree))

-- The way to the page directory, as `get_pd_entry` takes it.
pd_cases :
    (t : ℕ → ℕ → ℕ) (root virt : ℕ)
    → ((get_pd_entry t root virt ≡ none) × (walk t root (indexes virt) ≡ none))
      ⊎ ((pd : ℕ) × (get_pd_entry t root virt ≡ some pd)
          × (walk t root (indexes virt) ≡ walk t pd (pd_index virt ∷ pt_index virt ∷ [])))
unfolding get_pd_entry walk
pd_cases t root virt =
    let l4 = t root (pml4_index virt) in
    let l3 = t (frame_of l4) (pdpt_index virt) in
    elim (Bool-cases (has page_present l4)) [
      | inr absent ↦ inl (if-false _ _ absent, if-false _ _ absent)
      | inl present ↦ elim (Bool-cases (has page_present l3)) [
        | inr absent ↦
            inl
              (if-true _ _ present ∙ if-false _ _ absent, if-true _ _ present ∙ if-false _ _ absent)
        | inl present' ↦ inr (
          frame_of l3,
          if-true _ _ present ∙ if-true _ _ present',
          if-true _ _ present ∙ if-true _ _ present',
        )
      ]
    ]

-- Whether there is a page.
abbrev pub is_page : Option Page → Bool
is_page none = false
is_page (some page) = true

is_page-if : (b : Bool) (page : Page) → is_page (if b then some page else none) ≡ b
is_page-if true page = refl
is_page-if false page = refl

-- An entry of a page directory and what is behind it.
entry_is_page :
    (t : ℕ → ℕ → ℕ) (pd c d : ℕ)
    → is_page (walk t pd (c ∷ d ∷ [])) ≡ (
        if has page_present (t pd c)
        then if has page_size_2mb (t pd c) then true else has page_present (t (frame_of (t pd c)) d)
        else false)
unfolding walk
entry_is_page t pd c d = elim (Bool-cases (has page_present (t pd c))) [
  | inr absent ↦ ap is_page (if-false _ _ absent) ∙ sym (if-false _ _ absent)
  | inl present ↦ elim (Bool-cases (has page_size_2mb (t pd c))) [
    | inl large ↦
        ap is_page (if-true _ _ present ∙ if-true _ _ large)
        ∙ sym (if-true _ _ present ∙ if-true _ _ large)
    | inr table ↦
        ap is_page (if-true _ _ present ∙ if-false _ _ table)
        ∙ is_page-if (has page_present (t (frame_of (t pd c)) d)) _
        ∙ sym (if-true _ _ present ∙ if-false _ _ table)
  ]
]

absent_walk :
    (t : ℕ → ℕ → ℕ) (pd c d : ℕ) → has page_present (t pd c) ≡ false → walk t pd (c ∷ d ∷ []) ≡ none
unfolding walk
absent_walk t pd c d e = if-false _ _ e

mapped_of : (ℕ → ℕ → ℕ) → ℕ → Option ℕ → Bool
mapped_of t virt none = false
mapped_of t virt (some pd) =
    if has page_present (t pd (pd_index virt))
    then if has page_size_2mb (t pd (pd_index virt))
      then true
      else has page_present (t (frame_of (t pd (pd_index virt))) (pt_index virt))
    else false

-- `vmm_is_mapped_in` says of an address whether the reference's walk of the tables ends at a page.
pub vmm_is_mapped_in_lem :
    (tables : ℕ → ℕ → ℕ) (space virt : ℕ)
    → vmm_is_mapped_in tables space virt ≡ is_page (translate tables space virt)
unfolding vmm_is_mapped_in mapped_of
vmm_is_mapped_in_lem tables space virt = elim (pd_cases tables (frame_of space) virt) [
  | inl (missing, no_page) ↦ ap (mapped_of tables virt) missing ∙ sym (ap is_page no_page)
  | inr (pd, found, rest) ↦
      ap (mapped_of tables virt) found
      ∙ sym (entry_is_page tables pd (pd_index virt) (pt_index virt))
      ∙ sym (ap is_page rest)
]

-- Nothing to unmap.
unmapped :
    (space virt : ℕ) (label : ℕ → Option (List ℕ)) (s : Vmm)
    → Tree (frame_of space) label s
    → translate s.tables space virt ≡ none
    → SetsPage space s virt none (pos 0, s)
unmapped space virt label s tree no_page = (
  (label, tree),
  inr (
    refl,
    λ addr.
        if_elim (λ x. translate s.tables space addr ≡ x) (page_number addr == page_number virt)
          (λ e.
            ap (walk s.tables (frame_of space)) (same_indexes addr virt ((==_iff _ _).0 e))
            ∙ no_page)
          (λ ne. refl),
  ),
)

unmap_of : ℕ → ℕ → Vmm → Option ℕ → ℤ × Vmm
unmap_of space virt s none = (pos 0, s)
unmap_of space virt s (some pd) =
    if has page_present (s.tables pd (pd_index virt))
    then set_pte virt 0 (get_or_split_pt_entry (frame_of space) virt s)
    else (pos 0, s)

-- Unmapping a page, in an address space whose tables are a tree, either returns -1 and changes the
-- page of no address, or returns 0, and then the addresses of the page have none, and every other
-- address has the page it had. The tables are a tree again.
pub vmm_unmap_page_in_lem :
    (space virt : ℕ) (label : ℕ → Option (List ℕ)) (s : Vmm)
    → Tree (frame_of space) label s
    → SetsPage space s virt none (vmm_unmap_page_in space virt s)
unfolding vmm_unmap_page_in unmap_of
vmm_unmap_page_in_lem space virt label s tree = elim (pd_cases s.tables (frame_of space) virt) [
  | inl (missing, no_page) ↦
      subst (SetsPage space s virt none) (sym (ap (unmap_of space virt s) missing))
        (unmapped space virt label s tree no_page)
  | inr (pd, found, rest) ↦
      subst (SetsPage space s virt none) (sym (ap (unmap_of space virt s) found)) (
        if_elim (SetsPage space s virt none) (has page_present (s.tables pd (pd_index virt)))
          (λ e.
            set_pte_lem space label s virt 0 (get_or_split_pt_entry (frame_of space) virt s)
              (get_or_split_pt_entry_lem (frame_of space) label s virt tree))
          (λ e.
            unmapped space virt label s tree
              (rest ∙ absent_walk s.tables pd (pd_index virt) (pt_index virt) e)))
]
