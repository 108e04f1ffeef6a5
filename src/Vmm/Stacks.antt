-- ===== src/Vmm/Stacks.antt =====
-- The stacks of kernel/mm/vmm_growable_stack.c that grow on page faults. `stack_regions` is a list,
-- the newest region first; whether `kmalloc` has room is the argument `room`, and the address space
-- that the processor is in is `space`.
use mini_kernel.Prelude.{
  ℕ, zero, ◌+◌, ◌-◌, ◌*◌, ◌/◌, ◌%◌, ◌≤◌, ◌<◌, ◌≡◌, ◌≢◌, refl, ap, ap₂, sym, subst, ◌∙◌, ◌⊎◌, inl,
  inr, ℤ, pos, Bool, true, false, Option, none, some, List, [], ◌∷◌, if◌then◌else◌, if-false,
  if_elim, ltb, leb, ◌==◌, arith, Option-cases,
}
use mini_kernel.Pmm.{is_used, word, pmm_free_frame}
use mini_kernel.Vmm.{
  Vmm, page_writable, page_user, page_4kb_size, frame_of, pmm_alloc_zeroed_frame, vmm_map_page_in,
  vmm_is_mapped_in,
}
use mini_kernel.Vmm.Walk.{Page, indexes, translate, Tree, some_inj}
use mini_kernel.Vmm.Install.{new_table-Fresh}
use mini_kernel.Vmm.Mapping.{page_number, set_page, small_indexes}
use mini_kernel.Vmm.Calls.{is_page, vmm_map_page_in_lem, vmm_is_mapped_in_lem}
use mini_kernel.Vmm.Unlinked.{tree_walks, unlinked-Tree}

-- `stack_region_t`, without the link
pub record Region : Type 0 where
  pub space : ℕ
  pub stack_top : ℕ
  pub stack_limit : ℕ

-- `stack_top - max_size` in 64 bits, for a size that fits in them
unfoldable pub vmm_register_growable_stack : Bool → ℕ → ℕ → ℕ → List Region → List Region
vmm_register_growable_stack room space stack_top max_size regions =
    if room
    then record {
      space = space;
      stack_top = stack_top;
      stack_limit = (stack_top + (word - max_size)) % word;
    }
      ∷ regions
    else regions

unfoldable pub vmm_unregister_growable_stack : ℕ → List Region → List Region
vmm_unregister_growable_stack space [] = []
vmm_unregister_growable_stack space (region ∷ regions) =
    let rest = vmm_unregister_growable_stack space regions in
    if region.space == space then regions else region ∷ rest

unfoldable pub find_region : ℕ → ℕ → List Region → Option Region
find_region space page [] = none
find_region space page (region ∷ regions) =
    let rest = find_region space page regions in
    if region.space == space
    then if ltb page region.stack_limit
      then rest
      else if leb region.stack_top page
      then rest
      else some region
    else rest

-- A new page for a region, at the frame that was allocated.
unfoldable pub grow : ℕ → ℕ → ℕ × Vmm → ℕ × Vmm
unfolding vmm_map_page_in
grow space page (frame, s1) =
    let addr = frame * page_4kb_size in
    let mapped = vmm_map_page_in space page addr (page_writable + page_user) s1 in
    if frame == 0 then (0, s1) else elim mapped.0 [
      | pos zero ↦ (1, mapped.1)
      | _ ↦ (0, record (mapped.1) { pmm = pmm_free_frame addr (mapped.1).pmm })
    ]

unfoldable pub vmm_handle_page_fault : List Region → ℕ → ℕ → Vmm → ℕ × Vmm
unfolding find_region grow pmm_alloc_zeroed_frame
vmm_handle_page_fault regions space fault_addr s =
    let page = fault_addr / page_4kb_size * page_4kb_size in
    elim (find_region space page regions) [
      | none ↦ (0, s)
      | some region ↦
          if vmm_is_mapped_in s.tables space page
          then (0, s)
          else grow space page (pmm_alloc_zeroed_frame s)
    ]

-- What `find_region` finds is a region of the space that the page lies in.
find_region_lem :
    (space page : ℕ) (regions : List Region) (region : Region)
    → find_region space page regions ≡ some region
    → (region.space ≡ space) × (region.stack_limit ≤ page) × (page < region.stack_top)
unfolding find_region
find_region_lem space page [] region e = absurd cc
find_region_lem space page (r ∷ regions) region e =
    let rest = find_region_lem space page regions region in
    let In : Type 0 =
      (region.space ≡ space) × (region.stack_limit ≤ page) × (page < region.stack_top) in
    if_elim (λ x. x ≡ some region → In) (r.space == space)
      (λ own.
        if_elim (λ x. x ≡ some region → In) (ltb page r.stack_limit) (λ below. rest)
          (λ not_below.
            if_elim (λ x. x ≡ some region → In) (leb r.stack_top page) (λ above. rest)
              (λ not_above e'.
                subst
                  (λ (x : Region).
                    (x.space ≡ space) × (x.stack_limit ≤ page) × (page < x.stack_top))
                  (some_inj r region e') (ground arith, ground arith, ground arith))))
      (λ foreign. rest) e

-- Unregistering a stack of one address space leaves the regions of every other: a page there is
-- found in the region that it was found in.
pub unregister-find_region :
    (space other page : ℕ) (regions : List Region)
    → other ≢ space
    → find_region other page (vmm_unregister_growable_stack space regions)
      ≡ find_region other page regions
unfolding vmm_unregister_growable_stack find_region
unregister-find_region space other page [] ne = refl
unregister-find_region space other page (r ∷ regions) ne =
    if_elim (λ x. find_region other page x ≡ find_region other page (r ∷ regions))
      (r.space == space)
      (λ own. let foreign : (r.space == other) ≡ false = ground arith in sym (if-false _ _ foreign))
      (λ kept.
        ap
          (λ x.
            if r.space == other
            then if ltb page r.stack_limit then x else if leb r.stack_top page then x else some r
            else x)
          (unregister-find_region space other page regions ne))

-- A page of a stack that was not there, in a frame that was free.
abbrev pub Grown : ℕ → ℕ → Vmm → Vmm → Type 0
Grown space page s s' =
    (g : ℕ) × (is_used g s.pmm ≡ false)
    × ((addr : ℕ)
        → translate s'.tables space addr
          ≡ set_page (translate s.tables space) page (some (record { frame = g; writable = true }))
              addr)

abbrev pub SamePages : ℕ → Vmm → Vmm → Type 0
SamePages space s s' = (addr : ℕ) → translate s'.tables space addr ≡ translate s.tables space addr

abbrev GrowsOr : ℕ → ℕ → Vmm → ℕ × Vmm → Type 0
GrowsOr space page s (r, s') = ((r ≡ 0) × SamePages space s s') ⊎ ((r ≡ 1) × Grown space page s s')

abbrev grow_of : ℕ → ℤ → Vmm → ℕ × Vmm
grow_of addr z s2 = elim z [
  | pos zero ↦ (1, s2)
  | _ ↦ (0, record s2 { pmm = pmm_free_frame addr s2.pmm })
]

-- The page that growing sets, at an address.
abbrev set_page_value : ℕ → ℕ → ℕ → Option Page → Option Page
set_page_value addr page g old =
    if page_number addr == page_number page
    then some (record { frame = g; writable = true })
    else old

grow_lem :
    (space page : ℕ) (label : ℕ → Option (List ℕ)) (s : Vmm)
    → Tree (frame_of space) label s
    → GrowsOr space page s (grow space page (pmm_alloc_zeroed_frame s))
unfolding grow pmm_alloc_zeroed_frame
grow_lem space page label s tree = elim (new_table-Fresh (λ i. 0) s tree.pmm_valid tree.zero_used) [
  | inl none_free ↦
      subst (λ r. GrowsOr space page s (grow space page r)) (sym none_free)
        (inl (refl, λ addr. refl))
  | inr (g, s1, got, fresh) ↦
      let root = frame_of space in
      let addr = g * page_4kb_size in
      let ne = fresh.not_null in
      let lt = fresh.below in
      let some_frame : (g == 0) ≡ false = ground arith in
      let number : frame_of addr ≡ g = omega arith in
      let flags = page_writable + page_user in
      let mapped = vmm_map_page_in space page addr flags s1 in
      let same_before = λ (a : ℕ).
        tree_walks root label s tree (λ i. 0) g s1 fresh (indexes a) (small_indexes a) refl in
      let (grown_tree, result) =
        vmm_map_page_in_lem space page addr flags label s1
          (unlinked-Tree root label s tree (λ i. 0) g s1 fresh) in
      subst (λ r. GrowsOr space page s (grow space page r)) (sym got)
        (subst (GrowsOr space page s) (sym (if-false _ _ some_frame)) (elim result [
          | inl (failed, same) ↦
              subst (λ z. GrowsOr space page s (grow_of addr z mapped.1)) (sym failed)
                (inl (refl, λ a. same a ∙ same_before a))
          | inr (done, set) ↦
              subst (λ z. GrowsOr space page s (grow_of addr z mapped.1)) (sym done)
                (inr (
                  refl,
                  (
                    g,
                    fresh.was_free,
                    λ a. set a ∙ ap₂ (λ k x. set_page_value a page k x) number (same_before a),
                  ),
                ))
        ]))
]

-- What a page fault did: nothing, or a page of a registered stack was not there and now is.
abbrev pub Faulted : List Region → ℕ → ℕ → Vmm → ℕ × Vmm → Type 0
Faulted regions space page s (r, s') =
    ((r ≡ 0) × SamePages space s s')
    ⊎ ((r ≡ 1)
        × ((region : Region) × (find_region space page regions ≡ some region)
            × (region.space ≡ space)
            × (region.stack_limit ≤ page)
            × (page < region.stack_top))
        × (is_page (translate s.tables space page) ≡ false)
        × Grown space page s s')

fault_of : ℕ → ℕ → Vmm → Option Region → ℕ × Vmm
fault_of space page s none = (0, s)
fault_of space page s (some region) =
    if vmm_is_mapped_in s.tables space page
    then (0, s)
    else grow space page (pmm_alloc_zeroed_frame s)

-- A page fault in an address space whose tables are a tree either returns 0, and no address has
-- another page, or returns 1: the page lies in a registered stack of the space and was not
-- mapped, and now it is, writable and at a frame that was free; every other address has the page
-- it had.
pub vmm_handle_page_fault_lem :
    (regions : List Region) (space fault_addr : ℕ) (label : ℕ → Option (List ℕ)) (s : Vmm)
    → Tree (frame_of space) label s
    → Faulted regions space
        (fault_addr / page_4kb_size * page_4kb_size)
        s
        (vmm_handle_page_fault regions space fault_addr s)
unfolding vmm_handle_page_fault fault_of
vmm_handle_page_fault_lem regions space fault_addr label s tree =
    let page = fault_addr / page_4kb_size * page_4kb_size in
    elim (Option-cases (find_region space page regions)) [
      | inl missing ↦
          subst (Faulted regions space page s) (sym (ap (fault_of space page s) missing))
            (inl (refl, λ addr. refl))
      | inr (region, found) ↦
          subst (Faulted regions space page s) (sym (ap (fault_of space page s) found)) (
            if_elim (Faulted regions space page s) (vmm_is_mapped_in s.tables space page)
              (λ mapped. inl (refl, λ addr. refl))
              (λ absent. elim (grow_lem space page label s tree) [
                | inl kept ↦ inl kept
                | inr (one, grown) ↦ inr (
                  one,
                  (let (own, low, high) = find_region_lem space page regions region found in
                      (region, found, own, low, high)),
                  sym (vmm_is_mapped_in_lem s.tables space page) ∙ absent,
                  grown,
                )
              ]))
    ]
