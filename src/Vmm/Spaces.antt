-- ===== src/Vmm/Spaces.antt =====
-- The address spaces that kernel/mm/vmm.c creates.
use mini_kernel.Prelude.{
  ℕ, ◌*◌, ◌/◌, ◌%◌, ◌<◌, ◌≡◌, ◌≢◌, refl, ap, sym, subst, ◌∙◌, ◌⊎◌, inl, inr, true, false, Option,
  none, some, List, [], ◌∷◌, if◌then◌else◌, if-true, if-false, if_elim, ltb, ◌==◌, ==_iff, length,
  arith,
}
use mini_kernel.Pmm.{is_used, max_frames}
use mini_kernel.Vmm.{Vmm, page_present, page_4kb_size, has, frame_of, vmm_create_address_space}
use mini_kernel.Vmm.Walk.{
  page_of, next, walk, points, huge, indexes, translate, Tree, AllIndexes, some_inj,
}
use mini_kernel.Vmm.Install.{Fresh, new_table-Fresh}
use mini_kernel.Vmm.Mapping.{small_indexes}
use mini_kernel.Vmm.Unlinked.{unlabelled, entries, tree_entries, tree_walks}
use mini_kernel.Vmm.Destroy.{
  vmm_destroy_address_space, vmm_destroy_address_space_lem, vmm_destroy_address_space-null,
  holds-shared,
}

-- Walks from two tables with the same entry.
same_entry_walk :
    (t : ℕ → ℕ → ℕ) (f g i : ℕ) (is : List ℕ)
    → t f i ≡ t g i
    → walk t f (i ∷ is) ≡ walk t g (i ∷ is)
unfolding walk
same_entry_walk t f g i [] e =
    ap (λ x. if has page_present x then some (page_of x (frame_of x)) else none) e
same_entry_walk t f g i (j ∷ is) e =
    ap (λ x. next (length is == 0) x j (walk t (frame_of x) (j ∷ is))) e

-- A copy of the top table of a tree.
module _ (root : ℕ) (label : ℕ → Option (List ℕ)) (s : Vmm) (tree : Tree root label s) (g : ℕ)
    (s' : Vmm) (fresh : Fresh (s.tables root) s g s') where
  pub copied_entries : (j : ℕ) → j < 512 → s'.tables g j ≡ s.tables root j
  copied_entries j lt =
      let same : (g == g) ≡ true = ground arith in
      let inside : ltb j 512 ≡ true = ground arith in
      entries root label s tree (s.tables root) g s' fresh g j
      ∙ if-true _ _ same
      ∙ if-true _ _ inside

  copied_walks :
      (is : List ℕ) → AllIndexes is → length is ≡ 4 → walk s'.tables g is ≡ walk s.tables root is
  copied_walks [] small four = absurd (omega arith)
  copied_walks (i ∷ is) small four =
      same_entry_walk s'.tables g root i is (
        copied_entries i small.0
        ∙ sym (tree_entries root label s tree (s.tables root) g s' fresh root [] i tree.root_label))
      ∙ tree_walks root label s tree (s.tables root) g s' fresh (i ∷ is) small four

  -- The label of a table of the new address space.
  copied_label : ℕ → Option (List ℕ)
  copied_label h = if h == g then some [] else if h == root then none else label h

  label_cases :
      (h : ℕ) (q : List ℕ)
      → copied_label h ≡ some q
      → ((h ≡ g) × (q ≡ [])) ⊎ ((h ≢ g) × (label h ≡ some q))
  unfolding copied_label
  label_cases h q at =
      if_elim (λ x. x ≡ some q → ((h ≡ g) × (q ≡ [])) ⊎ ((h ≢ g) × (label h ≡ some q))) (h == g)
        (λ same e. inl ((==_iff h g).0 same, some_inj q [] (sym e)))
        (λ ne.
          if_elim (λ x. x ≡ some q → ((h ≡ g) × (q ≡ [])) ⊎ ((h ≢ g) × (label h ≡ some q)))
            (h == root) (λ same e. absurd cc) (λ ne' e. inr ((λ same. ground arith), e)))
        at

  -- A table with a table above it has the label it had.
  below_root : (h i : ℕ) (q : List ℕ) → label h ≡ some (i ∷ q) → copied_label h ≡ some (i ∷ q)
  unfolding copied_label
  below_root h i q at =
      let ne = unlabelled root label s tree (s.tables root) g s' fresh h (i ∷ q) at in
      let not_new : (h == g) ≡ false = ground arith in
      let not_root : h ≢ root = λ same.
        let n = ap length (some_inj (i ∷ q) [] (sym at ∙ ap label same ∙ tree.root_label)) in
        omega arith in
      let other : (h == root) ≡ false = ground arith in
      if-false _ _ not_new ∙ if-false _ _ other ∙ at

  -- An entry of the new address space stands in the tree.
  original :
      (h j : ℕ) (q : List ℕ)
      → copied_label h ≡ some q
      → j < 512
      → (h' : ℕ) × (label h' ≡ some q) × (s'.tables h j ≡ s.tables h' j)
  original h j q at lt = elim (label_cases h q at) [
    | inl (same, top) ↦ (
      root,
      tree.root_label ∙ ap (λ x. some x) (sym top),
      ap (λ x. s'.tables x j) same ∙ copied_entries j lt,
    )
    | inr (ne, old) ↦ (h, old, tree_entries root label s tree (s.tables root) g s' fresh h q j old)
  ]

  copied-Tree : Tree g copied_label s'
  unfolding copied_label
  copied-Tree = record {
    root_label = let same : (g == g) ≡ true = ground arith in if-true _ _ same;
    null_label =
        let ne = fresh.not_null in
        let not_new : (0 == g) ≡ false = ground arith in
        if-false _ _ not_new
        ∙ if_elim (λ x. x ≡ none) (0 == root) (λ e. refl) (λ e. tree.null_label);
    frame_used = λ h q at. fresh.now_used h ∙ (elim (label_cases h q at) [
      | inl (same, top) ↦ let here : (h == g) ≡ true = ground arith in if-true _ _ here
      | inr (ne, old) ↦
          let other : (h == g) ≡ false = ground arith in
          if-false _ _ other ∙ tree.frame_used h q old
    ]);
    child_label = λ h q j at lt leads.
        let (h', old, e) = original h j q at lt in
        ap copied_label (ap frame_of e)
        ∙ below_root (frame_of (s.tables h' j)) j q
            (tree.child_label h' q j old lt (sym (ap (points (length q)) e) ∙ leads));
    huge_aligned = λ h q j at lt large.
        let (h', old, e) = original h j q at lt in
        ap (λ x. frame_of x % 512) e
        ∙ tree.huge_aligned h' q j old lt (sym (ap (huge (length q)) e) ∙ large);
    pmm_valid = fresh.pmm_valid;
    zero_used = fresh.now_used 0 ∙ ground (arith, tree.zero_used);
  }

-- A new address space: its tables are a tree, and every address has the page that it has in the
-- kernel's address space, where no page changed.
abbrev pub Creates : Vmm → ℕ × Vmm → Type 0
Creates s (space, s') =
    (space ≢ 0)
    × ((label : ℕ → Option (List ℕ)) × Tree (frame_of space) label s')
    × ((addr : ℕ) → translate s'.tables space addr ≡ walk s.tables s.kernel_pml4 (indexes addr))
    × ((addr : ℕ)
        → walk s'.tables s.kernel_pml4 (indexes addr) ≡ walk s.tables s.kernel_pml4 (indexes addr))

create_of : ℕ × Vmm → ℕ × Vmm
create_of (frame, s') = (frame * page_4kb_size, s')

-- Where the kernel's tables are a tree, `vmm_create_address_space` either returns 0 and changes
-- nothing, or returns a new address space: its tables are a tree, its addresses have the pages of
-- the kernel's address space, and those of the kernel's addresses are what they were.
pub vmm_create_address_space_lem :
    (label : ℕ → Option (List ℕ)) (s : Vmm)
    → Tree s.kernel_pml4 label s
    → (vmm_create_address_space s ≡ (0, s)) ⊎ Creates s (vmm_create_address_space s)
unfolding vmm_create_address_space create_of
vmm_create_address_space_lem label s tree =
    let root = s.kernel_pml4 in
    elim (new_table-Fresh (s.tables root) s tree.pmm_valid tree.zero_used) [
      | inl none_free ↦ inl (ap create_of none_free)
      | inr (g, s', got, fresh) ↦
          let positive = fresh.not_null in
          let below = fresh.below in
          let address : frame_of (g * page_4kb_size) ≡ g = omega arith in
          let not_null : (g * page_4kb_size) ≢ 0 = λ e. omega arith in
          inr (
            subst (Creates s) (sym (ap create_of got)) (
              not_null,
              (
                copied_label root label s tree g s' fresh,
                subst (λ h. Tree h (copied_label root label s tree g s' fresh) s') (sym address)
                    (copied-Tree root label s tree g s' fresh),
              ),
              λ addr.
                  ap (λ h. walk s'.tables h (indexes addr)) address
                  ∙ copied_walks root label s tree g s' fresh (indexes addr) (small_indexes addr)
                      refl,
              λ addr.
                  tree_walks root label s tree (s.tables root) g s' fresh (indexes addr)
                    (small_indexes addr) refl,
            ))
    ]

module _ (label : ℕ → Option (List ℕ)) (s : Vmm) (tree : Tree s.kernel_pml4 label s) (g : ℕ)
    (s' : Vmm) (fresh : Fresh (s.tables s.kernel_pml4) s g s') (h : ℕ)
    (below : h < max_frames) where
  address_of : frame_of (g * page_4kb_size) ≡ g
  address_of = let lt = fresh.below in omega arith

  same_kernel : s'.kernel_pml4 ≡ s.kernel_pml4
  same_kernel = ap (λ (r : Vmm). r.kernel_pml4) fresh.shape

  shared_entries :
      (i : ℕ) → i < 512 → s'.tables (frame_of (g * page_4kb_size)) i ≡ s'.tables s'.kernel_pml4 i
  shared_entries i lt =
      ap (λ f. s'.tables f i) address_of
      ∙ copied_entries s.kernel_pml4 label s tree g s' fresh i lt
      ∙ sym (
          tree_entries s.kernel_pml4 label s tree (s.tables s.kernel_pml4) g s' fresh s.kernel_pml4
            [] i tree.root_label)
      ∙ sym (ap (λ f. s'.tables f i) same_kernel)

  given_back : (if h == g then false else is_used h s'.pmm) ≡ is_used h s.pmm
  given_back =
      let used = fresh.now_used h in
      let free = fresh.was_free in
      if_elim (λ x. x ≡ is_used h s.pmm) (h == g)
        (λ same. sym (ap (λ f. is_used f s.pmm) ((==_iff h g).0 same) ∙ free))
        (λ other. used ∙ if-false _ _ other)

  destroyed : is_used h (vmm_destroy_address_space (g * page_4kb_size) s').pmm ≡ is_used h s.pmm
  destroyed =
      let positive = fresh.not_null in
      let not_root =
        unlabelled s.kernel_pml4 label s tree (s.tables s.kernel_pml4) g s' fresh s.kernel_pml4 []
          tree.root_label in
      let not_kernel : g * page_4kb_size ≢ s'.kernel_pml4 * page_4kb_size =
        λ e. let k = same_kernel in not_root (omega arith) in
      let number : g * page_4kb_size / 4096 ≡ g = omega arith in
      let (valid, used, same) =
        vmm_destroy_address_space_lem (g * page_4kb_size) s' h fresh.pmm_valid (λ e. omega arith)
          not_kernel below in
      used
      ∙ ap (λ x. if x then false else is_used h s'.pmm)
          (holds-shared s' (g * page_4kb_size) h shared_entries ∙ ap (λ k. h == k) number)
      ∙ given_back

-- Creating an address space, where the kernel's tables are a tree, and destroying it at once leaves
-- each frame of memory used or free as it was.
pub create_destroy :
    (label : ℕ → Option (List ℕ)) (s : Vmm) (h : ℕ)
    → Tree s.kernel_pml4 label s
    → h < max_frames
    → let (space, s') = vmm_create_address_space s in
      is_used h (vmm_destroy_address_space space s').pmm ≡ is_used h s.pmm
unfolding vmm_create_address_space create_of
create_destroy label s h tree below =
    elim (new_table-Fresh (s.tables s.kernel_pml4) s tree.pmm_valid tree.zero_used) [
      | inl none_free ↦
          ap (λ r. is_used h (vmm_destroy_address_space (create_of r).0 (create_of r).1).pmm)
            none_free
          ∙ ap (λ (r : Vmm). is_used h r.pmm) (vmm_destroy_address_space-null s)
      | inr (g, s', got, fresh) ↦
          ap (λ r. is_used h (vmm_destroy_address_space (create_of r).0 (create_of r).1).pmm) got
          ∙ destroyed label s tree g s' fresh h below
    ]
