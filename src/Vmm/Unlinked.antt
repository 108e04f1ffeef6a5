-- ===== src/Vmm/Unlinked.antt =====
-- A frame that kernel/mm/vmm.c fills before it is linked anywhere: the tree of tables and its walks
-- are what they were.
use mini_kernel.Prelude.{
  ℕ, ◌%◌, ◌≡◌, ◌≢◌, ap, sym, subst, ◌∙◌, inl, inr, true, false, Option, some, List, [], ◌∷◌,
  if-false, ◌==◌, length, arith,
}
use mini_kernel.Pmm.{is_used}
use mini_kernel.Vmm.{Vmm, frame_of, fill_table}
use mini_kernel.Vmm.Walk.{walk, points, huge, Tree, AllIndexes, Uses, walk_visits}
use mini_kernel.Vmm.Install.{Fresh}

no_use : (q p is : List ℕ) → AllIndexes is → ¬ Uses q 512 p is
no_use q p [] small uses = uses
no_use q p (j ∷ is) (lt, small) (inl (same, e)) = omega arith
no_use q p (j ∷ is) (lt, small) (inr uses) = no_use q (j ∷ p) is small uses

module _ (root : ℕ) (label : ℕ → Option (List ℕ)) (s : Vmm) (tree : Tree root label s) (row : ℕ → ℕ)
    (g : ℕ) (s' : Vmm) (fresh : Fresh row s g s') where
  pub unlabelled : (h : ℕ) (q : List ℕ) → label h ≡ some q → h ≢ g
  unlabelled h q at same =
      let used = tree.frame_used h q at in
      let free = fresh.was_free in let used_g = subst (λ k. is_used k s.pmm ≡ true) same used in cc

  pub entries : (h j : ℕ) → s'.tables h j ≡ fill_table s.tables g row h j
  entries h j = ap (λ (r : Vmm). r.tables h j) fresh.shape

  pub tree_entries : (h : ℕ) (q : List ℕ) (j : ℕ) → label h ≡ some q → s'.tables h j ≡ s.tables h j
  tree_entries h q j at =
      let ne = unlabelled h q at in
      let other : (h == g) ≡ false = ground arith in entries h j ∙ if-false _ _ other

  -- The walks of the tree are the same.
  pub tree_walks :
      (is : List ℕ) → AllIndexes is → length is ≡ 4 → walk s'.tables root is ≡ walk s.tables root is
  tree_walks is small four =
      elim (walk_visits s s'.tables root 512 [] tree (λ h q j at lt. inr (tree_entries h q j at))
        tree.root_label root [] is tree.root_label small (omega arith)) [
          | inl same ↦ same
          | inr uses ↦ absurd (no_use [] [] is small uses)
        ]

  pub unlinked-Tree : Tree root label s'
  unlinked-Tree = record {
    root_label = tree.root_label;
    null_label = tree.null_label;
    frame_used = λ h q at.
        let ne = unlabelled h q at in
        let other : (h == g) ≡ false = ground arith in
        fresh.now_used h ∙ if-false _ _ other ∙ tree.frame_used h q at;
    child_label = λ h q j at lt leads.
        let e = tree_entries h q j at in
        ap (λ x. label (frame_of x)) e
        ∙ tree.child_label h q j at lt (sym (ap (points (length q)) e) ∙ leads);
    huge_aligned = λ h q j at lt large.
        let e = tree_entries h q j at in
        ap (λ x. frame_of x % 512) e
        ∙ tree.huge_aligned h q j at lt (sym (ap (huge (length q)) e) ∙ large);
    pmm_valid = fresh.pmm_valid;
    zero_used = fresh.now_used 0 ∙ ground (arith, tree.zero_used);
  }
