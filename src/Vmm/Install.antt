-- ===== src/Vmm/Install.antt =====
-- New tables of kernel/mm/vmm.c: `new_table` takes a frame that no table of the tree is in, and a
-- link to it makes the tree grow.
use mini_kernel.Prelude.{
  ℕ, suc, ◌+◌, ◌/◌, ◌%◌, ◌<◌, ◌≡◌, ◌≢◌, refl, ap, ap₂, sym, subst, ◌∙◌, ◌⊎◌, inl, inr, true, false,
  Option, some, List, [], ◌∷◌, if◌then◌else◌, if-true, if-false, if_elim, ◌==◌, ==_iff, length,
  arith,
}
use mini_kernel.Pmm.{is_used, max_frames, pmm_alloc_frame}
use mini_kernel.Pmm.Frames.{IsValid}
use mini_kernel.Pmm.Alloc.{alloc_frame_lem}
use mini_kernel.Vmm.{Vmm, frame_of, set_entry, fill_table, new_table}
use mini_kernel.Vmm.Walk.{walk, points, huge, Tree, AllIndexes, OneEntry, walk_same, some_inj}
use mini_kernel.Vmm.Steps.{Opened, set_entry_elim, set_entry_at}

-- A table in a frame that was free, which alone becomes used.
pub record Fresh (row : ℕ → ℕ) (s : Vmm) (g : ℕ) (s' : Vmm) : Type 0 where
  pub not_null : g ≢ 0
  pub below : g < max_frames
  pub was_free : is_used g s.pmm ≡ false
  pub now_used : (h : ℕ) → is_used h s'.pmm ≡ (if h == g then true else is_used h s.pmm)
  pub pmm_valid : IsValid s'.pmm
  pub shape : s' ≡ record s { tables = fill_table s.tables g row; pmm = s'.pmm }

pub new_table-Fresh :
    (row : ℕ → ℕ) (s : Vmm)
    → IsValid s.pmm
    → is_used 0 s.pmm ≡ true
    → (new_table row s ≡ (0, s))
      ⊎ ((g : ℕ) × (s' : Vmm) × (new_table row s ≡ (g, s')) × Fresh row s g s')
unfolding new_table
new_table-Fresh row s valid zero_used = elim (alloc_frame_lem s.pmm valid zero_used) [
  | inl (none_free, same, all) ↦ inl (rw none_free (ap (λ q. (0, record s { pmm = q })) same))
  | inr (g, addr, positive, below, free, used, count, valid') ↦
      let s' = record s { tables = fill_table s.tables g row; pmm = (pmm_alloc_frame s.pmm).1 } in
      let some_frame : ((pmm_alloc_frame s.pmm).0 == 0) ≡ false = ground arith in
      let number : (pmm_alloc_frame s.pmm).0 / 4096 ≡ g = omega arith in
      inr (
        g,
        s',
        if-false _ _ some_frame
            ∙ ap
                (λ k. (
                  k,
                  record s { tables = fill_table s.tables k row; pmm = (pmm_alloc_frame s.pmm).1 },
                ))
                number,
        record {
          not_null = λ e. omega arith;
          below = below;
          was_free = free;
          now_used = used;
          pmm_valid = valid';
          shape = refl;
        },
      )
]

-- A link to a fresh table, from an entry of a table of the tree.
module _ (root : ℕ) (label : ℕ → Option (List ℕ)) (s : Vmm) (f i : ℕ) (p : List ℕ)
    (tree : Tree root label s) (at : label f ≡ some p) (small : i < 512) (row : ℕ → ℕ) (g : ℕ)
    (s1 : Vmm) (fresh : Fresh row s g s1) (e : ℕ) where
  abbrev pub linked : Vmm
  linked = record s1 { tables = set_entry (fill_table s.tables g row) f i e }

  abbrev grown_label : ℕ → Option (List ℕ)
  grown_label h = if h == g then some (i ∷ p) else label h

  not_fresh : (h : ℕ) (q : List ℕ) → label h ≡ some q → h ≢ g
  not_fresh h q at_h same =
      let used = tree.frame_used h q at_h in
      let free = fresh.was_free in let used_g = subst (λ k. is_used k s.pmm ≡ true) same used in cc

  grown_old : (h : ℕ) (q : List ℕ) → label h ≡ some q → grown_label h ≡ some q
  grown_old h q at_h =
      let ne = not_fresh h q at_h in
      let other : (h == g) ≡ false = ground arith in if-false _ _ other ∙ at_h

  grown_new : grown_label g ≡ some (i ∷ p)
  grown_new = let same : (g == g) ≡ true = ground arith in if-true _ _ same

  linked_old : OneEntry label f i s.tables linked.tables
  linked_old h q j at_h small_j =
      let ne = not_fresh h q at_h in
      let kept : fill_table s.tables g row h j ≡ s.tables h j = ground arith in
      set_entry_elim (λ x. ((h ≡ f) × (j ≡ i)) ⊎ (x ≡ s.tables h j)) (fill_table s.tables g row) f i
        e h j (λ same here. inl (same, here)) (inr kept)

  pub linked_new : (j : ℕ) → j < 512 → linked.tables g j ≡ row j
  linked_new j lt =
      let ne = not_fresh f p at in
      let filled : fill_table s.tables g row g j ≡ row j = ground arith in
      set_entry_elim (λ x. x ≡ row j) (fill_table s.tables g row) f i e g j
        (λ same here. absurd (ne (sym same))) filled

  pub linked_entry : linked.tables f i ≡ e
  linked_entry = set_entry_at (fill_table s.tables g row) f i e

  -- A path that a labelled table has is its own.
  path_of : (h : ℕ) (q : List ℕ) → label h ≡ some q → h ≡ f → q ≡ p
  path_of h q at_h same = some_inj q p (sym at_h ∙ ap label same ∙ at)

  label_cases :
      (h : ℕ) (q : List ℕ) → grown_label h ≡ some q → ((h ≡ g) × (q ≡ i ∷ p)) ⊎ (label h ≡ some q)
  label_cases h q at_h =
      if_elim (λ x. x ≡ some q → ((h ≡ g) × (q ≡ i ∷ p)) ⊎ (label h ≡ some q)) (h == g)
        (λ same e'. inl ((==_iff h g).0 same, some_inj q (i ∷ p) (sym e'))) (λ ne e'. inr e') at_h

  at_entry : (h j : ℕ) → h ≡ f → j ≡ i → linked.tables h j ≡ e
  at_entry h j same here = ap₂ (λ k l. linked.tables k l) same here ∙ linked_entry

  -- The entry leads to the table, and no entry of the table leads further.
  module _ (leads : points (length p) e ≡ true) (target : frame_of e ≡ g)
      (not_huge : huge (length p) e ≡ false)
      (row_ends : (j : ℕ)
        → j < 512
        → (points (suc (length p)) (row j) ≡ false) × (huge (suc (length p)) (row j) ≡ false))
      (sub : (is : List ℕ)
        → AllIndexes is
        → length p + suc (length is) ≡ 4
        → walk linked.tables f (i ∷ is) ≡ walk s.tables f (i ∷ is)) where
    linked-Tree : Tree root grown_label linked
    linked-Tree = record {
      root_label = grown_old root [] tree.root_label;
      null_label =
          let other : (0 == g) ≡ false = ground (arith, fresh.not_null) in
          if-false _ _ other ∙ tree.null_label;
      frame_used = λ h q at_h. fresh.now_used h ∙ (elim (label_cases h q at_h) [
        | inl (same, path) ↦ let here : (h == g) ≡ true = ground arith in if-true _ _ here
        | inr old ↦
            let ne = not_fresh h q old in
            let other : (h == g) ≡ false = ground arith in
            if-false _ _ other ∙ tree.frame_used h q old
      ]);
      child_label = λ h q j at_h small_j leads_h. elim (label_cases h q at_h) [
        | inl (same, path) ↦
            let same_entry = ap (λ k. linked.tables k j) same ∙ linked_new j small_j in
            let ends = (row_ends j small_j).0 in
            let reads = ap₂ (λ n x. points n x) (ap length path) same_entry in cc
        | inr old ↦ elim (linked_old h q j old small_j) [
          | inl (same, here) ↦
              ap grown_label (ap frame_of (at_entry h j same here) ∙ target)
              ∙ grown_new
              ∙ ap₂ (λ k l. some (k ∷ l)) (sym here) (sym (path_of h q old same))
          | inr kept ↦
              ap (λ x. grown_label (frame_of x)) kept
              ∙ grown_old (frame_of (s.tables h j)) (j ∷ q)
                  (tree.child_label h q j old small_j (sym (ap (points (length q)) kept) ∙ leads_h))
        ]
      ];
      huge_aligned = λ h q j at_h small_j large. elim (label_cases h q at_h) [
        | inl (same, path) ↦
            let same_entry = ap (λ k. linked.tables k j) same ∙ linked_new j small_j in
            let ends = (row_ends j small_j).1 in
            let reads = ap₂ (λ n x. huge n x) (ap length path) same_entry in cc
        | inr old ↦ elim (linked_old h q j old small_j) [
          | inl (same, here) ↦
              let reads =
                ap₂ (λ n x. huge n x) (ap length (path_of h q old same)) (at_entry h j same here) in
              cc
          | inr kept ↦
              ap (λ x. frame_of x % 512) kept
              ∙ tree.huge_aligned h q j old small_j (sym (ap (huge (length q)) kept) ∙ large)
        ]
      ];
      pmm_valid = fresh.pmm_valid;
      zero_used = fresh.now_used 0 ∙ ground (arith, tree.zero_used);
    }

    pub linked-Opened : Opened root label s f i p g linked
    linked-Opened = record {
      label' = grown_label;
      tree = linked-Tree;
      extends = grown_old;
      entry = ap (points (length p)) linked_entry ∙ leads;
      target = ap frame_of linked_entry ∙ target;
      child = grown_new;
      one_entry = linked_old;
      same_walks = λ is small_is four.
          walk_same s linked.tables f i p tree linked_old at sub root [] is tree.root_label small_is
            (omega arith);
    }
