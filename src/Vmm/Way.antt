-- ===== src/Vmm/Way.antt =====
-- The way of kernel/mm/vmm.c to the entry of a page: three linked tables below the top table.
use mini_kernel.Prelude.{
  ℕ, suc, ◌+◌, ◌<◌, ◌≡◌, refl, ap, sym, subst, ◌∙◌, inl, inr, true, false, ◌&&◌, Option, none, some,
  List, [], ◌∷◌, if◌then◌else◌, if-true, if-false, ◌==◌, length, arith,
}
use mini_kernel.Vmm.{
  Vmm, page_present, page_user, page_size_2mb, pml4_index, pdpt_index, pd_index, has, frame_of,
  get_or_create_table, pt_of, get_or_split_pt_entry,
}
use mini_kernel.Vmm.Walk.{walk, points, Tree, AllIndexes, OneEntry, some_inj}
use mini_kernel.Vmm.Steps.{Opened}
use mini_kernel.Vmm.Descend.{Opened-not_null, get_or_create_table_lem, pt_of_lem}

-- The tree of tables may have grown, and every address keeps its page.
pub record Kept (root : ℕ) (label : ℕ → Option (List ℕ)) (s s' : Vmm) : Type 0 where
  pub label' : ℕ → Option (List ℕ)
  pub tree : Tree root label' s'
  pub extends : (h : ℕ) (q : List ℕ) → label h ≡ some q → label' h ≡ some q
  pub same_walks :
      (is : List ℕ) → AllIndexes is → length is ≡ 4 → walk s'.tables root is ≡ walk s.tables root is

pub Kept-refl :
    (root : ℕ) (label : ℕ → Option (List ℕ)) (s : Vmm) → Tree root label s → Kept root label s s
Kept-refl root label s tree = record {
  label' = label;
  tree = tree;
  extends = λ h q e. e;
  same_walks = λ is small four. refl;
}

unfoldable pub Kept-trans :
    (root : ℕ) (label : ℕ → Option (List ℕ)) (s s1 s2 : Vmm)
    → (first : Kept root label s s1) → Kept root first.label' s1 s2
    → Kept root label s s2
Kept-trans root label s s1 s2 first second = record {
  label' = second.label';
  tree = second.tree;
  extends = λ h q e. second.extends h q (first.extends h q e);
  same_walks = λ is small four. second.same_walks is small four ∙ first.same_walks is small four;
}

unfoldable pub Opened-Kept :
    (root : ℕ) (label : ℕ → Option (List ℕ)) (s : Vmm) (f i : ℕ) (p : List ℕ) (g : ℕ) (s' : Vmm)
    → Opened root label s f i p g s'
    → Kept root label s s'
Opened-Kept root label s f i p g s' o = record {
  label' = o.label';
  tree = o.tree;
  extends = o.extends;
  same_walks = o.same_walks;
}

-- An entry that leads to a table, open to users.
abbrev pub Link : ℕ → (ℕ → ℕ → ℕ) → ℕ → ℕ → ℕ → Type 0
Link depth t f i g =
    (points depth (t f i) ≡ true) × (frame_of (t f i) ≡ g) × (has page_user (t f i) ≡ true)

-- A change at one entry keeps the links of the tables at other depths.
pub Link-kept :
    (label : ℕ → Option (List ℕ)) (t t' : ℕ → ℕ → ℕ) (f i : ℕ) (p : List ℕ) (h j : ℕ) (q : List ℕ)
    (g : ℕ)
    → OneEntry label f i t t'
    → label f ≡ some p
    → label h ≡ some q
    → j < 512
    → length q < length p
    → Link (length q) t h j g
    → Link (length q) t' h j g
Link-kept label t t' f i p h j q g one at_f at_h small shorter link = elim (one h q j at_h small) [
  | inl (same, here) ↦
      let paths = ap length (some_inj q p (sym at_h ∙ ap label same ∙ at_f)) in absurd (omega arith)
  | inr kept ↦
      subst (λ x. (points (length q) x ≡ true) × (frame_of x ≡ g) × (has page_user x ≡ true))
        (sym kept) link
]

-- The tables on the way, from the top table to the one with the page's entry.
pub record Way (root : ℕ) (label : ℕ → Option (List ℕ)) (t : ℕ → ℕ → ℕ) (a b c pt : ℕ)
    : Type 0 where
  pub pdpt : ℕ
  pub pd : ℕ
  pub pdpt_label : label pdpt ≡ some (a ∷ [])
  pub pd_label : label pd ≡ some (b ∷ a ∷ [])
  pub pt_label : label pt ≡ some (c ∷ b ∷ a ∷ [])
  pub first : Link 0 t root a pdpt
  pub second : Link 1 t pdpt b pd
  pub third : Link 2 t pd c pt

-- A walk over a link.
pub walk_over :
    (depth : ℕ) (t : ℕ → ℕ → ℕ) (f i g j : ℕ) (is : List ℕ)
    → depth + suc (suc (length is)) ≡ 4
    → Link depth t f i g
    → walk t f (i ∷ j ∷ is) ≡ walk t g (j ∷ is)
unfolding walk
walk_over depth t f i g j is four (leads, target, user) =
    let present : has page_present (t f i) ≡ true = ground (arith, leads) in
    let small : ((length is == 0) && has page_size_2mb (t f i)) ≡ false =
      ground (arith, leads, four) in
    if-true _ _ present ∙ if-false _ _ small ∙ ap (λ x. walk t x (j ∷ is)) target

pub walk-Way :
    (root : ℕ) (label : ℕ → Option (List ℕ)) (t : ℕ → ℕ → ℕ) (a b c pt d : ℕ)
    → Way root label t a b c pt
    → walk t root (a ∷ b ∷ c ∷ d ∷ []) ≡ walk t pt (d ∷ [])
walk-Way root label t a b c pt d w =
    walk_over 0 t root a w.pdpt b (c ∷ d ∷ []) refl w.first
    ∙ walk_over 1 t w.pdpt b w.pd c (d ∷ []) refl w.second
    ∙ walk_over 2 t w.pd c pt d [] refl w.third

-- What the search for the entry of a page gives: the table with the entry, or none.
abbrev pub Reached : ℕ → (ℕ → Option (List ℕ)) → Vmm → ℕ → ℕ → ℕ → Option ℕ × Vmm → Type 0
Reached root label s a b c (none, s') = Kept root label s s'
Reached root label s a b c (some pt, s') =
    (k : Kept root label s s') × Way root k.label' s'.tables a b c pt

module _ (root : ℕ) (label : ℕ → Option (List ℕ)) (s : Vmm) (a b c : ℕ) (small_a : a < 512)
    (small_b : b < 512) (small_c : c < 512) where
  -- The last step, behind two tables.
  third_step :
      (s2 : Vmm) (pdpt pd : ℕ)
      → (k : Kept root label s s2) → k.label' pdpt ≡ some (a ∷ [])
      → k.label' pd ≡ some (b ∷ a ∷ [])
      → Link 0 s2.tables root a pdpt
      → Link 1 s2.tables pdpt b pd
      → Reached root label s a b c (pt_of pd c s2)
  unfolding Kept-trans Opened-Kept
  third_step s2 pdpt pd k at1 at2 link1 link2 =
      elim (pt_of_lem root k.label' s2 pd c (b ∷ a ∷ []) k.tree at2 small_c refl) [
        | inl stuck ↦ subst (Reached root label s a b c) (sym stuck) k
        | inr (pt, s3, found, o, user) ↦
            let kept_link = λ (h j : ℕ) (q : List ℕ) (g : ℕ) (at_h : k.label' h ≡ some q).
              Link-kept k.label' s2.tables s3.tables pd c (b ∷ a ∷ []) h j q g o.one_entry at2
                at_h in
            let way : Way root o.label' s3.tables a b c pt = record {
              pdpt = pdpt;
              pd = pd;
              pdpt_label = o.extends pdpt (a ∷ []) at1;
              pd_label = o.extends pd (b ∷ a ∷ []) at2;
              pt_label = o.child;
              first = kept_link root a [] pdpt k.tree.root_label small_a (omega arith) link1;
              second = kept_link pdpt b (a ∷ []) pd at1 small_b (omega arith) link2;
              third = (o.entry, o.target, user);
            } in
            subst (Reached root label s a b c) (sym found) (
              Kept-trans root label s s2 s3 k
                  (Opened-Kept root k.label' s2 pd c (b ∷ a ∷ []) pt s3 o),
              way,
            )
      ]

  after_pd : ℕ × Vmm → Option ℕ × Vmm
  after_pd (pd, s2) = if pd == 0 then (none, s2) else pt_of pd c s2

  -- The step before it, behind one table.
  second_step :
      (s1 : Vmm) (pdpt : ℕ)
      → (k : Kept root label s s1) → k.label' pdpt ≡ some (a ∷ [])
      → Link 0 s1.tables root a pdpt
      → Reached root label s a b c (after_pd (get_or_create_table pdpt b s1))
  unfolding after_pd Kept-trans Opened-Kept
  second_step s1 pdpt k at1 link1 =
      elim (get_or_create_table_lem root k.label' s1 pdpt b (a ∷ []) k.tree at1 small_b
        (omega arith)) [
          | inl stuck ↦ subst (λ r. Reached root label s a b c (after_pd r)) (sym stuck) k
          | inr (o, user) ↦
              let pd = (get_or_create_table pdpt b s1).0 in
              let s2 = (get_or_create_table pdpt b s1).1 in
              let ne = Opened-not_null root k.label' s1 pdpt b (a ∷ []) pd s2 o in
              let some_frame : (pd == 0) ≡ false = ground arith in
              subst (Reached root label s a b c) (sym (if-false _ _ some_frame)) (
                third_step s2 pdpt pd
                  (Kept-trans root label s s1 s2 k
                    (Opened-Kept root k.label' s1 pdpt b (a ∷ []) pd s2 o))
                  (o.extends pdpt (a ∷ []) at1) o.child
                  (Link-kept k.label' s1.tables s2.tables pdpt b (a ∷ []) root a [] pdpt o.one_entry
                    at1 k.tree.root_label small_a (omega arith) link1)
                  (o.entry, o.target, user))
        ]

  after_pdpt : ℕ × Vmm → Option ℕ × Vmm
  after_pdpt (pdpt, s1) = if pdpt == 0 then (none, s1) else after_pd (get_or_create_table pdpt b s1)

  first_step :
      Tree root label s → Reached root label s a b c (after_pdpt (get_or_create_table root a s))
  unfolding after_pdpt Opened-Kept
  first_step tree =
      elim (get_or_create_table_lem root label s root a [] tree tree.root_label small_a
        (omega arith)) [
          | inl stuck ↦
              subst (λ r. Reached root label s a b c (after_pdpt r)) (sym stuck)
                (Kept-refl root label s tree)
          | inr (o, user) ↦
              let pdpt = (get_or_create_table root a s).0 in
              let s1 = (get_or_create_table root a s).1 in
              let ne = Opened-not_null root label s root a [] pdpt s1 o in
              let some_frame : (pdpt == 0) ≡ false = ground arith in
              subst (Reached root label s a b c) (sym (if-false _ _ some_frame)) (
                second_step s1 pdpt (Opened-Kept root label s root a [] pdpt s1 o) o.child
                  (o.entry, o.target, user))
        ]

pub get_or_split_pt_entry_lem :
    (root : ℕ) (label : ℕ → Option (List ℕ)) (s : Vmm) (virt : ℕ)
    → Tree root label s
    → Reached root label s
        (pml4_index virt)
        (pdpt_index virt)
        (pd_index virt)
        (get_or_split_pt_entry root virt s)
unfolding get_or_split_pt_entry after_pdpt after_pd
get_or_split_pt_entry_lem root label s virt tree =
    first_step root label s (pml4_index virt) (pdpt_index virt) (pd_index virt) (omega arith)
      (omega arith) (omega arith) tree
