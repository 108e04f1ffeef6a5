-- ===== src/Vmm/Mapping.antt =====
-- What mapping and unmapping of kernel/mm/vmm.c do to the pages of an address space.
use mini_kernel.Prelude.{
  ℕ, ◌/◌, ◌%◌, ◌^◌, ◌≡◌, refl, ap, sym, ◌∙◌, inl, inr, Bool, true, false, Option, none, some, List,
  [], ◌∷◌, if◌then◌else◌, if_elim, ◌==◌, ==_iff, length, arith,
}
use mini_kernel.Vmm.{
  Vmm, page_present, pml4_index, pdpt_index, pd_index, pt_index, has, frame_of, set_entry,
}
use mini_kernel.Vmm.Walk.{
  Page, page_of, walk, points, huge, indexes, Tree, AllIndexes, OneEntry, Uses, walk_visits,
  some_inj,
}
use mini_kernel.Vmm.Steps.{OneEntry-set_entry, set_entry_at}
use mini_kernel.Vmm.Way.{Way, Link-kept, walk-Way}

-- The number of an address's page among the 48 bits that are translated.
abbrev pub page_number : ℕ → ℕ
page_number addr = addr / 4096 % 2 ^ 36

-- The pages after one of them is set.
abbrev pub set_page : (ℕ → Option Page) → ℕ → Option Page → ℕ → Option Page
set_page pages virt page addr = if page_number addr == page_number virt then page else pages addr

-- The page that the value of an entry stands for.
abbrev pub page_in : ℕ → Option Page
page_in v = if has page_present v then some (page_of v (frame_of v)) else none

pub small_indexes : (addr : ℕ) → AllIndexes (indexes addr)
small_indexes addr = (omega arith, (omega arith, (omega arith, (omega arith, tt))))

pub head_inj : (a b : ℕ) (p q : List ℕ) → a ∷ p ≡ b ∷ q → (a ≡ b) × (p ≡ q)
head_inj a b p q e = (cc, cc)

-- Only an address of the page uses its entry.
Uses-page :
    (addr virt : ℕ)
    → Uses
        (pd_index virt ∷ pdpt_index virt ∷ pml4_index virt ∷ [])
        (pt_index virt)
        []
        (indexes addr)
    → page_number addr ≡ page_number virt
Uses-page addr virt uses = elim uses [
  | inl (short, e) ↦ let n = ap length short in absurd (omega arith)
  | inr u1 ↦ elim u1 [
    | inl (short, e) ↦ let n = ap length short in absurd (omega arith)
    | inr u2 ↦ elim u2 [
      | inl (short, e) ↦ let n = ap length short in absurd (omega arith)
      | inr u3 ↦ elim u3 [
        | inl (same, e) ↦
            let (c, rest) = head_inj _ _ _ _ same in
            let (b, rest') = head_inj _ _ _ _ rest in
            let (a, rest'') = head_inj _ _ _ _ rest' in omega arith
        | inr none_left ↦ absurd none_left
      ]
    ]
  ]
]

pub same_indexes :
    (addr virt : ℕ) → page_number addr ≡ page_number virt → indexes addr ≡ indexes virt
same_indexes addr virt e =
    let a : pml4_index addr ≡ pml4_index virt = omega arith in
    let b : pdpt_index addr ≡ pdpt_index virt = omega arith in
    let c : pd_index addr ≡ pd_index virt = omega arith in
    let d : pt_index addr ≡ pt_index virt = omega arith in cc

-- An entry of a lowest table leads to no table.
lowest_points : (p q : List ℕ) (x : ℕ) → q ≡ p → length p ≡ 3 → points (length q) x ≡ false
lowest_points p q x same three = let n = ap length same ∙ three in ground arith

lowest_huge : (p q : List ℕ) (x : ℕ) → q ≡ p → length p ≡ 3 → huge (length q) x ≡ false
lowest_huge p q x same three = let n = ap length same ∙ three in ground arith

pub true_false : {A : Type 0} (b : Bool) → b ≡ false → b ≡ true → A
true_false b f t = absurd cc

-- The pages of an address space after one entry of a lowest table is written.
module _ (root : ℕ) (label : ℕ → Option (List ℕ)) (s : Vmm) (virt v pt : ℕ)
    (tree : Tree root label s)
    (way : Way root label s.tables (pml4_index virt) (pdpt_index virt) (pd_index virt) pt) where
  abbrev pub written : Vmm
  written = record s { tables = set_entry s.tables pt (pt_index virt) v }

  written_one : OneEntry label pt (pt_index virt) s.tables written.tables
  written_one = OneEntry-set_entry label s.tables pt (pt_index virt) v

  pub written-Way :
      Way root label written.tables (pml4_index virt) (pdpt_index virt) (pd_index virt) pt
  written-Way =
      let p = pd_index virt ∷ pdpt_index virt ∷ pml4_index virt ∷ [] in
      let kept = λ (h j : ℕ) (q : List ℕ) (g : ℕ) (at_h : label h ≡ some q).
        Link-kept label s.tables written.tables pt (pt_index virt) p h j q g written_one
          way.pt_label at_h in
      record {
        pdpt = way.pdpt;
        pd = way.pd;
        pdpt_label = way.pdpt_label;
        pd_label = way.pd_label;
        pt_label = way.pt_label;
        first = kept root _ [] way.pdpt tree.root_label (omega arith) (omega arith) way.first;
        second = kept way.pdpt _ _ way.pd way.pdpt_label (omega arith) (omega arith) way.second;
        third = kept way.pd _ _ pt way.pd_label (omega arith) (omega arith) way.third;
      }

  written_here : walk written.tables root (indexes virt) ≡ page_in v
  unfolding walk
  written_here =
      walk-Way root label written.tables _ _ _ pt (pt_index virt) written-Way
      ∙ ap page_in (set_entry_at s.tables pt (pt_index virt) v)

  pub written_pages :
      (addr : ℕ)
      → walk written.tables root (indexes addr)
        ≡ set_page (λ a. walk s.tables root (indexes a)) virt (page_in v) addr
  written_pages addr =
      if_elim (λ x. walk written.tables root (indexes addr) ≡ x)
        (page_number addr == page_number virt)
        (λ e.
          ap (walk written.tables root) (same_indexes addr virt ((==_iff _ _).0 e)) ∙ written_here)
        (λ ne.
          elim (walk_visits s written.tables pt (pt_index virt) _ tree written_one way.pt_label root
            [] (indexes addr) tree.root_label (small_indexes addr) refl) [
              | inl same ↦ same
              | inr uses ↦ let e = Uses-page addr virt uses in absurd (ground (arith, e, ne))
            ])

  pub written-Tree : Tree root label written
  written-Tree = record {
    root_label = tree.root_label;
    null_label = tree.null_label;
    frame_used = tree.frame_used;
    child_label = λ h q j at_h small_j leads. elim (written_one h q j at_h small_j) [
      | inl (same, here) ↦
          true_false _
            (lowest_points _ q (written.tables h j)
              (some_inj q _ (sym at_h ∙ ap label same ∙ way.pt_label)) refl)
            leads
      | inr kept ↦
          ap (λ x. label (frame_of x)) kept
          ∙ tree.child_label h q j at_h small_j (sym (ap (points (length q)) kept) ∙ leads)
    ];
    huge_aligned = λ h q j at_h small_j large. elim (written_one h q j at_h small_j) [
      | inl (same, here) ↦
          true_false _
            (lowest_huge _ q (written.tables h j)
              (some_inj q _ (sym at_h ∙ ap label same ∙ way.pt_label)) refl)
            large
      | inr kept ↦
          ap (λ x. frame_of x % 512) kept
          ∙ tree.huge_aligned h q j at_h small_j (sym (ap (huge (length q)) kept) ∙ large)
    ];
    pmm_valid = tree.pmm_valid;
    zero_used = tree.zero_used;
  }
