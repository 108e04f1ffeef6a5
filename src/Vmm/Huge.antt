-- ===== src/Vmm/Huge.antt =====
-- A page of 2 MB that `map_2mb_identity` of kernel/mm/vmm.c sets, behind tables that are a tree.
use mini_kernel.Prelude.{
  ℕ, ◌+◌, ◌*◌, ◌/◌, ◌%◌, ◌^◌, ◌<◌, ◌≡◌, refl, ap, ap₂, sym, ◌∙◌, ◌⊎◌, inl, inr, true, false, not,
  Option, none, some, List, [], ◌∷◌, if-true, if-false, ◌==◌, length, arith,
}
use mini_kernel.Vmm.{
  Vmm, page_present, page_writable, page_size_2mb, pml4_index, pdpt_index, pd_index, pt_index, has,
  frame_of, set_entry,
}
use mini_kernel.Vmm.Walk.{
  Page, page_of, next, walk, points, huge, indexes, Tree, OneEntry, Uses, walk_visits, some_inj,
}
use mini_kernel.Vmm.Steps.{OneEntry-set_entry, set_entry_at}
use mini_kernel.Vmm.Way.{Kept, Link, Link-kept, walk_over}
use mini_kernel.Vmm.Mapping.{page_number, small_indexes, head_inj, true_false}

-- The page of an address that is mapped to itself.
abbrev pub identity_page : ℕ → Page
identity_page addr = record { frame = page_number addr; writable = true }

-- An address keeps its page, or it had none and is mapped to itself.
abbrev pub KeepsOrMaps : Option Page → ℕ → Option Page → Type 0
KeepsOrMaps before addr after =
    (after ≡ before) ⊎ ((before ≡ none) × (after ≡ some (identity_page addr)))

abbrev pub MapsMore : ℕ → Vmm → Vmm → Type 0
MapsMore root s s' =
    ((label : ℕ → Option (List ℕ)) × Tree root label s')
    × ((addr : ℕ)
        → KeepsOrMaps (walk s.tables root (indexes addr)) addr (walk s'.tables root (indexes addr)))

pub KeepsOrMaps-trans :
    (a b c : Option Page) (addr : ℕ)
    → KeepsOrMaps a addr b
    → KeepsOrMaps b addr c
    → KeepsOrMaps a addr c
KeepsOrMaps-trans a b c addr (inl e) (inl e') = inl (e' ∙ e)
KeepsOrMaps-trans a b c addr (inl e) (inr (f, g)) = inr (sym e ∙ f, g)
KeepsOrMaps-trans a b c addr (inr (f, g)) (inl e) = inr (f, e ∙ g)
KeepsOrMaps-trans a b c addr (inr (f, g)) (inr (f', g')) = absurd cc

pub Kept-MapsMore :
    (root : ℕ) (label : ℕ → Option (List ℕ)) (s s' : Vmm)
    → Kept root label s s'
    → MapsMore root s s'
Kept-MapsMore root label s s' k =
    ((k.label', k.tree), λ addr. inl (k.same_walks (indexes addr) (small_indexes addr) refl))

-- The entry of a page of 2 MB.
huge_digits :
    (phys : ℕ)
    → phys % 2 ^ 21 ≡ 0
    → phys < 2 ^ 48
    → let v = phys + (page_present + page_writable + page_size_2mb) in
      (has page_present v ≡ true)
      × (has page_size_2mb v ≡ true)
      × (has page_writable v ≡ true)
      × (frame_of v ≡ phys / 4096)
huge_digits phys aligned below =
    let v = phys + (page_present + page_writable + page_size_2mb) in
    let one : v / 1 % 2 ≡ 1 = omega arith in
    let two : v / 2 % 2 ≡ 1 = omega arith in
    let eight : v / 128 % 2 ≡ 1 = omega arith in
    let is_one = λ (x : ℕ). x == 1 in (ap is_one one, ap is_one eight, ap is_one two, omega arith)

identity_number :
    (phys addr : ℕ)
    → phys % 2 ^ 21 ≡ 0
    → phys < 2 ^ 48
    → pml4_index addr ≡ pml4_index phys
    → pdpt_index addr ≡ pdpt_index phys
    → pd_index addr ≡ pd_index phys
    → phys / 4096 / 512 * 512 + pt_index addr ≡ page_number addr
identity_number phys addr aligned below a b c = omega arith

-- The tables on the way to a page directory.
pub record PdWay (root : ℕ) (label : ℕ → Option (List ℕ)) (t : ℕ → ℕ → ℕ) (a b pd : ℕ)
    : Type 0 where
  pub pdpt : ℕ
  pub pdpt_label : label pdpt ≡ some (a ∷ [])
  pub pd_label : label pd ≡ some (b ∷ a ∷ [])
  pub first : Link 0 t root a pdpt
  pub second : Link 1 t pdpt b pd

walk-PdWay :
    (root : ℕ) (label : ℕ → Option (List ℕ)) (t : ℕ → ℕ → ℕ) (a b c d pd : ℕ)
    → PdWay root label t a b pd
    → walk t root (a ∷ b ∷ c ∷ d ∷ []) ≡ walk t pd (c ∷ d ∷ [])
walk-PdWay root label t a b c d pd w =
    walk_over 0 t root a w.pdpt b (c ∷ d ∷ []) refl w.first
    ∙ walk_over 1 t w.pdpt b pd c (d ∷ []) refl w.second

walk_huge :
    (t : ℕ → ℕ → ℕ) (pd c d v : ℕ)
    → t pd c ≡ v
    → has page_present v ≡ true
    → has page_size_2mb v ≡ true
    → walk t pd (c ∷ d ∷ []) ≡ some (page_of v (frame_of v / 512 * 512 + d))
unfolding walk
walk_huge t pd c d v e present large =
    ap (λ x. next true x d (walk t (frame_of x) (d ∷ []))) e
    ∙ if-true _ _ present
    ∙ if-true _ _ large

walk_absent :
    (t : ℕ → ℕ → ℕ) (pd c d : ℕ) → has page_present (t pd c) ≡ false → walk t pd (c ∷ d ∷ []) ≡ none
unfolding walk
walk_absent t pd c d e = if-false _ _ e

-- Only an address of the 2 MB uses the entry.
Uses-region :
    (addr phys : ℕ)
    → Uses (pdpt_index phys ∷ pml4_index phys ∷ []) (pd_index phys) [] (indexes addr)
    → (pml4_index addr ≡ pml4_index phys)
      × (pdpt_index addr ≡ pdpt_index phys)
      × (pd_index addr ≡ pd_index phys)
Uses-region addr phys uses = elim uses [
  | inl (short, e) ↦ let n = ap length short in absurd (omega arith)
  | inr u1 ↦ elim u1 [
    | inl (short, e) ↦ let n = ap length short in absurd (omega arith)
    | inr u2 ↦ elim u2 [
      | inl (same, e) ↦
          let (b, rest) = head_inj _ _ _ _ same in
          let (a, rest') = head_inj _ _ _ _ rest in (a, b, e)
      | inr u3 ↦ elim u3 [
        | inl (long, e) ↦ let n = ap length long in absurd (omega arith)
        | inr none_left ↦ absurd none_left
      ]
    ]
  ]
]

-- A page of 2 MB that an entry of a page directory is set to.
module _ (root : ℕ) (label : ℕ → Option (List ℕ)) (s : Vmm) (phys pd : ℕ) (tree : Tree root label s)
    (aligned : phys % 2 ^ 21 ≡ 0) (below : phys < 2 ^ 48)
    (way : PdWay root label s.tables (pml4_index phys) (pdpt_index phys) pd)
    (absent : has page_present (s.tables pd (pd_index phys)) ≡ false) where
  abbrev pub v : ℕ
  v = phys + (page_present + page_writable + page_size_2mb)

  abbrev pub mapped : Vmm
  mapped = record s { tables = set_entry s.tables pd (pd_index phys) v }

  mapped_one : OneEntry label pd (pd_index phys) s.tables mapped.tables
  mapped_one = OneEntry-set_entry label s.tables pd (pd_index phys) v

  mapped-PdWay : PdWay root label mapped.tables (pml4_index phys) (pdpt_index phys) pd
  mapped-PdWay =
      let p = pdpt_index phys ∷ pml4_index phys ∷ [] in
      let kept = λ (h j : ℕ) (q : List ℕ) (g : ℕ) (at_h : label h ≡ some q).
        Link-kept label s.tables mapped.tables pd (pd_index phys) p h j q g mapped_one way.pd_label
          at_h in
      record {
        pdpt = way.pdpt;
        pdpt_label = way.pdpt_label;
        pd_label = way.pd_label;
        first = kept root _ [] way.pdpt tree.root_label (omega arith) (omega arith) way.first;
        second = kept way.pdpt _ _ pd way.pdpt_label (omega arith) (omega arith) way.second;
      }

  region_page :
      (addr : ℕ)
      → pml4_index addr ≡ pml4_index phys
      → pdpt_index addr ≡ pdpt_index phys
      → pd_index addr ≡ pd_index phys
      → (walk s.tables root (indexes addr) ≡ none)
        × (walk mapped.tables root (indexes addr) ≡ some (identity_page addr))
  region_page addr a b c =
      let d = pt_index addr in
      let (present, large, writable, frame) = huge_digits phys aligned below in
      let path : indexes addr ≡ pml4_index phys ∷ pdpt_index phys ∷ pd_index phys ∷ d ∷ [] = cc in
      let number =
        ap (λ x. x / 512 * 512 + d) frame ∙ identity_number phys addr aligned below a b c in
      (
        ap (walk s.tables root) path
            ∙ walk-PdWay root label s.tables _ _ (pd_index phys) d pd way
            ∙ walk_absent s.tables pd (pd_index phys) d absent,
        ap (walk mapped.tables root) path
            ∙ walk-PdWay root label mapped.tables _ _ (pd_index phys) d pd mapped-PdWay
            ∙ walk_huge mapped.tables pd (pd_index phys) d v
                (set_entry_at s.tables pd (pd_index phys) v) present large
            ∙ ap₂ (λ x y. let r : Page = record { frame = x; writable = y } in some r) number
                writable,
      )

  mapped_entry : (h j : ℕ) → h ≡ pd → j ≡ pd_index phys → mapped.tables h j ≡ v
  mapped_entry h j same here =
      ap₂ mapped.tables same here ∙ set_entry_at s.tables pd (pd_index phys) v

  depth_two : (h : ℕ) (q : List ℕ) → label h ≡ some q → h ≡ pd → length q ≡ 2
  depth_two h q at same = ap length (some_inj q _ (sym at ∙ ap label same ∙ way.pd_label))

  v-leaf : (points 2 v ≡ false) × (frame_of v % 512 ≡ 0)
  v-leaf =
      let (present, large, writable, frame) = huge_digits phys aligned below in
      (if-true _ _ present ∙ ap not large, ap (λ x. x % 512) frame ∙ omega arith)

  mapped-Tree : Tree root label mapped
  mapped-Tree = record {
    root_label = tree.root_label;
    null_label = tree.null_label;
    frame_used = tree.frame_used;
    child_label = λ h q j at small leads. elim (mapped_one h q j at small) [
      | inl (same, here) ↦
          true_false _
            (ap₂ (λ n x. points n x) (depth_two h q at same) (mapped_entry h j same here)
              ∙ v-leaf.0)
            leads
      | inr kept ↦
          ap (λ x. label (frame_of x)) kept
          ∙ tree.child_label h q j at small (sym (ap (points (length q)) kept) ∙ leads)
    ];
    huge_aligned = λ h q j at small large. elim (mapped_one h q j at small) [
      | inl (same, here) ↦ ap (λ x. frame_of x % 512) (mapped_entry h j same here) ∙ v-leaf.1
      | inr kept ↦
          ap (λ x. frame_of x % 512) kept
          ∙ tree.huge_aligned h q j at small (sym (ap (huge (length q)) kept) ∙ large)
    ];
    pmm_valid = tree.pmm_valid;
    zero_used = tree.zero_used;
  }

  pub mapped-MapsMore : MapsMore root s mapped
  mapped-MapsMore = (
    (label, mapped-Tree),
    λ addr.
        elim (walk_visits s mapped.tables pd (pd_index phys) _ tree mapped_one way.pd_label root []
          (indexes addr) tree.root_label (small_indexes addr) refl) [
            | inl same ↦ inl same
            | inr uses ↦ let (a, b, c) = Uses-region addr phys uses in inr (region_page addr a b c)
          ],
  )
