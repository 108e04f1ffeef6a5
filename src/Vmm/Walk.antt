-- ===== src/Vmm/Walk.antt =====
-- What page tables mean, as a reference for kernel/mm/vmm.c: the walk from a top table along the
-- indexes of an address to a page, and the tables as a tree.
use mini_kernel.Prelude.{
  ℕ, suc, ◌+◌, ◌*◌, ◌/◌, ◌%◌, ◌<◌, ◌≡◌, refl, ap, ap₂, sym, ◌∙◌, ◌⊎◌, inl, inr, Bool, true, false,
  not, ◌&&◌, Option, none, some, List, [], ◌∷◌, if◌then◌else◌, ltb, ◌==◌, length, arith, Bool-cases,
}
use mini_kernel.Pmm.{is_used}
use mini_kernel.Pmm.Frames.{IsValid}
use mini_kernel.Vmm.{
  Vmm, page_present, page_writable, page_size_2mb, pml4_index, pdpt_index, pd_index, pt_index, has,
  frame_of,
}

-- Where a page is: its frame, and whether it may be written.
pub record Page : Type 0 where
  pub frame : ℕ
  pub writable : Bool

abbrev pub page_of : ℕ → ℕ → Page
page_of e frame = record { frame = frame; writable = has page_writable e }

-- One entry of the walk, with the next index and what the rest of the walk gives; with one index
-- left an entry may be a page of 2 MB, which begins at a multiple of 2 MB.
abbrev pub next : Bool → ℕ → ℕ → Option Page → Option Page
next one_left e j rest =
    if has page_present e
    then if one_left && has page_size_2mb e
      then some (page_of e (frame_of e / 512 * 512 + j))
      else rest
    else none

-- The walk from a table along the indexes that are left.
unfoldable pub walk : (ℕ → ℕ → ℕ) → ℕ → List ℕ → Option Page
walk t f [] = none
walk t f (i ∷ []) =
    if has page_present (t f i) then some (page_of (t f i) (frame_of (t f i))) else none
walk t f (i ∷ j ∷ is) = next (length is == 0) (t f i) j (walk t (frame_of (t f i)) (j ∷ is))

abbrev pub indexes : ℕ → List ℕ
indexes addr = pml4_index addr ∷ pdpt_index addr ∷ pd_index addr ∷ pt_index addr ∷ []

-- The page of an address in an address space.
abbrev pub translate : (ℕ → ℕ → ℕ) → ℕ → ℕ → Option Page
translate tables space addr = walk tables (frame_of space) (indexes addr)

-- Whether an entry of a table, with as many tables above it, leads to a table.
abbrev pub points : ℕ → ℕ → Bool
points depth e =
    if has page_present e
    then if ltb depth 2 then true else if depth == 2 then not (has page_size_2mb e) else false
    else false

abbrev pub huge : ℕ → ℕ → Bool
huge depth e = if depth == 2 then has page_present e && has page_size_2mb e else false

-- The tables below `root` are a tree: a label gives the path of each, the last index first. They
-- are in used frames.
pub record Tree (root : ℕ) (label : ℕ → Option (List ℕ)) (s : Vmm) : Type 0 where
  pub root_label : label root ≡ some []
  pub null_label : label 0 ≡ none
  pub frame_used : (f : ℕ) (p : List ℕ) → label f ≡ some p → is_used f s.pmm ≡ true
  pub child_label :
      (f : ℕ) (p : List ℕ) (i : ℕ)
      → label f ≡ some p
      → i < 512
      → points (length p) (s.tables f i) ≡ true
      → label (frame_of (s.tables f i)) ≡ some (i ∷ p)
  pub huge_aligned :
      (f : ℕ) (p : List ℕ) (i : ℕ)
      → label f ≡ some p
      → i < 512
      → huge (length p) (s.tables f i) ≡ true
      → frame_of (s.tables f i) % 512 ≡ 0
  pub pmm_valid : IsValid s.pmm
  pub zero_used : is_used 0 s.pmm ≡ true

abbrev pub AllIndexes : List ℕ → Type 0
AllIndexes [] = Unit {0}
AllIndexes (i ∷ is) = (i < 512) × AllIndexes is

-- The walk along `is` behind a table with path `p` uses the entry `i` of the table with path `q`.
abbrev pub Uses : List ℕ → ℕ → List ℕ → List ℕ → Type 0
Uses q i p [] = ⊥
Uses q i p (j ∷ is) = ((p ≡ q) × (j ≡ i)) ⊎ Uses q i (j ∷ p) is

-- Only entry `i` of table `f` differs, as seen in the tables of a tree.
abbrev pub OneEntry : (ℕ → Option (List ℕ)) → ℕ → ℕ → (ℕ → ℕ → ℕ) → (ℕ → ℕ → ℕ) → Type 0
OneEntry label f i t t' =
    (g : ℕ) (p : List ℕ) (j : ℕ)
    → label g ≡ some p
    → j < 512
    → ((g ≡ f) × (j ≡ i)) ⊎ (t' g j ≡ t g j)

pub some_inj {ℓ} : {A : Type ℓ} (a b : A) → some a ≡ some b → a ≡ b
some_inj a b e = cc

choose_rest {ℓ} :
    {A : Type ℓ} (p b : Bool) (x r r' n : A)
    → (p ≡ true → b ≡ false → r ≡ r')
    → (if p then if b then x else r else n) ≡ (if p then if b then x else r' else n)
choose_rest false b x r r' n h = refl
choose_rest true true x r r' n h = refl
choose_rest true false x r r' n h = h refl refl

walk_entry :
    (t t' : ℕ → ℕ → ℕ) (g j k : ℕ) (is : List ℕ)
    → t' g j ≡ t g j
    → (has page_present (t g j) ≡ true
        → ((length is == 0) && has page_size_2mb (t g j)) ≡ false
        → walk t' (frame_of (t g j)) (k ∷ is) ≡ walk t (frame_of (t g j)) (k ∷ is))
    → walk t' g (j ∷ k ∷ is) ≡ walk t g (j ∷ k ∷ is)
unfolding walk
walk_entry t t' g j k is e rest =
    ap (λ x. next (length is == 0) x k (walk t' (frame_of x) (k ∷ is))) e
    ∙ choose_rest (has page_present (t g j)) ((length is == 0) && has page_size_2mb (t g j)) _ _ _
        none rest

points_lem :
    (depth left e : ℕ)
    → depth + suc (suc left) ≡ 4
    → has page_present e ≡ true
    → ((left == 0) && has page_size_2mb e) ≡ false
    → points depth e ≡ true
points_lem depth left e four present large = ground arith

-- An entry that the walk follows leads to a table of the tree.
child_of :
    {root : ℕ} {label : ℕ → Option (List ℕ)} (s : Vmm) (g : ℕ) (p : List ℕ) (j k : ℕ) (is : List ℕ)
    → Tree root label s
    → label g ≡ some p
    → j < 512
    → length p + length (j ∷ k ∷ is) ≡ 4
    → has page_present (s.tables g j) ≡ true
    → ((length is == 0) && has page_size_2mb (s.tables g j)) ≡ false
    → label (frame_of (s.tables g j)) ≡ some (j ∷ p)
child_of s g p j k is tree at small four present large =
    tree.child_label g p j at small
      (points_lem (length p) (length is) (s.tables g j) four present large)

module _ {root : ℕ} {label : ℕ → Option (List ℕ)} (s : Vmm) (t' : ℕ → ℕ → ℕ) (f i : ℕ) (q : List ℕ)
    (tree : Tree root label s) (one : OneEntry label f i s.tables t')
    (at_f : label f ≡ some q) where
  same_path : (g : ℕ) (p : List ℕ) → label g ≡ some p → g ≡ f → p ≡ q
  same_path g p at e = some_inj p q (sym at ∙ ap label e ∙ at_f)

  -- A walk gives what it gave, or it uses the entry.
  pub walk_visits :
      (g : ℕ) (p is : List ℕ)
      → label g ≡ some p
      → AllIndexes is
      → length p + length is ≡ 4
      → (walk t' g is ≡ walk s.tables g is) ⊎ Uses q i p is
  unfolding walk
  walk_visits g p [] at small four = inl refl
  walk_visits g p (j ∷ []) at small four = elim (one g p j at small.0) [
    | inl (same_f, same_i) ↦ inr (inl (same_path g p at same_f, same_i))
    | inr e ↦ inl (ap (λ x. if has page_present x then some (page_of x (frame_of x)) else none) e)
  ]
  walk_visits g p (j ∷ k ∷ is) at small four = elim (one g p j at small.0) [
    | inl (same_f, same_i) ↦ inr (inl (same_path g p at same_f, same_i))
    | inr e ↦ elim (Bool-cases (has page_present (s.tables g j))) [
      | inr absent ↦ inl (walk_entry s.tables t' g j k is e (λ p'. cc))
      | inl present ↦ elim (Bool-cases ((length is == 0) && has page_size_2mb (s.tables g j))) [
        | inl large ↦ inl (walk_entry s.tables t' g j k is e (λ p' l. cc))
        | inr table ↦
            elim (walk_visits (frame_of (s.tables g j)) (j ∷ p) (k ∷ is)
              (child_of s g p j k is tree at small.0 four present table) small.1 (omega arith)) [
                | inl same ↦ inl (walk_entry s.tables t' g j k is e (λ p' l. same))
                | inr uses ↦ inr (inr uses)
              ]
      ]
    ]
  ]

  same_at :
      ((is : List ℕ)
        → AllIndexes is
        → length q + suc (length is) ≡ 4
        → walk t' f (i ∷ is) ≡ walk s.tables f (i ∷ is))
      → (g : ℕ) (p : List ℕ) (j : ℕ) (is : List ℕ) → label g ≡ some p
      → AllIndexes (j ∷ is)
      → length p + suc (length is) ≡ 4
      → g ≡ f
      → j ≡ i
      → walk t' g (j ∷ is) ≡ walk s.tables g (j ∷ is)
  same_at sub g p j is at small four same_f same_i =
      let path = ap length (same_path g p at same_f) in
      ap₂ (λ h k. walk t' h (k ∷ is)) same_f same_i
      ∙ sub is small.1 (omega arith)
      ∙ sym (ap₂ (λ h k. walk s.tables h (k ∷ is)) same_f same_i)

  -- Where the walks behind the entry give what they gave, all walks do.
  pub walk_same :
      ((is : List ℕ)
        → AllIndexes is
        → length q + suc (length is) ≡ 4
        → walk t' f (i ∷ is) ≡ walk s.tables f (i ∷ is))
      → (g : ℕ) (p is : List ℕ) → label g ≡ some p
      → AllIndexes is
      → length p + length is ≡ 4
      → walk t' g is ≡ walk s.tables g is
  unfolding walk
  walk_same sub g p [] at small four = refl
  walk_same sub g p (j ∷ []) at small four = elim (one g p j at small.0) [
    | inl (same_f, same_i) ↦ same_at sub g p j [] at small four same_f same_i
    | inr e ↦ ap (λ x. if has page_present x then some (page_of x (frame_of x)) else none) e
  ]
  walk_same sub g p (j ∷ k ∷ is) at small four = elim (one g p j at small.0) [
    | inl (same_f, same_i) ↦ same_at sub g p j (k ∷ is) at small four same_f same_i
    | inr e ↦ walk_entry s.tables t' g j k is e (λ present table.
        walk_same sub (frame_of (s.tables g j)) (j ∷ p) (k ∷ is)
          (child_of s g p j k is tree at small.0 four present table) small.1 (omega arith))
  ]
