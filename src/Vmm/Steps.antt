-- ===== src/Vmm/Steps.antt =====
-- The steps of kernel/mm/vmm.c that open an entry of a table to users, or link a new table: the tree
-- grows, and every address keeps its page.
use mini_kernel.Prelude.{
  ℕ, ◌+◌, ◌*◌, ◌/◌, ◌%◌, ◌<◌, ◌≡◌, refl, ap, ap₂, sym, subst, ◌∙◌, ◌⊎◌, inl, inr, Bool, true, false,
  not, ◌&&◌, Option, none, some, List, [], ◌∷◌, if◌then◌else◌, if_elim, ltb, ◌==◌, length, arith,
  ==_iff,
}
use mini_kernel.Vmm.{
  Vmm, page_present, page_writable, page_user, page_size_2mb, has, with_flag, frame_of, set_entry,
}
use mini_kernel.Vmm.Walk.{Page, page_of, walk, points, huge, Tree, AllIndexes, OneEntry}

-- Setting the user flag changes no other digit.
SameDigits : ℕ → ℕ → Type 0
SameDigits e x =
    (x / 1 % 2 ≡ e / 1 % 2)
    × (x / 2 % 2 ≡ e / 2 % 2)
    × (x / 128 % 2 ≡ e / 128 % 2)
    × (frame_of x ≡ frame_of e)
    × (x / 4 % 2 ≡ 1)

with_user-SameDigits : (e : ℕ) → SameDigits e (with_flag page_user e)
unfolding SameDigits
with_user-SameDigits e =
    if_elim (SameDigits e) (has page_user e)
      (λ h. let one : e / 4 % 2 ≡ 1 = ground arith in (refl, refl, refl, refl, one))
      (λ h.
        let clear : e / 4 % 2 ≡ 0 = ground arith in
        (omega arith, omega arith, omega arith, omega arith, omega arith))

pub with_user :
    (e : ℕ)
    → let e' = with_flag page_user e in
      (has page_present e' ≡ has page_present e)
      × (has page_writable e' ≡ has page_writable e)
      × (has page_size_2mb e' ≡ has page_size_2mb e)
      × (frame_of e' ≡ frame_of e)
      × (has page_user e' ≡ true)
unfolding SameDigits
with_user e =
    let (a, b, c, d, u) = with_user-SameDigits e in
    let is_one = λ (x : ℕ). x == 1 in (ap is_one a, ap is_one b, ap is_one c, d, ap is_one u)

-- Two entries that a walk cannot tell apart.
abbrev Similar : ℕ → ℕ → Type 0
Similar e e' =
    (has page_present e' ≡ has page_present e)
    × (has page_writable e' ≡ has page_writable e)
    × (has page_size_2mb e' ≡ has page_size_2mb e)
    × (frame_of e' ≡ frame_of e)

Similar-points : (depth e e' : ℕ) → Similar e e' → points depth e' ≡ points depth e
Similar-points depth e e' (a, b, c, d) =
    ap₂
      (λ x y.
        if x then if ltb depth 2 then true else if depth == 2 then not y else false else false)
      a c

Similar-huge : (depth e e' : ℕ) → Similar e e' → huge depth e' ≡ huge depth e
Similar-huge depth e e' (a, b, c, d) = ap₂ (λ x y. if depth == 2 then x && y else false) a c

Similar-page : (e e' n n' : ℕ) → Similar e e' → n' ≡ n → page_of e' n' ≡ page_of e n
Similar-page e e' n n' (a, b, c, d) same =
    ap₂ (λ x y. let r : Page = record { frame = x; writable = y } in r) same b

Similar-walk :
    (t t' : ℕ → ℕ → ℕ)
    → ((g j : ℕ) → Similar (t g j) (t' g j))
    → (g : ℕ) (is : List ℕ) → walk t' g is ≡ walk t g is
unfolding walk
Similar-walk t t' h g [] = refl
Similar-walk t t' h g (j ∷ []) =
    let (a, b, c, d) = h g j in
    ap₂ (λ x (y : Page). if x then some y else none) a
      (Similar-page (t g j) (t' g j) (frame_of (t g j)) (frame_of (t' g j)) (h g j) d)
Similar-walk t t' h g (j ∷ k ∷ is) =
    let (a, b, c, d) = h g j in
    let page = Similar-page (t g j) (t' g j) _ _ (h g j) (ap (λ x. x / 512 * 512 + k) d) in
    let rest = ap (λ x. walk t' x (k ∷ is)) d ∙ Similar-walk t t' h (frame_of (t g j)) (k ∷ is) in
    let chosen : Bool → Bool → Page → Option Page → Option Page =
      λ x y z r. if x then if (length is == 0) && y then some z else r else none in
    ap₂
      (λ x y.
        chosen x y (page_of (t' g j) (frame_of (t' g j) / 512 * 512 + k))
          (walk t' (frame_of (t' g j)) (k ∷ is)))
      a c
    ∙ ap₂ (chosen (has page_present (t g j)) (has page_size_2mb (t g j))) page rest

-- Entry `i` of the table `f` with path `p` leads to the table `g`. The tree
-- has all its tables and perhaps a new one, and every address keeps its page.
pub record Opened (root : ℕ) (label : ℕ → Option (List ℕ)) (s : Vmm) (f i : ℕ) (p : List ℕ) (g : ℕ)
    (s' : Vmm) : Type 0 where
  pub label' : ℕ → Option (List ℕ)
  pub tree : Tree root label' s'
  pub extends : (h : ℕ) (q : List ℕ) → label h ≡ some q → label' h ≡ some q
  pub entry : points (length p) (s'.tables f i) ≡ true
  pub target : frame_of (s'.tables f i) ≡ g
  pub child : label' g ≡ some (i ∷ p)
  pub one_entry : OneEntry label f i s.tables s'.tables
  pub same_walks :
      (is : List ℕ) → AllIndexes is → length is ≡ 4 → walk s'.tables root is ≡ walk s.tables root is

pub set_entry_at : (t : ℕ → ℕ → ℕ) (f i v : ℕ) → set_entry t f i v f i ≡ v
set_entry_at t f i v = ground arith

pub set_entry_elim {ℓ} :
    (P : ℕ → Type ℓ) (t : ℕ → ℕ → ℕ) (f i v g j : ℕ)
    → (g ≡ f → j ≡ i → P v)
    → P (t g j)
    → P (set_entry t f i v g j)
set_entry_elim P t f i v g j at other =
    if_elim P (g == f)
      (λ same.
        if_elim P (j == i) (λ here. at ((==_iff g f).0 same) ((==_iff j i).0 here)) (λ ne. other))
      (λ ne. other)

pub OneEntry-set_entry :
    (label : ℕ → Option (List ℕ)) (t : ℕ → ℕ → ℕ) (f i v : ℕ)
    → OneEntry label f i t (set_entry t f i v)
OneEntry-set_entry label t f i v g p j at small =
    set_entry_elim (λ x. ((g ≡ f) × (j ≡ i)) ⊎ (x ≡ t g j)) t f i v g j
      (λ same here. inl (same, here)) (inr refl)

-- Opening an entry of a table on the way to a page.
module _ (root : ℕ) (label : ℕ → Option (List ℕ)) (s : Vmm) (f i : ℕ) (p : List ℕ)
    (tree : Tree root label s) (at : label f ≡ some p) (small : i < 512) where
  abbrev pub opened : Vmm
  opened = record s { tables = set_entry s.tables f i (with_flag page_user (s.tables f i)) }

  opened-Similar : (g j : ℕ) → Similar (s.tables g j) (opened.tables g j)
  opened-Similar g j =
      let (a, b, c, d, u) = with_user (s.tables f i) in
      set_entry_elim (Similar (s.tables g j)) s.tables f i (with_flag page_user (s.tables f i)) g j
        (λ same here.
          subst (λ e. Similar e (with_flag page_user (s.tables f i)))
            (sym (ap₂ (λ h k. s.tables h k) same here)) (a, b, c, d))
        (refl, refl, refl, refl)

  pub opened-Opened :
      points (length p) (s.tables f i) ≡ true
      → Opened root label s f i p (frame_of (s.tables f i)) opened
  opened-Opened leads =
      let (a, b, c, d, u) = with_user (s.tables f i) in
      let entry = set_entry_at s.tables f i (with_flag page_user (s.tables f i)) in
      record {
        label' = label;
        tree = record {
          root_label = tree.root_label;
          null_label = tree.null_label;
          frame_used = tree.frame_used;
          child_label = λ h q j at_h small_j leads_h.
              let same = opened-Similar h j in
              ap label same.3
              ∙ tree.child_label h q j at_h small_j (
                  sym (Similar-points (length q) (s.tables h j) (opened.tables h j) same)
                  ∙ leads_h);
          huge_aligned = λ h q j at_h small_j large.
              let same = opened-Similar h j in
              ap (λ x. x % 512) same.3
              ∙ tree.huge_aligned h q j at_h small_j
                  (sym (Similar-huge (length q) (s.tables h j) (opened.tables h j) same) ∙ large);
          pmm_valid = tree.pmm_valid;
          zero_used = tree.zero_used;
        };
        extends = λ h q e. e;
        entry =
            Similar-points (length p) (s.tables f i) (opened.tables f i) (opened-Similar f i)
            ∙ leads;
        target = ap frame_of entry ∙ d;
        child = tree.child_label f p i at small leads;
        one_entry = OneEntry-set_entry label s.tables f i (with_flag page_user (s.tables f i));
        same_walks = λ is q four. Similar-walk s.tables opened.tables opened-Similar root is;
      }

-- One step after another on the same entry.
pub Opened-trans :
    (root : ℕ) (label : ℕ → Option (List ℕ)) (s : Vmm) (f i : ℕ) (p : List ℕ) (g : ℕ) (s1 s2 : Vmm)
    → (first : Opened root label s f i p g s1) → Opened root first.label' s1 f i p g s2
    → Opened root label s f i p g s2
Opened-trans root label s f i p g s1 s2 first second = record {
  label' = second.label';
  tree = second.tree;
  extends = λ h q e. second.extends h q (first.extends h q e);
  entry = second.entry;
  target = second.target;
  child = second.child;
  one_entry = λ h q j at small. elim (first.one_entry h q j at small) [
    | inl here ↦ inl here
    | inr e ↦ elim (second.one_entry h q j (first.extends h q at) small) [
      | inl here ↦ inl here
      | inr e' ↦ inr (e' ∙ e)
    ]
  ];
  same_walks = λ is q four. second.same_walks is q four ∙ first.same_walks is q four;
}
