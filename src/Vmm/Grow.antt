-- ===== src/Vmm/Grow.antt =====
-- `get_or_create_table` and `get_or_split_pt_entry` of kernel/mm/vmm.c: each step of the way to the
-- table of a page finds a table, links an empty one, or splits a page of 2 MB.
use mini_kernel.Prelude.{
  ℕ, suc, ◌+◌, ◌*◌, ◌/◌, ◌%◌, ◌≤◌, ◌<◌, ◌≡◌, refl, ap, ap₂, sym, ◌∙◌, true, false, ◌&&◌, Option,
  none, some, List, [], ◌∷◌, if◌then◌else◌, if-true, if-false, ◌==◌, length, arith,
}
use mini_kernel.Pmm.{max_frames}
use mini_kernel.Vmm.{
  Vmm, page_present, page_writable, page_user, page_size_2mb, page_4kb_size, has, frame_of,
}
use mini_kernel.Vmm.Walk.{Page, page_of, next, walk, points, huge, Tree, AllIndexes}
use mini_kernel.Vmm.Steps.{Opened}
use mini_kernel.Vmm.Install.{Fresh, linked, linked-Opened, linked_new, linked_entry}

-- An entry that is a link to a table.
abbrev pub IsLink : ℕ → ℕ → Type 0
IsLink g e = (has page_present e ≡ true) × (has page_size_2mb e ≡ false) × (frame_of e ≡ g)

pub table_entry-IsLink :
    (g : ℕ) → g < max_frames → IsLink g (g * page_4kb_size + page_present + page_writable)
table_entry-IsLink g below = (
  (let bit : (g * 4096 + 1 + 2) / 1 % 2 ≡ 1 = omega arith in ground arith),
  (let bit : (g * 4096 + 1 + 2) / 128 % 2 ≡ 0 = omega arith in ground arith),
  omega arith,
)

pub user_table_entry-IsLink :
    (g : ℕ)
    → g < max_frames
    → IsLink g (g * page_4kb_size + page_present + page_writable + page_user)
user_table_entry-IsLink g below = (
  (let bit : (g * 4096 + 1 + 2 + 4) / 1 % 2 ≡ 1 = omega arith in ground arith),
  (let bit : (g * 4096 + 1 + 2 + 4) / 128 % 2 ≡ 0 = omega arith in ground arith),
  omega arith,
)

pub user_link_user :
    (g : ℕ) → has page_user (g * page_4kb_size + page_present + page_writable + page_user) ≡ true
user_link_user g =
    let bit : (g * 4096 + 1 + 2 + 4) / 4 % 2 ≡ 1 = omega arith in ap (λ (x : ℕ). x == 1) bit

link_points : (depth g e : ℕ) → depth ≤ 2 → IsLink g e → points depth e ≡ true
link_points depth g e shallow (present, small, target) = ground arith

link_not_huge : (depth g e : ℕ) → IsLink g e → huge depth e ≡ false
link_not_huge depth g e (present, small, target) = ground arith

-- A walk over a link.
walk_link :
    (t : ℕ → ℕ → ℕ) (f i g e j : ℕ) (is : List ℕ)
    → t f i ≡ e
    → IsLink g e
    → walk t f (i ∷ j ∷ is) ≡ walk t g (j ∷ is)
unfolding walk
walk_link t f i g e j is here (present, small, target) =
    ap (λ x. next (length is == 0) x j (walk t (frame_of x) (j ∷ is))) here
    ∙ (let small' : ((length is == 0) && has page_size_2mb e) ≡ false = ground arith in
        if-true _ _ present ∙ if-false _ _ small')
    ∙ ap (λ x. walk t x (j ∷ is)) target

-- A walk to an entry that is not there.
walk_absent :
    (t : ℕ → ℕ → ℕ) (f i : ℕ) (is : List ℕ)
    → has page_present (t f i) ≡ false
    → walk t f (i ∷ is) ≡ none
unfolding walk
walk_absent t f i [] absent = if-false _ _ absent
walk_absent t f i (j ∷ is) absent = if-false _ _ absent

-- Page `j` of the 512 that an entry of 2 MB is split into.
split_digits :
    (e j : ℕ)
    → j < 512
    → frame_of e % 512 ≡ 0
    → let x = (frame_of e + j) * page_4kb_size + e % 4 in
      (has page_present x ≡ has page_present e)
      × (has page_writable x ≡ has page_writable e)
      × (frame_of x ≡ frame_of e / 512 * 512 + j)
split_digits e j lt aligned =
    let x = (frame_of e + j) * page_4kb_size + e % 4 in
    let bit1 : x / 1 % 2 ≡ e / 1 % 2 = omega arith in
    let bit2 : x / 2 % 2 ≡ e / 2 % 2 = omega arith in
    let is_one = λ (y : ℕ). y == 1 in (ap is_one bit1, ap is_one bit2, omega arith)

split_page :
    (e j : ℕ)
    → j < 512
    → frame_of e % 512 ≡ 0
    → let x = (frame_of e + j) * page_4kb_size + e % 4 in
      page_of x (frame_of x) ≡ page_of e (frame_of e / 512 * 512 + j)
split_page e j lt aligned =
    let (present, writable, frame) = split_digits e j lt aligned in
    ap₂ (λ x y. let r : Page = record { frame = x; writable = y } in r) frame writable

module _ (root : ℕ) (label : ℕ → Option (List ℕ)) (s : Vmm) (f i : ℕ) (p : List ℕ)
    (tree : Tree root label s) (at : label f ≡ some p) (small : i < 512) (shallow : length p ≤ 2)
    (row : ℕ → ℕ) (g : ℕ) (s1 : Vmm) (fresh : Fresh row s g s1) (e : ℕ) (link : IsLink g e) where
  abbrev pub grown : Vmm
  grown = linked root label s f i p tree at small row g s1 fresh e

  -- The walks over the new link are those of the new table.
  grown_walk :
      (j : ℕ) (is : List ℕ) → walk grown.tables f (i ∷ j ∷ is) ≡ walk grown.tables g (j ∷ is)
  grown_walk j is =
      walk_link grown.tables f i g e j is
        (linked_entry root label s f i p tree at small row g s1 fresh e) link

  empty_sub :
      has page_present (s.tables f i) ≡ false
      → ((j : ℕ) → row j ≡ 0)
      → (is : List ℕ) → AllIndexes is
      → length p + suc (length is) ≡ 4
      → walk grown.tables f (i ∷ is) ≡ walk s.tables f (i ∷ is)
  empty_sub absent zeros [] small_is four = absurd (omega arith)
  empty_sub absent zeros (j ∷ is) small_is four =
      let entry =
        linked_new root label s f i p tree at small row g s1 fresh e j small_is.0 ∙ zeros j in
      let missing : has page_present (grown.tables g j) ≡ false =
        ap (has page_present) entry ∙ refl in
      grown_walk j is
      ∙ walk_absent grown.tables g j is missing
      ∙ sym (walk_absent s.tables f i (j ∷ is) absent)

  -- An empty table behind an entry that was not there.
  pub empty-Opened :
      has page_present (s.tables f i) ≡ false
      → ((j : ℕ) → row j ≡ 0)
      → Opened root label s f i p g grown
  empty-Opened absent zeros =
      linked-Opened root label s f i p tree at small row g s1 fresh e
        (link_points (length p) g e shallow link) link.2 (link_not_huge (length p) g e link)
        (λ j lt. let z = zeros j in (ground arith, ground arith)) (empty_sub absent zeros)

  split_sub :
      length p ≡ 2
      → huge 2 (s.tables f i) ≡ true
      → ((j : ℕ) → row j ≡ (frame_of (s.tables f i) + j) * page_4kb_size + s.tables f i % 4)
      → (is : List ℕ) → AllIndexes is
      → length p + suc (length is) ≡ 4
      → walk grown.tables f (i ∷ is) ≡ walk s.tables f (i ∷ is)
  unfolding walk
  split_sub two large pages [] small_is four = absurd (omega arith)
  split_sub two large pages (j ∷ k ∷ is) small_is four = absurd (omega arith)
  split_sub two large pages (j ∷ []) small_is four =
      let e0 = s.tables f i in
      let lt = small_is.0 in
      let aligned = tree.huge_aligned f p i at small (ap (λ n. huge n e0) two ∙ large) in
      let entry = linked_new root label s f i p tree at small row g s1 fresh e j lt ∙ pages j in
      let (present, writable, frame) = split_digits e0 j lt aligned in
      let old_present : has page_present e0 ≡ true = ground (arith, large) in
      let old_size : has page_size_2mb e0 ≡ true = ground (arith, large) in
      let new_page = split_page e0 j lt aligned in
      grown_walk j []
      ∙ ap (λ x. if has page_present x then some (page_of x (frame_of x)) else none) entry
      ∙ if-true _ _ (present ∙ old_present)
      ∙ ap (λ x. some x) new_page
      ∙ sym (if-true _ _ old_present ∙ if-true _ _ old_size)

  -- A page of 2 MB split into its 512 pages.
  pub split-Opened :
      length p ≡ 2
      → huge 2 (s.tables f i) ≡ true
      → ((j : ℕ) → row j ≡ (frame_of (s.tables f i) + j) * page_4kb_size + s.tables f i % 4)
      → Opened root label s f i p g grown
  split-Opened two large pages =
      linked-Opened root label s f i p tree at small row g s1 fresh e
        (link_points (length p) g e shallow link) link.2 (link_not_huge (length p) g e link)
        (λ j lt. (ground arith, ground arith)) (split_sub two large pages)
