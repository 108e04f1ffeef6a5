-- ===== src/Vmm/Descend.antt =====
-- What `get_or_create_table` and the split of kernel/mm/vmm.c do to a tree of page tables.
use mini_kernel.Prelude.{
  ℕ, ◌+◌, ◌*◌, ◌%◌, ◌<◌, ◌≡◌, ◌≢◌, refl, ap, sym, subst, ◌∙◌, ◌⊎◌, inl, inr, true, false, Option,
  none, some, List, ◌∷◌, if◌then◌else◌, if-true, if-false, ◌==◌, length, arith, Bool-cases,
}
use mini_kernel.Vmm.{
  Vmm, page_present, page_writable, page_user, page_size_2mb, page_4kb_size, has, with_flag,
  frame_of, set_entry, new_table, open_entry, get_or_create_table, install, pt_of,
}
use mini_kernel.Vmm.Walk.{points, huge, Tree}
use mini_kernel.Vmm.Steps.{Opened, opened, opened-Opened, Opened-trans, set_entry_at, with_user}
use mini_kernel.Vmm.Install.{Fresh, new_table-Fresh, linked, linked_entry}
use mini_kernel.Vmm.Grow.{
  IsLink, table_entry-IsLink, user_table_entry-IsLink, user_link_user, empty-Opened, split-Opened,
}

-- A linked table of the tree is not the null pointer.
pub Opened-not_null :
    (root : ℕ) (label : ℕ → Option (List ℕ)) (s : Vmm) (f i : ℕ) (p : List ℕ) (g : ℕ) (s' : Vmm)
    → Opened root label s f i p g s'
    → g ≢ 0
Opened-not_null root label s f i p g s' o e =
    let null = o.tree.null_label in
    let child = subst (λ h. o.label' h ≡ some (i ∷ p)) e o.child in cc

-- The entry is open to users.
abbrev pub IsUser : Vmm → ℕ → ℕ → Type 0
IsUser s f i = has page_user (s.tables f i) ≡ true

abbrev pub Leads : ℕ → (ℕ → Option (List ℕ)) → Vmm → ℕ → ℕ → List ℕ → ℕ × Vmm → Type 0
Leads root label s f i p (g, s') = Opened root label s f i p g s' × IsUser s' f i

module _ (root : ℕ) (label : ℕ → Option (List ℕ)) (s : Vmm) (f i : ℕ) (p : List ℕ)
    (tree : Tree root label s) (at : label f ≡ some p) (small : i < 512) where
  opened-IsUser : IsUser (opened root label s f i p tree at small) f i
  opened-IsUser =
      ap (has page_user) (set_entry_at s.tables f i (with_flag page_user (s.tables f i)))
      ∙ (with_user (s.tables f i)).4

  -- The end of `get_or_create_table`.
  open_entry_lem :
      points (length p) (s.tables f i) ≡ true → Leads root label s f i p (open_entry f i s)
  unfolding open_entry
  open_entry_lem leads = (
    subst (λ g. Opened root label s f i p g (opened root label s f i p tree at small))
        (sym (with_user (s.tables f i)).3) (opened-Opened root label s f i p tree at small leads),
    opened-IsUser,
  )

-- `open_entry` after a step that led to the table.
open_after :
    (root : ℕ) (label : ℕ → Option (List ℕ)) (s : Vmm) (f i : ℕ) (p : List ℕ) (g : ℕ) (s1 : Vmm)
    → label f ≡ some p
    → i < 512
    → Opened root label s f i p g s1
    → Leads root label s f i p (open_entry f i s1)
unfolding open_entry
open_after root label s f i p g s1 at small o =
    let (second, user) =
      open_entry_lem root o.label' s1 f i p o.tree (o.extends f p at) small o.entry in
    let same : (open_entry f i s1).0 ≡ g = (with_user (s1.tables f i)).3 ∙ o.target in
    let o' = subst (λ h. Opened root o.label' s1 f i p h (open_entry f i s1).1) same second in
    (
      subst (λ h. Opened root label s f i p h (open_entry f i s1).1) (sym same)
          (Opened-trans root label s f i p g s1 (open_entry f i s1).1 o o'),
      user,
    )

module _ (root : ℕ) (label : ℕ → Option (List ℕ)) (s : Vmm) (f i : ℕ) (p : List ℕ)
    (tree : Tree root label s) (at : label f ≡ some p) (small : i < 512) where
  link_after : ℕ × Vmm → ℕ × Vmm
  link_after (frame, s1) =
      if frame == 0
      then (0, s1)
      else open_entry f i (record s1 {
        tables = set_entry s1.tables f i (frame * page_4kb_size + page_present + page_writable);
      })

  -- An upper table: out of frames, nothing changes; otherwise the entry leads to the table returned.
  pub get_or_create_table_lem :
      length p < 2
      → (get_or_create_table f i s ≡ (0, s)) ⊎ Leads root label s f i p (get_or_create_table f i s)
  unfolding get_or_create_table link_after
  get_or_create_table_lem shallow = elim (Bool-cases (has page_present (s.tables f i))) [
    | inl present ↦
        let leads : points (length p) (s.tables f i) ≡ true = ground arith in
        inr (
          subst (Leads root label s f i p) (sym (if-true _ _ present))
            (open_entry_lem root label s f i p tree at small leads))
    | inr absent ↦ elim (new_table-Fresh (λ j. 0) s tree.pmm_valid tree.zero_used) [
      | inl none_free ↦ inl (if-false _ _ absent ∙ ap link_after none_free)
      | inr (g, s1, got, fresh) ↦
          let link = table_entry-IsLink g fresh.below in
          let ne = fresh.not_null in
          let some_frame : (g == 0) ≡ false = ground arith in
          let e = g * page_4kb_size + page_present + page_writable in
          let o =
            empty-Opened root label s f i p tree at small (omega arith) (λ j. 0) g s1 fresh e link
              absent (λ j. refl) in
          let shape =
            ap (λ (t : ℕ → ℕ → ℕ). open_entry f i (record s1 { tables = set_entry t f i e }))
              (ap (λ (r : Vmm). r.tables) fresh.shape) in
          inr (
            subst (Leads root label s f i p)
              (sym (if-false _ _ absent ∙ ap link_after got ∙ if-false _ _ some_frame ∙ shape))
              (open_after root label s f i p g
                (linked root label s f i p tree at small (λ j. 0) g s1 fresh e) at small o))
    ]
  ]

abbrev pub LeadsOption : ℕ → (ℕ → Option (List ℕ)) → Vmm → ℕ → ℕ → List ℕ → Option ℕ × Vmm → Type 0
LeadsOption root label s f i p r =
    (g : ℕ) × (s' : Vmm) × (r ≡ (some g, s')) × Opened root label s f i p g s' × IsUser s' f i

module _ (root : ℕ) (label : ℕ → Option (List ℕ)) (s : Vmm) (f i : ℕ) (p : List ℕ)
    (tree : Tree root label s) (at : label f ≡ some p) (small : i < 512) (two : length p ≡ 2) where
  install_after : ℕ × Vmm → Option ℕ × Vmm
  install_after (frame, s1) = if frame == 0 then (none, s1) else (
    some frame,
    record s1 {
      tables =
          set_entry s1.tables f i
            (frame * page_4kb_size + page_present + page_writable + page_user);
    },
  )

  install-some :
      (row : ℕ → ℕ) (g : ℕ) (s1 : Vmm)
      → new_table row s ≡ (g, s1)
      → (fresh : Fresh row s g s1)
      → let e = g * page_4kb_size + page_present + page_writable + page_user in
        install f i row s ≡ (some g, linked root label s f i p tree at small row g s1 fresh e)
  unfolding install install_after
  install-some row g s1 got fresh =
      let ne = fresh.not_null in
      let some_frame : (g == 0) ≡ false = ground arith in
      let e = g * page_4kb_size + page_present + page_writable + page_user in
      let finish : (ℕ → ℕ → ℕ) → Option ℕ × Vmm =
        λ t. (some g, record s1 { tables = set_entry t f i e }) in
      ap install_after got
      ∙ if-false _ _ some_frame
      ∙ ap finish (ap (λ (r : Vmm). r.tables) fresh.shape)

  -- `install` with a table that keeps all walks.
  install_lem :
      (row : ℕ → ℕ)
      → ((g : ℕ) (s1 : Vmm) (fresh : Fresh row s g s1) (e : ℕ)
          → IsLink g e
          → Opened root label s f i p g (linked root label s f i p tree at small row g s1 fresh e))
      → (install f i row s ≡ (none, s)) ⊎ LeadsOption root label s f i p (install f i row s)
  unfolding install install_after
  install_lem row opens = elim (new_table-Fresh row s tree.pmm_valid tree.zero_used) [
    | inl none_free ↦ inl (ap install_after none_free)
    | inr (g, s1, got, fresh) ↦
        let e = g * page_4kb_size + page_present + page_writable + page_user in
        inr (
          g,
          linked root label s f i p tree at small row g s1 fresh e,
          install-some row g s1 got fresh,
          opens g s1 fresh e (user_table_entry-IsLink g fresh.below),
          ap (has page_user) (linked_entry root label s f i p tree at small row g s1 fresh e)
              ∙ user_link_user g,
        )
  ]

  -- The lowest table: out of frames, nothing changes; otherwise the entry leads to the table returned.
  pub pt_of_lem : (pt_of f i s ≡ (none, s)) ⊎ LeadsOption root label s f i p (pt_of f i s)
  unfolding pt_of
  pt_of_lem = elim (Bool-cases (has page_present (s.tables f i))) [
    | inr absent ↦
        let split_row : ℕ → ℕ = λ j. 0 in
        let same : pt_of f i s ≡ install f i (λ j. 0) s = if-false _ _ absent in
        subst (λ r. (r ≡ (none, s)) ⊎ LeadsOption root label s f i p r) (sym same)
          (install_lem (λ j. 0)
            (λ g s1 fresh e link.
              empty-Opened root label s f i p tree at small (omega arith) (λ j. 0) g s1 fresh e link
                absent (λ j. refl)))
    | inl present ↦ elim (Bool-cases (has page_size_2mb (s.tables f i))) [
      | inl large ↦
          let row : ℕ → ℕ = λ j. (frame_of (s.tables f i) + j) * page_4kb_size + s.tables f i % 4 in
          let is_huge : huge 2 (s.tables f i) ≡ true = ground arith in
          let same : pt_of f i s ≡ install f i row s = if-true _ _ present ∙ if-true _ _ large in
          subst (λ r. (r ≡ (none, s)) ⊎ LeadsOption root label s f i p r) (sym same)
            (install_lem row (λ g s1 fresh e link.
              split-Opened root label s f i p tree at small (omega arith) row g s1 fresh e link two
                is_huge (λ j. refl)))
      | inr table ↦
          let leads : points (length p) (s.tables f i) ≡ true = ground arith in
          inr (
            frame_of (s.tables f i),
            opened root label s f i p tree at small,
            if-true _ _ present ∙ if-false _ _ table,
            opened-Opened root label s f i p tree at small leads,
            opened-IsUser root label s f i p tree at small,
          )
    ]
  ]
