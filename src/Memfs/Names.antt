-- ===== src/Memfs/Names.antt =====
-- The names of the files of kernel/core/memfs.c: creating, finding and deleting.
use mini_kernel.Prelude.{
  str_eq, str_eq_sound, str_eq_refl, ℕ, zero, suc, ◌+◌, ◌≤◌, ◌<◌, ◌≡◌, ◌≢◌, refl, ap, sym, subst,
  ◌∙◌, ℤ, pos, minus_one, true, false, Option, none, some, List, [], ◌∷◌, update, update_ne,
  update_self, length, take, arith, ◌⊎◌, inl, inr, Option-cases, if_elim, dec_lt, ℕ_discrete,
}
use mini_kernel.Memfs.{
  MemfsEntry, Memfs, with_entry, empty_entry, grow_table, copy_name, find_named, find_slot,
  find_unused, find_free_slot, fill_entry, new_slot, memfs_create, memfs_find, memfs_delete,
}
use mini_kernel.Memfs.Contents.{InUse}

-- Slot `i` holds a file of the name.
abbrev pub Has : (ℕ → MemfsEntry) → List ℕ → ℕ → Type 0
Has entries name i = ((entries i).in_use ≡ true) × ((entries i).name ≡ name)

-- What a search of the slots from `i` on and below `last` gives.
abbrev Found : (ℕ → MemfsEntry) → List ℕ → ℕ → ℕ → Option ℕ → Type 0
Found entries name i last r =
    ((r ≡ none) × ((j : ℕ) → i ≤ j → j < last → ¬ Has entries name j))
    ⊎ (j : ℕ) × (r ≡ some j) × (i ≤ j) × (j < last) × Has entries name j

Found-later :
    (entries : ℕ → MemfsEntry) (name : List ℕ) (i last : ℕ) (r : Option ℕ)
    → ¬ Has entries name i
    → Found entries name (i + 1) last r
    → Found entries name i last r
Found-later entries name i last r ne found = elim found [
  | inl (e, none_of) ↦ inl (
    e,
    λ j p q h. elim (ℕ_discrete j i) [
      | yes same ↦ ne (subst (Has entries name) same h)
      | no other ↦ none_of j (omega arith) q h
    ],
  )
  | inr (j, e, p, q, h) ↦ inr (j, e, omega arith, q, h)
]

find_named_cases :
    (entries : ℕ → MemfsEntry) (name : List ℕ) (rounds i : ℕ)
    → Found entries name i (i + rounds) (find_named entries name rounds i)
unfolding find_named
find_named_cases entries name zero i = inl (refl, λ j p q h. absurd (omega arith))
find_named_cases entries name (suc rounds) i =
    let rest = find_named entries name rounds (i + 1) in
    let found : Found entries name (i + 1) (i + suc rounds) rest =
      subst (λ n. Found entries name (i + 1) n rest) (omega arith)
        (find_named_cases entries name rounds (i + 1)) in
    let later =
      λ (ne : ¬ Has entries name i). Found-later entries name i (i + suc rounds) rest ne found in
    if_elim (Found entries name i (i + suc rounds)) (entries i).in_use
      (λ u.
        if_elim (Found entries name i (i + suc rounds)) (str_eq (entries i).name name)
          (λ e. inr (i, refl, omega arith, omega arith, (u, str_eq_sound (entries i).name name e)))
          (λ e. later λ (v, n). cc (e, str_eq_refl (entries i).name, n)))
      (λ u. later λ (v, n). cc)

-- The file that a name finds: none, or a slot that holds it.
pub find_slot_cases :
    (s : Memfs) (name : List ℕ)
    → ((find_slot s name ≡ none) × ((j : ℕ) → InUse s j → (s.entries j).name ≢ name))
      ⊎ (j : ℕ) × (find_slot s name ≡ some j) × InUse s j × ((s.entries j).name ≡ name)
unfolding find_slot
find_slot_cases s name = elim (find_named_cases s.entries name s.entry_capacity 0) [
  | inl (e, no_file) ↦ inl (e, λ j (lt, u) n. no_file j (omega arith) (omega arith) (u, n))
  | inr (j, e, p, q, h) ↦ inr (j, e, (omega arith, h.0), h.1)
]

find_unused_cases :
    (entries : ℕ → MemfsEntry) (rounds i : ℕ)
    → (find_unused entries rounds i ≡ none)
      ⊎ (j : ℕ) × (find_unused entries rounds i ≡ some j)
        × (j < i + rounds)
        × ((entries j).in_use ≡ false)
unfolding find_unused
find_unused_cases entries zero i = inl refl
find_unused_cases entries (suc rounds) i =
    if_elim
      (λ (r : Option ℕ).
        (r ≡ none) ⊎ (j : ℕ) × (r ≡ some j) × (j < i + suc rounds) × ((entries j).in_use ≡ false))
      (entries i).in_use
      (λ u. elim (find_unused_cases entries rounds (i + 1)) [
        | inl e ↦ inl e
        | inr (j, e, p, free) ↦ inr (j, e, omega arith, free)
      ])
      (λ u. inr (i, refl, omega arith, u))

-- The table has the same files.
pub record SameFiles (s s' : Memfs) : Type 0 where
  pub kept : (j : ℕ) → InUse s j → InUse s' j × (s'.entries j ≡ s.entries j)
  pub no_other : (j : ℕ) → InUse s' j → InUse s j

grow_table-SameFiles :
    (table : ℕ → MemfsEntry) (s : Memfs) → SameFiles s (grow_table (some table) s).1
unfolding grow_table
grow_table-SameFiles table s = record {
  kept = λ j (lt, u). ((ground arith, ground arith), ground arith);
  no_other = λ j (lt, u). elim (dec_lt j s.entry_capacity) [
    | yes p ↦ (p, ground arith)
    | no p ↦ absurd (ground arith)
  ];
}

grown_room :
    (table : ℕ → MemfsEntry) (s : Memfs)
    → s.entry_capacity < (grow_table (some table) s).1.entry_capacity
unfolding grow_table
grown_room table s = ground arith

grown_free :
    (table : ℕ → MemfsEntry) (s : Memfs)
    → ((grow_table (some table) s).1.entries s.entry_capacity).in_use ≡ false
unfolding grow_table
grown_free table s = ground arith

abbrev NewSlot : Option (ℕ → MemfsEntry) → Memfs → Option ℕ × Memfs → Type 0
NewSlot table s (slot, s1) =
    SameFiles s s1
    × (((slot ≡ none) × (table ≡ none))
        ⊎ (i : ℕ) × (slot ≡ some i) × (i < s1.entry_capacity) × ((s1.entries i).in_use ≡ false))

new_slot_lem : (table : Option (ℕ → MemfsEntry)) (s : Memfs) → NewSlot table s (new_slot table s)
unfolding new_slot find_free_slot
new_slot_lem table s = elim (find_unused_cases s.entries s.entry_capacity 0) [
  | inr (i, e, p, free) ↦
      subst (NewSlot table s) (sym (rw (e, new_slot) refl))
        (record { kept = λ j h. (h, refl); no_other = λ j h. h }, inr (i, refl, omega arith, free))
  | inl full ↦ elim (Option-cases table) [
    | inl e ↦
        subst (NewSlot table s) (sym (rw (full, new_slot, e) refl))
          (record { kept = λ j h. (h, refl); no_other = λ j h. h }, inl (refl, e))
    | inr (t, e) ↦
        subst (NewSlot table s) (sym (rw (full, new_slot, e) refl))
          (grow_table-SameFiles t s, inr (s.entry_capacity, refl, grown_room t s, grown_free t s))
  ]
]

-- A new file with the name, empty, in a slot that held none; the files there were are as before.
pub record Created (s : Memfs) (name : List ℕ) (i : ℕ) (s' : Memfs) : Type 0 where
  pub made : InUse s' i
  pub named : (s'.entries i).name ≡ copy_name name
  pub empty : (s'.entries i).size ≡ 0
  pub has_buffer : 0 < (s'.entries i).capacity
  pub unnamed : (j : ℕ) → InUse s j → (s.entries j).name ≢ name
  pub kept : (j : ℕ) → InUse s j → (j ≢ i) × InUse s' j × (s'.entries j ≡ s.entries j)
  pub no_other : (j : ℕ) → InUse s' j → j ≢ i → InUse s j

-- Why a creation fails: the name is taken, or there is no memory.
abbrev pub Refused : Option (ℕ → MemfsEntry) → Option (ℕ → ℕ) → List ℕ → Memfs → Type 0
Refused table buf name s =
    ((j : ℕ) × InUse s j × ((s.entries j).name ≡ name)) ⊎ (table ≡ none) ⊎ (buf ≡ none)

abbrev pub CreateResult :
    Option (ℕ → MemfsEntry) → Option (ℕ → ℕ) → List ℕ → Memfs → ℤ × Memfs → Type 0
CreateResult table buf name s (r, s') =
    ((r ≡ minus_one) × Refused table buf name s × SameFiles s s')
    ⊎ (i : ℕ) × (r ≡ pos i) × Created s name i s'

filled-Created :
    (buf : ℕ → ℕ) (name : List ℕ) (i : ℕ) (s s1 : Memfs)
    → ((j : ℕ) → InUse s j → (s.entries j).name ≢ name)
    → SameFiles s s1
    → i < s1.entry_capacity
    → (s1.entries i).in_use ≡ false
    → Created s name i (fill_entry (some buf) name i s1).1
unfolding fill_entry
filled-Created buf name i s s1 fresh same lt free =
    let e0 : MemfsEntry = record {
      name = copy_name name;
      contents = buf;
      size = 0;
      capacity = 256;
      in_use = true;
    } in
    let at = update_self s1.entries i e0 in
    let apart : (j : ℕ) → InUse s j → j ≢ i =
      λ j h e. cc ((same.kept j h).0.1, ap (λ k. (s1.entries k).in_use) e, free) in
    let rest = λ (j : ℕ) (ne : j ≢ i). update_ne s1.entries i j e0 ne in
    record {
      made = (lt, ap (λ x. x.in_use) at);
      named = ap (λ x. x.name) at;
      empty = ap (λ x. x.size) at;
      has_buffer = subst (λ (x : MemfsEntry). 0 < x.capacity) (sym at) (omega arith);
      unnamed = fresh;
      kept = λ j h.
          let old = same.kept j h in
          let now = rest j (apart j h) in
          (apart j h, (old.0.0, ap (λ x. x.in_use) now ∙ old.0.1), now ∙ old.1);
      no_other = λ j h ne. same.no_other j (h.0, ap (λ x. x.in_use) (sym (rest j ne)) ∙ h.1);
    }

-- `memfs_create`: it returns -1 only where the name is taken or `kmalloc` fails, and then the
-- files are as before. Otherwise it returns the slot of a new and empty file; no file had the name,
-- and the files there were are as before.
pub create_lem :
    (table : Option (ℕ → MemfsEntry)) (buf : Option (ℕ → ℕ)) (name : List ℕ) (s : Memfs)
    → CreateResult table buf name s (memfs_create table buf name s)
unfolding memfs_create fill_entry
create_lem table buf name s = elim (find_slot_cases s name) [
  | inr (j, e, used, same) ↦
      subst (CreateResult table buf name s) (sym (rw (e, memfs_create) refl))
        (inl (refl, inl (j, used, same), record { kept = λ k h. (h, refl); no_other = λ k h. h }))
  | inl (e, fresh) ↦
      let (same, slot) = new_slot_lem table s in
      elim slot [
        | inl (no_slot, no_table) ↦
            subst (CreateResult table buf name s) (sym (rw (e, memfs_create, no_slot) refl))
              (inl (refl, inr (inl no_table), same))
        | inr (i, got, lt, free) ↦ elim (Option-cases buf) [
          | inl no_memory ↦
              subst (CreateResult table buf name s)
                (sym (rw (e, memfs_create, got, no_memory) refl))
                (inl (refl, inr (inr no_memory), same))
          | inr (b, memory) ↦
              subst (CreateResult table buf name s) (sym (rw (e, memfs_create, got, memory) refl))
                (inr (i, refl, filled-Created b name i s (new_slot table s).1 fresh same lt free))
        ]
      ]
]

take_all : (name : List ℕ) (n : ℕ) → length name ≤ n → take n name ≡ name
take_all [] zero h = refl
take_all [] (suc n) h = refl
take_all (c ∷ name) zero h = absurd (omega arith)
take_all (c ∷ name) (suc n) h = ap (λ cs. c ∷ cs) (take_all name n (omega arith))

-- A file that was created under a name of at most 31 characters is the one that the name finds.
pub find-Created :
    (name : List ℕ) (i : ℕ) (s s' : Memfs)
    → length name < 32
    → Created s name i s'
    → memfs_find s' name ≡ pos i
unfolding memfs_find
find-Created name i s s' short c = elim (find_slot_cases s' name) [
  | inl (e, none_of) ↦ absurd (none_of i c.made (c.named ∙ take_all name 31 (omega arith)))
  | inr (j, e, used, same) ↦ elim (ℕ_discrete j i) [
    | yes q ↦ rw (e, memfs_find) (ap pos q)
    | no ne ↦
        let old = c.no_other j used ne in
        let unchanged = (c.kept j old).2 in
        absurd (c.unnamed j old (ap (λ x. x.name) (sym unchanged) ∙ same))
  ]
]

-- No two files have one name.
abbrev pub Unique : Memfs → Type 0
Unique s = (i j : ℕ) → InUse s i → InUse s j → (s.entries i).name ≡ (s.entries j).name → i ≡ j

-- What a deletion gives.
abbrev pub DeleteResult : List ℕ → Memfs → ℤ × Memfs → Type 0
DeleteResult name s (r, s') =
    ((r ≡ minus_one) × (s' ≡ s) × ((j : ℕ) → InUse s j → (s.entries j).name ≢ name))
    ⊎ (r ≡ pos 0)
      × ((j : ℕ) → InUse s' j → (s'.entries j).name ≢ name)
      × ((j : ℕ)
          → InUse s j
          → (s.entries j).name ≢ name
          → InUse s' j × (s'.entries j ≡ s.entries j))
      × Unique s'

-- A file that an emptied slot leaves.
left_over :
    (s : Memfs) (i j : ℕ)
    → InUse (with_entry s i empty_entry) j
    → (j ≢ i) × InUse s j × (update s.entries i empty_entry j ≡ s.entries j)
left_over s i j (lt, u) = elim (ℕ_discrete j i) [
  | yes e ↦ absurd (
      cc (
        u,
        ap (λ x. x.in_use)
            (ap (update s.entries i empty_entry) e ∙ update_self s.entries i empty_entry),
      ))
  | no ne ↦
      let same = update_ne s.entries i j empty_entry ne in
      (ne, (lt, ap (λ x. x.in_use) (sym same) ∙ u), same)
]

-- `memfs_delete`, where no two files have one name: it returns -1 and changes nothing where no
-- file has the name. Otherwise it returns 0; no file has the name any more, every file of another
-- name is as before, and the names are still unique.
pub delete_lem : (name : List ℕ) (s : Memfs) → Unique s → DeleteResult name s (memfs_delete name s)
unfolding memfs_delete
delete_lem name s unique = elim (find_slot_cases s name) [
  | inl (e, none_of) ↦
      subst (DeleteResult name s) (sym (rw (e, memfs_delete) refl)) (inl (refl, refl, none_of))
  | inr (i, e, used, same) ↦ subst (DeleteResult name s) (sym (rw (e, memfs_delete) refl)) (
      inr (
        refl,
        (λ j h n.
            let (ne, old, eq) = left_over s i j h in
            ne (unique j i old used (ap (λ x. x.name) (sym eq) ∙ n ∙ sym same))),
        (λ j h other.
            let eq =
              update_ne s.entries i j empty_entry
                (λ q. other (ap (λ k. (s.entries k).name) q ∙ same)) in
            ((h.0, ap (λ x. x.in_use) eq ∙ h.1), eq)),
        λ a b ha hb n.
            let (na, olda, eqa) = left_over s i a ha in
            let (nb, oldb, eqb) = left_over s i b hb in
            unique a b olda oldb (ap (λ x. x.name) (sym eqa) ∙ n ∙ ap (λ x. x.name) eqb),
      ))
]

-- Names stay unique where a file is created under a name of at most 31 characters.
pub Created-Unique :
    (name : List ℕ) (i : ℕ) (s s' : Memfs)
    → length name < 32
    → Created s name i s'
    → Unique s
    → Unique s'
Created-Unique name i s s' short c unique a b ha hb n = elim (ℕ_discrete a i) [
  | yes p ↦ elim (ℕ_discrete b i) [
    | yes q ↦ p ∙ sym q
    | no nb ↦ absurd (other b nb hb (sym n ∙ ap (λ k. (s'.entries k).name) p))
  ]
  | no na ↦ elim (ℕ_discrete b i) [
    | yes q ↦ absurd (other a na ha (n ∙ ap (λ k. (s'.entries k).name) q))
    | no nb ↦
        let oa = c.no_other a ha na in
        let ob = c.no_other b hb nb in
        unique a b oa ob
          (ap (λ x. x.name) (sym (c.kept a oa).2) ∙ n ∙ ap (λ x. x.name) (c.kept b ob).2)
  ]
]
  where
    other : (j : ℕ) → j ≢ i → InUse s' j → (s'.entries j).name ≢ (s'.entries i).name
    other j ne h e =
        let old = c.no_other j h ne in
        c.unnamed j old
          (ap (λ x. x.name) (sym (c.kept j old).2) ∙ e ∙ c.named ∙ take_all name 31 (omega arith))
