-- ===== src/Ufs/Counted.antt =====
-- The operations of kernel/core/ufs.c on entries, on a disk whose requests succeed, keep the count
-- of the files and what is saved.
use mini_kernel.Prelude.{
  ℕ, ◌+◌, ◌-◌, ◌*◌, ◌%◌, ◌^◌, ◌≤◌, ◌<◌, ◌≡◌, ◌≢◌, ap, sym, subst, ◌∙◌, ◌⊎◌, inl, inr, ℤ, pos,
  minus_one, Bool, true, false, not, none, some, List, ◌∷◌, if_elim, if-true, ltb, dec_lt, leb,
  ◌==◌, update, update_self, update_ne, length, arith, Option-cases,
}
use mini_kernel.Ufs.{
  Ufs, entry_at, in_use, max_entries, off_size, off_perm, off_capacity, sector_size, name_max,
  count_used, free_slot, find_named, new_entry, read_u32, write_u32, persist, persisted, created,
  handle_index, ufs_find, ufs_create, ufs_delete, ufs_chmod, ufs_truncate,
}
use mini_kernel.Ufs.Words.{write_u32_apart}
use mini_kernel.Ufs.Remount.{Synced, InArea, persist_saves, count_used_agree}
use mini_kernel.Ufs.Entries.{
  count_used_bound, count_used_more, free_slot_lem, find_named_lem, new_entry_others,
  new_entry_used,
}

-- The file system is mounted, counts the entries that are used, and all is saved.
pub record IsValid (s : Ufs) : Type 0 where
  pub is_ready : s.ready ≡ true
  pub synced : Synced s
  pub in_area : InArea s
  pub counted : s.file_count ≡ count_used s.directory max_entries 0

persisted-IsValid :
    (s : Ufs) (directory : ℕ → ℕ) (count : ℕ) (v : ℤ)
    → IsValid s
    → count ≡ count_used directory max_entries 0
    → IsValid (persisted v (persist (record s { directory = directory; file_count = count }))).1
persisted-IsValid s directory count v valid e =
    let (s', run, sync, shape, keep) =
      persist_saves (record s { directory = directory; file_count = count }) valid.synced.is_healthy
        valid.in_area in
    subst (λ (r : Bool × Ufs). IsValid (persisted v r).1) (sym run)
      (record {
        is_ready = ap (λ x. x.ready) shape ∙ valid.is_ready;
        synced = sync;
        in_area = subst InArea (sym shape) valid.in_area;
        counted =
            ap (λ x. x.file_count) shape
            ∙ e
            ∙ ap (λ x. count_used x.directory max_entries 0) (sym shape);
      })

abbrev Valid : ℤ × Ufs → Type 0
Valid r = IsValid r.1

new-IsValid :
    (s : Ufs) (slot c : ℕ) (name : List ℕ) (owner : ℕ)
    → c ≢ 0
    → IsValid s
    → free_slot s.directory max_entries 0 ≡ some slot
    → Valid (created (c ∷ name) owner s (some slot))
unfolding created
new-IsValid s slot c name owner ne valid free =
    let (low, high, unused) = free_slot_lem s.directory max_entries 0 slot free in
    let directory = new_entry s.directory slot (c ∷ name) owner in
    let more =
      count_used_more s.directory directory slot max_entries 0 low high unused
        (new_entry_used s.directory slot c name owner ne)
        (new_entry_others s.directory slot (c ∷ name) owner) in
    let counted = valid.counted in
    let bound = count_used_bound s.directory max_entries 0 in
    persisted-IsValid s directory ((s.file_count + 1) % 2 ^ 32) (pos slot) valid (omega arith)

ufs_create-IsValid :
    (s : Ufs) (c : ℕ) (name : List ℕ) (owner : ℕ)
    → c ≢ 0
    → IsValid s
    → IsValid (ufs_create (c ∷ name) owner s).1
unfolding ufs_create
ufs_create-IsValid s c name owner ne valid =
    if_elim Valid (not s.ready) (λ e. valid)
      (λ e.
        if_elim Valid (length (c ∷ name) == 0) (λ e. valid)
          (λ e. if_elim Valid (leb name_max (length (c ∷ name))) (λ e. valid) (λ e. made)))
  where
    made : Valid (elim (ufs_find s (c ∷ name)) [
      | some i ↦ (minus_one, s)
      | none ↦ created (c ∷ name) owner s (free_slot s.directory max_entries 0)
    ])
    made = elim (Option-cases (ufs_find s (c ∷ name))) [
      | inr (i, e) ↦ rw e valid
      | inl e ↦ elim (Option-cases (free_slot s.directory max_entries 0)) [
        | inl full ↦ rw (e, full) valid
        | inr (slot, free) ↦ rw (e, free) (new-IsValid s slot c name owner ne valid free)
      ]
    ]

deleted-IsValid :
    (s : Ufs) (slot : ℕ) (name : List ℕ)
    → IsValid s
    → ufs_find s name ≡ some slot
    → Valid (
        persisted (pos 0) (
          persist (record s {
            directory = update s.directory (entry_at slot) 0;
            file_count = (s.file_count + 2 ^ 32 - 1) % 2 ^ 32;
          })))
unfolding ufs_find
deleted-IsValid s slot name valid found =
    let named =
      sym (if-true (find_named s.directory name max_entries 0) none valid.is_ready) ∙ found in
    let (low, high, used) = find_named_lem s.directory name max_entries 0 slot named in
    let directory = update s.directory (entry_at slot) 0 in
    let unused : in_use directory slot ≡ false =
      ground (arith, update_self s.directory (entry_at slot) 0) in
    let less =
      count_used_more directory s.directory slot max_entries 0 low high unused used (λ k ne.
        sym (update_ne s.directory (entry_at slot) (entry_at k) 0 (λ q. ne (omega arith)))) in
    let counted = valid.counted in
    let bound = count_used_bound s.directory max_entries 0 in
    persisted-IsValid s directory ((s.file_count + 2 ^ 32 - 1) % 2 ^ 32) (pos 0) valid (omega arith)

ufs_delete-IsValid : (s : Ufs) (name : List ℕ) → IsValid s → IsValid (ufs_delete name s).1
unfolding ufs_delete
ufs_delete-IsValid s name valid = elim (Option-cases (ufs_find s name)) [
  | inl e ↦ rw (e, ufs_delete) valid
  | inr (slot, e) ↦ rw (e, ufs_delete) (deleted-IsValid s slot name valid e)
]

ufs_chmod-IsValid :
    (s : Ufs) (handle : ℤ) (perm : ℕ) → IsValid s → IsValid (ufs_chmod handle perm s).1
unfolding ufs_chmod
ufs_chmod-IsValid s handle perm valid = elim (Option-cases (handle_index s handle)) [
  | inl e ↦ rw (e, ufs_chmod) valid
  | inr (i, e) ↦
      let same =
        count_used_agree s.directory (update s.directory (entry_at i + off_perm) perm) max_entries 0
          (λ k p q.
            sym (
              update_ne s.directory (entry_at i + off_perm) (entry_at k) perm
                (λ q. omega arith))) in
      rw (e, ufs_chmod) (persisted-IsValid s _ s.file_count (pos 0) valid (valid.counted ∙ same))
]

size_apart :
    (i k : ℕ) → (entry_at k < entry_at i + off_size) ⊎ (entry_at i + off_size + 4 ≤ entry_at k)
size_apart i k = elim (dec_lt (entry_at k) (entry_at i + off_size)) [
  | yes p ↦ inl p
  | no p ↦ inr (omega arith)
]

pub ufs_truncate-IsValid :
    (s : Ufs) (handle : ℤ) (size : ℕ) → IsValid s → IsValid (ufs_truncate handle size s).1
unfolding ufs_truncate
ufs_truncate-IsValid s handle size valid = elim (Option-cases (handle_index s handle)) [
  | inl e ↦ rw (e, ufs_truncate) valid
  | inr (i, e) ↦
      rw (e, ufs_truncate)
        (if_elim Valid
          (ltb (read_u32 s.directory (entry_at i + off_capacity) * sector_size % 2 ^ 32) size)
          (λ h. valid)
          (λ h.
            let same =
              count_used_agree s.directory (write_u32 s.directory (entry_at i + off_size) size)
                max_entries 0
                (λ k p q. sym (
                  write_u32_apart s.directory (entry_at i + off_size) size (entry_at k)
                    (size_apart i k))) in
            persisted-IsValid s (write_u32 s.directory (entry_at i + off_size) size) s.file_count
              (pos 0) valid (valid.counted ∙ same)))
]

-- After `ufs_create` of a name that is not empty, `ufs_delete`, `ufs_chmod` and `ufs_truncate`, on a
-- disk whose requests succeed, the count of files is again that of the entries that are used, and
-- the directory and the superblock are saved.
pub operations-IsValid :
    (s : Ufs) (c : ℕ) (name : List ℕ) (owner : ℕ) (handle : ℤ) (perm size : ℕ)
    → c ≢ 0
    → IsValid s
    → IsValid (ufs_create (c ∷ name) owner s).1
      × IsValid (ufs_delete (c ∷ name) s).1
      × IsValid (ufs_chmod handle perm s).1
      × IsValid (ufs_truncate handle size s).1
operations-IsValid s c name owner handle perm size ne valid = (
  ufs_create-IsValid s c name owner ne valid,
  ufs_delete-IsValid s (c ∷ name) valid,
  ufs_chmod-IsValid s handle perm valid,
  ufs_truncate-IsValid s handle size valid,
)
