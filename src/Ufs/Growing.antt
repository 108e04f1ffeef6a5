-- ===== src/Ufs/Growing.antt =====
-- `ufs_write_at` of kernel/core/ufs.c on a file that has too little room.
use mini_kernel.Prelude.{
  ℕ, ◌+◌, ◌*◌, ◌^◌, ◌≤◌, ◌<◌, ◌≡◌, ap, sym, subst, ◌∙◌, ◌⊎◌, inl, inr, pos, minus_one, true, false,
  List, if-false, ◌==◌, length, store_before, store_behind, arith,
}
use mini_kernel.Ufs.{Ufs, sector_size, data_lba, data_end_lba, entry_at, ufs_init}
use mini_kernel.Ufs.Data.{
  Room, returned, ensure_capacity, Write, result, write_in, ufs_write_at, ufs_read_at,
}
use mini_kernel.Ufs.Transfer.{byte_at}
use mini_kernel.Ufs.Remount.{Synced, InArea}
use mini_kernel.Ufs.Stored.{
  start_of, size_of, capacity_of, File, Stored, index_lem, write_data-Ended, write_then,
}
use mini_kernel.Ufs.Durable.{read-ufs_init}
use mini_kernel.Ufs.Growth.{Allocated, Grown, Allocated-small, ensure_capacity_lem}

Grown-File : (s : Ufs) (i c : ℕ) (s' : Ufs) → InArea s → Allocated s i → Grown s i c s' → File s' i
Grown-File s i c s' (low, high) a g = record {
  is_ready = g.is_ready;
  in_bounds = a.in_bounds;
  used = g.used;
  in_data = subst (λ n. data_lba ≤ n) (sym g.start) low;
}

-- The bytes of the file that the write does not store, and the other entries, are as they were.
pub record Kept (s : Ufs) (i offset : ℕ) (bytes : List ℕ) (s' : Ufs) : Type 0 where
  pub same_bytes :
      (k : ℕ)
      → k < size_of s i
      → (k < offset) ⊎ (offset + length bytes ≤ k)
      → byte_at s'.disk.sectors (start_of s' i) k ≡ byte_at s.disk.sectors (start_of s i) k
  pub same_entries :
      (k : ℕ) → (k < entry_at i) ⊎ (entry_at i + 40 ≤ k) → s'.directory k ≡ s.directory k

size-Grown :
    (s : Ufs) (i c : ℕ) (s' : Ufs)
    → InArea s
    → Allocated s i
    → Grown s i c s'
    → start_of s' i + size_of s' i < 2 ^ 28
size-Grown s i c s' area a g =
    let (low, high) = area in
    let cap = Allocated-small s i area a in
    let start = g.start in let size = g.size in let fits = a.size_fits in omega arith

Grown-Kept :
    (s : Ufs) (i offset : ℕ) (bytes : List ℕ) (c : ℕ) (s1 s' : Ufs)
    → Grown s i c s1
    → Stored s1 i offset bytes s'
    → Kept s i offset bytes s'
Grown-Kept s i offset bytes c s1 s' g w = record {
  same_bytes = λ k lt h.
      ap (λ x. byte_at s'.disk.sectors x k) w.same_start
      ∙ w.stored k
      ∙ (elim h [
        | inl p ↦ store_before bytes (byte_at s1.disk.sectors (start_of s1 i)) offset k p
        | inr p ↦ store_behind bytes (byte_at s1.disk.sectors (start_of s1 i)) offset k p
      ])
      ∙ ap (λ x. byte_at s1.disk.sectors x k) g.start
      ∙ g.copied.bytes k lt;
  same_entries = λ k h.
      w.same_bytes k (elim h [ inl p ↦ inl (omega arith) | inr p ↦ inr (omega arith) ])
      ∙ g.entries k h;
}

-- A write with growth: refused where `c` sectors are not free, or done.
abbrev pub GrowingWrite : Ufs → Ufs → ℕ → ℕ → List ℕ → ℕ → Write → Type 0
GrowingWrite s t i offset bytes c r =
    ((data_end_lba < s.next_free_lba + c) × (r ≡ result minus_one s))
    ⊎ (s' : Ufs) × (r ≡ result (pos (length bytes)) s')
      × Synced s'
      × InArea s'
      × Kept s i offset bytes s'
      × ((ufs_read_at (pos i) offset (length bytes) (ufs_init (record t { disk = s'.disk }))).0
          ≡ (pos (length bytes), bytes))

-- A write of at least one byte, with its end below 2^31, behind the capacity of a file, where every
-- disk request succeeds, the directory and the superblock are saved on the disk, the next free sector
-- lies in the data area, the file's size is within its capacity, and the file has no sectors yet or
-- has them in the data area before the next free one. The write needs some number of sectors, of less than twice its end and 1024 bytes more. Where these
-- are free it stores the bytes, also for a file system mounted again later, and the rest of the file
-- and the other entries are kept; otherwise it returns -1 and changes nothing.
pub growing_write :
    (s t : Ufs) (i offset : ℕ) (bytes : List ℕ)
    → Synced s
    → InArea s
    → Allocated s i
    → 0 < length bytes
    → offset + length bytes < 2 ^ 31
    → capacity_of s i * sector_size < offset + length bytes
    → (c : ℕ) × (c * sector_size < 2 * (offset + length bytes + sector_size))
      × GrowingWrite s t i offset bytes c (ufs_write_at (pos i) offset bytes s)
unfolding write_in
growing_write s t i offset bytes sync area a some_bytes small lacks =
    let (c, enough, bound, outcome) =
      ensure_capacity_lem s i (offset + length bytes) sync area a small lacks in
    let index = index_lem s i a.is_ready a.in_bounds a.used in
    let nonempty : (length bytes == 0) ≡ false = ground arith in
    let then_write = λ (room : Room) (e : ensure_capacity i (offset + length bytes) s ≡ room).
      write_then s i offset bytes room index (omega arith) (if-false _ _ nonempty ∙ e) in
    (
      c,
      bound,
      elim outcome [
        | inl (full, e) ↦ inl (full, then_write (returned false s) e)
        | inr (space, s1, e, g) ↦
            let start = g.start in
            let (low, high) = area in
            let fits : start_of s1 i + offset + length bytes < 2 ^ 28 = omega arith in
            let (s', written, w) =
              write_data-Ended s1 i offset bytes g.synced g.in_area (Grown-File s i c s1 area a g)
                fits in
            inr (
              s',
              then_write (returned true s1) e ∙ ap (λ r. result r.0 r.1) written,
              w.synced,
              subst (λ n. (data_lba ≤ n) × (n ≤ data_end_lba)) (sym w.same_next) g.in_area,
              Grown-Kept s i offset bytes c s1 s' g w,
              read-ufs_init s1 t i offset bytes s' g.in_area some_bytes
                  (size-Grown s i c s1 area a g) fits w,
            )
      ],
    )
