-- ===== src/Ufs/Durable.antt =====
-- `ufs_read_at` of kernel/core/ufs.c: what `ufs_write_at` wrote is read back, also when the file
-- system is mounted again.
use mini_kernel.Prelude.{
  true, Bool, if◌then◌else◌, ℕ, ◌+◌, ◌-◌, ◌^◌, ◌≤◌, ◌<◌, ◌≡◌, refl, ap, ap₂, sym, subst, ◌∙◌, ℤ,
  pos, minus_one, int_of, false, not, List, if-false, leb, ◌==◌, min, store, slice, slice_agree,
  slice-store, length, arith,
}
use mini_kernel.Ufs.{
  Disk, Ufs, data_lba, data_end_lba, entry_at, off_start_lba, off_size, read_u32, ufs_init,
}
use mini_kernel.Ufs.Data.{result, ufs_write_at, read_from, ufs_read_at}
use mini_kernel.Ufs.Words.{read_u32_agree}
use mini_kernel.Ufs.Transfer.{healthy, byte_at, read_from_lem}
use mini_kernel.Ufs.Remount.{Synced, InArea, Mounted, ufs_init-Mounted}
use mini_kernel.Ufs.Stored.{
  File, HasRoom, Stored, start_of, size_of, index_lem, int_small, ufs_write_at_lem,
}

abbrev answer : ℕ → Bool × List ℕ × Disk → ℤ × List ℕ
answer n r = let (good, bytes, d) = r in (if good then int_of n else minus_one, bytes)

-- `ufs_read_at` reads the bytes of the file, up to its size.
pub ufs_read_at_lem :
    (s : Ufs) (i offset n : ℕ)
    → File s i
    → s.disk ≡ healthy s.disk.sectors
    → offset < size_of s i
    → start_of s i + size_of s i < 2 ^ 28
    → (ufs_read_at (pos i) offset n s).0 ≡ (
      pos (min n (size_of s i - offset)),
      slice (byte_at s.disk.sectors (start_of s i)) offset (min n (size_of s i - offset)),
    )
unfolding ufs_read_at
ufs_read_at_lem s i offset n f h inside small =
    let m = min n (size_of s i - offset) in
    let got : read_from m (start_of s i) offset m s.disk
        ≡ (true, slice (byte_at s.disk.sectors (start_of s i)) offset m, healthy s.disk.sectors) =
      ap (read_from m (start_of s i) offset m) h
      ∙ read_from_lem m (start_of s i) offset m s.disk.sectors (omega arith) (omega arith) in
    let not_behind : leb (size_of s i) offset ≡ false = ground arith in
    rw (index_lem s i f.is_ready f.in_bounds f.used, ufs_read_at)
      (ap (λ (r : (ℤ × List ℕ) × Ufs). r.0) (if-false _ _ not_behind)
        ∙ ap (answer m) got
        ∙ ap (λ z. (z, slice (byte_at s.disk.sectors (start_of s i)) offset m))
            (int_small m (omega arith)))

-- A state that has a file's entry and disk as another one.
pub record SameFile (s : Ufs) (i : ℕ) (t : Ufs) : Type 0 where
  pub file : File t i
  pub same_start : start_of t i ≡ start_of s i
  pub same_size : size_of t i ≡ size_of s i
  pub same_disk : t.disk ≡ s.disk

read-Stored :
    (s : Ufs) (i offset : ℕ) (bytes : List ℕ) (s' t : Ufs)
    → 0 < length bytes
    → start_of s i + size_of s i < 2 ^ 28
    → start_of s i + offset + length bytes < 2 ^ 28
    → Stored s i offset bytes s'
    → SameFile s' i t
    → (ufs_read_at (pos i) offset (length bytes) t).0 ≡ (pos (length bytes), bytes)
read-Stored s i offset bytes s' t some_bytes small small' w f =
    let n = min (length bytes) (size_of t i - offset) in
    let size = f.same_size ∙ w.size in
    let start = f.same_start ∙ w.same_start in
    let all : n ≡ length bytes = omega arith in
    let disk = f.same_disk in
    let healthy_t : t.disk ≡ healthy t.disk.sectors =
      disk ∙ w.synced.is_healthy ∙ ap (λ (d : Disk). healthy d.sectors) (sym disk) in
    let same : slice (byte_at t.disk.sectors (start_of t i)) offset (length bytes) ≡ bytes =
      ap₂ (λ (d : Disk) x. slice (byte_at d.sectors x) offset (length bytes)) disk start
      ∙ slice_agree _ (store (byte_at s.disk.sectors (start_of s i)) offset bytes) offset
          (length bytes) (λ k p q. w.stored k)
      ∙ slice-store bytes (byte_at s.disk.sectors (start_of s i)) offset in
    ufs_read_at_lem t i offset (length bytes) f.file healthy_t (omega arith) (omega arith)
    ∙ ap (λ k. (pos k, slice (byte_at t.disk.sectors (start_of t i)) offset k)) all
    ∙ ap (λ xs. (pos (length bytes), xs)) same

-- What is written to a file is read back.
pub round_trip :
    (s : Ufs) (i offset : ℕ) (bytes : List ℕ)
    → Synced s
    → InArea s
    → File s i
    → HasRoom s i offset (length bytes)
    → 0 < length bytes
    → start_of s i + size_of s i < 2 ^ 28
    → (s' : Ufs) × (ufs_write_at (pos i) offset bytes s ≡ result (pos (length bytes)) s')
      × ((ufs_read_at (pos i) offset (length bytes) s').0 ≡ (pos (length bytes), bytes))
round_trip s i offset bytes sync area f room some_bytes small =
    let (fits, small') = room in
    let (s', e, w) = ufs_write_at_lem s i offset bytes sync area f room in
    (
      s',
      e,
      read-Stored s i offset bytes s' s' some_bytes small small' w
          (record { file = w.file; same_start = refl; same_size = refl; same_disk = refl }),
    )

pub Mounted-SameFile : (s t : Ufs) (i : ℕ) → File s i → Mounted s t → SameFile s i t
Mounted-SameFile s t i f m =
    let bound = f.in_bounds in
    let low : data_lba ≤ start_of s i = f.in_data in
    let word : (off : ℕ)
        → off + 4 ≤ 40
        → read_u32 t.directory (entry_at i + off) ≡ read_u32 s.directory (entry_at i + off) =
      λ off h. read_u32_agree _ _ _ (λ k p q. m.same_directory k (omega arith)) in
    let start = word off_start_lba (omega arith) in
    record {
      file = record {
        is_ready = m.is_ready;
        in_bounds = bound;
        used = ap (λ b. not (b == 0)) (m.same_directory (entry_at i) (omega arith)) ∙ f.used;
        in_data = subst (λ n. data_lba ≤ n) (sym start) low;
      };
      same_start = start;
      same_size = word off_size (omega arith);
      same_disk = m.same_disk;
    }

-- What was stored is read back when `ufs_init` has mounted the disk again, whatever the memory held
-- then.
pub read-ufs_init :
    (s t : Ufs) (i offset : ℕ) (bytes : List ℕ) (s' : Ufs)
    → InArea s
    → 0 < length bytes
    → start_of s i + size_of s i < 2 ^ 28
    → start_of s i + offset + length bytes < 2 ^ 28
    → Stored s i offset bytes s'
    → (ufs_read_at (pos i) offset (length bytes) (ufs_init (record t { disk = s'.disk }))).0
      ≡ (pos (length bytes), bytes)
read-ufs_init s t i offset bytes s' area some_bytes small small' w =
    let area' : InArea s' =
      subst (λ n. (data_lba ≤ n) × (n ≤ data_end_lba)) (sym w.same_next) area in
    let mounted = ufs_init-Mounted s' (record t { disk = s'.disk }) w.synced area' refl in
    read-Stored s i offset bytes s' _ some_bytes small small' w
      (Mounted-SameFile s' _ i w.file mounted)

-- Where every disk request succeeds, the directory and the superblock are saved on the disk, and the
-- next free sector lies in the data area: what is written to a file in the data area, at least one
-- byte and within the file's capacity, is read back when `ufs_init` has mounted the disk again,
-- whatever the memory held then. The file's first sector and its size, and the first sector and the
-- end of the write, each add up to less than 2^28.
pub durable :
    (s t : Ufs) (i offset : ℕ) (bytes : List ℕ)
    → Synced s
    → InArea s
    → File s i
    → HasRoom s i offset (length bytes)
    → 0 < length bytes
    → start_of s i + size_of s i < 2 ^ 28
    → (s' : Ufs) × (ufs_write_at (pos i) offset bytes s ≡ result (pos (length bytes)) s')
      × ((ufs_read_at (pos i) offset (length bytes) (ufs_init (record t { disk = s'.disk }))).0
          ≡ (pos (length bytes), bytes))
durable s t i offset bytes sync area f room some_bytes small =
    let (fits, small') = room in
    let (s', e, w) = ufs_write_at_lem s i offset bytes sync area f room in
    (s', e, read-ufs_init s t i offset bytes s' area some_bytes small small' w)
