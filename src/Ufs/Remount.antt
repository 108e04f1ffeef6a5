-- ===== src/Ufs/Remount.antt =====
-- What kernel/core/ufs.c keeps on the disk: the superblock and the directory, written by
-- `persist_directory` and `persist_superblock` and read again by `ufs_init`.
use mini_kernel.Prelude.{
  ℕ, zero, suc, ◌+◌, ◌-◌, ◌*◌, ◌/◌, ◌%◌, ◌^◌, ◌≤◌, ◌<◌, ◌≡◌, refl, ap, ap₂, sym, subst, ◌∙◌, true,
  false, not, ◌&&◌, if◌then◌else◌, if-true, ltb, leb, ◌==◌, arith,
}
use mini_kernel.Ufs.{
  Ufs, sector_size, sb_lba, dir_lba, dir_sectors, data_lba, data_end_lba, entry_at, max_entries,
  magic, ata_read_sectors, ata_write_sectors, read_u32, write_u32, made_superblock,
  persist_superblock, persist_directory, persist, count_used, mount, ufs_init,
}
use mini_kernel.Ufs.Words.{read_u32_agree, read_u32-write_u32}
use mini_kernel.Ufs.Transfer.{healthy}

-- The disk's requests succeed, and it holds the directory, the magic number and `next_free_lba`.
pub record Synced (s : Ufs) : Type 0 where
  pub is_healthy : s.disk ≡ healthy s.disk.sectors
  pub directory_saved :
      (i : ℕ)
      → i < dir_sectors * sector_size
      → s.disk.sectors (dir_lba + i / sector_size) (i % sector_size) ≡ s.directory i
  pub magic_saved : (i : ℕ) → i < 4 → s.disk.sectors sb_lba i ≡ magic i
  pub next_saved : read_u32 (s.disk.sectors sb_lba) 8 ≡ s.next_free_lba

-- `next_free_lba` lies in the data area or just behind it.
abbrev pub InArea : Ufs → Type 0
InArea s = (data_lba ≤ s.next_free_lba) × (s.next_free_lba ≤ data_end_lba)

-- The sectors behind a write of `count` sectors.
abbrev pub with_sectors : ℕ → ℕ → (ℕ → ℕ) → (ℕ → ℕ → ℕ) → ℕ → ℕ → ℕ
with_sectors lba count buf sectors l i =
    if leb lba l
    then if ltb l (lba + count) then buf ((l - lba) * sector_size + i) else sectors l i
    else sectors l i

-- The sectors behind `persist`.
abbrev pub saved : Ufs → (ℕ → ℕ → ℕ) → ℕ → ℕ → ℕ
saved s sectors =
    with_sectors sb_lba 1 (made_superblock s.file_count s.next_free_lba)
      (with_sectors dir_lba dir_sectors s.directory sectors)

persist-healthy :
    (s : Ufs) (sectors : ℕ → ℕ → ℕ)
    → persist (record s { disk = healthy sectors }) ≡ (
      true,
      record s {
        superblock = made_superblock s.file_count s.next_free_lba;
        disk = healthy (saved s sectors);
      },
    )
unfolding persist persist_directory persist_superblock ata_write_sectors
persist-healthy s sectors = refl

-- The sectors of the directory and of the superblock hold what is written to them.
directory_lem :
    (buf : ℕ → ℕ) (superblock : ℕ → ℕ) (sectors : ℕ → ℕ → ℕ) (i : ℕ)
    → i < dir_sectors * sector_size
    → with_sectors sb_lba 1 superblock
        (with_sectors dir_lba dir_sectors buf sectors)
        (dir_lba + i / sector_size)
        (i % sector_size)
      ≡ buf i
directory_lem buf superblock sectors i h =
    let same : buf ((dir_lba + i / sector_size - dir_lba) * sector_size + i % sector_size) ≡ buf i =
      ap buf (omega arith) in
    ground arith

magic_lem : (count next i : ℕ) → i < 4 → made_superblock count next i ≡ magic i
unfolding made_superblock write_u32
magic_lem count next i h = ground arith

next_lem : (count next : ℕ) → next < 2 ^ 32 → read_u32 (made_superblock count next) 8 ≡ next
unfolding made_superblock
next_lem count next h = read_u32-write_u32 _ 8 next h

superblock_at :
    (s : Ufs) (sectors : ℕ → ℕ → ℕ) (i : ℕ)
    → saved s sectors sb_lba i ≡ made_superblock s.file_count s.next_free_lba i
superblock_at s sectors i = ap (made_superblock s.file_count s.next_free_lba) (omega arith)

-- A `persist` on a disk whose requests succeed saves the state.
pub persist_saves :
    (s : Ufs)
    → s.disk ≡ healthy s.disk.sectors
    → InArea s
    → (s' : Ufs) × (persist s ≡ (true, s'))
      × Synced s'
      × (s' ≡ record s { superblock = s'.superblock; disk = s'.disk })
      × ((l i : ℕ) → data_lba ≤ l → s'.disk.sectors l i ≡ s.disk.sectors l i)
persist_saves s h (low, high) =
    let next = next_lem s.file_count s.next_free_lba (omega arith) in
    (
      _,
      ap (λ d. persist (record s { disk = d })) h ∙ persist-healthy s s.disk.sectors,
      record {
        is_healthy = refl;
        directory_saved = λ i lt.
            directory_lem s.directory (made_superblock s.file_count s.next_free_lba) s.disk.sectors
              i lt;
        magic_saved =
            λ i lt. superblock_at s s.disk.sectors i ∙ magic_lem s.file_count s.next_free_lba i lt;
        next_saved = read_u32_agree _ _ 8 (λ k le lt. superblock_at s s.disk.sectors k) ∙ next;
      },
      refl,
      λ l i le. ground arith,
    )

pub count_used_agree :
    (a b : ℕ → ℕ) (rounds i : ℕ)
    → ((k : ℕ) → i ≤ k → k < i + rounds → a (entry_at k) ≡ b (entry_at k))
    → count_used a rounds i ≡ count_used b rounds i
unfolding count_used
count_used_agree a b zero i h = refl
count_used_agree a b (suc rounds) i h =
    ap₂ (λ x n. (if not (x == 0) then 1 else 0) + n) (h i (omega arith) (omega arith))
      (count_used_agree a b rounds (i + 1) (λ k le lt. h k (omega arith) (omega arith)))

-- What `ufs_init` makes of the disk of a state: the state's directory and `next_free_lba`, and a
-- count of the directory's entries.
pub record Mounted (s t : Ufs) : Type 0 where
  pub is_ready : t.ready ≡ true
  pub same_directory : (i : ℕ) → i < dir_sectors * sector_size → t.directory i ≡ s.directory i
  pub same_next : t.next_free_lba ≡ s.next_free_lba
  pub counted : t.file_count ≡ count_used s.directory max_entries 0
  pub same_disk : t.disk ≡ s.disk

buffer_at :
    (sectors : ℕ → ℕ → ℕ) (buf : ℕ → ℕ) (lba count i : ℕ)
    → i < count * sector_size
    → (if ltb i (count * sector_size)
        then sectors (lba + i / sector_size) (i % sector_size)
        else buf i)
      ≡ sectors (lba + i / sector_size) (i % sector_size)
buffer_at sectors buf lba count i h = ground arith

in_area :
    (n : ℕ)
    → data_lba ≤ n
    → n ≤ data_end_lba
    → (if ltb n data_lba then data_lba else if ltb data_end_lba n then data_lba else n) ≡ n
in_area n low high = ground arith

mount_lem :
    (s t : Ufs)
    → Synced s
    → InArea s
    → read_u32 t.superblock 8 ≡ s.next_free_lba
    → Mounted s (mount (record t { disk = healthy s.disk.sectors }))
unfolding mount ata_read_sectors
mount_lem s t sync (low, high) next =
    let directory : ℕ → ℕ = λ i.
      if ltb i (dir_sectors * sector_size)
      then s.disk.sectors (dir_lba + i / sector_size) (i % sector_size)
      else t.directory i in
    let read : (i : ℕ)
        → i < dir_sectors * sector_size
        → (if ltb i (dir_sectors * sector_size)
            then s.disk.sectors (dir_lba + i / sector_size) (i % sector_size)
            else t.directory i)
          ≡ s.directory i =
      λ i lt.
        buffer_at s.disk.sectors t.directory dir_lba dir_sectors i lt ∙ sync.directory_saved i lt in
    record {
      is_ready = refl;
      same_directory = read;
      same_next =
          ap (λ n. if ltb n data_lba then data_lba else if ltb data_end_lba n then data_lba else n)
            next
          ∙ in_area s.next_free_lba low high;
      counted =
          count_used_agree directory s.directory max_entries 0
            (λ k le lt. read (entry_at k) (omega arith));
      same_disk = sym sync.is_healthy;
    }

magic_found :
    (f : ℕ → ℕ)
    → ((i : ℕ) → i < 4 → f i ≡ magic i)
    → ((f 0 == b'U') && (f 1 == b'F') && (f 2 == b'S') && (f 3 == b'1')) ≡ true
magic_found f h =
    let h0 = h 0 (omega arith) in
    let h1 = h 1 (omega arith) in
    let h2 = h 2 (omega arith) in let h3 = h 3 (omega arith) in ground arith

init_healthy :
    (s t : Ufs)
    → Synced s
    → InArea s
    → Mounted s (ufs_init (record t { disk = healthy s.disk.sectors }))
unfolding ufs_init ata_read_sectors
init_healthy s t sync area =
    let superblock : ℕ → ℕ = λ i.
      if ltb i (1 * sector_size)
      then s.disk.sectors (sb_lba + i / sector_size) (i % sector_size)
      else t.superblock i in
    let read : (i : ℕ) → i < sector_size → superblock i ≡ s.disk.sectors sb_lba i = λ i lt.
      buffer_at s.disk.sectors t.superblock sb_lba 1 i (omega arith)
      ∙ ap₂ (λ l j. s.disk.sectors l j) (omega arith) (omega arith) in
    let next =
      read_u32_agree superblock (s.disk.sectors sb_lba) 8 (λ k le lt. read k (omega arith))
      ∙ sync.next_saved in
    let found = magic_found superblock (λ i lt. read i (omega arith) ∙ sync.magic_saved i lt) in
    subst (Mounted s) (sym (if-true _ _ found))
      (mount_lem s (record t { superblock = superblock; ready = false }) sync area next)

-- `ufs_init` on a disk where a state was saved, whatever the memory held, makes the state's
-- directory and `next_free_lba` again and counts the entries.
pub ufs_init-Mounted : (s t : Ufs) → Synced s → InArea s → t.disk ≡ s.disk → Mounted s (ufs_init t)
ufs_init-Mounted s t sync area same =
    subst (λ d. Mounted s (ufs_init (record t { disk = d }))) (sym (same ∙ sync.is_healthy))
      (init_healthy s t sync area)
