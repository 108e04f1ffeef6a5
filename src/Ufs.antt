-- ===== src/Ufs.antt =====
-- The persistent file system of kernel/core/ufs.c: its directory and superblock as the arrays of
-- bytes that they are, over a disk. The disk is the device behind kernel/drivers/ata.c: sectors of
-- 512 bytes, and a schedule that says how its next requests go (with none left they succeed). A
-- request that fails may have transferred some of its sectors.
pub mod Data
pub mod Words
pub mod Transfer
pub mod Remount
pub mod Stored
pub mod Durable
pub mod Relocate
pub mod Growth
pub mod Growing
pub mod Entries
pub mod Counted
pub mod Truncated
mod Tests
use mini_kernel.Prelude.{
  ℕ, zero, suc, ◌+◌, ◌-◌, ◌*◌, ◌/◌, ◌%◌, ◌^◌, bit_or, ℤ, pos, negsuc, minus_one, Bool, true, false,
  not, ◌&&◌, ◌||◌, Option, none, some, List, [], ◌∷◌, if◌then◌else◌, ltb, leb, ◌==◌, update, length,
  str_eq_at, min, slice,
}

abbrev pub sector_size : ℕ
sector_size = 512

abbrev pub sb_lba : ℕ
sb_lba = 8192

abbrev pub dir_sectors : ℕ
dir_sectors = 5

abbrev pub dir_lba : ℕ
dir_lba = 8193

abbrev pub data_lba : ℕ
data_lba = 8198

abbrev pub data_end_lba : ℕ
data_end_lba = 16390

abbrev pub entry_size : ℕ
entry_size = 40

abbrev pub max_entries : ℕ
max_entries = 64

abbrev pub name_max : ℕ
name_max = 20

pub record Disk : Type 0 where
  pub sectors : ℕ → ℕ → ℕ
  pub failures : List (Option ℕ)

-- The statics of ufs.c.
pub record Ufs : Type 0 where
  pub superblock : ℕ → ℕ
  pub directory : ℕ → ℕ
  pub ready : Bool
  pub file_count : ℕ
  pub next_free_lba : ℕ
  pub disk : Disk

-- How the next request for `count` sectors goes: whether it succeeds, and how many sectors it
-- transfers.
abbrev pub request : ℕ → List (Option ℕ) → Bool × ℕ × List (Option ℕ)
request count [] = (true, count, [])
request count (none ∷ rest) = (true, count, rest)
request count (some n ∷ rest) = (false, min n count, rest)

-- The number of a sector, as its 28 bits that are sent to the drive.
abbrev pub sent_lba : ℕ → ℕ
sent_lba lba = lba % 2 ^ 28

-- `ata_read_sectors` into the buffer: whether it succeeds, and the buffer.
unfoldable pub ata_read_sectors : ℕ → ℕ → (ℕ → ℕ) → Disk → Bool × (ℕ → ℕ) × Disk
ata_read_sectors lba count buf d =
    let (good, n, rest) = request count d.failures in
    let filled : ℕ → ℕ = λ i.
      if ltb i (n * sector_size)
      then d.sectors (sent_lba lba + i / sector_size) (i % sector_size)
      else buf i in
    if (count == 0) || ltb 256 count
    then (false, buf, d)
    else (good, filled, record d { failures = rest })

unfoldable pub ata_write_sectors : ℕ → ℕ → (ℕ → ℕ) → Disk → Bool × Disk
ata_write_sectors lba count buf d =
    let (good, n, rest) = request count d.failures in
    let written : ℕ → ℕ → ℕ = λ l i.
      if leb (sent_lba lba) l
      then if ltb l (sent_lba lba + n)
        then buf ((l - sent_lba lba) * sector_size + i)
        else d.sectors l i
      else d.sectors l i in
    if (count == 0) || ltb 256 count
    then (false, d)
    else (good, record { sectors = written; failures = rest })

unfoldable pub write_u32 : (ℕ → ℕ) → ℕ → ℕ → ℕ → ℕ
write_u32 a p v =
    update
      (update (update (update a p (v % 256)) (p + 1) (v / 2 ^ 8 % 256)) (p + 2) (v / 2 ^ 16 % 256))
      (p + 3) (v / 2 ^ 24 % 256)

unfoldable pub read_u32 : (ℕ → ℕ) → ℕ → ℕ
read_u32 a p =
    bit_or (bit_or (bit_or (a p) (a (p + 1) * 2 ^ 8)) (a (p + 2) * 2 ^ 16)) (a (p + 3) * 2 ^ 24)

-- Where the entry begins in the directory.
abbrev pub entry_at : ℕ → ℕ
entry_at index = index * entry_size

abbrev pub off_start_lba : ℕ
off_start_lba = 20

abbrev pub off_size : ℕ
off_size = 24

abbrev pub off_capacity : ℕ
off_capacity = 28

abbrev pub off_owner : ℕ
off_owner = 32

abbrev pub off_perm : ℕ
off_perm = 36

abbrev pub in_use : (ℕ → ℕ) → ℕ → Bool
in_use directory i = not (directory (entry_at i) == 0)

-- The second loop of `set_name`, for `n` bytes from `i` on.
unfoldable pub zero_fill : (ℕ → ℕ) → ℕ → ℕ → ℕ → ℕ
zero_fill a i zero = a
zero_fill a i (suc n) = zero_fill (update a i 0) (i + 1) n

-- `set_name` from byte `i` on, with `room` bytes left for characters and one more for a NUL.
unfoldable pub set_name : (ℕ → ℕ) → ℕ → ℕ → List ℕ → ℕ → ℕ
unfolding zero_fill
set_name a i zero name = zero_fill a i 1
set_name a i (suc room) [] = zero_fill a i (suc (suc room))
set_name a i (suc room) (c ∷ name) = set_name (update a i c) (i + 1) room name

abbrev pub magic : ℕ → ℕ
magic i = if i == 0 then b'U' else if i == 1 then b'F' else if i == 2 then b'S' else b'1'

-- The superblock that `persist_superblock` writes.
unfoldable pub made_superblock : ℕ → ℕ → ℕ → ℕ
unfolding write_u32
made_superblock count next_free =
    write_u32 (write_u32 (λ i. if ltb i 4 then magic i else 0) 4 count) 8 next_free

unfoldable pub persist_superblock : Ufs → Bool × Ufs
unfolding made_superblock ata_write_sectors
persist_superblock s =
    let sb = made_superblock s.file_count s.next_free_lba in
    let (good, disk) = ata_write_sectors sb_lba 1 sb s.disk in
    (good, record s { superblock = sb; disk = disk })

unfoldable pub persist_directory : Ufs → Bool × Ufs
unfolding ata_write_sectors
persist_directory s =
    let (good, disk) = ata_write_sectors dir_lba dir_sectors s.directory s.disk in
    (good, record s { disk = disk })

-- `persist_directory() != 0 || persist_superblock() != 0`, as success
unfoldable pub persist : Ufs → Bool × Ufs
unfolding persist_directory persist_superblock
persist s =
    let (good, s') = persist_directory s in
    let both = persist_superblock s' in if good then both else (false, s')

-- The result where all was written, and -1 otherwise.
abbrev pub persisted : ℤ → Bool × Ufs → ℤ × Ufs
persisted result (good, s) = (if good then result else minus_one, s)

unfoldable pub count_used : (ℕ → ℕ) → ℕ → ℕ → ℕ
count_used directory zero i = 0
count_used directory (suc rounds) i =
    (if in_use directory i then 1 else 0) + count_used directory rounds (i + 1)

unfoldable pub format_fresh : Ufs → Ufs
unfolding persist_directory persist_superblock
format_fresh s =
    let empty = record s { directory = λ i. 0; file_count = 0; next_free_lba = data_lba } in
    record (persist_superblock (persist_directory empty).1).1 { ready = true }

-- `ufs_init` where the magic number is there.
unfoldable pub mount : Ufs → Ufs
unfolding ata_read_sectors read_u32 count_used
mount s =
    let (good, directory, disk) = ata_read_sectors dir_lba dir_sectors s.directory s.disk in
    let next = read_u32 s.superblock 8 in
    let checked =
      if ltb next data_lba then data_lba else if ltb data_end_lba next then data_lba else next in
    if good
    then record s {
      directory = directory;
      ready = true;
      file_count = count_used directory max_entries 0;
      next_free_lba = checked;
      disk = disk;
    }
    else record s { directory = directory; disk = disk }

unfoldable pub ufs_init : Ufs → Ufs
unfolding ata_read_sectors mount format_fresh
ufs_init s =
    let (good, superblock, disk) = ata_read_sectors sb_lba 1 s.superblock s.disk in
    let read = record s { superblock = superblock; ready = false; disk = disk } in
    let has_magic =
      (superblock 0 == b'U')
      && (superblock 1 == b'F')
      && (superblock 2 == b'S')
      && (superblock 3 == b'1') in
    if good then if has_magic then mount read else format_fresh read else read

unfoldable pub ufs_file_count : Ufs → ℕ
ufs_file_count s = if s.ready then s.file_count else 0

-- `ufs_dirent_t`, the copy of an entry that `ufs_entry` returns.
pub record Dirent : Type 0 where
  pub name : List ℕ
  pub size_bytes : ℕ
  pub owner_uid : ℕ
  pub perm : ℕ

-- The loop of `ufs_entry` with `seen` entries seen.
unfoldable pub entry_from : (ℕ → ℕ) → ℕ → ℕ → ℕ → ℕ → Option Dirent
unfolding read_u32
entry_from directory index zero i seen = none
entry_from directory index (suc rounds) i seen =
    let e = entry_at i in
    let out : Dirent = record {
      name = slice directory e name_max;
      size_bytes = read_u32 directory (e + off_size);
      owner_uid = read_u32 directory (e + off_owner);
      perm = directory (e + off_perm);
    } in
    let later = entry_from directory index rounds (i + 1) (seen + 1) in
    let rest = entry_from directory index rounds (i + 1) seen in
    if in_use directory i then if seen == index then some out else later else rest

unfoldable pub ufs_entry : Ufs → ℕ → Option Dirent
unfolding entry_from
ufs_entry s index = if s.ready then entry_from s.directory index max_entries 0 0 else none

unfoldable pub find_named : (ℕ → ℕ) → List ℕ → ℕ → ℕ → Option ℕ
unfolding str_eq_at
find_named directory name zero i = none
find_named directory name (suc rounds) i =
    let rest = find_named directory name rounds (i + 1) in
    if in_use directory i
    then if str_eq_at directory (entry_at i) name then some i else rest
    else rest

-- `ufs_find`: `none` is -1.
unfoldable pub ufs_find : Ufs → List ℕ → Option ℕ
unfolding find_named
ufs_find s name = if s.ready then find_named s.directory name max_entries 0 else none

unfoldable pub free_slot : (ℕ → ℕ) → ℕ → ℕ → Option ℕ
free_slot directory zero i = none
free_slot directory (suc rounds) i =
    let rest = free_slot directory rounds (i + 1) in if in_use directory i then rest else some i

-- The entry of a new file.
unfoldable pub new_entry : (ℕ → ℕ) → ℕ → List ℕ → ℕ → ℕ → ℕ
unfolding set_name write_u32
new_entry directory slot name owner =
    let e = entry_at slot in
    let named = set_name directory e 19 name in
    let placed = write_u32 (write_u32 named (e + off_start_lba) 0) (e + off_size) 0 in
    update (write_u32 (write_u32 placed (e + off_capacity) 0) (e + off_owner) owner) (e + off_perm)
      0

-- The end of `ufs_create`, with the free slot.
unfoldable pub created : List ℕ → ℕ → Ufs → Option ℕ → ℤ × Ufs
unfolding new_entry persist
created name owner s none = (minus_one, s)
created name owner s (some slot) = persisted (pos slot) (
    persist (record s {
      directory = new_entry s.directory slot name owner;
      file_count = (s.file_count + 1) % 2 ^ 32;
    }))

unfoldable pub ufs_create : List ℕ → ℕ → Ufs → ℤ × Ufs
unfolding ufs_find free_slot created
ufs_create name owner s =
    let made : ℤ × Ufs = elim (ufs_find s name) [
      | some i ↦ (minus_one, s)
      | none ↦ created name owner s (free_slot s.directory max_entries 0)
    ] in
    if not s.ready
    then (minus_one, s)
    else if length name == 0
    then (minus_one, s)
    else if leb name_max (length name)
    then (minus_one, s)
    else made

unfoldable pub ufs_delete : List ℕ → Ufs → ℤ × Ufs
unfolding ufs_find persist
ufs_delete name s = elim (ufs_find s name) [
  | none ↦ (minus_one, s)
  | some slot ↦ persisted (pos 0) (
      persist (record s {
        directory = update s.directory (entry_at slot) 0;
        file_count = (s.file_count + 2 ^ 32 - 1) % 2 ^ 32;
      }))
]

-- `handle_valid`: the entry's index.
abbrev pub handle_index : Ufs → ℤ → Option ℕ
handle_index s (negsuc n) = none
handle_index s (pos i) =
    if s.ready
    then if ltb i max_entries then if in_use s.directory i then some i else none else none
    else none

unfoldable pub ufs_owner : Ufs → ℤ → ℕ
unfolding read_u32
ufs_owner s handle = elim (handle_index s handle) [
  | none ↦ 0
  | some i ↦ read_u32 s.directory (entry_at i + off_owner)
]

unfoldable pub ufs_perm : Ufs → ℤ → ℕ
ufs_perm s handle = elim (handle_index s handle) [
  | none ↦ 0
  | some i ↦ s.directory (entry_at i + off_perm)
]

unfoldable pub ufs_chmod : ℤ → ℕ → Ufs → ℤ × Ufs
unfolding persist
ufs_chmod handle perm s = elim (handle_index s handle) [
  | none ↦ (minus_one, s)
  | some i ↦
      persisted (pos 0)
        (persist (record s { directory = update s.directory (entry_at i + off_perm) perm }))
]

unfoldable pub ufs_size : Ufs → ℤ → ℕ
unfolding read_u32
ufs_size s handle = elim (handle_index s handle) [
  | none ↦ 0
  | some i ↦ read_u32 s.directory (entry_at i + off_size)
]

unfoldable pub ufs_truncate : ℤ → ℕ → Ufs → ℤ × Ufs
unfolding read_u32 write_u32 persist
ufs_truncate handle new_size s = elim (handle_index s handle) [
  | none ↦ (minus_one, s)
  | some i ↦
      let e = entry_at i in
      let capacity_bytes = read_u32 s.directory (e + off_capacity) * sector_size % 2 ^ 32 in
      let resized =
        persisted (pos 0)
          (persist (record s { directory = write_u32 s.directory (e + off_size) new_size })) in
      if ltb capacity_bytes new_size then (minus_one, s) else resized
]
