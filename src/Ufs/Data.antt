-- ===== src/Ufs/Data.antt =====
-- The contents of files in kernel/core/ufs.c: room for them, writing and reading. What the static
-- buffers `scratch` and `move_buf` hold before a request is never used: they begin as zeros.
use mini_kernel.Prelude.{
  doubled, ℕ, zero, suc, ◌+◌, ◌-◌, ◌*◌, ◌/◌, ◌%◌, ◌^◌, ℤ, pos, minus_one, int_of, Bool, true, false,
  Option, none, some, List, [], ◌++◌, if◌then◌else◌, ltb, leb, ◌==◌, min, store, slice, length,
  take, drop,
}
use mini_kernel.Ufs.{
  Disk, Ufs, sector_size, data_end_lba, ata_read_sectors, ata_write_sectors, read_u32, write_u32,
  entry_at, off_start_lba, off_size, off_capacity, handle_index, persist,
}

unfoldable pub sectors_for_bytes : ℕ → ℕ
sectors_for_bytes bytes = (bytes + sector_size - 1) % 2 ^ 32 / sector_size

-- The loop that moves a file's sectors, eight at a time, with `done` of them moved.
unfoldable pub move_from : ℕ → ℕ → ℕ → ℕ → ℕ → Disk → Bool × Disk
unfolding ata_read_sectors ata_write_sectors
move_from zero old_start new_start done total d = (true, d)
move_from (suc rounds) old_start new_start done total d =
    let chunk = min 8 (total - done) in
    let (read, buf, d1) = ata_read_sectors ((old_start + done) % 2 ^ 32) chunk (λ i. 0) d in
    let (written, d2) = ata_write_sectors ((new_start + done) % 2 ^ 32) chunk buf d1 in
    let rest = move_from rounds old_start new_start (done + chunk) total d2 in
    if leb total done
    then (true, d)
    else if read
    then if written then rest else (false, d2)
    else (false, d1)

-- The end of `ensure_capacity`: the entry points to the new place.
unfoldable pub place : ℕ → ℕ → ℕ → Ufs → Bool × Ufs
unfolding write_u32 persist
place e new_start capacity s = persist (record s {
  directory =
      write_u32 (write_u32 s.directory (e + off_start_lba) new_start) (e + off_capacity) capacity;
  next_free_lba = (s.next_free_lba + capacity) % 2 ^ 32;
})

-- How `ensure_capacity` goes: it returns whether there is room, or its loop does not end.
pub data Room : Type 0 where
  returned : Bool → Ufs → Room
  never_ends : Room

-- The part of `ensure_capacity` behind its moving loop, with what that returns.
unfoldable pub moved_to : ℕ → ℕ → Ufs → Bool × Disk → Room
unfolding place
moved_to e capacity s (good, disk) =
    let moved = record s { disk = disk } in
    let (placed, s') = place e s.next_free_lba capacity moved in
    if good then returned placed s' else returned false moved

-- The part of `ensure_capacity` behind the doubling, with the new capacity.
unfoldable pub relocate : ℕ → ℕ → Ufs → Room
unfolding read_u32 sectors_for_bytes move_from moved_to
relocate e capacity s =
    let old_start = read_u32 s.directory (e + off_start_lba) in
    let old_size = read_u32 s.directory (e + off_size) in
    let total = sectors_for_bytes old_size in
    if ltb data_end_lba ((s.next_free_lba + capacity) % 2 ^ 32)
    then returned false s
    else if old_size == 0
    then moved_to e capacity s (true, s.disk)
    else moved_to e capacity s (move_from total old_start s.next_free_lba 0 total s.disk)

-- The same with what the doubling gives.
unfoldable pub grown_to : ℕ → Ufs → Option ℕ → Room
unfolding relocate
grown_to e s none = never_ends
grown_to e s (some capacity) = relocate e capacity s

unfoldable pub ensure_capacity : ℕ → ℕ → Ufs → Room
unfolding read_u32 doubled sectors_for_bytes grown_to
ensure_capacity i needed s =
    let e = entry_at i in
    let current = read_u32 s.directory (e + off_capacity) in
    let first = if current == 0 then 1 else current in
    if leb needed (current * sector_size % 2 ^ 32)
    then returned true s
    else grown_to e s (doubled 64 first (sectors_for_bytes needed))

-- The loop of `ufs_write_at` at position `cur`, with the bytes that remain; each round stores at
-- least one.
unfoldable pub write_from : ℕ → ℕ → ℕ → List ℕ → Disk → Bool × Disk
unfolding ata_read_sectors ata_write_sectors store
write_from zero start cur src d = (true, d)
write_from (suc rounds) start cur src d =
    let at = cur % sector_size in
    let chunk = min (sector_size - at) (length src) in
    let lba = (start + cur / sector_size) % 2 ^ 32 in
    let (read, scratch, d1) = ata_read_sectors lba 1 (λ i. 0) d in
    let (written, d2) = ata_write_sectors lba 1 (store scratch at (take chunk src)) d1 in
    let rest = write_from rounds start (cur + chunk) (drop chunk src) d2 in
    if length src == 0
    then (true, d)
    else if read
    then if written then rest else (false, d2)
    else (false, d1)

-- The result of a write: a number, or none where `ensure_capacity` does not end.
pub data Write : Type 0 where
  result : ℤ → Ufs → Write
  endless : Write

-- The end of `ufs_write_at`, with what its loop returns.
unfoldable pub write_end : ℕ → ℕ → List ℕ → Ufs → Bool × Disk → ℤ × Ufs
unfolding read_u32 write_u32 persist
write_end i needed bytes s (good, disk) =
    let size_at = entry_at i + off_size in
    let s1 = record s { disk = disk } in
    let (saved, s2) = persist (record s1 { directory = write_u32 s.directory size_at needed }) in
    if good
    then if ltb (read_u32 s.directory size_at) needed
      then (if saved then int_of (length bytes) else minus_one, s2)
      else (int_of (length bytes), s1)
    else (minus_one, s1)

-- `ufs_write_at` behind `ensure_capacity`.
unfoldable pub write_data : ℕ → ℕ → ℕ → List ℕ → Ufs → ℤ × Ufs
unfolding read_u32 write_from write_end
write_data i offset needed bytes s =
    let start = read_u32 s.directory (entry_at i + off_start_lba) in
    write_end i needed bytes s (write_from (length bytes) start offset bytes s.disk)

unfoldable pub write_in : ℕ → ℕ → ℕ → List ℕ → Room → Write
unfolding write_data
write_in i offset needed bytes never_ends = endless
write_in i offset needed bytes (returned false s) = result minus_one s
write_in i offset needed bytes (returned true s) =
    let (r, s') = write_data i offset needed bytes s in result r s'

unfoldable pub ufs_write_at : ℤ → ℕ → List ℕ → Ufs → Write
unfolding ensure_capacity write_in
ufs_write_at handle offset bytes s = elim (handle_index s handle) [
  | none ↦ result minus_one s
  | some i ↦
      let needed = (offset + length bytes) % 2 ^ 32 in
      let room = ensure_capacity i needed s in
      if ltb needed offset
      then result minus_one s
      else write_in i offset needed bytes (if length bytes == 0 then returned true s else room)
]

-- The loop of `ufs_read_at` at position `cur`, with `remaining` bytes to go: whether its requests
-- succeed, and the bytes that are stored.
unfoldable pub read_from : ℕ → ℕ → ℕ → ℕ → Disk → Bool × List ℕ × Disk
unfolding ata_read_sectors
read_from zero start cur remaining d = (true, [], d)
read_from (suc rounds) start cur remaining d =
    let at = cur % sector_size in
    let chunk = min (sector_size - at) remaining in
    let lba = (start + cur / sector_size) % 2 ^ 32 in
    let (read, scratch, d1) = ata_read_sectors lba 1 (λ i. 0) d in
    let (good, later, d2) = read_from rounds start (cur + chunk) (remaining - chunk) d1 in
    if remaining == 0
    then (true, [], d)
    else if read
    then (good, slice scratch at chunk ++ later, d2)
    else (false, [], d1)

-- `ufs_read_at`: its result and the bytes stored through `buf`.
unfoldable pub ufs_read_at : ℤ → ℕ → ℕ → Ufs → (ℤ × List ℕ) × Ufs
unfolding read_u32 read_from
ufs_read_at handle offset len s = elim (handle_index s handle) [
  | none ↦ ((minus_one, []), s)
  | some i ↦
      let e = entry_at i in
      let size = read_u32 s.directory (e + off_size) in
      let n = min len (size - offset) in
      let (good, bytes, disk) =
        read_from n (read_u32 s.directory (e + off_start_lba)) offset n s.disk in
      if leb size offset
      then ((pos 0, []), s)
      else ((if good then int_of n else minus_one, bytes), record s { disk = disk })
]
