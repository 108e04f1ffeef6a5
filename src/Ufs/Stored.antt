-- ===== src/Ufs/Stored.antt =====
-- `ufs_write_at` of kernel/core/ufs.c on a file that has room.
use mini_kernel.Prelude.{
  ℕ, ◌+◌, ◌*◌, ◌%◌, ◌^◌, ◌≤◌, ◌<◌, ◌≡◌, refl, ap, sym, subst, ◌∙◌, ◌⊎◌, inl, ℤ, pos, minus_one,
  int_of, true, false, not, some, List, if◌then◌else◌, if_elim, if-true, if-false, ltb, leb, ◌==◌,
  max, store, length, arith,
}
use mini_kernel.Ufs.{
  Ufs, sector_size, data_lba, entry_at, in_use, max_entries, off_start_lba, off_size, off_capacity,
  read_u32, write_u32, handle_index, persist,
}
use mini_kernel.Ufs.Data.{
  Room, returned, ensure_capacity, write_from, write_end, write_data, write_in, result,
  ufs_write_at,
}
use mini_kernel.Ufs.Words.{
  read_u32_agree, read_u32-write_u32, read_u32-write_u32_apart, write_u32_apart,
}
use mini_kernel.Ufs.Transfer.{healthy, byte_at, Written, write_from_lem}
use mini_kernel.Ufs.Remount.{Synced, InArea, persist_saves}

-- Where the file of an entry begins, its size, and its room in sectors.
abbrev pub start_of : Ufs → ℕ → ℕ
start_of s i = read_u32 s.directory (entry_at i + off_start_lba)

abbrev pub size_of : Ufs → ℕ → ℕ
size_of s i = read_u32 s.directory (entry_at i + off_size)

abbrev pub capacity_of : Ufs → ℕ → ℕ
capacity_of s i = read_u32 s.directory (entry_at i + off_capacity)

-- An entry of a mounted file system that is used, of a file in the data area.
pub record File (s : Ufs) (i : ℕ) : Type 0 where
  pub is_ready : s.ready ≡ true
  pub in_bounds : i < max_entries
  pub used : in_use s.directory i ≡ true
  pub in_data : data_lba ≤ start_of s i

-- The file has room for `n` bytes from the offset on, and their positions are small numbers.
abbrev pub HasRoom : Ufs → ℕ → ℕ → ℕ → Type 0
HasRoom s i offset n =
    (offset + n ≤ capacity_of s i * sector_size % 2 ^ 32) × (start_of s i + offset + n < 2 ^ 28)

-- The bytes are in the file from the offset on, and the rest of it and the sectors of other files
-- are as they were; the size grows where the write ends behind it; the state is saved.
pub record Stored (s : Ufs) (i offset : ℕ) (bytes : List ℕ) (s' : Ufs) : Type 0 where
  pub synced : Synced s'
  pub file : File s' i
  pub same_start : start_of s' i ≡ start_of s i
  pub same_next : s'.next_free_lba ≡ s.next_free_lba
  pub size : size_of s' i ≡ max (size_of s i) (offset + length bytes)
  pub same_bytes :
      (k : ℕ)
      → (k < entry_at i + off_size) ⊎ (entry_at i + off_size + 4 ≤ k)
      → s'.directory k ≡ s.directory k
  pub stored :
      (c : ℕ)
      → byte_at s'.disk.sectors (start_of s i) c
        ≡ store (byte_at s.disk.sectors (start_of s i)) offset bytes c
  pub others :
      (l j : ℕ)
      → data_lba ≤ l
      → (l < start_of s i) ⊎ (start_of s i * sector_size + offset + length bytes ≤ l * sector_size)
      → s'.disk.sectors l j ≡ s.disk.sectors l j

pub index_lem :
    (s : Ufs) (i : ℕ)
    → s.ready ≡ true
    → i < max_entries
    → in_use s.directory i ≡ true
    → handle_index s (pos i) ≡ some i
index_lem s i ready bound used = ground arith

pub int_small : (n : ℕ) → n < 2 ^ 31 → int_of n ≡ pos n
int_small n h = ground arith

-- What the end of a write leaves.
abbrev Ended : Ufs → ℕ → ℕ → List ℕ → ℤ × Ufs → Type 0
Ended s i offset bytes r = (s' : Ufs) × (r ≡ (pos (length bytes), s')) × Stored s i offset bytes s'

-- A write that ends within the file leaves its entry alone.
within-Ended :
    (s : Ufs) (i offset : ℕ) (bytes : List ℕ) (sectors' : ℕ → ℕ → ℕ)
    → Synced s
    → File s i
    → length bytes < 2 ^ 31
    → offset + length bytes ≤ size_of s i
    → Written s.disk.sectors (start_of s i) offset bytes sectors'
    → Ended s i offset bytes (int_of (length bytes), record s { disk = healthy sectors' })
within-Ended s i offset bytes sectors' sync f small le w =
    let start = f.in_data in
    let early : (l j : ℕ) → l < data_lba → sectors' l j ≡ s.disk.sectors l j =
      λ l j lt. w.others l j (inl (omega arith)) in
    (
      _,
      ap (λ r. (r, record s { disk = healthy sectors' })) (int_small (length bytes) small),
      record {
        synced = record {
          is_healthy = refl;
          directory_saved = λ j lt. early _ _ (omega arith) ∙ sync.directory_saved j lt;
          magic_saved = λ j lt. early _ j (omega arith) ∙ sync.magic_saved j lt;
          next_saved = read_u32_agree _ _ 8 (λ k p q. early _ k (omega arith)) ∙ sync.next_saved;
        };
        file = record {
          is_ready = f.is_ready;
          in_bounds = f.in_bounds;
          used = f.used;
          in_data = f.in_data;
        };
        same_start = refl;
        same_next = refl;
        same_bytes = λ k h. refl;
        size = omega arith;
        stored = w.stored;
        others = λ l j p. w.others l j;
      },
    )

-- A write that ends behind the file stores its size, and saves the state.
behind-Ended :
    (s : Ufs) (i offset : ℕ) (bytes : List ℕ) (sectors' : ℕ → ℕ → ℕ)
    → InArea s
    → File s i
    → offset + length bytes < 2 ^ 31
    → size_of s i < offset + length bytes
    → Written s.disk.sectors (start_of s i) offset bytes sectors'
    → let (saved, s2) = persist (record s {
      directory = write_u32 s.directory (entry_at i + off_size) (offset + length bytes);
      disk = healthy sectors';
    }) in
      Ended s i offset bytes (if saved then int_of (length bytes) else minus_one, s2)
behind-Ended s i offset bytes sectors' area f small lt w =
    let needed = offset + length bytes in
    let directory = write_u32 s.directory (entry_at i + off_size) needed in
    let (s2, e, sync, shape, keep) =
      persist_saves (record s { directory = directory; disk = healthy sectors' }) refl area in
    let at_start =
      ap (λ x. start_of x i) shape
      ∙ read_u32-write_u32_apart s.directory (entry_at i + off_size) (entry_at i + off_start_lba)
          needed (inl (omega arith)) in
    let low : data_lba ≤ start_of s i = f.in_data in
    let name =
      write_u32_apart s.directory (entry_at i + off_size) needed (entry_at i) (inl (omega arith)) in
    (
      s2,
      ap (λ r. let (saved, s') = r in (if saved then int_of (length bytes) else minus_one, s')) e
          ∙ ap (λ r. (r, s2)) (int_small (length bytes) (omega arith)),
      record {
        synced = sync;
        file = record {
          is_ready = ap (λ x. x.ready) shape ∙ f.is_ready;
          in_bounds = f.in_bounds;
          used = ap (λ x. in_use x.directory i) shape ∙ ap (λ b. not (b == 0)) name ∙ f.used;
          in_data = subst (λ n. data_lba ≤ n) (sym at_start) low;
        };
        same_start = at_start;
        same_next = ap (λ x. x.next_free_lba) shape;
        same_bytes = λ k h.
            ap (λ x. x.directory k) shape
            ∙ write_u32_apart s.directory (entry_at i + off_size) needed k h;
        size =
            ap (λ x. size_of x i) shape
            ∙ read_u32-write_u32 s.directory (entry_at i + off_size) needed (omega arith)
            ∙ omega arith;
        stored = λ c. keep _ _ (omega arith) ∙ w.stored c;
        others = λ l j p h. keep l j p ∙ w.others l j h;
      },
    )

room_lem :
    (s : Ufs) (i needed n : ℕ)
    → needed ≤ capacity_of s i * sector_size % 2 ^ 32
    → (if n == 0 then returned true s else ensure_capacity i needed s) ≡ returned true s
unfolding ensure_capacity
room_lem s i needed n h =
    let enough : leb needed (capacity_of s i * sector_size % 2 ^ 32) ≡ true = ground arith in
    if_elim (λ (r : Room). r ≡ returned true s) (n == 0) (λ e. refl) (λ e. if-true _ _ enough)

write_end-Ended :
    (s : Ufs) (i offset : ℕ) (bytes : List ℕ) (sectors' : ℕ → ℕ → ℕ)
    → Synced s
    → InArea s
    → File s i
    → offset + length bytes < 2 ^ 31
    → Written s.disk.sectors (start_of s i) offset bytes sectors'
    → Ended s i offset bytes (write_end i (offset + length bytes) bytes s (true, healthy sectors'))
unfolding write_end
write_end-Ended s i offset bytes sectors' sync area f small w =
    if_elim (Ended s i offset bytes) (ltb (size_of s i) (offset + length bytes))
      (λ e. behind-Ended s i offset bytes sectors' area f small (ground arith) w)
      (λ e. within-Ended s i offset bytes sectors' sync f (omega arith) (ground arith) w)

-- A write that has room ends so.
pub write_data-Ended :
    (s : Ufs) (i offset : ℕ) (bytes : List ℕ)
    → Synced s
    → InArea s
    → File s i
    → start_of s i + offset + length bytes < 2 ^ 28
    → Ended s i offset bytes (write_data i offset (offset + length bytes) bytes s)
unfolding write_data
write_data-Ended s i offset bytes sync area f small =
    let (sectors', run, w) =
      write_from_lem (length bytes) (start_of s i) offset bytes s.disk.sectors (omega arith)
        (omega arith) in
    let ran = ap (write_from (length bytes) (start_of s i) offset bytes) sync.is_healthy ∙ run in
    let (s', ended, stored) =
      write_end-Ended s i offset bytes sectors' sync area f (omega arith) w in
    (s', ap (write_end i (offset + length bytes) bytes s) ran ∙ ended, stored)

-- `ufs_write_at` behind the room that it makes.
pub write_then :
    (s : Ufs) (i offset : ℕ) (bytes : List ℕ) (room : Room)
    → handle_index s (pos i) ≡ some i
    → offset + length bytes < 2 ^ 32
    → (if length bytes == 0 then returned true s else ensure_capacity i (offset + length bytes) s)
      ≡ room
    → ufs_write_at (pos i) offset bytes s ≡ write_in i offset (offset + length bytes) bytes room
unfolding ufs_write_at
write_then s i offset bytes room index small has_room =
    let e : (offset + length bytes) % 2 ^ 32 ≡ offset + length bytes = omega arith in
    let no_overflow : ltb ((offset + length bytes) % 2 ^ 32) offset ≡ false = ground arith in
    rw (index, ufs_write_at)
      (if-false _ _ no_overflow
        ∙ ap
            (λ m.
              write_in i offset m bytes
                (if length bytes == 0 then returned true s else ensure_capacity i m s))
            e
        ∙ ap (write_in i offset (offset + length bytes) bytes) has_room)

-- The bytes that are passed to `ufs_write_at`, where the file has room for them, are in it then.
pub ufs_write_at_lem :
    (s : Ufs) (i offset : ℕ) (bytes : List ℕ)
    → Synced s
    → InArea s
    → File s i
    → HasRoom s i offset (length bytes)
    → (s' : Ufs) × (ufs_write_at (pos i) offset bytes s ≡ result (pos (length bytes)) s')
      × Stored s i offset bytes s'
unfolding write_in
ufs_write_at_lem s i offset bytes sync area f (fits, small) =
    let (s', written, stored) = write_data-Ended s i offset bytes sync area f small in
    (
      s',
      write_then s i offset bytes (returned true s) (index_lem s i f.is_ready f.in_bounds f.used)
            (omega arith) (room_lem s i (offset + length bytes) (length bytes) fits)
          ∙ ap (λ r. result r.0 r.1) written,
      stored,
    )
