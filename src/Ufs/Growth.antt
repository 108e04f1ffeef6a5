-- ===== src/Ufs/Growth.antt =====
-- `ensure_capacity` of kernel/core/ufs.c on a file that has too little room: it is moved to free
-- sectors, or there are none.
use mini_kernel.Prelude.{
  ℕ, ◌+◌, ◌*◌, ◌/◌, ◌%◌, ◌^◌, ◌≤◌, ◌<◌, ◌≡◌, refl, ap, sym, subst, ◌∙◌, ◌⊎◌, inl, inr, true, false,
  not, if◌then◌else◌, if-false, if_elim, ltb, leb, ◌==◌, doubled_ends, doubled_stops, arith,
}
use mini_kernel.Ufs.{
  Ufs, sector_size, data_lba, data_end_lba, entry_at, in_use, max_entries, off_start_lba, off_size,
  off_capacity, write_u32,
}
use mini_kernel.Ufs.Data.{
  Room, returned, sectors_for_bytes, move_from, place, moved_to, relocate, grown_to,
  ensure_capacity,
}
use mini_kernel.Ufs.Words.{read_u32-write_u32, read_u32-write_u32_apart, write_u32_apart}
use mini_kernel.Ufs.Transfer.{healthy, byte_at}
use mini_kernel.Ufs.Remount.{Synced, InArea, persist_saves}
use mini_kernel.Ufs.Relocate.{Moved, move_from_lem}
use mini_kernel.Ufs.Stored.{start_of, size_of, capacity_of}

-- An entry that is used. Its size is within its room, which is empty or lies in the part of the
-- data area that was given out.
pub record Allocated (s : Ufs) (i : ℕ) : Type 0 where
  pub is_ready : s.ready ≡ true
  pub in_bounds : i < max_entries
  pub used : in_use s.directory i ≡ true
  pub size_fits : size_of s i ≤ capacity_of s i * sector_size
  pub in_place :
      (capacity_of s i ≡ 0)
      ⊎ ((data_lba ≤ start_of s i) × (start_of s i + capacity_of s i ≤ s.next_free_lba))

-- The disk behind the move of a file to `c` free sectors: the file's bytes are there, and no other
-- sector of the data area is changed.
pub record Copied (s : Ufs) (i c : ℕ) (sectors : ℕ → ℕ → ℕ) : Type 0 where
  pub bytes :
      (k : ℕ)
      → k < size_of s i
      → byte_at sectors s.next_free_lba k ≡ byte_at s.disk.sectors (start_of s i) k
  pub others :
      (l j : ℕ)
      → data_lba ≤ l
      → (l < s.next_free_lba) ⊎ (s.next_free_lba + c ≤ l)
      → sectors l j ≡ s.disk.sectors l j

-- The file is in `c` sectors that were free; the other entries are as they were, and the state is
-- saved.
pub record Grown (s : Ufs) (i c : ℕ) (s' : Ufs) : Type 0 where
  pub synced : Synced s'
  pub in_area : InArea s'
  pub is_ready : s'.ready ≡ true
  pub used : in_use s'.directory i ≡ true
  pub start : start_of s' i ≡ s.next_free_lba
  pub capacity : capacity_of s' i ≡ c
  pub size : size_of s' i ≡ size_of s i
  pub next : s'.next_free_lba ≡ s.next_free_lba + c
  pub entries : (k : ℕ) → (k < entry_at i) ⊎ (entry_at i + 40 ≤ k) → s'.directory k ≡ s.directory k
  pub copied : Copied s i c s'.disk.sectors

-- The entry that points to the new place.
abbrev pointed : Ufs → ℕ → ℕ → ℕ → ℕ
pointed s i c =
    write_u32 (write_u32 s.directory (entry_at i + off_start_lba) s.next_free_lba)
      (entry_at i + off_capacity) c

pointed_apart :
    (s : Ufs) (i c k : ℕ)
    → (k < entry_at i + 20) ⊎ (entry_at i + 32 ≤ k)
    → pointed s i c k ≡ s.directory k
pointed_apart s i c k h =
    let e = entry_at i in
    let low : (k < e + off_start_lba) ⊎ (e + off_start_lba + 4 ≤ k) = elim h [
      | inl p ↦ inl (omega arith)
      | inr p ↦ inr (omega arith)
    ] in
    let high : (k < e + off_capacity) ⊎ (e + off_capacity + 4 ≤ k) = elim h [
      | inl p ↦ inl (omega arith)
      | inr p ↦ inr (omega arith)
    ] in
    write_u32_apart (write_u32 s.directory (e + off_start_lba) s.next_free_lba) (e + off_capacity) c
      k high
    ∙ write_u32_apart s.directory (e + off_start_lba) s.next_free_lba k low

moved_to_lem :
    (s : Ufs) (i c : ℕ) (sectors : ℕ → ℕ → ℕ)
    → InArea s
    → Allocated s i
    → s.next_free_lba + c ≤ data_end_lba
    → Copied s i c sectors
    → (s' : Ufs) × (moved_to (entry_at i) c s (true, healthy sectors) ≡ returned true s')
      × Grown s i c s'
unfolding moved_to place
moved_to_lem s i c sectors (low, high) a space m =
    let e = entry_at i in
    let placed : Ufs = record s {
      directory = pointed s i c;
      next_free_lba = (s.next_free_lba + c) % 2 ^ 32;
      disk = healthy sectors;
    } in
    let first = write_u32 s.directory (e + off_start_lba) s.next_free_lba in
    let (s', run, sync, shape, keep) = persist_saves placed refl (omega arith, omega arith) in
    let next : s'.next_free_lba ≡ s.next_free_lba + c =
      ap (λ x. x.next_free_lba) shape ∙ omega arith in
    (
      s',
      ap (λ r. returned r.0 r.1) run,
      record {
        synced = sync;
        in_area = (omega arith, omega arith);
        is_ready = ap (λ x. x.ready) shape ∙ a.is_ready;
        used =
            ap (λ x. in_use x.directory i) shape
            ∙ ap (λ b. not (b == 0)) (pointed_apart s i c e (inl (omega arith)))
            ∙ a.used;
        start =
            ap (λ x. start_of x i) shape
            ∙ read_u32-write_u32_apart first (e + off_capacity) (e + off_start_lba) c
                (inl (omega arith))
            ∙ read_u32-write_u32 s.directory (e + off_start_lba) s.next_free_lba (omega arith);
        capacity =
            ap (λ x. capacity_of x i) shape
            ∙ read_u32-write_u32 first (e + off_capacity) c (omega arith);
        size =
            ap (λ x. size_of x i) shape
            ∙ read_u32-write_u32_apart first (e + off_capacity) (e + off_size) c (inl (omega arith))
            ∙ read_u32-write_u32_apart s.directory (e + off_start_lba) (e + off_size)
                s.next_free_lba (inr (omega arith));
        next = next;
        entries = λ k h.
            ap (λ x. x.directory k) shape
            ∙ pointed_apart s i c k
                (elim h [ inl p ↦ inl (omega arith) | inr p ↦ inr (omega arith) ]);
        copied = record {
          bytes = λ k lt. keep _ _ (omega arith) ∙ m.bytes k lt;
          others = λ l j p h. keep l j p ∙ m.others l j p h;
        };
      },
    )

-- Whether there is space for `c` sectors decides what `ensure_capacity` does.
abbrev pub Outcome : Ufs → ℕ → ℕ → Room → Type 0
Outcome s i c r =
    ((data_end_lba < s.next_free_lba + c) × (r ≡ returned false s))
    ⊎ ((s.next_free_lba + c ≤ data_end_lba) × (s' : Ufs) × (r ≡ returned true s') × Grown s i c s')

pub sectors_for_bytes_lem : (n : ℕ) → n < 2 ^ 31 → sectors_for_bytes n ≡ (n + 511) / sector_size
unfolding sectors_for_bytes
sectors_for_bytes_lem n h = omega arith

pub Allocated-small : (s : Ufs) (i : ℕ) → InArea s → Allocated s i → capacity_of s i ≤ data_end_lba
Allocated-small s i (low, high) a = elim a.in_place [ inl p ↦ omega arith | inr p ↦ omega arith ]

Moved-Copied :
    (s : Ufs) (i c : ℕ) (sectors : ℕ → ℕ → ℕ)
    → InArea s
    → Allocated s i
    → capacity_of s i ≤ c
    → Moved s.disk.sectors
        (start_of s i)
        s.next_free_lba
        0
        (sectors_for_bytes (size_of s i))
        sectors
    → Copied s i c sectors
Moved-Copied s i c sectors area a le m =
    let small = Allocated-small s i area a in
    let fits = a.size_fits in
    let total = sectors_for_bytes_lem (size_of s i) (omega arith) in
    record {
      bytes = λ k lt.
          m.copied (k / sector_size) (k % sector_size) (omega arith) (omega arith) (omega arith);
      others = λ l j p h.
          m.others l j (elim h [ inl q ↦ inl (omega arith) | inr q ↦ inr (omega arith) ]);
    }

-- The file is moved.
abbrev Moves : Ufs → ℕ → ℕ → Room → Type 0
Moves s i c r = (s' : Ufs) × (r ≡ returned true s') × Grown s i c s'

empty-Moves :
    (s : Ufs) (i c : ℕ)
    → Synced s
    → InArea s
    → Allocated s i
    → s.next_free_lba + c ≤ data_end_lba
    → size_of s i ≡ 0
    → Moves s i c (moved_to (entry_at i) c s (true, s.disk))
empty-Moves s i c sync area a space none_there =
    let same : Copied s i c s.disk.sectors = record {
      bytes = λ k lt. omega arith;
      others = λ l j p h. refl;
    } in
    let (s', e, g) = moved_to_lem s i c s.disk.sectors area a space same in
    (s', ap (λ d. moved_to (entry_at i) c s (true, d)) sync.is_healthy ∙ e, g)

filled-Moves :
    (s : Ufs) (i c : ℕ)
    → Synced s
    → InArea s
    → Allocated s i
    → capacity_of s i ≤ c
    → s.next_free_lba + c ≤ data_end_lba
    → 0 < size_of s i
    → let total = sectors_for_bytes (size_of s i) in
      Moves s i c
        (moved_to (entry_at i) c s (move_from total (start_of s i) s.next_free_lba 0 total s.disk))
filled-Moves s i c sync area a le space filled =
    let (low, high) = area in
    let small = Allocated-small s i area a in
    let fits = a.size_fits in
    let total = sectors_for_bytes (size_of s i) in
    let count = sectors_for_bytes_lem (size_of s i) (omega arith) in
    let apart : start_of s i + total ≤ s.next_free_lba = elim a.in_place [
      | inl p ↦ omega arith
      | inr p ↦ omega arith
    ] in
    let (sectors', run, m) =
      move_from_lem total (start_of s i) s.next_free_lba 0 total s.disk.sectors (omega arith) apart
        (omega arith) in
    let (s', e, g) =
      moved_to_lem s i c sectors' area a space (Moved-Copied s i c sectors' area a le m) in
    (
      s',
      ap (λ d. moved_to (entry_at i) c s (move_from total (start_of s i) s.next_free_lba 0 total d))
            sync.is_healthy
          ∙ ap (moved_to (entry_at i) c s) run
          ∙ e,
      g,
    )

relocate-Outcome :
    (s : Ufs) (i c : ℕ)
    → Synced s
    → InArea s
    → Allocated s i
    → capacity_of s i ≤ c
    → c < 2 ^ 31
    → Outcome s i c (relocate (entry_at i) c s)
unfolding relocate
relocate-Outcome s i c sync area a le small =
    let (low, high) = area in
    if_elim (Outcome s i c) (ltb data_end_lba ((s.next_free_lba + c) % 2 ^ 32))
      (λ full. inl (ground arith, refl))
      (λ free.
        let space : s.next_free_lba + c ≤ data_end_lba = ground arith in
        let (s', e, g) =
          if_elim (Moves s i c) (size_of s i == 0)
            (λ empty. empty-Moves s i c sync area a space (ground arith))
            (λ filled. filled-Moves s i c sync area a le space (ground arith)) in
        inr (space, s', e, g))

-- `ensure_capacity` of a file that has too little room chooses a capacity that is enough, less than
-- twice what is needed and a sector; where that many sectors are free it moves the file to them,
-- and otherwise it refuses and changes nothing.
pub ensure_capacity_lem :
    (s : Ufs) (i needed : ℕ)
    → Synced s
    → InArea s
    → Allocated s i
    → needed < 2 ^ 31
    → capacity_of s i * sector_size < needed
    → (c : ℕ) × (needed ≤ c * sector_size)
      × (c * sector_size < 2 * (needed + sector_size))
      × Outcome s i c (ensure_capacity i needed s)
unfolding ensure_capacity grown_to
ensure_capacity_lem s i needed sync area a small lacks =
    let cap = Allocated-small s i area a in
    let total = sectors_for_bytes needed in
    let count : total ≡ (needed + 511) / sector_size = sectors_for_bytes_lem needed small in
    let first = if capacity_of s i == 0 then 1 else capacity_of s i in
    let at_least : (1 ≤ first) × (capacity_of s i ≤ first) × (first ≤ total) =
      (ground arith, ground arith, ground arith) in
    let (one, over, under) = at_least in
    let (c, found, enough) = doubled_ends 63 first total (omega arith) (omega arith) in
    let bound : c < 2 * total = elim (doubled_stops 64 first total c (omega arith) found) [
      | inl same ↦ omega arith
      | inr less ↦ less
    ] in
    let too_little : leb needed (capacity_of s i * sector_size % 2 ^ 32) ≡ false = ground arith in
    (
      c,
      omega arith,
      omega arith,
      subst (Outcome s i c) (sym (if-false _ _ too_little ∙ ap (grown_to (entry_at i) s) found))
          (relocate-Outcome s i c sync area a (omega arith) (omega arith)),
    )
