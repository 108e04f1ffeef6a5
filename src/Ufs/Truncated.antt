-- ===== src/Ufs/Truncated.antt =====
-- `ufs_truncate` of kernel/core/ufs.c, which empties a file, on a disk whose requests succeed.
use mini_kernel.Prelude.{
  ℕ, ◌+◌, ◌*◌, ◌%◌, ◌^◌, ◌≤◌, ◌<◌, ◌≡◌, ap, sym, subst, ◌∙◌, ◌⊎◌, inl, inr, ℤ, pos, Bool, false,
  not, if-false, ltb, ◌==◌, arith,
}
use mini_kernel.Ufs.{
  Ufs, data_lba, entry_at, in_use, off_start_lba, off_size, off_capacity, sector_size, write_u32,
  ufs_truncate,
}
use mini_kernel.Ufs.Words.{read_u32-write_u32, read_u32-write_u32_apart, write_u32_apart}
use mini_kernel.Ufs.Remount.{Synced, InArea, persist_saves}
use mini_kernel.Ufs.Stored.{File, start_of, size_of, capacity_of, index_lem}

-- The file is empty, and nothing else of the directory is changed.
pub record Truncated (s : Ufs) (i : ℕ) (s' : Ufs) : Type 0 where
  pub synced : Synced s'
  pub in_area : InArea s'
  pub file : File s' i
  pub same_start : start_of s' i ≡ start_of s i
  pub same_capacity : capacity_of s' i ≡ capacity_of s i
  pub empty : size_of s' i ≡ 0
  pub same_bytes :
      (k : ℕ)
      → (k < entry_at i + off_size) ⊎ (entry_at i + off_size + 4 ≤ k)
      → s'.directory k ≡ s.directory k

pub ufs_truncate-Truncated :
    (s : Ufs) (i : ℕ)
    → Synced s
    → InArea s
    → File s i
    → (s' : Ufs) × ((ufs_truncate (pos i) 0 s).1 ≡ s') × Truncated s i s'
unfolding ufs_truncate
ufs_truncate-Truncated s i sync area f =
    let size_at = entry_at i + off_size in
    let low : data_lba ≤ start_of s i = f.in_data in
    let not_less : ltb (capacity_of s i * sector_size % 2 ^ 32) 0 ≡ false = ground arith in
    let (s', run, sync', shape, keep) =
      persist_saves (record s { directory = write_u32 s.directory size_at 0 }) sync.is_healthy
        area in
    let start =
      ap (λ x. start_of x i) shape
      ∙ read_u32-write_u32_apart s.directory size_at (entry_at i + off_start_lba) 0
          (inl (omega arith)) in
    (
      s',
      rw (index_lem s i f.is_ready f.in_bounds f.used, ufs_truncate)
          (ap (λ (r : ℤ × Ufs). r.1) (if-false _ _ not_less) ∙ ap (λ (r : Bool × Ufs). r.1) run),
      record {
        synced = sync';
        in_area = subst InArea (sym shape) area;
        file = record {
          is_ready = ap (λ x. x.ready) shape ∙ f.is_ready;
          in_bounds = f.in_bounds;
          used =
              ap (λ x. in_use x.directory i) shape
              ∙ ap (λ b. not (b == 0))
                  (write_u32_apart s.directory size_at 0 (entry_at i) (inl (omega arith)))
              ∙ f.used;
          in_data = subst (λ n. data_lba ≤ n) (sym start) low;
        };
        same_start = start;
        same_capacity =
            ap (λ x. capacity_of x i) shape
            ∙ read_u32-write_u32_apart s.directory size_at (entry_at i + off_capacity) 0
                (inr (omega arith));
        empty =
            ap (λ x. size_of x i) shape ∙ read_u32-write_u32 s.directory size_at 0 (omega arith);
        same_bytes =
            λ k h. ap (λ x. x.directory k) shape ∙ write_u32_apart s.directory size_at 0 k h;
      },
    )
