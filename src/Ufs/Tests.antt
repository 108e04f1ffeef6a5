-- ===== src/Ufs/Tests.antt =====
-- Runs of kernel/core/ufs.c.
use mini_kernel.Prelude.{
  ℕ, inr, ◌*◌, ◌+◌, ◌<◌, ◌≡◌, refl, ap, sym, subst, pos, true, false, [], ◌∷◌, if◌then◌else◌, ◌==◌,
  arith,
}
use mini_kernel.Ufs.Counted.{IsValid, operations-IsValid}
use mini_kernel.Ufs.{
  Ufs, count_used, ufs_create, ufs_delete, ufs_chmod, ufs_truncate, read_u32, write_u32, persist,
  ufs_init,
}
use mini_kernel.Ufs.Data.{result, ufs_write_at, ufs_read_at}
use mini_kernel.Ufs.Transfer.{healthy}
use mini_kernel.Ufs.Remount.{Synced, persist_saves}
use mini_kernel.Ufs.Stored.{File}
use mini_kernel.Ufs.Durable.{durable}
use mini_kernel.Ufs.Growth.{Allocated}
use mini_kernel.Ufs.Growing.{GrowingWrite, growing_write}

abbrev blank : Ufs
blank = record {
  superblock = λ i. 0;
  directory = λ i. 0;
  ready = false;
  file_count = 0;
  next_free_lba = 0;
  disk = healthy (λ l i. 0);
}

-- A file `a` of three bytes in one sector.
abbrev one_file : Ufs
one_file = record blank {
  directory = write_u32 (write_u32 (write_u32 (λ i. if i == 0 then b'a' else 0) 20 8198) 24 3) 28 1;
  ready = true;
  file_count = 1;
  next_free_lba = 8199;
}

unfoldable saved_file : Ufs
unfolding persist write_u32
saved_file = (persist one_file).1

saved_file-Synced : Synced saved_file
unfolding saved_file
saved_file-Synced =
    let (s', e, sync, shape, keep) = persist_saves one_file refl (omega arith, omega arith) in
    subst Synced (sym (ap (λ r. r.1) e)) sync

saved_file-File : File saved_file 0
unfolding saved_file persist read_u32
saved_file-File = record {
  is_ready = refl;
  in_bounds = omega arith;
  used = refl;
  in_data = omega arith;
}

durable_example :
    (s' : Ufs) × (ufs_write_at (pos 0) 2 (7 ∷ 8 ∷ []) saved_file ≡ result (pos 2) s')
    × ((ufs_read_at (pos 0) 2 2 (ufs_init (record blank { disk = s'.disk }))).0
        ≡ (pos 2, 7 ∷ 8 ∷ []))
unfolding saved_file persist read_u32
durable_example =
    durable saved_file blank 0 2 (7 ∷ 8 ∷ []) saved_file-Synced (omega arith, omega arith)
      saved_file-File (omega arith, omega arith) (omega arith) (omega arith)

saved_file-Allocated : Allocated saved_file 0
unfolding saved_file persist read_u32
saved_file-Allocated = record {
  is_ready = refl;
  in_bounds = omega arith;
  used = refl;
  size_fits = omega arith;
  in_place = inr (omega arith, omega arith);
}

growing_write_example :
    (c : ℕ) × (c * 512 < 2 * (600 + 2 + 512))
    × GrowingWrite saved_file blank 0 600
        (7 ∷ 8 ∷ [])
        c
        (ufs_write_at (pos 0) 600 (7 ∷ 8 ∷ []) saved_file)
unfolding saved_file persist read_u32
growing_write_example =
    growing_write saved_file blank 0 600 (7 ∷ 8 ∷ []) saved_file-Synced (omega arith, omega arith)
      saved_file-Allocated (omega arith) (omega arith) (omega arith)

saved_file-IsValid : IsValid saved_file
unfolding saved_file persist count_used
saved_file-IsValid = record {
  is_ready = refl;
  synced = saved_file-Synced;
  in_area = (omega arith, omega arith);
  counted = refl;
}

operations-IsValid_example :
    IsValid (ufs_create (b'b' ∷ []) 5 saved_file).1
    × IsValid (ufs_delete (b'b' ∷ []) saved_file).1
    × IsValid (ufs_chmod (pos 0) 3 saved_file).1
    × IsValid (ufs_truncate (pos 0) 2 saved_file).1
operations-IsValid_example =
    operations-IsValid saved_file b'b' [] 5 (pos 0) 3 2 (λ e. omega arith) saved_file-IsValid
