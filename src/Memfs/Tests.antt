-- ===== src/Memfs/Tests.antt =====
-- The files in memory of kernel/core/memfs.c at concrete states.
use mini_kernel.Prelude.{
  doubled, ℕ, ◌+◌, ◌≡◌, ◌^◌, refl, true, arith, List, [], ◌∷◌, Option, none, some, pos, minus_one,
  if◌then◌else◌, ◌==◌,
}
use mini_kernel.Memfs.{
  stored, MemfsEntry, Memfs, empty_entry, memfs_write_at, memfs_read_at, memfs_first, memfs_next,
  memfs_file_count,
}
use mini_kernel.Memfs.Contents.{InUse, WriteResult, write_lem, round_trip}
use mini_kernel.Memfs.Names.{Created, Unique}
use mini_kernel.Memfs.Overflow.{doubling_stuck}

abbrev no_files : Memfs
no_files = record { entries = λ i. empty_entry; entry_capacity = 0 }

abbrev memory : ℕ → Option (ℕ → ℕ)
memory size = some (λ i. 0)

abbrev table : Option (ℕ → MemfsEntry)
table = some (λ i. empty_entry)

abbrev buffer : Option (ℕ → ℕ)
buffer = some (λ i. 0)

abbrev a_name : List ℕ
a_name = 97 ∷ 46 ∷ 99 ∷ []

-- One file with two bytes.
abbrev one_file : Memfs
one_file = record {
  entries = λ i.
      if i == 0
      then record { name = a_name; contents = λ k. k + 7; size = 2; capacity = 256; in_use = true }
      else empty_entry;
  entry_capacity = 4;
}

abbrev first_used : InUse one_file 0
first_used = (omega arith, refl)

write_lem_example :
    WriteResult memory one_file 0 1
      (5 ∷ 6 ∷ [])
      (memfs_write_at memory (pos 0) 1 (5 ∷ 6 ∷ []) one_file)
write_lem_example =
    write_lem memory 0 1 (5 ∷ 6 ∷ []) one_file first_used (omega arith) (omega arith) (omega arith)

one_file-Unique : Unique one_file
one_file-Unique i j h k e = ground arith

doubling_stuck_example : doubled 1000000 (2 ^ 9) (2 ^ 31 + 1) ≡ none
doubling_stuck_example = doubling_stuck 1000000 9 (2 ^ 31 + 1) (omega arith) (omega arith)

abbrev created : Memfs
created = record {
  entries = λ i.
      if i == 0
      then record { name = a_name; contents = λ k. 0; size = 0; capacity = 256; in_use = true }
      else empty_entry;
  entry_capacity = 4;
}

start-Created : Created no_files a_name 0 created
start-Created = record {
  made = (omega arith, refl);
  named = refl;
  empty = refl;
  has_buffer = omega arith;
  unnamed = λ j h. absurd (omega arith);
  kept = λ j h. absurd (omega arith);
  no_other = λ j h ne. absurd (ground arith);
}

-- The file after a write at offset 1.
abbrev written : Memfs
written = record {
  entries = λ i.
      if i == 0
      then record {
        name = a_name;
        contents = λ k. if k == 2 then 6 else if k == 1 then 5 else k + 7;
        size = 3;
        capacity = 256;
        in_use = true;
      }
      else if i == 0
      then record { name = a_name; contents = λ k. k + 7; size = 2; capacity = 256; in_use = true }
      else empty_entry;
  entry_capacity = 4;
}

round_trip_example : memfs_read_at written (pos 0) 1 2 ≡ (pos 2, 5 ∷ 6 ∷ [])
unfolding memfs_write_at stored
round_trip_example =
    round_trip memory 0 1 (5 ∷ 6 ∷ []) one_file written first_used (omega arith) (omega arith)
      (omega arith) refl

read_two : memfs_read_at one_file (pos 0) 1 9 ≡ (pos 1, 8 ∷ [])
unfolding memfs_read_at
read_two = refl

listed :
    (memfs_first one_file ≡ pos 0)
    × (memfs_next one_file 0 ≡ minus_one)
    × (memfs_file_count one_file ≡ 1)
unfolding memfs_first memfs_next memfs_file_count
listed = (refl, refl, refl)
