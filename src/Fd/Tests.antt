-- ===== src/Fd/Tests.antt =====
-- The file descriptors of kernel/core/fd.c at concrete states.
use mini_kernel.Prelude.{
  ◌/◌, ◌%◌, ◌≢◌, ◌⊎◌, arith, ◌≡◌, refl, pos, minus_one, true, false, none, some, [], ◌∷◌,
  if◌then◌else◌, ◌==◌,
}
use mini_kernel.Sched.{Sched, sched_get_uid, sched_current_tid, running, empty_fd_slot}
use mini_kernel.Sched.Fds.{sched_fd_get}
use mini_kernel.Sched.Tests.{four, a_thread}
use mini_kernel.Pipe.{Pipe}
use mini_kernel.Memfs.{empty_entry}
use mini_kernel.Ufs.{Ufs, ufs_find, ufs_owner, ufs_perm}
use mini_kernel.Ufs.Transfer.{healthy}
use mini_kernel.Fd.{Files, returns, fd_open, fd_read, fd_write, me}
use mini_kernel.Fd.Access.{ufs_slot, no_write, no_read, no_descriptor}

-- The thread of user 1000 has the file `a` of user 7 as descriptor 3.
abbrev reader : Sched
reader = record four {
  threads = λ i.
      if i == 0
      then record (a_thread running 1000) {
        fds = λ fd. if fd == 3 then ufs_slot 0 0 else empty_fd_slot;
      }
      else four.threads i;
}

abbrev no_pipe : Pipe
no_pipe = record {
  in_use = false;
  buf = λ i. 0;
  read_pos = 0;
  write_pos = 0;
  count = 0;
  readers = 0;
  writers = 0;
}

abbrev file_of_7 : Ufs
file_of_7 = record {
  superblock = λ i. 0;
  directory = λ i. if i == 0 then 97 else if i == 32 then 7 else 0;
  ready = true;
  file_count = 1;
  next_free_lba = 8199;
  disk = healthy (λ l i. 0);
}

abbrev files : Files
files = record {
  ipc = record { pipes = λ i. no_pipe; sched = reader };
  in_memory = record { entries = λ i. empty_entry; entry_capacity = 0 };
  persistent = file_of_7;
  keys = λ i. 10;
  screen = [];
}

finds : ufs_find file_of_7 (97 ∷ []) ≡ some 0
unfolding ufs_find
finds = refl

has_slot : sched_fd_get reader (pos 3) ≡ some (ufs_slot 0 0)
unfolding sched_fd_get
has_slot = refl

not_owner : me files ≢ ufs_owner file_of_7 (pos 0)
unfolding ufs_owner sched_get_uid sched_current_tid
not_owner = ground arith

no_write_closed : ufs_perm file_of_7 (pos 0) / 2 % 2 ≡ 0
unfolding ufs_perm
no_write_closed = refl

no_read_closed : ufs_perm file_of_7 (pos 0) % 2 ≡ 0
unfolding ufs_perm
no_read_closed = refl

no_write_example : (fd_open none none (97 ∷ []) 6 files).1.persistent ≡ files.persistent
no_write_example = no_write none none (97 ∷ []) 6 files 0 finds not_owner no_write_closed

no_read_example : fd_open none none (97 ∷ []) 2 files ≡ (minus_one, files)
no_read_example = no_read none none (97 ∷ []) 2 files 0 finds refl not_owner no_read_closed

no_descriptor_example :
    ((ufs_perm file_of_7 (pos 0) % 2 ≡ 1) ⊎ (fd_read (pos 3) 10 files ≡ returns minus_one [] files))
    × ((ufs_perm file_of_7 (pos 0) / 2 % 2 ≡ 1)
        ⊎ (fd_write (λ size. none) (pos 3) (1 ∷ []) files ≡ returns minus_one [] files))
no_descriptor_example =
    no_descriptor (λ size. none) (pos 3) 0 10 (1 ∷ []) files 0 has_slot not_owner
