-- ===== src/Lib.antt =====
-- MiniKernel, a small x86-64 kernel in C: models of its parts and the theorems about them.
--
-- The parts modelled and their files:
-- - Ring: the byte ring of kernel/lib/ring_buffer.c, which holds the keyboard's input
--   (`ring_buffer_init`, `ring_buffer_push`, `ring_buffer_pop`).
-- - Sched: the thread table of kernel/sched/thread.c. Sched holds `thread_t`, the slots and the
--   queries; Sched/Switch the functions that choose and switch threads; Sched/Fds the file
--   descriptors; Sched/Spawn `sched_init` and the spawning of threads. Sched/Next, Sched/Fairness,
--   Sched/Invariant and Sched/Growth hold the theorems.
-- - Pipe: the pipes of kernel/core/pipe.c. They call the scheduler: a read or a write wakes the
--   pipe's sleepers, or puts the calling thread to sleep. Pipe/Bytes, Pipe/Calls and Pipe/Stream
--   hold the theorems.
-- - Pmm: the frame allocator of kernel/mm/pmm.c. Pmm/Bits holds the laws of single bits, Pmm/Frames
--   the frames as a set, Pmm/Alloc, Pmm/Runs and Pmm/Init the theorems on `pmm_alloc_frame`,
--   `pmm_alloc_contiguous` and `pmm_init`. The memory map is an argument.
-- - Vmm: the page tables of kernel/mm/vmm.c, over Pmm. A table is named by its frame, and a store
--   gives the words of each frame. Vmm/Walk is the reference: the walk of the tables to a page, and
--   tables that are a tree. The walk reads four indexes of an address, whatever its bits above 48,
--   and knows pages of 2 MB and 4 KB, the only ones that the source makes, not those of 1 GB. Vmm/Steps, Vmm/Install, Vmm/Grow and Vmm/Descend are about the steps that
--   open, link or split a table, Vmm/Way about the way to a page's entry, Vmm/Mapping about an entry
--   that is written, Vmm/Calls about mapping and unmapping, Vmm/Access about pages of user programs,
--   Vmm/Unlinked and Vmm/Spaces about new address spaces, Vmm/Destroy about destroying one,
--   Vmm/Huge and Vmm/Boot about the pages that `vmm_init` maps. Vmm/Stacks is
--   kernel/mm/vmm_growable_stack.c, the stacks that grow on page faults, with its regions as a
--   list. Flushing translations and loading the processor's registers are left out.
-- - Heap: `kmalloc` and `kfree` of kernel/mm/heap.c, which take frames from Pmm. The list of blocks
--   is a list. Heap/Blocks counts the blocks that hold a byte, Heap/Calls holds the theorems.
-- - Memfs: the files in memory of kernel/core/memfs.c. Memfs/Contents is about what the files hold,
--   Memfs/Names about creating, finding and deleting, Memfs/Overflow about the growth of a file. A
--   name is the list of its characters; what `kmalloc` gives is an argument. The doubling of a
--   capacity has 64 rounds, which is enough: after 32 every bit is shifted out of the word.
-- - Users: the accounts of kernel/core/users.c: `users_add` on the table, `users_authenticate`,
--   `users_name_for_uid`; Users/Accounts holds the theorems on these. Users/Passwd is the copy of the
--   table in the file `.passwd` of Ufs (`persist`, `seed_defaults`, `users_init`, and `users_add`
--   with its `persist`), Users/Reload is about the records, Users/Survive about the accounts over a
--   restart.
-- - Lang: the script interpreter of programs/lang.c. Lang scans texts and evaluates expressions,
--   Lang/Exec executes statements and runs a script, Lang/Load splits a text into lines. The
--   functions `parse_factor`, `parse_term` and `parse_expr` call one another on fuel, three units
--   for a character and three more, which is shown to be enough (Lang/Fuel). Lang/Grammar is the
--   reference: expressions, their print and their value; Lang/Division compares the division of the
--   two, Lang/Equivalence the two. A quotient that does not fit in 64 bits is the processor's divide
--   error: the value is `none`, and the script ends there.
--   Lang/Variables and Lang/Numbers are about variables and printed numbers. Reading the file by
--   system calls is not modelled.
-- - Fd: the file descriptors of kernel/core/fd.c, which joins Sched's descriptors with Pipe, Memfs and
--   Ufs; Fd/Access is about the owner and the permissions of a persistent file. The keyboard and the
--   screen are the characters read and written.
-- - Edit: the line editor of programs/edit.c. Edit holds the lines, loading, saving and the changes of
--   the text, Edit/Commands the commands and the loop that reads them. Edit/Lines is about the text
--   as a list, Edit/Saved about saving and loading, Edit/Bounds about the room of the arrays and the
--   end of the loop. The lines that are typed are an argument; the loop has a round for each and one
--   more, which is shown to be enough. A file is read in at most 48 rounds of 512 bytes, as many as
--   `content` has room for. Drawing the screen is not modelled.
-- - Ufs: the persistent files of kernel/core/ufs.c. Ufs holds the directory, the superblock and
--   the operations on entries, Ufs/Data the room of a file, writing and reading
--   (`ensure_capacity`, `ufs_write_at`, `ufs_read_at`). The disk behind kernel/drivers/ata.c is
--   its sectors and a schedule of failures: a request that fails may have transferred some of its
--   sectors. A request for no sector or for more than 256 is refused, and of a sector's number the
--   low 28 bits are sent. The driver's ports are not modelled. Ufs/Words is about 32-bit words in arrays,
--   Ufs/Transfer about the loops over sectors, Ufs/Remount about what is saved and mounted again,
--   Ufs/Stored and Ufs/Durable about what is written and read, Ufs/Relocate, Ufs/Growth and
--   Ufs/Growing about files that grow, Ufs/Entries and Ufs/Counted about the entries that are
--   used, Ufs/Truncated about `ufs_truncate`. The doubling of a capacity has 64 rounds, enough as
--   for Memfs.
-- - Prelude: what these share: tests, lists, integers, arrays, texts, bytes in arrays, joined bits,
--   and the doubling of a capacity.
--
-- How the state is modelled: the statics of a C file are a record, a function that changes them
-- returns the new record beside its result, an array is a function from its indices, a C `int` is
-- an integer, an unsigned word is a natural number with its wrap-around written out. A function
-- that puts its thread to sleep or yields returns the state at the switch, and its outcome. What
-- `kmalloc` and `alloc_guarded_stack` give to the thread table is an argument.
--
-- Not modelled: the processes and the exit, killing and reaping of threads (kernel/core/process.c, the
-- rest of kernel/sched/thread.c), the system calls (kernel/core/syscall.c), the read-only files
-- (kernel/core/fs.c), the loader of programs (kernel/core/elf), the shells and the other programs,
-- and the keyboard are left out. The drivers of ports, the screen, the processor's
-- tables, the interrupt entry, the boot loader and the start of the kernel are input and output or
-- assembly. The map of kernel/mm/e820.c is an argument.
pub mod Prelude
pub mod Ring
pub mod Sched
pub mod Pipe
pub mod Pmm
pub mod Memfs
pub mod Users
pub mod Vmm
pub mod Edit
pub mod Fd
pub mod Heap
pub mod Lang
pub mod Ufs
