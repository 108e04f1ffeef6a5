-- ===== src/Fd.antt =====
-- The file descriptors of kernel/core/fd.c, over the scheduler and its pipes, the files in memory and
-- the persistent files. `keys` are the characters that `kbd_getchar` returns, in order, and `screen`
-- those that are put on the screen; what `kmalloc` gives is an argument.
pub mod Access
mod Tests
use mini_kernel.Prelude.{
  ℕ, zero, suc, ◌+◌, ◌/◌, ◌%◌, ◌^◌, ℤ, pos, negsuc, minus_one, ltb_ℤ, pos_part, Bool, true, false,
  not, ◌&&◌, Option, none, some, List, [], ◌++◌, if◌then◌else◌, ◌==◌, length, slice,
}
use mini_kernel.Sched.{
  FdKind, FdSlot, Sched, sched_get_uid, sched_current_tid, unused_kind, console, memfs, ufs,
  pipe_read as read_end, pipe_write as write_end,
}
use mini_kernel.Sched.Switch.{Outcome}
use mini_kernel.Sched.Fds.{
  sched_fd_open, sched_fd_close, sched_fd_get, sched_fd_get_for, advance_cursor,
}
use mini_kernel.Pipe.{
  Ipc, PipeCall, done, sleeps, pipe_read, pipe_write, pipe_close_reader, pipe_close_writer,
}
use mini_kernel.Memfs
use mini_kernel.Memfs.{Memfs, MemfsEntry, memfs_find, memfs_create, memfs_read_at, memfs_write_at}
use mini_kernel.Ufs.{Ufs, ufs_find, ufs_create, ufs_owner, ufs_perm, ufs_truncate}
use mini_kernel.Ufs.Data
use mini_kernel.Ufs.Data.{ufs_read_at, ufs_write_at}

-- What the descriptors lead to.
pub record Files : Type 0 where
  pub ipc : Ipc
  pub in_memory : Memfs
  pub persistent : Ufs
  pub keys : ℕ → ℕ
  pub screen : List ℕ

-- How a call goes: its result and the bytes stored, a sleep in a pipe, or a loop without end.
pub data FdCall : Type 0 where
  returns : ℤ → List ℕ → Files → FdCall
  blocks : Outcome → Files → FdCall
  never_ends : FdCall

-- `FD_CREATE`, `FD_PERSIST`, `FD_TRUNC`, and the bits of a permission
abbrev pub fd_create : ℕ
fd_create = 1

abbrev pub fd_persist : ℕ
fd_persist = 2

abbrev pub fd_trunc : ℕ
fd_trunc = 4

abbrev pub ufs_perm_other_read : ℕ
ufs_perm_other_read = 1

abbrev pub ufs_perm_other_write : ℕ
ufs_perm_other_write = 2

abbrev pub has_flag : ℕ → ℕ → Bool
has_flag flags flag = flags / flag % 2 == 1

-- `sched_get_uid(sched_current_tid())`
abbrev pub me : Files → ℕ
me k = sched_get_uid k.ipc.sched (sched_current_tid k.ipc.sched)

-- Whether the current thread owns a persistent file, or the others have the permission.
abbrev pub may : ℕ → ℤ → Files → Bool
may perm handle k =
    if me k == ufs_owner k.persistent handle
    then true
    else has_flag (ufs_perm k.persistent handle) perm

-- `sched_fd_open` at the end of `fd_open`
abbrev pub open_slot : FdKind → ℤ → Files → ℤ × Files
open_slot kind handle k =
    let (fd, sched) = sched_fd_open k.ipc.sched kind handle in
    (fd, record k { ipc = record (k.ipc) { sched = sched } })

-- `fd_open` of a persistent file.
unfoldable pub open_persistent : List ℕ → ℕ → Files → ℤ × Files
open_persistent name flags k = elim (ufs_find k.persistent name) [
  | none ↦
      let (handle, persistent) = ufs_create name (me k) k.persistent in
      let k' = record k { persistent = persistent } in
      if not (has_flag flags fd_create)
      then (minus_one, k)
      else if ltb_ℤ handle (pos 0)
      then (minus_one, k')
      else open_slot ufs handle k'
  | some i ↦
      let handle = pos i in
      let truncated = record k { persistent = (ufs_truncate handle 0 k.persistent).1 } in
      if not (may ufs_perm_other_read handle k)
      then (minus_one, k)
      else if not (has_flag flags fd_trunc)
      then open_slot ufs handle k
      else if not (may ufs_perm_other_write handle k)
      then (minus_one, k)
      else open_slot ufs handle truncated
]

-- `fd_open`, with what `kmalloc` gives for the table of files and for a new file.
unfoldable pub fd_open : Option (ℕ → MemfsEntry) → Option (ℕ → ℕ) → List ℕ → ℕ → Files → ℤ × Files
unfolding open_persistent
fd_open table buf name flags k =
    let found = memfs_find k.in_memory name in
    let (made, in_memory) = memfs_create table buf name k.in_memory in
    let k' = record k { in_memory = in_memory } in
    if has_flag flags fd_persist
    then open_persistent name flags k
    else if not (ltb_ℤ found (pos 0))
    then open_slot memfs found k
    else if not (has_flag flags fd_create)
    then (minus_one, k)
    else if ltb_ℤ made (pos 0)
    then (minus_one, k')
    else open_slot memfs made k'

unfoldable pub release_slot : FdSlot → Files → Files
release_slot slot k = elim slot.kind [
  | read_end ↦ record k { ipc = pipe_close_reader slot.handle k.ipc }
  | write_end ↦ record k { ipc = pipe_close_writer slot.handle k.ipc }
  | _ ↦ k
]

-- The loop of `fd_cleanup_thread` from `fd` on, with the slots it has left.
unfoldable pub cleanup_from : ℕ → ℕ → ℤ → Files → Files
unfolding release_slot
cleanup_from zero fd tid k = k
cleanup_from (suc rounds) fd tid k = elim (sched_fd_get_for k.ipc.sched tid (pos fd)) [
  | none ↦ cleanup_from rounds (fd + 1) tid k
  | some slot ↦ cleanup_from rounds (fd + 1) tid (release_slot slot k)
]

unfoldable pub fd_cleanup_thread : ℤ → Files → Files
unfolding cleanup_from
fd_cleanup_thread tid k = cleanup_from 8 0 tid k

unfoldable pub fd_close : ℤ → Files → ℤ × Files
unfolding release_slot
fd_close fd k = elim (sched_fd_get k.ipc.sched fd) [
  | none ↦ (minus_one, k)
  | some slot ↦
      let k' = release_slot slot k in
      let (result, sched) = sched_fd_close k'.ipc.sched fd in
      (result, record k' { ipc = record (k'.ipc) { sched = sched } })
]

-- `if (n > 0) slot->cursor += n; return n;`
abbrev pub moved : ℤ → ℤ → List ℕ → Files → FdCall
moved fd n bytes k =
    let sched = advance_cursor k.ipc.sched fd (pos_part n) in
    returns n bytes
      (if ltb_ℤ (pos 0) n then record k { ipc = record (k.ipc) { sched = sched } } else k)

abbrev pub piped : PipeCall → Files → FdCall
piped call k = elim call [
  | done n bytes ipc ↦ returns n bytes (record k { ipc = ipc })
  | sleeps outcome ipc ↦ blocks outcome (record k { ipc = ipc })
]

-- `(unsigned int)len`
abbrev pub small : ℕ → ℕ
small len = len % 2 ^ 32

unfoldable pub read_slot : ℤ → FdSlot → ℕ → Files → FdCall
read_slot fd slot len k = elim slot.kind [
  | console ↦ returns (pos len) (slice k.keys 0 len) (record k { keys = λ i. k.keys (i + len) })
  | read_end ↦ piped (pipe_read slot.handle (small len) k.ipc) k
  | ufs ↦
      let ((n, bytes), persistent) = ufs_read_at slot.handle slot.cursor (small len) k.persistent in
      if may ufs_perm_other_read slot.handle k
      then moved fd n bytes (record k { persistent = persistent })
      else returns minus_one [] k
  | memfs ↦
      let (n, bytes) = memfs_read_at k.in_memory slot.handle slot.cursor (small len) in
      moved fd n bytes k
  | _ ↦ returns minus_one [] k
]

unfoldable pub fd_read : ℤ → ℕ → Files → FdCall
unfolding read_slot
fd_read fd len k = elim (sched_fd_get k.ipc.sched fd) [
  | none ↦ returns minus_one [] k
  | some slot ↦ read_slot fd slot len k
]

-- Writing fewer than 2 ^ 32 bytes.
unfoldable pub write_slot : (ℕ → Option (ℕ → ℕ)) → ℤ → FdSlot → List ℕ → Files → FdCall
write_slot kmalloc fd slot bytes k = elim slot.kind [
  | console ↦ returns (pos (length bytes)) [] (record k { screen = k.screen ++ bytes })
  | write_end ↦ piped (pipe_write slot.handle bytes k.ipc) k
  | ufs ↦
      let written : FdCall = elim (ufs_write_at slot.handle slot.cursor bytes k.persistent) [
        | Data.result n persistent ↦ moved fd n [] (record k { persistent = persistent })
        | Data.endless ↦ never_ends
      ] in
      if may ufs_perm_other_write slot.handle k then written else returns minus_one [] k
  | memfs ↦ elim (memfs_write_at kmalloc slot.handle slot.cursor bytes k.in_memory) [
    | Memfs.returns n in_memory ↦ moved fd n [] (record k { in_memory = in_memory })
    | Memfs.never_ends ↦ never_ends
  ]
  | _ ↦ returns minus_one [] k
]

unfoldable pub fd_write : (ℕ → Option (ℕ → ℕ)) → ℤ → List ℕ → Files → FdCall
unfolding write_slot
fd_write kmalloc fd bytes k = elim (sched_fd_get k.ipc.sched fd) [
  | none ↦ returns minus_one [] k
  | some slot ↦ write_slot kmalloc fd slot bytes k
]
