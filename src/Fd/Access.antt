-- ===== src/Fd/Access.antt =====
-- What kernel/core/fd.c refuses to threads that do not own a persistent file.
use mini_kernel.Prelude.{
  ◌/◌, ◌%◌, ◌≢◌, ◌⊎◌, inl, inr, ℕ_discrete, arith, ℕ, ℤ, pos, minus_one, ltb_ℤ, ◌≡◌, refl, ap, sym,
  subst, ◌∙◌, true, false, not, Option, none, some, List, [], if◌then◌else◌, if-true, if-false,
  if_elim,
}
use mini_kernel.Sched.{FdSlot, ufs}
use mini_kernel.Sched.Fds.{sched_fd_get}
use mini_kernel.Memfs.{MemfsEntry, memfs_find, memfs_create}
use mini_kernel.Ufs.{ufs_owner, ufs_perm, ufs_find, ufs_create, ufs_truncate}
use mini_kernel.Fd.{
  Files, FdCall, returns, fd_persist, fd_create, fd_trunc, has_flag, may, me, ufs_perm_other_read,
  ufs_perm_other_write, open_slot, open_persistent, fd_open, read_slot, fd_read, write_slot,
  fd_write,
}

-- `open_persistent` of a file that is there.
open_found : ℕ → ℕ → Files → ℤ × Files
open_found i flags k =
    let handle = pos i in
    let truncated = record k { persistent = (ufs_truncate handle 0 k.persistent).1 } in
    if not (may ufs_perm_other_read handle k)
    then (minus_one, k)
    else if not (has_flag flags fd_trunc)
    then open_slot ufs handle k
    else if not (may ufs_perm_other_write handle k)
    then (minus_one, k)
    else open_slot ufs handle truncated

open_case : List ℕ → ℕ → Files → Option ℕ → ℤ × Files
open_case name flags k none =
    let (handle, persistent) = ufs_create name (me k) k.persistent in
    let k' = record k { persistent = persistent } in
    if not (has_flag flags fd_create)
    then (minus_one, k)
    else if ltb_ℤ handle (pos 0)
    then (minus_one, k')
    else open_slot ufs handle k'
open_case name flags k (some i) = open_found i flags k

open_persistent_found :
    (name : List ℕ) (flags : ℕ) (k : Files) (i : ℕ)
    → ufs_find k.persistent name ≡ some i
    → open_persistent name flags k ≡ open_found i flags k
unfolding open_persistent open_case open_found
open_persistent_found name flags k i found = ap (open_case name flags k) found

slot_call : (FdSlot → FdCall) → Files → Option FdSlot → FdCall
slot_call run k none = returns minus_one [] k
slot_call run k (some slot) = run slot

-- The slot of a persistent file.
abbrev pub ufs_slot : ℕ → ℕ → FdSlot
ufs_slot i cursor = record { kind = ufs; handle = pos i; cursor = cursor }

-- A thread that is not the owner needs the others' permission.
denied :
    (perm i : ℕ) (k : Files)
    → me k ≢ ufs_owner k.persistent (pos i)
    → ufs_perm k.persistent (pos i) / perm % 2 ≡ 0
    → may perm (pos i) k ≡ false
denied perm i k stranger closed = ground (arith, closed)

-- A thread that neither owns a persistent file nor has the others' permission to write it (bit 1 of
-- the file's permissions) changes no persistent file by opening it, with any flags.
pub no_write :
    (table : Option (ℕ → MemfsEntry)) (buf : Option (ℕ → ℕ)) (name : List ℕ) (flags : ℕ) (k : Files)
    (i : ℕ)
    → ufs_find k.persistent name ≡ some i
    → me k ≢ ufs_owner k.persistent (pos i)
    → ufs_perm k.persistent (pos i) / 2 % 2 ≡ 0
    → (fd_open table buf name flags k).1.persistent ≡ k.persistent
unfolding fd_open open_found
no_write table buf name flags k i found stranger closed =
    let P : ℤ × Files → Type 0 = λ r. r.1.persistent ≡ k.persistent in
    let refused = denied ufs_perm_other_write i k stranger closed in
    if_elim P (has_flag flags fd_persist)
      (λ e. subst P (sym (open_persistent_found name flags k i found)) (
        if_elim P (not (may ufs_perm_other_read (pos i) k)) (λ e. refl)
          (λ e.
            if_elim P (not (has_flag flags fd_trunc)) (λ e. refl)
              (λ e. subst P (sym (if-true _ _ (ap not refused))) refl))))
      (λ e.
        if_elim P (not (ltb_ℤ (memfs_find k.in_memory name) (pos 0))) (λ e. refl)
          (λ e.
            if_elim P (not (has_flag flags fd_create)) (λ e. refl)
              (λ e.
                if_elim P (ltb_ℤ (memfs_create table buf name k.in_memory).0 (pos 0)) (λ e. refl)
                  (λ e. refl))))

-- A thread that neither owns a persistent file nor has the others' permission to read it (bit 0 of
-- the file's permissions) cannot open it as a persistent file, whatever other flags it gives: the
-- call returns -1 and changes nothing.
pub no_read :
    (table : Option (ℕ → MemfsEntry)) (buf : Option (ℕ → ℕ)) (name : List ℕ) (flags : ℕ) (k : Files)
    (i : ℕ)
    → ufs_find k.persistent name ≡ some i
    → has_flag flags fd_persist ≡ true
    → me k ≢ ufs_owner k.persistent (pos i)
    → ufs_perm k.persistent (pos i) % 2 ≡ 0
    → fd_open table buf name flags k ≡ (minus_one, k)
unfolding fd_open open_found
no_read table buf name flags k i found persist stranger closed =
    let refused = denied ufs_perm_other_read i k stranger (omega (arith, closed)) in
    if-true _ _ persist ∙ open_persistent_found name flags k i found ∙ if-true _ _ (ap not refused)

-- A thread that has a descriptor of a persistent file but does not own the file, whoever opened it:
-- without the others' permission to read, a read returns -1, gives no byte and changes nothing, and
-- without their permission to write, a write returns -1 and changes nothing.
pub no_descriptor :
    (kmalloc : ℕ → Option (ℕ → ℕ)) (fd : ℤ) (cursor len : ℕ) (bytes : List ℕ) (k : Files) (i : ℕ)
    → sched_fd_get k.ipc.sched fd ≡ some (ufs_slot i cursor)
    → me k ≢ ufs_owner k.persistent (pos i)
    → ((ufs_perm k.persistent (pos i) % 2 ≡ 1) ⊎ (fd_read fd len k ≡ returns minus_one [] k))
      × ((ufs_perm k.persistent (pos i) / 2 % 2 ≡ 1)
          ⊎ (fd_write kmalloc fd bytes k ≡ returns minus_one [] k))
unfolding fd_read read_slot fd_write write_slot slot_call
no_descriptor kmalloc fd cursor len bytes k i at_fd stranger = (
  elim (ℕ_discrete (ufs_perm k.persistent (pos i) % 2) 0) [
    | yes closed ↦ inr (
        ap (slot_call (λ slot. read_slot fd slot len k) k) at_fd
        ∙ if-false _ _ (denied ufs_perm_other_read i k stranger (omega (arith, closed))))
    | no opened ↦ inl (omega arith)
  ],
  elim (ℕ_discrete (ufs_perm k.persistent (pos i) / 2 % 2) 0) [
    | yes closed ↦ inr (
        ap (slot_call (λ slot. write_slot kmalloc fd slot bytes k) k) at_fd
        ∙ if-false _ _ (denied ufs_perm_other_write i k stranger closed))
    | no opened ↦ inl (omega arith)
  ],
)
