-- ===== src/Sched/Fds.antt =====
-- The file descriptors of a thread, in kernel/sched/thread.c. A pointer to a slot is the pair of
-- its thread and its index.
use mini_kernel.Prelude.{
  ℕ, zero, suc, ◌+◌, ◌%◌, ◌^◌, ℤ, pos, negsuc, minus_one, Bool, true, false, Option, none, some,
  if◌then◌else◌, ltb, update,
}
use mini_kernel.Sched.{
  FdKind, unused_kind, FdSlot, Sched, thread_max_fds, empty_fd_slot, with_thread, slot_of,
}

abbrev pub is_unused_kind : FdKind → Bool
is_unused_kind unused_kind = true
is_unused_kind _ = false

-- A slot of one thread, written.
abbrev pub with_fd : Sched → ℕ → ℕ → FdSlot → Sched
with_fd s tid fd slot = with_thread s tid λ t. record t { fds = update t.fds fd slot }

-- The search of `sched_fd_open` with `rounds` slots left from `fd` on.
unfoldable pub first_unused_fd : (ℕ → FdSlot) → ℕ → ℕ → Option ℕ
first_unused_fd fds zero fd = none
first_unused_fd fds (suc rounds) fd =
    let rest = first_unused_fd fds rounds (fd + 1) in
    if is_unused_kind (fds fd).kind then some fd else rest

-- `sched_fd_open`: the lowest free descriptor from 2 on.
unfoldable pub sched_fd_open : Sched → FdKind → ℤ → ℤ × Sched
sched_fd_open s kind handle = elim s.current_thread [
  | negsuc n ↦ (minus_one, s)
  | pos current ↦ elim (first_unused_fd (s.threads current).fds 6 2) [
    | none ↦ (minus_one, s)
    | some fd ↦ (pos fd, with_fd s current fd (record { kind = kind; handle = handle; cursor = 0 }))
  ]
]

-- `fd < 0 || fd >= THREAD_MAX_FDS`, refused: the index otherwise.
abbrev pub fd_index : ℤ → Option ℕ
fd_index (negsuc n) = none
fd_index (pos fd) = if ltb fd thread_max_fds then some fd else none

unfoldable pub sched_fd_close : Sched → ℤ → ℤ × Sched
sched_fd_close s fd = elim s.current_thread [
  | negsuc n ↦ (minus_one, s)
  | pos current ↦ elim (fd_index fd) [
    | none ↦ (minus_one, s)
    | some i ↦ (pos 0, with_fd s current i empty_fd_slot)
  ]
]

abbrev pub used_slot : FdSlot → Option FdSlot
used_slot slot = if is_unused_kind slot.kind then none else some slot

-- `sched_fd_get`: `none` is the null pointer.
unfoldable pub sched_fd_get : Sched → ℤ → Option FdSlot
sched_fd_get s fd = elim s.current_thread [
  | negsuc n ↦ none
  | pos current ↦ elim (fd_index fd) [
    | none ↦ none
    | some i ↦ used_slot ((s.threads current).fds i)
  ]
]

unfoldable pub sched_fd_get_for : Sched → ℤ → ℤ → Option FdSlot
sched_fd_get_for s tid fd = elim (slot_of s tid) [
  | none ↦ none
  | some i ↦ elim (fd_index fd) [ none ↦ none | some j ↦ used_slot ((s.threads i).fds j) ]
]

unfoldable pub sched_fd_set : Sched → ℤ → ℤ → FdKind → ℤ → ℤ × Sched
sched_fd_set s tid fd kind handle = elim (slot_of s tid) [
  | none ↦ (minus_one, s)
  | some i ↦ elim (fd_index fd) [
    | none ↦ (minus_one, s)
    | some j ↦ (pos 0, with_fd s i j (record { kind = kind; handle = handle; cursor = 0 }))
  ]
]

-- `slot->cursor += n` through the pointer that `sched_fd_get` gave, in `unsigned int`.
pub advance_cursor : Sched → ℤ → ℕ → Sched
advance_cursor s fd n = elim s.current_thread [
  | negsuc k ↦ s
  | pos current ↦ elim (fd_index fd) [
    | none ↦ s
    | some i ↦
        let slot = (s.threads current).fds i in
        with_fd s current i (record slot { cursor = (slot.cursor + n) % 2 ^ 32 })
  ]
]
