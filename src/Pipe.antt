-- ===== src/Pipe.antt =====
-- The pipes of kernel/core/pipe.c: a table of byte queues with counted readers and writers.
-- Saving and restoring the interrupt flag has no counterpart: each function runs uninterrupted
-- up to the point where it sleeps.
pub mod Bytes
pub mod Calls
pub mod Stream
mod Tests
use mini_kernel.Prelude.{
  ℕ, zero, suc, ◌+◌, ◌-◌, ◌%◌, ◌<◌, ℤ, pos, negsuc, minus_one, Bool, true, false, ◌&&◌, not, Option,
  none, some, List, [], ◌∷◌, if◌then◌else◌, ltb, ◌==◌, update, length, take, min,
}
use mini_kernel.Sched.{Sched, Channel, pipe_channel}
use mini_kernel.Sched.Switch.{Outcome, sched_wakeup, sched_sleep}

abbrev pub pipe_max : ℕ
pipe_max = 8

abbrev pub pipe_buf_size : ℕ
pipe_buf_size = 1024

-- `pipe_t`. The two counts are decremented only where they are positive.
pub record Pipe : Type 0 where
  pub in_use : Bool
  pub buf : ℕ → ℕ
  pub read_pos : ℕ
  pub write_pos : ℕ
  pub count : ℕ
  pub readers : ℕ
  pub writers : ℕ

-- The table `pipes`, and the threads that its functions put to sleep and wake.
pub record Ipc : Type 0 where
  pub pipes : ℕ → Pipe
  pub sched : Sched

-- How a read or a write goes: it returns its result and the bytes stored through `buf`, or the
-- thread sleeps, to go round the loop again when it runs.
pub data PipeCall : Type 0 where
  done : ℤ → List ℕ → Ipc → PipeCall
  sleeps : Outcome → Ipc → PipeCall

-- `idx >= 0 && idx < PIPE_MAX`: the index.
abbrev pub pipe_index : ℤ → Option ℕ
pipe_index (negsuc n) = none
pipe_index (pos i) = if ltb i pipe_max then some i else none

abbrev pub with_pipe : Ipc → ℕ → Pipe → Ipc
with_pipe k i p = record k { pipes = update k.pipes i p }

-- One pipe written, and its sleepers woken.
abbrev pub with_pipe_woken : Ipc → ℕ → Pipe → Ipc
with_pipe_woken k i p = record k {
  pipes = update k.pipes i p;
  sched = sched_wakeup k.sched (pipe_channel i);
}

pub maybe_free : Pipe → Pipe
maybe_free p =
    if ltb 0 p.readers then p else if ltb 0 p.writers then p else record p { in_use = false }

abbrev pub opened : Pipe → Pipe
opened p = record p {
  in_use = true;
  read_pos = 0;
  write_pos = 0;
  count = 0;
  readers = 1;
  writers = 1;
}

-- The search of `pipe_create` with `rounds` pipes left from `i` on.
pub first_free_pipe : (ℕ → Pipe) → ℕ → ℕ → Option ℕ
first_free_pipe pipes zero i = none
first_free_pipe pipes (suc rounds) i =
    let rest = first_free_pipe pipes rounds (i + 1) in if (pipes i).in_use then rest else some i

pub pipe_create : Ipc → ℤ × Ipc
unfolding first_free_pipe
pipe_create k = elim (first_free_pipe k.pipes pipe_max 0) [
  | none ↦ (minus_one, k)
  | some i ↦ (pos i, with_pipe k i (opened (k.pipes i)))
]

-- `valid`: the index of a pipe in use.
abbrev pub valid_index : Ipc → ℤ → Option ℕ
valid_index k idx = elim (pipe_index idx) [
  | none ↦ none
  | some i ↦ if (k.pipes i).in_use then some i else none
]

pub pipe_add_reader : ℤ → Ipc → ℤ × Ipc
pipe_add_reader idx k = elim (valid_index k idx) [
  | none ↦ (minus_one, k)
  | some i ↦ (pos 0, with_pipe k i (record (k.pipes i) { readers = (k.pipes i).readers + 1 }))
]

pub pipe_add_writer : ℤ → Ipc → ℤ × Ipc
pipe_add_writer idx k = elim (valid_index k idx) [
  | none ↦ (minus_one, k)
  | some i ↦ (pos 0, with_pipe k i (record (k.pipes i) { writers = (k.pipes i).writers + 1 }))
]

-- `if (readers > 0) readers--`, and the same for the writers.
abbrev pub drop_reader : Pipe → Pipe
drop_reader p = if ltb 0 p.readers then record p { readers = p.readers - 1 } else p

abbrev pub drop_writer : Pipe → Pipe
drop_writer p = if ltb 0 p.writers then record p { writers = p.writers - 1 } else p

pub pipe_close_reader : ℤ → Ipc → Ipc
unfolding maybe_free
pipe_close_reader idx k = elim (valid_index k idx) [
  | none ↦ k
  | some i ↦ with_pipe_woken k i (maybe_free (drop_reader (k.pipes i)))
]

pub pipe_close_writer : ℤ → Ipc → Ipc
unfolding maybe_free
pipe_close_writer idx k = elim (valid_index k idx) [
  | none ↦ k
  | some i ↦ with_pipe_woken k i (maybe_free (drop_writer (k.pipes i)))
]

-- The loop of `pipe_read` over `n` bytes: the bytes and the read position that it leaves.
pub read_bytes : (ℕ → ℕ) → ℕ → ℕ → List ℕ × ℕ
read_bytes buf zero at = ([], at)
read_bytes buf (suc n) at =
    let (bytes, at') = read_bytes buf n ((at + 1) % pipe_buf_size) in (buf at ∷ bytes, at')

-- The loop of `pipe_write` over the bytes that it takes: the buffer and the write position.
pub write_bytes : (ℕ → ℕ) → ℕ → List ℕ → (ℕ → ℕ) × ℕ
write_bytes buf at [] = (buf, at)
write_bytes buf at (b ∷ bytes) = write_bytes (update buf at b) ((at + 1) % pipe_buf_size) bytes

-- The bytes that a read of `n` bytes returns, and the pipe that it leaves.
abbrev pub take_out : Pipe → ℕ → List ℕ × Pipe
take_out p n =
    let (bytes, at) = read_bytes p.buf n p.read_pos in
    (bytes, record p { read_pos = at; count = p.count - n })

abbrev pub put_in : Pipe → List ℕ → Pipe
put_in p bytes =
    let (buf, at) = write_bytes p.buf p.write_pos bytes in
    record p { buf = buf; write_pos = at; count = p.count + length bytes }

sleep_on_pipe : Ipc → ℕ → PipeCall
sleep_on_pipe k i =
    let (s, outcome) = sched_sleep k.sched (pipe_channel i) in
    sleeps outcome (record k { sched = s })

-- One round of the loop of `pipe_read`.
pub read_round : ℕ → ℕ → Ipc → PipeCall
unfolding sleep_on_pipe read_bytes
read_round i len k =
    let p = k.pipes i in
    if not p.in_use
    then done minus_one [] k
    else if ltb 0 p.count
    then (let n = if ltb p.count len then p.count else len in
        let (bytes, p') = take_out p n in done (pos n) bytes (with_pipe_woken k i p'))
    else if ltb 0 p.writers
    then sleep_on_pipe k i
    else done (pos 0) [] k

pub pipe_read : ℤ → ℕ → Ipc → PipeCall
unfolding read_round
pipe_read idx len k = elim (pipe_index idx) [
  | none ↦ done minus_one [] k
  | some i ↦ read_round i len k
]

-- One round of the loop of `pipe_write`; `src` holds `len` bytes.
pub write_round : ℕ → List ℕ → Ipc → PipeCall
unfolding sleep_on_pipe write_bytes
write_round i src k =
    let p = k.pipes i in
    if not p.in_use
    then done minus_one [] k
    else if ltb 0 p.readers
    then (let free_space = pipe_buf_size - p.count in
        if ltb 0 free_space
        then (let n = if ltb free_space (length src) then free_space else length src in
            done (pos n) [] (with_pipe_woken k i (put_in p (take n src))))
        else sleep_on_pipe k i)
    else done minus_one [] k

pub pipe_write : ℤ → List ℕ → Ipc → PipeCall
unfolding write_round
pipe_write idx src k = elim (pipe_index idx) [
  | none ↦ done minus_one [] k
  | some i ↦ write_round i src k
]
