-- ===== src/Pipe/Calls.antt =====
-- What `pipe_read` and `pipe_write` of kernel/core/pipe.c do, branch by branch.
use mini_kernel.Prelude.{
  ℕ, ◌-◌, ◌<◌, ◌≡◌, ◌≢◌, refl, min, ℤ, pos, negsuc, pos_part, minus_one, dec_lt, ℕ_discrete,
  Bool-cases, ◌⊎◌, inl, inr, true, false, none, List, [], ◌++◌, arith, length, take, length-take,
}
use mini_kernel.Sched.{Sched, Channel, pipe_channel}
use mini_kernel.Sched.Switch.{Outcome, sched_wakeup, sched_sleep, sleeps_on}
use mini_kernel.Pipe.{
  Pipe, Ipc, PipeCall, done, sleeps, pipe_max, pipe_buf_size, pipe_read, pipe_write, valid_index,
  pipe_add_reader, pipe_add_writer, pipe_close_reader, pipe_close_writer, take_out, put_in,
  with_pipe_woken,
}
use mini_kernel.Pipe.Bytes.{IsValid, contents, put_in_lem, take_out_lem}

-- Nobody in the table sleeps on the channel.
abbrev pub NoneSleeps : Channel → Sched → Type 0
NoneSleeps channel s = (i : ℕ) → i < s.thread_capacity → sleeps_on channel (s.threads i) ≡ false

pub wakeup-NoneSleeps :
    (s : Sched) (channel : Channel) → NoneSleeps channel (sched_wakeup s channel)
unfolding sched_wakeup
wakeup-NoneSleeps s channel i h = ground arith

-- What a call that moved bytes through pipe `i` leaves.
pub record Moved (i : ℕ) (k k' : Ipc) : Type 0 where
  pub valid : IsValid (k'.pipes i)
  pub others : (j : ℕ) → j ≢ i → k'.pipes j ≡ k.pipes j
  pub woken : NoneSleeps (pipe_channel i) k'.sched

woken-Moved : (i : ℕ) (k : Ipc) (p : Pipe) → IsValid p → Moved i k (with_pipe_woken k i p)
woken-Moved i k p v = record {
  valid = ground arith;
  others = λ j ne. ground arith;
  woken = wakeup-NoneSleeps k.sched (pipe_channel i);
}

-- A write to a pipe with a reader and with room takes as many bytes as fit, wakes the pipe's
-- sleepers, and appends exactly those bytes.
pub write_moves :
    (i : ℕ) (src : List ℕ) (k : Ipc)
    → i < pipe_max
    → IsValid (k.pipes i)
    → (k.pipes i).in_use ≡ true
    → 0 < (k.pipes i).readers
    → (k.pipes i).count < pipe_buf_size
    → let n = min (pipe_buf_size - (k.pipes i).count) (length src) in
      (k' : Ipc) × (pipe_write (pos i) src k ≡ done (pos n) [] k')
      × (contents (k'.pipes i) ≡ contents (k.pipes i) ++ take n src)
      × Moved i k k'
unfolding pipe_write
write_moves i src k h v u r room =
    let n = min (pipe_buf_size - (k.pipes i).count) (length src) in
    let p' = put_in (k.pipes i) (take n src) in
    let (v', e) = put_in_lem (k.pipes i) (take n src) v (omega (arith, length-take n src)) in
    (with_pipe_woken k i p', ground arith, ground (arith, e), woken-Moved i k p' v')

-- A read of a pipe with bytes in it returns the oldest ones, at most `len` of them, wakes the
-- pipe's sleepers, and leaves the others.
pub read_moves :
    (i len : ℕ) (k : Ipc)
    → i < pipe_max
    → IsValid (k.pipes i)
    → (k.pipes i).in_use ≡ true
    → 0 < (k.pipes i).count
    → let n = min (k.pipes i).count len in
      (bytes : List ℕ) × (k' : Ipc) × (pipe_read (pos i) len k ≡ done (pos n) bytes k')
      × (length bytes ≡ n)
      × (contents (k.pipes i) ≡ bytes ++ contents (k'.pipes i))
      × Moved i k k'
unfolding pipe_read
read_moves i len k h v u some_bytes =
    let n = min (k.pipes i).count len in
    let (bytes, p') = take_out (k.pipes i) n in
    let (v', e, l) = take_out_lem (k.pipes i) n v (omega arith) in
    (bytes, with_pipe_woken k i p', ground arith, l, ground (arith, e), woken-Moved i k p' v')

-- An empty pipe: the end of the file without a writer, and with one the reader sleeps on the pipe.
pub read_empty :
    (i len : ℕ) (k : Ipc)
    → i < pipe_max
    → (k.pipes i).in_use ≡ true
    → (k.pipes i).count ≡ 0
    → ((k.pipes i).writers ≡ 0 → pipe_read (pos i) len k ≡ done (pos 0) [] k)
      × (0 < (k.pipes i).writers
          → let (s, outcome) = sched_sleep k.sched (pipe_channel i) in
            pipe_read (pos i) len k ≡ sleeps outcome (record k { sched = s }))
unfolding pipe_read
read_empty i len k h u e = (λ w. ground arith, λ w. ground arith)

-- A pipe without a reader refuses a write; one that is full puts the writer to sleep.
pub write_waits :
    (i : ℕ) (src : List ℕ) (k : Ipc)
    → i < pipe_max
    → (k.pipes i).in_use ≡ true
    → ((k.pipes i).readers ≡ 0 → pipe_write (pos i) src k ≡ done minus_one [] k)
      × (0 < (k.pipes i).readers
          → (k.pipes i).count ≡ pipe_buf_size
          → let (s, outcome) = sched_sleep k.sched (pipe_channel i) in
            pipe_write (pos i) src k ≡ sleeps outcome (record k { sched = s }))
unfolding pipe_write
write_waits i src k h u = (λ r. ground arith, λ r f. ground arith)

-- Where the index is not valid, nothing is changed.
invalid_refused :
    (idx : ℤ) (k : Ipc) (src : List ℕ) (len : ℕ)
    → valid_index k idx ≡ none
    → (pipe_read idx len k ≡ done minus_one [] k)
      × (pipe_write idx src k ≡ done minus_one [] k)
      × (pipe_add_reader idx k ≡ (minus_one, k))
      × (pipe_add_writer idx k ≡ (minus_one, k))
      × (pipe_close_reader idx k ≡ k)
      × (pipe_close_writer idx k ≡ k)
unfolding pipe_read pipe_write pipe_add_reader pipe_add_writer pipe_close_reader pipe_close_writer
invalid_refused (negsuc n) k src len e = (refl, refl, refl, refl, refl, refl)
invalid_refused (pos i) k src len e =
    (ground arith, ground arith, ground arith, ground arith, ground arith, ground arith)

-- A call that moves no bytes.
abbrev pub Quiet : Ipc → PipeCall → Type 0
Quiet k r =
    ((z : ℤ) × (pos_part z ≡ 0) × (r ≡ done z [] k))
    ⊎ ((o : Outcome) × (s : Sched) × (r ≡ sleeps o (record k { sched = s })))

-- The pipe in use that an index names; otherwise the calls refuse it.
index_cases :
    (idx : ℤ) (k : Ipc)
    → (valid_index k idx ≡ none)
      ⊎ ((i : ℕ) × (idx ≡ pos i) × (i < pipe_max) × ((k.pipes i).in_use ≡ true))
index_cases (negsuc n) k = inl refl
index_cases (pos i) k = elim (dec_lt i pipe_max) [
  | no h ↦ inl (ground arith)
  | yes h ↦ elim (Bool-cases (k.pipes i).in_use) [
    | inl u ↦ inr (i, refl, h, u)
    | inr u ↦ inl (ground arith)
  ]
]

-- An index that is negative, is 8 or more, or is that of a pipe not in use, is
-- refused by every function: the four that have a result return -1, and none of the six changes
-- anything.
pub no_pipe_refused :
    (idx : ℤ) (k : Ipc) (src : List ℕ) (len : ℕ)
    → ((i : ℕ) → i < 8 → idx ≡ pos i → (k.pipes i).in_use ≡ false)
    → (pipe_read idx len k ≡ done minus_one [] k)
      × (pipe_write idx src k ≡ done minus_one [] k)
      × (pipe_add_reader idx k ≡ (minus_one, k))
      × (pipe_add_writer idx k ≡ (minus_one, k))
      × (pipe_close_reader idx k ≡ k)
      × (pipe_close_writer idx k ≡ k)
no_pipe_refused idx k src len unused = elim (index_cases idx k) [
  | inl e ↦ invalid_refused idx k src len e
  | inr (i, e, h, u) ↦ absurd (cc (u, unused i h e))
]

-- Every read moves bytes of a pipe in use, or none.
pub read_cases :
    (idx : ℤ) (len : ℕ) (k : Ipc)
    → Quiet k (pipe_read idx len k)
      ⊎ ((i : ℕ) × (idx ≡ pos i)
          × (i < pipe_max)
          × ((k.pipes i).in_use ≡ true)
          × (0 < (k.pipes i).count))
read_cases idx len k = elim (index_cases idx k) [
  | inl e ↦ inl (inl (minus_one, refl, (invalid_refused idx k [] len e).0))
  | inr (i, e, h, u) ↦ elim (dec_lt 0 (k.pipes i).count) [
    | yes p ↦ inr (i, e, h, u, p)
    | no p ↦
        let (eof, sleep) = read_empty i len k h u (omega arith) in
        elim (dec_lt 0 (k.pipes i).writers) [
          | yes w ↦
              let (s, o) = sched_sleep k.sched (pipe_channel i) in inl (inr (o, s, rw e (sleep w)))
          | no w ↦ inl (inl (pos 0, refl, rw e (eof (omega arith))))
        ]
  ]
]

pub write_cases :
    (idx : ℤ) (src : List ℕ) (k : Ipc)
    → Quiet k (pipe_write idx src k)
      ⊎ ((i : ℕ) × (idx ≡ pos i)
          × (i < pipe_max)
          × ((k.pipes i).in_use ≡ true)
          × (0 < (k.pipes i).readers)
          × (k.pipes i).count ≢ pipe_buf_size)
write_cases idx src k = elim (index_cases idx k) [
  | inl e ↦ inl (inl (minus_one, refl, (invalid_refused idx k src 0 e).1))
  | inr (i, e, h, u) ↦
      let (broken, sleep) = write_waits i src k h u in
      elim (dec_lt 0 (k.pipes i).readers) [
        | no r ↦ inl (inl (minus_one, refl, rw e (broken (omega arith))))
        | yes r ↦ elim (ℕ_discrete (k.pipes i).count pipe_buf_size) [
          | yes f ↦
              let (s, o) = sched_sleep k.sched (pipe_channel i) in
              inl (inr (o, s, rw e (sleep r f)))
          | no f ↦ inr (i, e, h, u, r, f)
        ]
      ]
]
