-- ===== src/Pipe/Stream.antt =====
-- A pipe is a stream: whatever reads and writes are made, by whom and in what order, what has
-- been read from it is what was written to it, in order and with nothing lost or repeated.
use mini_kernel.Prelude.{
  ℕ, ◌<◌, ◌≡◌, ap, ◌∙◌, sym, ℤ, pos, negsuc, eqb_ℤ, inl, inr, List, [], ◌∷◌, ◌++◌, append_assoc,
  append-nil, arith, take, if◌then◌else◌, ℕ_discrete,
}
use mini_kernel.Pipe.{Ipc, PipeCall, done, sleeps, pipe_max, pipe_read, pipe_write}
use mini_kernel.Pipe.Bytes.{IsValid, contents}
use mini_kernel.Pipe.Calls.{Moved, Quiet, write_moves, read_moves, read_cases, write_cases}

-- Calls on the pipes by any threads.
pub data Call : Type 0 where
  reads : ℤ → ℕ → Call
  writes : ℤ → List ℕ → Call

unfoldable pub call : Call → Ipc → PipeCall
call (reads idx len) k = pipe_read idx len k
call (writes idx src) k = pipe_write idx src k

abbrev pub after : PipeCall → Ipc
after (done r bytes k) = k
after (sleeps o k) = k

-- The bytes that a call stores for its reader, if it is one of pipe `i`.
abbrev pub received : ℕ → Call → PipeCall → List ℕ
received i (reads idx len) (done r bytes k) = if eqb_ℤ idx (pos i) then bytes else []
received i _ _ = []

-- The bytes that a call takes from its writer: as many as its result says.
abbrev pub accepted : ℕ → Call → PipeCall → List ℕ
accepted i (writes idx src) (done (pos n) bytes k) = if eqb_ℤ idx (pos i) then take n src else []
accepted i _ _ = []

unfoldable pub run : List Call → Ipc → Ipc
unfolding call
run [] k = k
run (c ∷ cs) k = run cs (after (call c k))

unfoldable pub all_received : ℕ → List Call → Ipc → List ℕ
unfolding call
all_received i [] k = []
all_received i (c ∷ cs) k = received i c (call c k) ++ all_received i cs (after (call c k))

unfoldable pub all_accepted : ℕ → List Call → Ipc → List ℕ
unfolding call
all_accepted i [] k = []
all_accepted i (c ∷ cs) k = accepted i c (call c k) ++ all_accepted i cs (after (call c k))

abbrev pub AllValid : Ipc → Type 0
AllValid k = (i : ℕ) → i < pipe_max → IsValid (k.pipes i)

-- One call keeps the balance of pipe `i`.
record Balanced (i : ℕ) (c : Call) (k : Ipc) (r : PipeCall) : Type 0 where
  valid : AllValid (after r)
  balance : contents (k.pipes i) ++ accepted i c r ≡ received i c r ++ contents ((after r).pipes i)

Quiet-Balanced :
    (i : ℕ) (c : Call) (k : Ipc) (r : PipeCall) → AllValid k → Quiet k r → Balanced i c k r
Quiet-Balanced i (reads idx len) k r v (inl (z, e, q)) =
    rw q (record { valid = v; balance = ground (arith, append-nil (contents (k.pipes i))) })
Quiet-Balanced i (writes idx src) k r v (inl (pos n, e, q)) =
    rw (q, e) (record { valid = v; balance = ground (arith, append-nil (contents (k.pipes i))) })
Quiet-Balanced i (writes idx src) k r v (inl (negsuc n, e, q)) =
    rw q (record { valid = v; balance = append-nil (contents (k.pipes i)) })
Quiet-Balanced i (reads idx len) k r v (inr (o, s, q)) =
    rw q (record { valid = v; balance = append-nil (contents (k.pipes i)) })
Quiet-Balanced i (writes idx len) k r v (inr (o, s, q)) =
    rw q (record { valid = v; balance = append-nil (contents (k.pipes i)) })

Moved-AllValid : (j : ℕ) (k k' : Ipc) → AllValid k → Moved j k k' → AllValid k'
Moved-AllValid j k k' v m i h = elim (ℕ_discrete i j) [
  | yes e ↦ rw e m.valid
  | no ne ↦ rw (m.others i ne) (v i h)
]

read-Balanced :
    (i j len : ℕ) (k k' : Ipc) (n : ℕ) (bytes : List ℕ)
    → AllValid k
    → Moved j k k'
    → contents (k.pipes j) ≡ bytes ++ contents (k'.pipes j)
    → Balanced i (reads (pos j) len) k (done (pos n) bytes k')
read-Balanced i j len k k' n bytes v m e = record {
  valid = Moved-AllValid j k k' v m;
  balance = ground (arith, m.others i, append-nil (contents (k.pipes i)), e);
}

write-Balanced :
    (i j : ℕ) (src : List ℕ) (k k' : Ipc) (n : ℕ)
    → AllValid k
    → Moved j k k'
    → contents (k'.pipes j) ≡ contents (k.pipes j) ++ take n src
    → Balanced i (writes (pos j) src) k (done (pos n) [] k')
write-Balanced i j src k k' n v m e = record {
  valid = Moved-AllValid j k k' v m;
  balance = ground (arith, m.others i, append-nil (contents (k.pipes i)), e);
}

call-Balanced : (i : ℕ) (c : Call) (k : Ipc) → AllValid k → Balanced i c k (call c k)
unfolding call
call-Balanced i (reads idx len) k v = elim (read_cases idx len k) [
  | inl q ↦ Quiet-Balanced i (reads idx len) k _ v q
  | inr (j, e, h, u, p) ↦
      let (bytes, k', r, l, moved, m) = read_moves j len k h (v j h) u p in
      rw (e, r) (read-Balanced i j len k k' _ bytes v m moved)
]
call-Balanced i (writes idx src) k v = elim (write_cases idx src k) [
  | inl q ↦ Quiet-Balanced i (writes idx src) k _ v q
  | inr (j, e, h, u, r, f) ↦
      let full = (v j h).count_in in
      let (k', q, moved, m) = write_moves j src k h (v j h) u r (omega arith) in
      rw (e, q) (write-Balanced i j src k k' _ v m moved)
]

-- Whatever reads and writes are made: what pipe `i` held and what was written to it is, in this
-- order, what was read from it and what it holds.
pub stream :
    (i : ℕ) (cs : List Call) (k : Ipc)
    → AllValid k
    → contents (k.pipes i) ++ all_accepted i cs k
      ≡ all_received i cs k ++ contents ((run cs k).pipes i)
unfolding run all_accepted all_received
stream i [] k v = append-nil (contents (k.pipes i))
stream i (c ∷ cs) k v =
    let b = call-Balanced i c k v in
    let k' = after (call c k) in
    sym (append_assoc (contents (k.pipes i)) (accepted i c (call c k)) (all_accepted i cs k'))
    ∙ ap (λ xs. xs ++ all_accepted i cs k') b.balance
    ∙ append_assoc (received i c (call c k)) (contents (k'.pipes i)) (all_accepted i cs k')
    ∙ ap (◌++◌ (received i c (call c k))) (stream i cs k' b.valid)
    ∙ sym (
        append_assoc (received i c (call c k)) (all_received i cs k')
          (contents ((run cs k').pipes i)))
