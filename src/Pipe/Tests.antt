-- ===== src/Pipe/Tests.antt =====
-- The pipes at concrete inputs.
use mini_kernel.Prelude.{
  ℕ, ◌<◌, subst, ap, pos_part, ◌≡◌, ◌++◌, refl, pos, minus_one, true, false, List, [], ◌∷◌, arith,
  if◌then◌else◌, ◌==◌,
}
use mini_kernel.Sched.Tests.{four}
use mini_kernel.Pipe.{Pipe, Ipc, done, pipe_read, pipe_write}
use mini_kernel.Pipe.Bytes.{IsValid, contents}
use mini_kernel.Pipe.Calls.{no_pipe_refused}
use mini_kernel.Pipe.Stream.{
  Call, reads, writes, run, all_received, all_accepted, AllValid, stream, call,
}

-- Pipe 0 holds 65 and 66 and has a reader and a writer; no other pipe is in use.
abbrev two_bytes : Pipe
two_bytes = record {
  in_use = true;
  buf = λ i. if i == 1023 then 65 else 66;
  read_pos = 1023;
  write_pos = 1;
  count = 2;
  readers = 1;
  writers = 1;
}

abbrev free_pipe : Pipe
free_pipe = record {
  in_use = false;
  buf = λ i. 0;
  read_pos = 0;
  write_pos = 0;
  count = 0;
  readers = 0;
  writers = 0;
}

abbrev one_pipe : Ipc
one_pipe = record { pipes = λ i. if i == 0 then two_bytes else free_pipe; sched = four }

one_pipe-AllValid : AllValid one_pipe
one_pipe-AllValid i h = ground arith

two_bytes-IsValid : IsValid two_bytes
two_bytes-IsValid = omega arith

abbrev chat : List Call
chat = writes (pos 0) (67 ∷ 68 ∷ []) ∷ reads (pos 0) 3 ∷ reads (pos 1) 3 ∷ []

chat_received : all_received 0 chat one_pipe ≡ 65 ∷ 66 ∷ 67 ∷ []
unfolding all_received call pipe_read pipe_write
chat_received = refl

stream_example :
    (65 ∷ 66 ∷ []) ++ all_accepted 0 chat one_pipe
    ≡ all_received 0 chat one_pipe ++ contents ((run chat one_pipe).pipes 0)
stream_example = stream 0 chat one_pipe one_pipe-AllValid

abbrev unread : Ipc
unread = record one_pipe { pipes = λ i. record two_bytes { count = 0; writers = 0; readers = 0 } }

no_pipe_refused_example : pipe_read (pos 5) 4 one_pipe ≡ done minus_one [] one_pipe
no_pipe_refused_example =
    let unused : (i : ℕ) → i < 8 → pos 5 ≡ pos i → (one_pipe.pipes i).in_use ≡ false =
      λ i lt e. subst (λ n. (one_pipe.pipes n).in_use ≡ false) (ap pos_part e) refl in
    (no_pipe_refused (pos 5) one_pipe [] 4 unused).0
