-- ===== src/Pipe/Bytes.antt =====
-- What the two copying loops of kernel/core/pipe.c do to the bytes of a pipe.
use mini_kernel.Prelude.{
  ℕ, zero, suc, ◌+◌, ◌-◌, ◌%◌, ◌≤◌, ◌<◌, ◌≡◌, refl, ap, ◌∙◌, sym, List, [], ◌∷◌, ◌++◌, append_assoc,
  append-nil, arith, length, cycle, cycle-update, update,
}
use native.Mathlib.Nat.{add-zero, zero-add, suc-add}
use mini_kernel.Pipe.{Pipe, pipe_buf_size, read_bytes, write_bytes, take_out, put_in}

-- The positions are in the buffer, and the write position is where the bytes end.
pub record IsValid (p : Pipe) : Type 0 where
  pub read_in : p.read_pos < pipe_buf_size
  pub count_in : p.count ≤ pipe_buf_size
  pub write_at : p.write_pos ≡ (p.read_pos + p.count) % pipe_buf_size

-- The bytes that are written and not yet read, oldest first.
abbrev pub contents : Pipe → List ℕ
contents p = cycle p.buf pipe_buf_size p.read_pos p.count

advance : (h m : ℕ) → ((h + m) % pipe_buf_size + 1) % pipe_buf_size ≡ (h + suc m) % pipe_buf_size
advance h m = omega arith

-- Written from the end of the first `m` bytes on, the buffer holds those and the new ones.
write_bytes-cycle :
    (buf : ℕ → ℕ) (h m at : ℕ) (src : List ℕ)
    → h < pipe_buf_size
    → m + length src ≤ pipe_buf_size
    → at ≡ (h + m) % pipe_buf_size
    → let (buf', at') = write_bytes buf at src in
      (cycle buf' pipe_buf_size h (m + length src) ≡ cycle buf pipe_buf_size h m ++ src)
      × (at' ≡ (h + (m + length src)) % pipe_buf_size)
unfolding write_bytes
write_bytes-cycle buf h m at [] hh room e =
    (ap (cycle buf pipe_buf_size h) (add-zero m) ∙ sym (append-nil _), omega arith)
write_bytes-cycle buf h m at (b ∷ src) hh room e =
    let (p, q) =
      write_bytes-cycle (update buf at b) h (suc m) ((at + 1) % pipe_buf_size) src hh (omega arith)
        (omega arith) in
    let one = cycle-update buf pipe_buf_size b m h at hh (omega arith) e in
    let count : m + length (b ∷ src) ≡ suc m + length src = omega arith in
    (rw count (p ∙ ap (λ xs. xs ++ src) one ∙ append_assoc _ (b ∷ []) src), q ∙ omega arith)

-- A read takes the first `n` of the bytes, and leaves the position at the others.
read_bytes-cycle :
    (buf : ℕ → ℕ) (n m at : ℕ)
    → at < pipe_buf_size
    → let (bytes, at') = read_bytes buf n at in
      (cycle buf pipe_buf_size at (n + m) ≡ bytes ++ cycle buf pipe_buf_size at' m)
      × (length bytes ≡ n)
      × (at' ≡ (at + n) % pipe_buf_size)
unfolding read_bytes
read_bytes-cycle buf zero m at h = (ap (cycle buf pipe_buf_size at) (zero-add m), refl, omega arith)
read_bytes-cycle buf (suc n) m at h =
    let (p, q, r) = read_bytes-cycle buf n m ((at + 1) % pipe_buf_size) (omega arith) in
    (ap (cycle buf pipe_buf_size at) (suc-add n m) ∙ ap (◌∷◌ (buf at)) p, ap suc q, omega arith)

-- Bytes that fit go behind the others.
pub put_in_lem :
    (p : Pipe) (src : List ℕ)
    → IsValid p
    → p.count + length src ≤ pipe_buf_size
    → IsValid (put_in p src) × (contents (put_in p src) ≡ contents p ++ src)
put_in_lem p src v room =
    let (e, at) =
      write_bytes-cycle p.buf p.read_pos p.count p.write_pos src v.read_in room v.write_at in
    (record { read_in = v.read_in; count_in = room; write_at = at }, e)

-- The oldest bytes go out, in order.
pub take_out_lem :
    (p : Pipe) (n : ℕ)
    → IsValid p
    → n ≤ p.count
    → let (bytes, p') = take_out p n in
      IsValid p' × (contents p ≡ bytes ++ contents p') × (length bytes ≡ n)
take_out_lem p n v le =
    let (e, l, at) = read_bytes-cycle p.buf n (p.count - n) p.read_pos v.read_in in
    let whole : p.count ≡ n + (p.count - n) = omega arith in
    (
      record {
        read_in = omega arith;
        count_in = omega arith;
        write_at = omega (arith, v.write_at);
      },
      ap (cycle p.buf pipe_buf_size p.read_pos) whole ∙ e,
      l,
    )
