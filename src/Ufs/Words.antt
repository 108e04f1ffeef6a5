-- ===== src/Ufs/Words.antt =====
-- 32-bit words in the arrays of kernel/core/ufs.c.
use mini_kernel.Prelude.{
  ℕ, ◌+◌, ◌*◌, ◌/◌, ◌%◌, ◌^◌, ◌≤◌, ◌<◌, ◌≡◌, ap, ap₂, ◌∙◌, ◌⊎◌, inl, inr, bit_or, bit_or_apart,
  arith,
}
use mini_kernel.Ufs.{read_u32, write_u32}

write_u32_bytes :
    (a : ℕ → ℕ) (p v : ℕ)
    → (write_u32 a p v p ≡ v % 256)
      × (write_u32 a p v (p + 1) ≡ v / 2 ^ 8 % 256)
      × (write_u32 a p v (p + 2) ≡ v / 2 ^ 16 % 256)
      × (write_u32 a p v (p + 3) ≡ v / 2 ^ 24 % 256)
unfolding write_u32
write_u32_bytes a p v = (ground arith, ground arith, ground arith, ground arith)

-- A byte outside the word is not changed.
pub write_u32_apart : (a : ℕ → ℕ) (p v k : ℕ) → (k < p) ⊎ (p + 4 ≤ k) → write_u32 a p v k ≡ a k
unfolding write_u32
write_u32_apart a p v k h = ground arith

-- The bytes joined by `|` are the number that they spell.
join_bytes :
    (a b c d : ℕ)
    → a < 256
    → b < 256
    → c < 256
    → bit_or (bit_or (bit_or a (b * 2 ^ 8)) (c * 2 ^ 16)) (d * 2 ^ 24)
      ≡ a + b * 2 ^ 8 + c * 2 ^ 16 + d * 2 ^ 24
join_bytes a b c d ha hb hc =
    let one = bit_or_apart 8 a b (omega arith) in
    let two = bit_or_apart 16 (a + b * 2 ^ 8) c (omega arith) in
    let three = bit_or_apart 24 (a + b * 2 ^ 8 + c * 2 ^ 16) d (omega arith) in
    ap (λ x. bit_or (bit_or x (c * 2 ^ 16)) (d * 2 ^ 24)) one
    ∙ ap (λ x. bit_or x (d * 2 ^ 24)) two
    ∙ three

-- A word that is written is read back.
pub read_u32-write_u32 : (a : ℕ → ℕ) (p v : ℕ) → v < 2 ^ 32 → read_u32 (write_u32 a p v) p ≡ v
unfolding read_u32
read_u32-write_u32 a p v h =
    let (e0, e1, e2, e3) = write_u32_bytes a p v in
    ap₂ bit_or (ap₂ bit_or (ap₂ bit_or e0 (ap (λ x. x * 2 ^ 8) e1)) (ap (λ x. x * 2 ^ 16) e2))
      (ap (λ x. x * 2 ^ 24) e3)
    ∙ join_bytes (v % 256) (v / 2 ^ 8 % 256) (v / 2 ^ 16 % 256) (v / 2 ^ 24 % 256) (omega arith)
        (omega arith) (omega arith)
    ∙ omega arith

-- Two arrays with the same four bytes hold the same word.
pub read_u32_agree :
    (a b : ℕ → ℕ) (p : ℕ) → ((k : ℕ) → p ≤ k → k < p + 4 → a k ≡ b k) → read_u32 a p ≡ read_u32 b p
unfolding read_u32
read_u32_agree a b p h =
    ap₂ bit_or
      (ap₂ bit_or
        (ap₂ bit_or (h p (omega arith) (omega arith))
          (ap (λ x. x * 2 ^ 8) (h (p + 1) (omega arith) (omega arith))))
        (ap (λ x. x * 2 ^ 16) (h (p + 2) (omega arith) (omega arith))))
      (ap (λ x. x * 2 ^ 24) (h (p + 3) (omega arith) (omega arith)))

-- A word elsewhere is not changed.
pub read_u32-write_u32_apart :
    (a : ℕ → ℕ) (p q v : ℕ)
    → (q + 4 ≤ p) ⊎ (p + 4 ≤ q)
    → read_u32 (write_u32 a p v) q ≡ read_u32 a q
read_u32-write_u32_apart a p q v h = read_u32_agree (write_u32 a p v) a q λ k le lt.
    write_u32_apart a p v k
      (elim h [ inl before ↦ inl (omega arith) | inr behind ↦ inr (omega arith) ])
