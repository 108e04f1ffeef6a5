-- ===== src/Ufs/Transfer.antt =====
-- The loops of kernel/core/ufs.c that write and read a file's bytes, on a disk whose requests
-- succeed: a file's bytes are those of its sectors, one after the other.
use mini_kernel.Prelude.{
  Bool, ℕ, zero, suc, ◌+◌, ◌-◌, ◌*◌, ◌/◌, ◌%◌, ◌^◌, ◌≤◌, ◌<◌, ◌≡◌, refl, ap, ap₂, sym, ◌∙◌, ◌⊎◌,
  inl, inr, true, false, List, [], ◌∷◌, ◌++◌, if◌then◌else◌, if-false, ltb, leb, ◌==◌, min, store,
  store_before, store_behind, store_shift, store_split, slice, slice_shift, slice-append, length,
  length-take, length-drop, take, drop, arith, dec_lt, ℕ_discrete,
}
use mini_kernel.Ufs.{Disk, sector_size, sent_lba, ata_read_sectors, ata_write_sectors}
use mini_kernel.Ufs.Data.{write_from, read_from}

-- A disk all of whose requests will succeed.
abbrev pub healthy : (ℕ → ℕ → ℕ) → Disk
healthy sectors = record { sectors = sectors; failures = [] }

-- The byte at a position of a file that begins at the sector `start`.
abbrev pub byte_at : (ℕ → ℕ → ℕ) → ℕ → ℕ → ℕ
byte_at sectors start c = sectors (start + c / sector_size) (c % sector_size)

-- The sectors behind one round of `ufs_write_at`.
abbrev round : (ℕ → ℕ → ℕ) → ℕ → ℕ → List ℕ → ℕ → ℕ → ℕ
round sectors lba at bytes l i =
    if leb lba l
    then if ltb l (lba + 1)
      then store
          (λ j.
            if ltb j (1 * sector_size)
            then sectors (lba + j / sector_size) (j % sector_size)
            else 0)
          at bytes ((l - lba) * sector_size + i)
      else sectors l i
    else sectors l i

filled :
    (sectors : ℕ → ℕ → ℕ) (q j : ℕ)
    → j < sector_size
    → (if ltb j (1 * sector_size) then sectors (q + j / sector_size) (j % sector_size) else 0)
      ≡ sectors q j
filled sectors q j h =
    let a : q + j / sector_size ≡ q = omega arith in
    let b : j % sector_size ≡ j = omega arith in ground (arith, ap₂ sectors a b)

-- The round's sector holds what was stored, and no other is changed.
inside :
    (sectors : ℕ → ℕ → ℕ) (q l at i : ℕ) (bytes : List ℕ)
    → l ≡ q
    → round sectors q at bytes l i
      ≡ store
          (λ j.
            if ltb j (1 * sector_size) then sectors (q + j / sector_size) (j % sector_size) else 0)
          at
          bytes
          ((l - q) * sector_size + i)
inside sectors q l at i bytes e = ground arith

outside :
    (sectors : ℕ → ℕ → ℕ) (q l at i : ℕ) (bytes : List ℕ)
    → ¬ (l ≡ q)
    → round sectors q at bytes l i ≡ sectors l i
outside sectors q l at i bytes ne = ground arith

-- A round stores its chunk.
round_lem :
    (sectors : ℕ → ℕ → ℕ) (start cur : ℕ) (bytes : List ℕ) (c : ℕ)
    → length bytes ≤ sector_size - cur % sector_size
    → byte_at (round sectors (start + cur / sector_size) (cur % sector_size) bytes) start c
      ≡ store (byte_at sectors start) cur bytes c
round_lem sectors start cur bytes c h = elim (ℕ_discrete (c / sector_size) (cur / sector_size)) [
  | yes same ↦
      let q = start + cur / sector_size in
      let k = (start + c / sector_size - q) * sector_size + c % sector_size in
      let scratch : ℕ → ℕ = λ j.
        if ltb j (1 * sector_size) then sectors (q + j / sector_size) (j % sector_size) else 0 in
      let here : scratch k ≡ byte_at sectors start c =
        ap scratch (omega arith)
        ∙ filled sectors q (c % sector_size) (omega arith)
        ∙ ap (λ x. sectors (start + x) (c % sector_size)) (sym same) in
      let stored =
        store_shift bytes scratch (byte_at sectors start) (cur % sector_size) cur k c (omega arith)
          here in
      inside sectors q (start + c / sector_size) (cur % sector_size) (c % sector_size) bytes
        (omega arith)
      ∙ stored
  | no other ↦ elim (dec_lt c cur) [
    | yes before ↦
        outside sectors (start + cur / sector_size) (start + c / sector_size) (cur % sector_size)
          (c % sector_size) bytes (λ e. other (omega arith))
        ∙ sym (store_before bytes (byte_at sectors start) cur c before)
    | no behind ↦
        outside sectors (start + cur / sector_size) (start + c / sector_size) (cur % sector_size)
          (c % sector_size) bytes (λ e. other (omega arith))
        ∙ sym (store_behind bytes (byte_at sectors start) cur c (omega arith))
  ]
]

-- The bytes are in the file's sectors from position `cur` on; other bytes of it and other sectors
-- are as they were.
pub record Written (sectors : ℕ → ℕ → ℕ) (start cur : ℕ) (bytes : List ℕ) (sectors' : ℕ → ℕ → ℕ)
    : Type 0 where
  pub stored : (c : ℕ) → byte_at sectors' start c ≡ store (byte_at sectors start) cur bytes c
  pub others :
      (l i : ℕ)
      → (l < start) ⊎ (start * sector_size + cur + length bytes ≤ l * sector_size)
      → sectors' l i ≡ sectors l i

then-Written :
    (sectors next sectors' : ℕ → ℕ → ℕ) (start cur n : ℕ) (bytes : List ℕ)
    → 0 < n
    → n ≡ min (sector_size - cur % sector_size) (length bytes)
    → next ≡ round sectors (start + cur / sector_size) (cur % sector_size) (take n bytes)
    → Written next start (cur + n) (drop n bytes) sectors'
    → Written sectors start cur bytes sectors'
then-Written sectors next sectors' start cur n bytes one least e w = record {
  stored = λ c.
      w.stored c
      ∙ store_shift (drop n bytes) (byte_at next start)
          (store (byte_at sectors start) cur (take n bytes)) (cur + n) (cur + n) c c refl
          (ap (λ s. byte_at s start c) e
            ∙ round_lem sectors start cur (take n bytes) c (omega (arith, length-take n bytes)))
      ∙ store_split n bytes (byte_at sectors start) cur c (omega arith);
  others = λ l i h.
      w.others l i
        (elim h [ inl before ↦ inl before | inr behind ↦ inr (omega (arith, length-drop n bytes)) ])
      ∙ ap (λ s. s l i) e
      ∙ outside sectors (start + cur / sector_size) l (cur % sector_size) i (take n bytes)
          (λ q. elim h [ inl before ↦ omega arith | inr behind ↦ omega arith ]);
}

-- A round with bytes left stores the chunk and goes on.
writes_sector :
    (rounds start cur b : ℕ) (bytes : List ℕ) (sectors : ℕ → ℕ → ℕ)
    → let src = b ∷ bytes in
      let n = min (sector_size - cur % sector_size) (length src) in
      let lba = sent_lba ((start + cur / sector_size) % 2 ^ 32) in
      write_from (suc rounds) start cur src (healthy sectors)
      ≡ write_from rounds start
          (cur + n)
          (drop n src)
          (healthy (round sectors lba (cur % sector_size) (take n src)))
unfolding write_from ata_read_sectors ata_write_sectors
writes_sector rounds start cur b bytes sectors =
    let some_left : (length (b ∷ bytes) == 0) ≡ false = ground arith in if-false _ _ some_left

-- The loop of `ufs_write_at` writes all the bytes.
pub write_from_lem :
    (rounds start cur : ℕ) (bytes : List ℕ) (sectors : ℕ → ℕ → ℕ)
    → length bytes ≤ rounds
    → start + cur + length bytes < 2 ^ 28
    → (sectors' : ℕ → ℕ → ℕ) × (write_from rounds start cur bytes (healthy sectors)
        ≡ (true, healthy sectors'))
      × Written sectors start cur bytes sectors'
unfolding write_from ata_read_sectors ata_write_sectors store
write_from_lem zero start cur [] sectors h k =
    (sectors, refl, record { stored = λ c. refl; others = λ l i h. refl })
write_from_lem zero start cur (b ∷ bytes) sectors h k = elim h [ ]
write_from_lem (suc rounds) start cur [] sectors h k =
    (sectors, ground arith, record { stored = λ c. refl; others = λ l i h. refl })
write_from_lem (suc rounds) start cur (b ∷ bytes) sectors h k =
    let src = b ∷ bytes in
    let n = min (sector_size - cur % sector_size) (length src) in
    let lba = sent_lba ((start + cur / sector_size) % 2 ^ 32) in
    let (sectors', e, w) =
      write_from_lem rounds start (cur + n) (drop n src)
        (round sectors lba (cur % sector_size) (take n src)) (omega (arith, length-drop n src))
        (omega (arith, length-drop n src)) in
    (
      sectors',
      writes_sector rounds start cur b bytes sectors ∙ e,
      then-Written sectors _ sectors' start cur n src (omega arith) refl
          (ap (λ l. round sectors l (cur % sector_size) (take n src)) (omega arith)) w,
    )

-- What a round reads, before what later rounds read.
abbrev before : List ℕ → Bool × List ℕ × Disk → Bool × List ℕ × Disk
before xs rest = let (good, later, d) = rest in (good, xs ++ later, d)

reads_sector :
    (rounds start cur n : ℕ) (sectors : ℕ → ℕ → ℕ)
    → let chunk = min (sector_size - cur % sector_size) (suc n) in
      let lba = sent_lba ((start + cur / sector_size) % 2 ^ 32) in
      read_from (suc rounds) start cur (suc n) (healthy sectors)
      ≡ before
          (slice
            (λ j.
              if ltb j (1 * sector_size)
              then sectors (lba + j / sector_size) (j % sector_size)
              else 0)
            (cur % sector_size)
            chunk)
          (read_from rounds start (cur + chunk) (suc n - chunk) (healthy sectors))
unfolding read_from ata_read_sectors
reads_sector rounds start cur n sectors =
    let some_left : (suc n == 0) ≡ false = ground arith in if-false _ _ some_left

-- The loop of `ufs_read_at` reads the file's bytes.
pub read_from_lem :
    (rounds start cur n : ℕ) (sectors : ℕ → ℕ → ℕ)
    → n ≤ rounds
    → start + cur + n < 2 ^ 28
    → read_from rounds start cur n (healthy sectors)
      ≡ (true, slice (byte_at sectors start) cur n, healthy sectors)
unfolding read_from ata_read_sectors
read_from_lem zero start cur zero sectors h k = refl
read_from_lem zero start cur (suc n) sectors h k = elim h [ ]
read_from_lem (suc rounds) start cur zero sectors h k = ground arith
read_from_lem (suc rounds) start cur (suc n) sectors h k =
    let chunk = min (sector_size - cur % sector_size) (suc n) in
    let later =
      read_from_lem rounds start (cur + chunk) (suc n - chunk) sectors (omega arith)
        (omega arith) in
    let lba : sent_lba ((start + cur / sector_size) % 2 ^ 32) ≡ start + cur / sector_size =
      omega arith in
    let scratch : ℕ → ℕ → ℕ = λ q j.
      if ltb j (1 * sector_size) then sectors (q + j / sector_size) (j % sector_size) else 0 in
    let chunk_read : slice (scratch (sent_lba ((start + cur / sector_size) % 2 ^ 32)))
          (cur % sector_size) chunk
        ≡ slice (byte_at sectors start) cur chunk =
      ap (λ q. slice (scratch q) (cur % sector_size) chunk) lba
      ∙ slice_shift (scratch (start + cur / sector_size)) (byte_at sectors start)
          (cur % sector_size) cur chunk
          (λ k lt.
            filled sectors (start + cur / sector_size) (cur % sector_size + k) (omega arith)
            ∙ ap₂ (λ q j. sectors (start + q) j) (omega arith) (omega arith)) in
    reads_sector rounds start cur n sectors
    ∙ ap₂ before chunk_read later
    ∙ ap (λ xs. (true, xs, healthy sectors))
        (slice-append (byte_at sectors start) cur chunk (suc n) (omega arith))
