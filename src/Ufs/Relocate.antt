-- ===== src/Ufs/Relocate.antt =====
-- The growth of a file in kernel/core/ufs.c: `ensure_capacity` moves it to free sectors.
use mini_kernel.Prelude.{
  ◌==◌, ◌||◌, ℕ, zero, suc, ◌+◌, ◌-◌, ◌*◌, ◌/◌, ◌%◌, ◌^◌, ◌≤◌, ◌<◌, ◌≡◌, refl, ap, ap₂, ◌∙◌, ◌⊎◌,
  inl, inr, true, false, if◌then◌else◌, if-true, ltb, leb, min, arith, dec_lt,
}
use mini_kernel.Ufs.{sector_size, sent_lba, ata_read_sectors, ata_write_sectors}
use mini_kernel.Ufs.Data.{move_from}
use mini_kernel.Ufs.Transfer.{healthy}
use mini_kernel.Ufs.Remount.{with_sectors}

-- The sectors from number `done` to `total` of the old place are in the new place, and no other
-- sector is changed.
pub record Moved (sectors : ℕ → ℕ → ℕ) (old_start new_start done total : ℕ) (sectors' : ℕ → ℕ → ℕ)
    : Type 0 where
  pub copied :
      (k j : ℕ)
      → done ≤ k
      → k < total
      → j < sector_size
      → sectors' (new_start + k) j ≡ sectors (old_start + k) j
  pub others :
      (l j : ℕ) → (l < new_start + done) ⊎ (new_start + total ≤ l) → sectors' l j ≡ sectors l j

-- What one round of the loop moves.
abbrev chunk_moved : (ℕ → ℕ → ℕ) → ℕ → ℕ → ℕ → ℕ → ℕ → ℕ
chunk_moved sectors old new n =
    with_sectors new n
      (λ i.
        if ltb i (n * sector_size) then sectors (old + i / sector_size) (i % sector_size) else 0)
      sectors

chunk_lem :
    (sectors : ℕ → ℕ → ℕ) (old new n k j : ℕ)
    → k < n
    → j < sector_size
    → chunk_moved sectors old new n (new + k) j ≡ sectors (old + k) j
chunk_lem sectors old new n k j h lt =
    let i = (new + k - new) * sector_size + j in
    let e : sectors (old + i / sector_size) (i % sector_size) ≡ sectors (old + k) j =
      ap₂ sectors (omega arith) (omega arith) in
    ground arith

chunk_others :
    (sectors : ℕ → ℕ → ℕ) (old new n l j : ℕ)
    → (l < new) ⊎ (new + n ≤ l)
    → chunk_moved sectors old new n l j ≡ sectors l j
chunk_others sectors old new n l j h = ground arith

then-Moved :
    (sectors next sectors' : ℕ → ℕ → ℕ) (old new done n total : ℕ)
    → old + total ≤ new
    → done + n ≤ total
    → next ≡ chunk_moved sectors (old + done) (new + done) n
    → Moved next old new (done + n) total sectors'
    → Moved sectors old new done total sectors'
then-Moved sectors next sectors' old new done n total apart le e m = record {
  copied = λ k j p q lt. elim (dec_lt k (done + n)) [
    | yes early ↦
        m.others (new + k) j (inl (omega arith))
        ∙ ap₂ (λ s l. s l j) e (omega arith)
        ∙ chunk_lem sectors (old + done) (new + done) n (k - done) j (omega arith) lt
        ∙ ap (λ l. sectors l j) (omega arith)
    | no late ↦
        m.copied k j (omega arith) q lt
        ∙ ap (λ s. s (old + k) j) e
        ∙ chunk_others sectors (old + done) (new + done) n (old + k) j (inl (omega arith))
  ];
  others = λ l j h.
      m.others l j (elim h [ inl p ↦ inl (omega arith) | inr p ↦ inr p ])
      ∙ ap (λ s. s l j) e
      ∙ chunk_others sectors (old + done) (new + done) n l j
          (elim h [ inl p ↦ inl p | inr p ↦ inr (omega arith) ]);
}

move_round :
    (rounds old new done total : ℕ) (sectors : ℕ → ℕ → ℕ)
    → done < total
    → let n = min 8 (total - done) in
      move_from (suc rounds) old new done total (healthy sectors)
      ≡ move_from rounds old new (done + n) total (
          healthy (
            chunk_moved sectors
              (sent_lba ((old + done) % 2 ^ 32))
              (sent_lba ((new + done) % 2 ^ 32))
              n))
unfolding move_from ata_read_sectors ata_write_sectors
move_round rounds old new done total sectors h =
    let n = min 8 (total - done) in
    let some_left : leb total done ≡ false = ground arith in
    let some_sent : ((n == 0) || ltb 256 n) ≡ false = ground arith in
    rw (some_left, some_sent, move_from, ata_read_sectors, ata_write_sectors) refl

-- The loop of `ensure_capacity` moves all the sectors.
pub move_from_lem :
    (rounds old new done total : ℕ) (sectors : ℕ → ℕ → ℕ)
    → total - done ≤ rounds
    → old + total ≤ new
    → new + total < 2 ^ 28
    → (sectors' : ℕ → ℕ → ℕ) × (move_from rounds old new done total (healthy sectors)
        ≡ (true, healthy sectors'))
      × Moved sectors old new done total sectors'
unfolding move_from
move_from_lem zero old new done total sectors h apart small =
    (sectors, refl, record { copied = λ k j p q lt. omega arith; others = λ l j p. refl })
move_from_lem (suc rounds) old new done total sectors h apart small = elim (dec_lt done total) [
  | yes left ↦
      let n = min 8 (total - done) in
      let next =
        chunk_moved sectors (sent_lba ((old + done) % 2 ^ 32)) (sent_lba ((new + done) % 2 ^ 32))
          n in
      let (sectors', e, m) =
        move_from_lem rounds old new (done + n) total next (omega arith) apart small in
      (
        sectors',
        move_round rounds old new done total sectors left ∙ e,
        then-Moved sectors next sectors' old new done n total apart (omega arith)
            (ap₂ (λ a b. chunk_moved sectors a b n) (omega arith) (omega arith)) m,
      )
  | no finished ↦
      let all : leb total done ≡ true = ground arith in
      (
        sectors,
        if-true _ _ all,
        record { copied = λ k j p q lt. omega arith; others = λ l j p. refl },
      )
]
