-- ===== src/Heap/Blocks.antt =====
-- The bytes that the blocks of kernel/mm/heap.c cover.
use mini_kernel.Prelude.{
  ◌≢◌, false, ℕ, ◌+◌, ◌-◌, ◌%◌, ◌^◌, ◌≤◌, ◌<◌, ◌≡◌, refl, ap, subst, ◌∙◌, ◌⊎◌, inl, inr, true,
  Bool-cases, if_elim, Option, none, some, List, [], ◌∷◌, if◌then◌else◌, ltb, leb, ◌==◌, arith,
  mod_small,
}
use mini_kernel.Heap.{Block, split, take_fit, mark_free, joins, merge, coalesce}

-- 1 for the bytes from `a` on, `n` of them, and 0 for all others.
abbrev pub among : ℕ → ℕ → ℕ → ℕ
among a n x = if leb a x then if ltb x (a + n) then 1 else 0 else 0

-- How many blocks hold the byte in their header or behind it.
unfoldable pub covered : ℕ → List Block → ℕ
covered x [] = 0
covered x (b ∷ bs) = among b.addr (24 + b.size) x + covered x bs

-- How many blocks in use do.
pub used : ℕ → List Block → ℕ
used x [] = 0
used x (b ∷ bs) = (if b.free then 0 else among b.addr (24 + b.size) x) + used x bs

pub covered-cons :
    (x : ℕ) (b : Block) (bs : List Block)
    → covered x (b ∷ bs) ≡ among b.addr (24 + b.size) x + covered x bs
unfolding covered
covered-cons x b bs = refl

pub used-cons : (x : ℕ) (b : Block) (bs : List Block) → b.free ≡ true → used x (b ∷ bs) ≡ used x bs
unfolding used
used-cons x b bs e = ground (arith, e)

-- Taking a block leaves every byte covered as it was.
covered-split :
    (size : ℕ) (b : Block) (bs : List Block) (x : ℕ)
    → size < 2 ^ 63
    → covered x (split size b bs) ≡ covered x (b ∷ bs)
unfolding split covered
covered-split size b bs x h = ground arith

used-split :
    (size : ℕ) (b : Block) (bs : List Block)
    → size < 2 ^ 63
    → size ≤ b.size
    → b.free ≡ true
    → (n : ℕ) × (size ≤ n)
      × ((x : ℕ) → used x (split size b bs) ≡ used x (b ∷ bs) + among b.addr (24 + n) x)
unfolding split used
used-split size b bs h le free = elim (Bool-cases (leb ((size + 24 + 16) % 2 ^ 64) b.size)) [
  | inl e ↦ (size, omega arith, λ x. ground arith)
  | inr e ↦ (b.size, le, λ x. ground arith)
]

-- What taking a block of the list does.
abbrev pub Taken : ℕ → List Block → ℕ → List Block → Type 0
Taken size bs a bs' =
    ((x : ℕ) → covered x bs' ≡ covered x bs)
    × (n : ℕ) × (size ≤ n)
    × ((x : ℕ) → used x bs' ≡ used x bs + among a (24 + n) x)

pub split-Taken :
    (size : ℕ) (b : Block) (bs : List Block)
    → size < 2 ^ 63
    → size ≤ b.size
    → b.free ≡ true
    → Taken size (b ∷ bs) b.addr (split size b bs)
split-Taken size b bs h le free =
    let (n, le_n, more) = used-split size b bs h le free in
    ((λ x. covered-split size b bs x h), n, le_n, more)

later-Taken :
    (size a : ℕ) (b : Block) (bs bs' : List Block)
    → Taken size bs a bs'
    → Taken size (b ∷ bs) a (b ∷ bs')
unfolding covered used
later-Taken size a b bs bs' (same, n, le, more) =
    ((λ x. ground (arith, same x)), n, le, λ x. ground (arith, more x))

pub take_fit_cases :
    (size : ℕ) (bs : List Block)
    → size < 2 ^ 63
    → (take_fit size bs ≡ none)
      ⊎ (a : ℕ) × (bs' : List Block) × (take_fit size bs ≡ some (a, bs')) × Taken size bs a bs'
unfolding take_fit
take_fit_cases size [] h = inl refl
take_fit_cases size (b ∷ bs) h =
    let P : Option (ℕ × List Block) → Type 0 = λ r.
      (r ≡ none) ⊎ (a : ℕ) × (bs' : List Block) × (r ≡ some (a, bs')) × Taken size (b ∷ bs) a bs' in
    let later =
      elim (take_fit_cases size bs h)
        as (λ w. P (elim (take_fit size bs) [ none ↦ none | some (a, bs') ↦ some (a, b ∷ bs') ])) [
          | inl e ↦ inl (rw e refl)
          | inr (a, bs', e, t) ↦ inr (a, b ∷ bs', rw e refl, later-Taken size a b bs bs' t)
        ] in
    if_elim P b.free
      (λ free.
        if_elim P (leb size b.size)
          (λ le. inr (b.addr, split size b bs, refl, split-Taken size b bs h (ground arith) free))
          (λ e. later))
      (λ e. later)

-- No block in use has its bytes begin at the pointer.
abbrev pub NoneInUse : ℕ → List Block → Type 0
NoneInUse ptr [] = Unit {0}
NoneInUse ptr (b ∷ bs) = ((b.addr + 24 ≢ ptr) ⊎ (b.free ≡ true)) × NoneInUse ptr bs

-- A block in use of `n` bytes, beginning at the pointer, is in the list.
abbrev pub InUse : ℕ → ℕ → List Block → Type 0
InUse ptr n [] = ⊥
InUse ptr n (b ∷ bs) = ((b.addr + 24 ≡ ptr) × (b.size ≡ n) × (b.free ≡ false)) ⊎ InUse ptr n bs

uncovered-NoneInUse : (ptr : ℕ) (bs : List Block) → covered (ptr - 24) bs ≡ 0 → NoneInUse ptr bs
unfolding covered
uncovered-NoneInUse ptr [] h = tt
uncovered-NoneInUse ptr (b ∷ bs) h =
    (inl (λ e. absurd (ground (arith, h, e))), uncovered-NoneInUse ptr bs (omega (arith, h)))

-- What marking a block free does, where no byte is in two blocks.
pub mark_free_cases :
    (ptr : ℕ) (bs : List Block)
    → ((x : ℕ) → covered x bs ≤ 1)
    → ((mark_free ptr bs ≡ none) × NoneInUse ptr bs)
      ⊎ (bs' : List Block) × (n : ℕ) × (mark_free ptr bs ≡ some bs')
        × InUse ptr n bs
        × ((x : ℕ) → covered x bs' ≡ covered x bs)
        × ((x : ℕ) → used x bs' + among (ptr - 24) (24 + n) x ≡ used x bs)
unfolding mark_free covered used
mark_free_cases ptr [] apart = inl (refl, tt)
mark_free_cases ptr (b ∷ bs) apart = elim (Bool-cases (b.addr + 24 == ptr)) [
  | inl e ↦ elim (Bool-cases b.free) [
    | inl f ↦
        let alone : covered (ptr - 24) bs ≡ 0 = ground (arith, apart (ptr - 24), e) in
        inl (rw (e, f) refl, (inr f, uncovered-NoneInUse ptr bs alone))
    | inr f ↦ inr (
      record b { free = true } ∷ bs,
      b.size,
      rw (e, f) refl,
      inl (ground arith, refl, f),
      (λ x. refl),
      λ x. ground arith,
    )
  ]
  | inr e ↦ elim (mark_free_cases ptr bs (λ x. omega (arith, apart x))) [
    | inl (n, none_here) ↦ inl (rw (e, n) refl, (inl (ground arith), none_here))
    | inr (bs', n, m, here, same, less) ↦ inr (
      b ∷ bs',
      n,
      rw (e, m) refl,
      inr here,
      (λ x. ground (arith, same x)),
      λ x. ground (arith, less x),
    )
  ]
]

-- All blocks lie below 4 GiB.
abbrev pub Low : List Block → Type 0
Low bs = (x : ℕ) → 0 < covered x bs → x < 2 ^ 32

joins-true :
    (b c : Block)
    → joins b c ≡ true
    → (b.free ≡ true) × (c.free ≡ true) × (b.addr + 24 + b.size ≡ c.addr)
joins-true b c e = (ground arith, ground arith, ground arith)

abbrev joined : Block → Block → Block
joined b c = record b { size = (b.size + 24 + c.size) % 2 ^ 64 }

Low-second : (b c : Block) (cs : List Block) → Low (b ∷ c ∷ cs) → c.addr + 24 + c.size ≤ 2 ^ 32
unfolding covered
Low-second b c cs low = ground (arith, low (c.addr + 23 + c.size))

Low-rest : (b : Block) (bs : List Block) → Low (b ∷ bs) → Low bs
unfolding covered
Low-rest b bs low x h = low x (omega arith)

-- Two neighbours joined.
joined_lem :
    (b c : Block) (cs : List Block)
    → joins b c ≡ true
    → c.addr + 24 + c.size ≤ 2 ^ 32
    → (x : ℕ)
    → (covered x (joined b c ∷ cs) ≡ covered x (b ∷ c ∷ cs))
      × (used x (joined b c ∷ cs) ≡ used x (b ∷ c ∷ cs))
unfolding covered used
joined_lem b c cs e bound x =
    let (bf, cf, next) = joins-true b c e in
    let whole : (b.size + 24 + c.size) % 2 ^ 64 ≡ b.size + 24 + c.size =
      mod_small (b.size + 24 + c.size) (2 ^ 64) (omega arith) in
    (ground (arith, whole), ground (arith, whole))

-- Joining neighbours leaves every byte as covered and as used as it was.
pub covered-merge :
    (bs : List Block) (b : Block)
    → Low (b ∷ bs)
    → (x : ℕ)
    → (covered x (merge b bs) ≡ covered x (b ∷ bs)) × (used x (merge b bs) ≡ used x (b ∷ bs))
unfolding merge covered used
covered-merge [] b low x = (refl, refl)
covered-merge (c ∷ cs) b low x = elim (Bool-cases (joins b c)) [
  | inr e ↦
      let (p, q) = covered-merge cs c (Low-rest b (c ∷ cs) low) x in
      (
        rw (e, merge) (ap (λ n. among b.addr (24 + b.size) x + n) p),
        rw (e, merge) (ap (λ n. (if b.free then 0 else among b.addr (24 + b.size) x) + n) q),
      )
  | inl e ↦
      let same = joined_lem b c cs e (Low-second b c cs low) in
      let low' : Low (joined b c ∷ cs) = λ y h. low y (subst (λ n. 0 < n) (same y).0 h) in
      let (p, q) = covered-merge cs (joined b c) low' x in
      (rw (e, merge) (p ∙ (same x).0), rw (e, merge) (q ∙ (same x).1))
]

pub covered-coalesce :
    (bs : List Block)
    → Low bs
    → (x : ℕ) → (covered x (coalesce bs) ≡ covered x bs) × (used x (coalesce bs) ≡ used x bs)
unfolding coalesce
covered-coalesce [] low x = (refl, refl)
covered-coalesce (b ∷ bs) low x = covered-merge bs b low x
