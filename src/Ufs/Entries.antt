-- ===== src/Ufs/Entries.antt =====
-- The entries of the directory of kernel/core/ufs.c that are used: their count and their choice.
use mini_kernel.Prelude.{
  Bool, Option, length, str_eq_at, ◌-◌, ℕ, zero, suc, ◌+◌, ◌≤◌, ◌<◌, ◌≡◌, ◌≢◌, refl, ap, ap₂, sym,
  subst, ◌∙◌, ◌⊎◌, inl, inr, true, false, not, some, List, [], ◌∷◌, if◌then◌else◌, ◌==◌, update,
  arith, ℕ_discrete, dec_lt,
}
use mini_kernel.Ufs.{
  name_max, entry_at, in_use, count_used, free_slot, find_named, set_name, zero_fill, new_entry,
  write_u32,
}
use mini_kernel.Ufs.Remount.{count_used_agree}

pub count_used_bound : (a : ℕ → ℕ) (rounds i : ℕ) → count_used a rounds i ≤ rounds
unfolding count_used
count_used_bound a zero i = omega arith
count_used_bound a (suc rounds) i = ground (arith, count_used_bound a rounds (i + 1))

-- An entry that comes into use is counted once.
pub count_used_more :
    (a b : ℕ → ℕ) (slot rounds i : ℕ)
    → i ≤ slot
    → slot < i + rounds
    → in_use a slot ≡ false
    → in_use b slot ≡ true
    → ((k : ℕ) → k ≢ slot → b (entry_at k) ≡ a (entry_at k))
    → count_used b rounds i ≡ count_used a rounds i + 1
unfolding count_used
count_used_more a b slot zero i le lt free used same = omega arith
count_used_more a b slot (suc rounds) i le lt free used same = elim (ℕ_discrete i slot) [
  | yes here ↦
      let rest = count_used_agree b a rounds (i + 1) (λ k p q. same k (λ e. omega arith)) in
      let free_here = subst (λ k. in_use a k ≡ false) (sym here) free in
      let used_here = subst (λ k. in_use b k ≡ true) (sym here) used in
      rw (free_here, used_here) omega (arith, rest)
  | no later ↦
      ap₂ (λ x n. (if not (x == 0) then 1 else 0) + n) (same i later)
        (count_used_more a b slot rounds (i + 1) (omega arith) (omega arith) free used same)
      ∙ omega arith
]

pub free_slot_lem :
    (a : ℕ → ℕ) (rounds i slot : ℕ)
    → free_slot a rounds i ≡ some slot
    → (i ≤ slot) × (slot < i + rounds) × (in_use a slot ≡ false)
unfolding free_slot
free_slot_lem a zero i slot e = ground arith
free_slot_lem a (suc rounds) i slot e = ground (arith, free_slot_lem a rounds (i + 1) slot)

pub find_named_lem :
    (a : ℕ → ℕ) (name : List ℕ) (rounds i slot : ℕ)
    → find_named a name rounds i ≡ some slot
    → (i ≤ slot) × (slot < i + rounds) × (in_use a slot ≡ true)
unfolding find_named
find_named_lem a name zero i slot e = ground arith
find_named_lem a name (suc rounds) i slot e =
    ground (arith, find_named_lem a name rounds (i + 1) slot)

zero_fill_apart : (n : ℕ) (a : ℕ → ℕ) (i k : ℕ) → (k < i) ⊎ (i + n ≤ k) → zero_fill a i n k ≡ a k
unfolding zero_fill
zero_fill_apart zero a i k h = refl
zero_fill_apart (suc n) a i k h =
    let rest : (k < i + 1) ⊎ (i + 1 + n ≤ k) = elim h [
      | inl p ↦ inl (omega arith)
      | inr p ↦ inr (omega arith)
    ] in
    zero_fill_apart n (update a i 0) (i + 1) k rest ∙ ground arith

set_name_apart :
    (room : ℕ) (name : List ℕ) (a : ℕ → ℕ) (i k : ℕ)
    → (k < i) ⊎ (i + suc room ≤ k)
    → set_name a i room name k ≡ a k
unfolding set_name
set_name_apart zero name a i k h = zero_fill_apart 1 a i k h
set_name_apart (suc room) [] a i k h = zero_fill_apart (suc (suc room)) a i k h
set_name_apart (suc room) (c ∷ name) a i k h =
    let rest : (k < i + 1) ⊎ (i + 1 + suc room ≤ k) = elim h [
      | inl p ↦ inl (omega arith)
      | inr p ↦ inr (omega arith)
    ] in
    set_name_apart room name (update a i c) (i + 1) k rest ∙ ground arith

-- Behind its name an entry's fields do not touch the name or other entries.
fields_apart :
    (named : ℕ → ℕ) (slot owner k : ℕ)
    → (k < entry_at slot + 20) ⊎ (entry_at slot + 40 ≤ k)
    → update
        (write_u32
          (write_u32
            (write_u32 (write_u32 named (entry_at slot + 20) 0) (entry_at slot + 24) 0)
            (entry_at slot + 28)
            0)
          (entry_at slot + 32)
          owner)
        (entry_at slot + 36)
        0
        k
      ≡ named k
unfolding write_u32
fields_apart named slot owner k h = ground arith

-- A new entry leaves the other entries alone.
pub new_entry_others :
    (a : ℕ → ℕ) (slot : ℕ) (name : List ℕ) (owner k : ℕ)
    → k ≢ slot
    → new_entry a slot name owner (entry_at k) ≡ a (entry_at k)
unfolding new_entry
new_entry_others a slot name owner k ne =
    let apart : (entry_at k < entry_at slot) ⊎ (entry_at slot + 40 ≤ entry_at k) =
      elim (dec_lt k slot) [ yes before ↦ inl (omega arith) | no behind ↦ inr (omega arith) ] in
    let name_apart : (entry_at k < entry_at slot) ⊎ (entry_at slot + 20 ≤ entry_at k) = elim apart [
      | inl p ↦ inl p
      | inr p ↦ inr (omega arith)
    ] in
    let field_apart : (entry_at k < entry_at slot + 20) ⊎ (entry_at slot + 40 ≤ entry_at k) =
      elim apart [ inl p ↦ inl (omega arith) | inr p ↦ inr p ] in
    fields_apart (set_name a (entry_at slot) 19 name) slot owner (entry_at k) field_apart
    ∙ set_name_apart 19 name a (entry_at slot) (entry_at k) name_apart

-- A new entry is used.
pub new_entry_used :
    (a : ℕ → ℕ) (slot c : ℕ) (name : List ℕ) (owner : ℕ)
    → c ≢ 0
    → in_use (new_entry a slot (c ∷ name) owner) slot ≡ true
unfolding new_entry set_name
new_entry_used a slot c name owner ne =
    let e = entry_at slot in
    let first =
      fields_apart (set_name a e 19 (c ∷ name)) slot owner e (inl (omega arith))
      ∙ set_name_apart 18 name (update a e c) (e + 1) e (inl (omega arith)) in
    ap (λ b. not (b == 0)) first ∙ ground arith

str_eq_at_agree :
    (name : List ℕ) (a b : ℕ → ℕ) (i : ℕ)
    → ((k : ℕ) → i ≤ k → k < i + suc (length name) → a k ≡ b k)
    → str_eq_at a i name ≡ str_eq_at b i name
unfolding str_eq_at
str_eq_at_agree [] a b i h = ap (λ x. x == 0) (h i (omega arith) (omega arith))
str_eq_at_agree (c ∷ cs) a b i h =
    ap₂ (λ x rest. if x == c then rest else false) (h i (omega arith) (omega arith))
      (str_eq_at_agree cs a b (i + 1) (λ k p q. h k (omega arith) (omega arith)))

-- Where two directories have the same names, a search finds the same entry.
pub find_named_agree :
    (a b : ℕ → ℕ) (name : List ℕ) (rounds i : ℕ)
    → length name < name_max
    → ((k j : ℕ) → k < i + rounds → j < name_max → a (entry_at k + j) ≡ b (entry_at k + j))
    → find_named a name rounds i ≡ find_named b name rounds i
unfolding find_named
find_named_agree a b name zero i short h = refl
find_named_agree a b name (suc rounds) i short h =
    let used : a (entry_at i) ≡ b (entry_at i) =
      ap a (omega arith) ∙ h i 0 (omega arith) (omega arith) ∙ ap b (omega arith) in
    let equal = str_eq_at_agree name a b (entry_at i) (λ k p q.
      ap a (omega arith) ∙ h i (k - entry_at i) (omega arith) (omega arith) ∙ ap b (omega arith)) in
    let rest = find_named_agree a b name rounds (i + 1) short (λ k j p q. h k j (omega arith) q) in
    ap₂ (λ x (r : Bool × Option ℕ). if not (x == 0) then (if r.0 then some i else r.1) else r.1)
      used (ap₂ (λ x y. (x, y)) equal rest)
