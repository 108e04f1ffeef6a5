-- ===== src/Users/Reload.antt =====
-- The records that `persist` of kernel/core/users.c writes to `.passwd` and `users_init` loads.
use mini_kernel.Prelude.{
  ℕ, zero, suc, ◌+◌, ◌-◌, ◌*◌, ◌^◌, ◌≤◌, ◌<◌, ◌≡◌, refl, ap, sym, subst, ◌∙◌, ◌⊎◌, inl, inr, slice,
  store, store-slice, if-true, lt→ltb, arith, ℕ_discrete,
}
use mini_kernel.Users.{Account, user_name_max, user_max_accounts}
use mini_kernel.Users.Passwd.{
  record_size, copy_bytes, put_record, put_records, passwd_bytes, loaded,
}
use mini_kernel.Ufs.{write_u32, read_u32}
use mini_kernel.Ufs.Words.{
  write_u32_apart, read_u32_agree, read_u32-write_u32, read_u32-write_u32_apart,
}

put_record_apart :
    (buf : ℕ → ℕ) (at : ℕ) (a : Account) (k : ℕ)
    → (k < at) ⊎ (at + record_size ≤ k)
    → put_record buf at a k ≡ buf k
unfolding put_record
put_record_apart buf at a k h =
    let named = copy_bytes buf at a.username user_name_max in
    let low : (k < at + 20) ⊎ (at + 20 + 4 ≤ k) = elim h [
      | inl p ↦ inl (omega arith)
      | inr p ↦ inr (omega arith)
    ] in
    let high : (k < at + 24) ⊎ (at + 24 + 4 ≤ k) = elim h [
      | inl p ↦ inl (omega arith)
      | inr p ↦ inr (omega arith)
    ] in
    let name : named k ≡ buf k = ground arith in
    let one = write_u32_apart named (at + 20) a.uid k low in
    let two = write_u32_apart (write_u32 named (at + 20) a.uid) (at + 24) a.password_hash k high in
    ground arith

-- A record holds the account.
abbrev Holds : (ℕ → ℕ) → ℕ → Account → Type 0
Holds buf at a =
    ((j : ℕ) → j < user_name_max → buf (at + j) ≡ a.username j)
    × (read_u32 buf (at + 20) ≡ a.uid)
    × (read_u32 buf (at + 24) ≡ a.password_hash)

put_record-Holds :
    (buf : ℕ → ℕ) (at : ℕ) (a : Account)
    → a.uid < 2 ^ 32
    → a.password_hash < 2 ^ 32
    → Holds (put_record buf at a) at a
unfolding put_record
put_record-Holds buf at a hu hp =
    let named = copy_bytes buf at a.username user_name_max in
    let one = write_u32 named (at + 20) a.uid in
    let two = write_u32 one (at + 24) a.password_hash in
    let same : (q : ℕ)
        → q + 4 ≤ at + 28
        → read_u32 (copy_bytes two (at + 28) (λ j. 0) 4) q ≡ read_u32 two q =
      λ q h. read_u32_agree _ two q (λ k p r. ground arith) in
    (
      (λ j lt.
          let name : named (at + j) ≡ a.username j = named_at buf at a j lt in
          let first = write_u32_apart named (at + 20) a.uid (at + j) (inl (omega arith)) in
          let second = write_u32_apart one (at + 24) a.password_hash (at + j) (inl (omega arith)) in
          ground arith),
      same (at + 20) (omega arith)
          ∙ read_u32-write_u32_apart one (at + 24) (at + 20) a.password_hash (inl (omega arith))
          ∙ read_u32-write_u32 named (at + 20) a.uid hu,
      same (at + 24) (omega arith) ∙ read_u32-write_u32 one (at + 24) a.password_hash hp,
    )
  where
    named_at :
        (buf : ℕ → ℕ) (at : ℕ) (a : Account) (j : ℕ)
        → j < user_name_max
        → copy_bytes buf at a.username user_name_max (at + j) ≡ a.username j
    named_at buf at a j lt =
        let e : a.username (at + j - at) ≡ a.username j = ap a.username (omega arith) in
        ground arith

Holds-agree :
    (f g : ℕ → ℕ) (at : ℕ) (a : Account)
    → ((k : ℕ) → at ≤ k → k < at + record_size → f k ≡ g k)
    → Holds g at a
    → Holds f at a
Holds-agree f g at a same (name, uid, hash) = (
  (λ j lt. same (at + j) (omega arith) (omega arith) ∙ name j lt),
  read_u32_agree f g (at + 20) (λ k p q. same k (omega arith) (omega arith)) ∙ uid,
  read_u32_agree f g (at + 24) (λ k p q. same k (omega arith) (omega arith)) ∙ hash,
)

put_records_apart :
    (accounts : ℕ → Account) (rounds : ℕ) (buf : ℕ → ℕ) (i k : ℕ)
    → k < i * record_size
    → put_records accounts buf rounds i k ≡ buf k
unfolding put_records
put_records_apart accounts zero buf i k h = refl
put_records_apart accounts (suc rounds) buf i k h =
    put_records_apart accounts rounds (put_record buf (i * record_size) (accounts i)) (i + 1) k
      (omega arith)
    ∙ put_record_apart buf (i * record_size) (accounts i) k (inl h)

-- The user ids and hashes are words.
abbrev pub Words : (ℕ → Account) → Type 0
Words accounts = (i : ℕ) → ((accounts i).uid < 2 ^ 32) × ((accounts i).password_hash < 2 ^ 32)

put_records-Holds :
    (accounts : ℕ → Account) (rounds : ℕ) (buf : ℕ → ℕ) (start i : ℕ)
    → Words accounts
    → start ≤ i
    → i < start + rounds
    → Holds (put_records accounts buf rounds start) (i * record_size) (accounts i)
unfolding put_records
put_records-Holds accounts zero buf start i w le lt = omega arith
put_records-Holds accounts (suc rounds) buf start i w le lt = elim (ℕ_discrete start i) [
  | yes here ↦
      let first = put_record buf (start * record_size) (accounts start) in
      let (hu, hp) = w start in
      subst
        (λ k. Holds (put_records accounts first rounds (start + 1)) (k * record_size) (accounts k))
        here
        (Holds-agree (put_records accounts first rounds (start + 1)) first (start * record_size)
          (accounts start)
          (λ k p q. put_records_apart accounts rounds first (start + 1) k (omega arith))
          (put_record-Holds buf (start * record_size) (accounts start) hu hp))
  | no later ↦
      put_records-Holds accounts rounds (put_record buf (start * record_size) (accounts start))
        (start + 1) i w (omega arith) (omega arith)
]

-- An account with the name, the user id and the hash of another.
pub record SameAccount (a b : Account) : Type 0 where
  pub same_name : (j : ℕ) → j < user_name_max → b.username j ≡ a.username j
  pub same_uid : b.uid ≡ a.uid
  pub same_hash : b.password_hash ≡ a.password_hash

slice_read : (n : ℕ) (f : ℕ → ℕ) (k : ℕ) → k < n → store (λ j. 0) 0 (slice f 0 n) k ≡ f k
slice_read n f k h =
    ap (store (λ j. 0) 0 (slice f 0 n)) (omega arith)
    ∙ store-slice n f (λ j. 0) 0 0 k h
    ∙ ap f (omega arith)

passwd_bytes_at :
    (accounts : ℕ → Account) (k : ℕ)
    → k < user_max_accounts * record_size
    → store (λ j. 0) 0 (passwd_bytes accounts) k
      ≡ put_records accounts (λ j. 0) user_max_accounts 0 k
unfolding passwd_bytes
passwd_bytes_at accounts k h =
    slice_read (user_max_accounts * record_size) (put_records accounts (λ j. 0) user_max_accounts 0)
      k h

copied : (f g : ℕ → ℕ) (j : ℕ) → j < user_name_max → copy_bytes g 0 f user_name_max j ≡ f j
copied f g j h = let e : f (j - 0) ≡ f j = ap f (omega arith) in ground arith

-- `users_init` loads from the bytes that `persist` writes the accounts that it wrote.
pub loaded-passwd_bytes :
    (accounts before : ℕ → Account) (i : ℕ)
    → Words accounts
    → i < user_max_accounts
    → SameAccount (accounts i) (loaded (store (λ j. 0) 0 (passwd_bytes accounts)) before i)
unfolding loaded
loaded-passwd_bytes accounts before i w h =
    let buf = put_records accounts (λ j. 0) user_max_accounts 0 in
    let read : ℕ → ℕ = store (λ j. 0) 0 (passwd_bytes accounts) in
    let at = i * record_size in
    let same : (k : ℕ) → at ≤ k → k < at + record_size → read k ≡ buf k =
      λ k p q. passwd_bytes_at accounts k (omega arith) in
    let (name, uid, hash) =
      Holds-agree read buf at (accounts i) same
        (put_records-Holds accounts user_max_accounts (λ j. 0) 0 i w (omega arith) (omega arith)) in
    subst (SameAccount (accounts i)) (sym (if-true _ _ (lt→ltb i user_max_accounts h))) (record {
      same_name = λ j lt. copied (λ k. read (at + k)) (before i).username j lt ∙ name j lt;
      same_uid = uid;
      same_hash = hash;
    })
