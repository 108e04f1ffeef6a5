-- ===== src/Users.antt =====
-- The accounts of kernel/core/users.c: the table in memory, and in Users/Passwd its copy in a file. A string that is passed in is the
-- list of its characters before the NUL.
pub mod Accounts
pub mod Passwd
pub mod Reload
pub mod Survive
mod Tests
use mini_kernel.Prelude.{
  str_eq_at, ℕ, zero, suc, ◌+◌, ◌-◌, ◌*◌, ◌%◌, ◌^◌, ℤ, pos, minus_one, Bool, true, false, Option,
  none, some, List, [], ◌∷◌, if◌then◌else◌, ltb, leb, ◌==◌, update, length, bit_xor,
}

abbrev pub user_name_max : ℕ
user_name_max = 20

abbrev pub user_max_accounts : ℕ
user_max_accounts = 16

-- `account_t`; the name is a C array, with what may stand behind its NUL.
pub record Account : Type 0 where
  pub username : ℕ → ℕ
  pub uid : ℕ
  pub password_hash : ℕ

-- The loop of `hash_password`, on the characters of a string.
pub hash_chars : ℕ → List ℕ → ℕ
hash_chars h [] = h
hash_chars h (c ∷ cs) = hash_chars (bit_xor h (c % 2 ^ 8) * 16777619 % 2 ^ 32) cs

-- "MiniKernelSalt"
abbrev pub salt : List ℕ
salt = 77 ∷ 105 ∷ 110 ∷ 105 ∷ 75 ∷ 101 ∷ 114 ∷ 110 ∷ 101 ∷ 108 ∷ 83 ∷ 97 ∷ 108 ∷ 116 ∷ []

unfoldable pub hash_password : List ℕ → ℕ
unfolding hash_chars
hash_password password = hash_chars (hash_chars 2166136261 salt) password

-- The loop of `set_username` from index `i` on, with the NUL that it ends in.
pub put_name : (ℕ → ℕ) → ℕ → List ℕ → ℕ → ℕ
put_name a i [] = update a i 0
put_name a i (c ∷ cs) =
    let rest = put_name (update a i c) (i + 1) cs in
    if ltb i (user_name_max - 1) then rest else update a i 0

-- `set_username`
abbrev pub set_username : (ℕ → ℕ) → List ℕ → ℕ → ℕ
unfolding put_name
set_username a name = put_name a 0 name

-- `accounts[i].username[0] == '\0'`
abbrev pub is_empty : Account → Bool
is_empty a = a.username 0 == 0

abbrev pub named : List ℕ → Account → Bool
unfolding str_eq_at
named name a = if is_empty a then false else str_eq_at a.username 0 name

-- The loop of `users_authenticate`: `none` is -1, `some` the user id with the result 0.
pub auth_from : (ℕ → Account) → List ℕ → ℕ → ℕ → ℕ → Option ℕ
auth_from accounts name h zero i = none
auth_from accounts name h (suc rounds) i =
    let rest = auth_from accounts name h rounds (i + 1) in
    if named name (accounts i)
    then if (accounts i).password_hash == h then some (accounts i).uid else none
    else rest

unfoldable pub users_authenticate : (ℕ → Account) → List ℕ → List ℕ → Option ℕ
unfolding hash_password auth_from
users_authenticate accounts name password =
    auth_from accounts name (hash_password password) user_max_accounts 0

-- The first loop of `users_add`: whether an account has the name.
pub name_taken : (ℕ → Account) → List ℕ → ℕ → ℕ → Bool
name_taken accounts name zero i = false
name_taken accounts name (suc rounds) i =
    let rest = name_taken accounts name rounds (i + 1) in
    if named name (accounts i) then true else rest

-- Its second loop: the first empty account.
pub empty_slot : (ℕ → Account) → ℕ → ℕ → Option ℕ
empty_slot accounts zero i = none
empty_slot accounts (suc rounds) i =
    let rest = empty_slot accounts rounds (i + 1) in if is_empty (accounts i) then some i else rest

abbrev pub new_account : Account → List ℕ → List ℕ → ℕ → Account
unfolding hash_password
new_account a name password uid = record {
  username = set_username a.username name;
  uid = uid;
  password_hash = hash_password password;
}

-- `users_add` on the table in memory.
unfoldable pub users_add : List ℕ → List ℕ → ℕ → (ℕ → Account) → ℤ × (ℕ → Account)
unfolding name_taken empty_slot
users_add name password uid accounts =
    let taken = name_taken accounts name user_max_accounts 0 in
    let added : ℤ × (ℕ → Account) = elim (empty_slot accounts user_max_accounts 0) [
      | none ↦ (minus_one, accounts)
      | some slot ↦ (pos 0, update accounts slot (new_account (accounts slot) name password uid))
    ] in
    if length name == 0
    then (minus_one, accounts)
    else if leb user_name_max (length name)
    then (minus_one, accounts)
    else if taken
    then (minus_one, accounts)
    else added

-- The characters that `users_name_for_uid` copies from index `j` on, with room for `room` more
-- and a NUL.
pub copy_out : (ℕ → ℕ) → ℕ → ℕ → List ℕ
copy_out a j zero = []
copy_out a j (suc room) = let rest = copy_out a (j + 1) room in if a j == 0 then [] else a j ∷ rest

-- Its loop: `none` is -1.
pub name_from : (ℕ → Account) → ℕ → ℕ → ℕ → ℕ → Option (List ℕ)
unfolding copy_out
name_from accounts uid out_len zero i = none
name_from accounts uid out_len (suc rounds) i =
    let rest = name_from accounts uid out_len rounds (i + 1) in
    if is_empty (accounts i)
    then rest
    else if (accounts i).uid == uid
    then some (copy_out (accounts i).username 0 (out_len - 1))
    else rest

unfoldable pub users_name_for_uid : (ℕ → Account) → ℕ → ℕ → Option (List ℕ)
unfolding name_from
users_name_for_uid accounts uid out_len = name_from accounts uid out_len user_max_accounts 0
