-- ===== src/Users/Passwd.antt =====
-- The copy of the accounts of kernel/core/users.c in the file `.passwd`, over the persistent files.
use mini_kernel.Prelude.{
  ℕ, zero, suc, ◌+◌, ◌-◌, ◌*◌, ℤ, pos, negsuc, not, Option, none, some, List, [], ◌∷◌,
  if◌then◌else◌, ltb, leb, ◌==◌, update, slice, store,
}
use mini_kernel.Users.{
  Account, user_name_max, user_max_accounts, set_username, hash_password, users_add,
}
use mini_kernel.Ufs.{
  Ufs, write_u32, read_u32, ufs_find, ufs_create, ufs_chmod, ufs_truncate, ufs_size,
}
use mini_kernel.Ufs.Data.{Write, result, endless, ufs_write_at, ufs_read_at}

abbrev pub record_size : ℕ
record_size = 32

abbrev pub passwd_file : List ℕ
passwd_file = b'.' ∷ b'p' ∷ b'a' ∷ b's' ∷ b's' ∷ b'w' ∷ b'd' ∷ []

-- `for (j = 0; j < n; j++) dest[at + j] = src[j]`
abbrev pub copy_bytes : (ℕ → ℕ) → ℕ → (ℕ → ℕ) → ℕ → ℕ → ℕ
copy_bytes dest at src n k =
    if leb at k then if ltb k (at + n) then src (k - at) else dest k else dest k

-- The record of an account at `at`.
unfoldable pub put_record : (ℕ → ℕ) → ℕ → Account → ℕ → ℕ
unfolding write_u32
put_record buf at a =
    let named = copy_bytes buf at a.username user_name_max in
    copy_bytes (write_u32 (write_u32 named (at + 20) a.uid) (at + 24) a.password_hash) (at + 28)
      (λ j. 0) 4

-- The first loop of `persist`, from account `i` on.
unfoldable pub put_records : (ℕ → Account) → (ℕ → ℕ) → ℕ → ℕ → ℕ → ℕ
unfolding put_record
put_records accounts buf zero i = buf
put_records accounts buf (suc rounds) i =
    put_records accounts (put_record buf (i * record_size) (accounts i)) rounds (i + 1)

-- The buffer of `persist`, all of whose bytes are written.
unfoldable pub passwd_bytes : (ℕ → Account) → List ℕ
unfolding put_records
passwd_bytes accounts =
    slice (put_records accounts (λ j. 0) user_max_accounts 0) 0 (user_max_accounts * record_size)

-- The file system behind a write, whose result `persist` does not read: `none` where the write does
-- not end.
abbrev pub after_write : Write → Option Ufs
after_write (result r u) = some u
after_write endless = none

-- The write of `persist` behind `ufs_create`.
unfoldable pub write_new : List ℕ → ℤ × Ufs → Option Ufs
unfolding ufs_chmod ufs_write_at
write_new bytes (negsuc n, u) = some u
write_new bytes (pos handle, u) =
    after_write (ufs_write_at (pos handle) 0 bytes (ufs_chmod (pos handle) 0 u).1)

unfoldable pub persist : (ℕ → Account) → Ufs → Option Ufs
unfolding ufs_find ufs_create ufs_truncate ufs_write_at write_new passwd_bytes
persist accounts u = elim (ufs_find u passwd_file) [
  | none ↦ write_new (passwd_bytes accounts) (ufs_create passwd_file 0 u)
  | some handle ↦
      after_write
        (ufs_write_at (pos handle) 0 (passwd_bytes accounts) (ufs_truncate (pos handle) 0 u).1)
]

abbrev pub root : List ℕ
root = b'r' ∷ b'o' ∷ b'o' ∷ b't' ∷ []

abbrev pub user : List ℕ
user = b'u' ∷ b's' ∷ b'e' ∷ b'r' ∷ []

-- `seed_defaults` on the table; it then calls `persist`.
unfoldable pub default_accounts : (ℕ → Account) → ℕ → Account
unfolding set_username hash_password
default_accounts accounts =
    let emptied : ℕ → Account = λ i.
      if ltb i user_max_accounts
      then record (accounts i) { username = update (accounts i).username 0 0 }
      else accounts i in
    let with_root = update emptied 0 (record {
      username = set_username (emptied 0).username root;
      uid = 0;
      password_hash = hash_password root;
    }) in
    update with_root 1 (record {
      username = set_username (emptied 1).username user;
      uid = 1000;
      password_hash = hash_password user;
    })

abbrev pub with_accounts : (ℕ → Account) → Option Ufs → Option ((ℕ → Account) × Ufs)
with_accounts accounts none = none
with_accounts accounts (some u) = some (accounts, u)

unfoldable pub seed_defaults : (ℕ → Account) → Ufs → Option ((ℕ → Account) × Ufs)
unfolding default_accounts persist
seed_defaults accounts u =
    let seeded = default_accounts accounts in with_accounts seeded (persist seeded u)

-- The loop of `users_init`: the accounts of the records in the buffer.
unfoldable pub loaded : (ℕ → ℕ) → (ℕ → Account) → ℕ → Account
unfolding read_u32
loaded buf accounts i =
    let at = i * record_size in
    if ltb i user_max_accounts
    then record {
      username = copy_bytes (accounts i).username 0 (λ j. buf (at + j)) user_name_max;
      uid = read_u32 buf (at + 20);
      password_hash = read_u32 buf (at + 24);
    }
    else accounts i

-- `users_init` at the start of the kernel, when its buffer is zero: `none` where a write does not
-- end.
unfoldable pub users_init : (ℕ → Account) → Ufs → Option ((ℕ → Account) × Ufs)
unfolding ufs_find ufs_size ufs_read_at store loaded seed_defaults
users_init accounts u = elim (ufs_find u passwd_file) [
  | none ↦ seed_defaults accounts u
  | some handle ↦
      let size = user_max_accounts * record_size in
      let (read, u') = ufs_read_at (pos handle) 0 size u in
      if not (ufs_size u (pos handle) == size)
      then seed_defaults accounts u
      else some (loaded (store (λ j. 0) 0 read.1) accounts, u')
]

-- The whole of `users_add`: where an account is added, the table is saved.
unfoldable pub add_and_persist :
    List ℕ → List ℕ → ℕ → (ℕ → Account) → Ufs → ℤ × Option ((ℕ → Account) × Ufs)
unfolding users_add persist
add_and_persist name password uid accounts u =
    let (r, accounts') = users_add name password uid accounts in
    (
      r,
      elim r [
        | pos n ↦ with_accounts accounts' (persist accounts' u)
        | negsuc n ↦ some (accounts, u)
      ],
    )
