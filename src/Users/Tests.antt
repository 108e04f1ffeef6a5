-- ===== src/Users/Tests.antt =====
-- The accounts of kernel/core/users.c at concrete states.
use mini_kernel.Prelude.{
  false, sym, subst, ap, arith, store, ℕ, ◌<◌, ◌≡◌, refl, true, arith, [], ◌∷◌, none, some,
}
use mini_kernel.Users.Survive.{accounts_survive}
use mini_kernel.Users.Passwd
use mini_kernel.Ufs
use mini_kernel.Ufs.{Ufs, write_u32, read_u32, ufs_find, ufs_init}
use mini_kernel.Ufs.Transfer.{healthy}
use mini_kernel.Ufs.Remount.{Synced, persist_saves}
use mini_kernel.Ufs.Stored.{File}
use mini_kernel.Users.Passwd.{passwd_file, users_init, root, user, passwd_bytes, loaded}
use mini_kernel.Users.Reload.{Words, SameAccount}
use mini_kernel.Users.{
  Account, user_max_accounts, hash_password, named, users_add, users_authenticate,
  users_name_for_uid, new_account, set_username,
}
use mini_kernel.Users.Accounts.{AddResult, add_lem, authenticate_lem}

abbrev no_accounts : ℕ → Account
no_accounts i = record { username = λ k. 0; uid = 0; password_hash = 0 }

abbrev with_root : ℕ → Account
with_root = (users_add root root 0 no_accounts).1

add_lem_example : AddResult user root 1000 with_root (users_add user root 1000 with_root)
add_lem_example = add_lem 117 (115 ∷ 101 ∷ 114 ∷ []) root 1000 with_root (omega arith)

let_in : users_authenticate with_root root root ≡ some 0
unfolding users_authenticate users_add named set_username
let_in = refl

kept_out : users_authenticate with_root root user ≡ none
unfolding users_authenticate users_add named set_username
kept_out = refl

authenticate_lem_example :
    (j : ℕ) × (j < user_max_accounts)
    × (named root (with_root j) ≡ true)
    × ((with_root j).password_hash ≡ hash_password root)
    × ((with_root j).uid ≡ 0)
authenticate_lem_example = authenticate_lem with_root root root 0 let_in

name_of_root : users_name_for_uid with_root 0 20 ≡ some root
unfolding users_name_for_uid users_add named new_account set_username
name_of_root = refl

no_accounts-Words : Words no_accounts
no_accounts-Words i = (omega arith, omega arith)

abbrev blank : Ufs
blank = record {
  superblock = λ i. 0;
  directory = λ i. 0;
  ready = false;
  file_count = 0;
  next_free_lba = 0;
  disk = healthy (λ l i. 0);
}

-- A file system with the file `.passwd` in one sector.
abbrev with_passwd : Ufs
with_passwd = record blank {
  directory = write_u32 (write_u32 (write_u32 (store (λ i. 0) 0 passwd_file) 20 8198) 24 512) 28 1;
  ready = true;
  file_count = 1;
  next_free_lba = 8199;
}

unfoldable saved_passwd : Ufs
unfolding write_u32 store
saved_passwd = (Ufs.persist with_passwd).1

saved_passwd-Synced : Synced saved_passwd
unfolding saved_passwd
saved_passwd-Synced =
    let (s', e, sync, shape, keep) = persist_saves with_passwd refl (omega arith, omega arith) in
    subst Synced (sym (ap (λ r. r.1) e)) sync

saved_passwd-File : File saved_passwd 0
unfolding saved_passwd Ufs.persist read_u32 store
saved_passwd-File = record {
  is_ready = refl;
  in_bounds = omega arith;
  used = refl;
  in_data = omega arith;
}

found_passwd : ufs_find saved_passwd passwd_file ≡ some 0
unfolding saved_passwd Ufs.persist ufs_find store write_u32
found_passwd = refl

accounts_survive_example :
    (u' : Ufs) × (Passwd.persist no_accounts saved_passwd ≡ some u')
    × (loaded_accounts : ℕ → Account) × (m : Ufs) × (users_init no_accounts
          (ufs_init (record blank { disk = u'.disk }))
        ≡ some (loaded_accounts, m))
    × ((i : ℕ) → i < user_max_accounts → SameAccount (no_accounts i) (loaded_accounts i))
unfolding saved_passwd Ufs.persist read_u32 store
accounts_survive_example =
    accounts_survive no_accounts no_accounts saved_passwd blank 0 no_accounts-Words
      saved_passwd-Synced (omega arith, omega arith) saved_passwd-File found_passwd (omega arith)
      (omega arith)
