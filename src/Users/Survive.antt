-- ===== src/Users/Survive.antt =====
-- The accounts of kernel/core/users.c over a restart: saved by `persist`, loaded by `users_init`.
use mini_kernel.Prelude.{
  ℕ, ◌+◌, ◌*◌, ◌%◌, ◌^◌, ◌≤◌, ◌<◌, ◌≡◌, refl, ap, sym, subst, ◌∙◌, ◌⊎◌, inl, inr, ℤ, pos, dec_lt,
  true, false, not, none, some, List, if-true, if-false, ◌==◌, length, length-slice, store, arith,
}
use mini_kernel.Users.{Account, user_max_accounts}
use mini_kernel.Users.Passwd.{
  record_size, passwd_file, passwd_bytes, put_records, persist, loaded, users_init, after_write,
}
use mini_kernel.Users.Reload.{Words, SameAccount, loaded-passwd_bytes}
use mini_kernel.Ufs.{
  Ufs, data_lba, data_end_lba, max_entries, name_max, entry_at, sector_size, off_size, ufs_find,
  ufs_init, ufs_size,
}
use mini_kernel.Ufs.Data.{ufs_write_at, ufs_read_at}
use mini_kernel.Ufs.Remount.{Synced, InArea, Mounted, ufs_init-Mounted}
use mini_kernel.Ufs.Stored.{
  File, Stored, start_of, size_of, capacity_of, index_lem, ufs_write_at_lem,
}
use mini_kernel.Ufs.Durable.{Mounted-SameFile, read-ufs_init}
use mini_kernel.Ufs.Entries.{find_named_agree}
use mini_kernel.Ufs.Truncated.{Truncated, ufs_truncate-Truncated}

length-passwd_bytes :
    (accounts : ℕ → Account) → length (passwd_bytes accounts) ≡ user_max_accounts * record_size
unfolding passwd_bytes
length-passwd_bytes accounts =
    length-slice (put_records accounts (λ j. 0) user_max_accounts 0) 0
      (user_max_accounts * record_size)

-- The same file is found where the names are the same.
find_same :
    (s t : Ufs) (h : ℕ)
    → s.ready ≡ true
    → t.ready ≡ true
    → ((k j : ℕ)
        → k < max_entries
        → j < name_max
        → t.directory (entry_at k + j) ≡ s.directory (entry_at k + j))
    → ufs_find s passwd_file ≡ some h
    → ufs_find t passwd_file ≡ some h
unfolding ufs_find
find_same s t h rs rt same found =
    if-true _ none rt
    ∙ find_named_agree t.directory s.directory passwd_file max_entries 0 (omega arith) same
    ∙ sym (if-true _ none rs)
    ∙ found

-- `persist` writes the accounts to a file that has room for them.
persist-Stored :
    (accounts : ℕ → Account) (u : Ufs) (h : ℕ)
    → Synced u
    → InArea u
    → File u h
    → ufs_find u passwd_file ≡ some h
    → 512 ≤ capacity_of u h * sector_size % 2 ^ 32
    → start_of u h + 512 < 2 ^ 28
    → (v u' : Ufs) × (persist accounts u ≡ some u')
      × Truncated u h v
      × Stored v h 0 (passwd_bytes accounts) u'
unfolding persist
persist-Stored accounts u h sync area f found room small =
    let (v, cut, t) = ufs_truncate-Truncated u h sync area f in
    let size = length-passwd_bytes accounts in
    let capacity = t.same_capacity in
    let start = t.same_start in
    let enough : 512 ≤ capacity_of v h * sector_size % 2 ^ 32 =
      subst (λ c. 512 ≤ c * sector_size % 2 ^ 32) (sym capacity) room in
    let (u', e, w) =
      ufs_write_at_lem v h 0 (passwd_bytes accounts) t.synced t.in_area t.file
        (omega arith, omega arith) in
    (
      v,
      u',
      rw (found, persist)
          (ap (λ x. after_write (ufs_write_at (pos h) 0 (passwd_bytes accounts) x)) cut
            ∙ ap after_write e),
      t,
      w,
    )

ufs_size_lem : (s : Ufs) (i : ℕ) → File s i → ufs_size s (pos i) ≡ size_of s i
unfolding ufs_size
ufs_size_lem s i f = rw (index_lem s i f.is_ready f.in_bounds f.used, ufs_size) refl

-- The names of the directory are those before the write, also when it is mounted again.
names_kept :
    (accounts : ℕ → Account) (u v u' m : Ufs) (h k j : ℕ)
    → h < max_entries
    → Truncated u h v
    → Stored v h 0 (passwd_bytes accounts) u'
    → Mounted u' m
    → k < max_entries
    → j < name_max
    → m.directory (entry_at k + j) ≡ u.directory (entry_at k + j)
names_kept accounts u v u' m h k j bound t w mounted hk hj =
    let apart : (entry_at k + j < entry_at h + off_size)
        ⊎ (entry_at h + off_size + 4 ≤ entry_at k + j) =
      elim (dec_lt h k) [ yes p ↦ inr (omega arith) | no p ↦ inl (omega arith) ] in
    mounted.same_directory (entry_at k + j) (omega arith)
    ∙ w.same_bytes (entry_at k + j) apart
    ∙ t.same_bytes (entry_at k + j) apart

-- Where every disk request succeeds, the directory and the superblock are saved on the disk, the next
-- free sector lies in the data area, and a file `.passwd` in the data area has room for the 512 bytes
-- of the accounts and its first sector and 512 add up to less than 2^28: the accounts that `persist`
-- saves, their ids and hashes 32-bit words, are those that `users_init` loads when the disk is mounted
-- again, whatever the memory held then.
pub accounts_survive :
    (accounts before : ℕ → Account) (u t : Ufs) (h : ℕ)
    → Words accounts
    → Synced u
    → InArea u
    → File u h
    → ufs_find u passwd_file ≡ some h
    → 512 ≤ capacity_of u h * sector_size % 2 ^ 32
    → start_of u h + 512 < 2 ^ 28
    → (u' : Ufs) × (persist accounts u ≡ some u')
      × (loaded_accounts : ℕ → Account) × (m : Ufs) × (users_init before
            (ufs_init (record t { disk = u'.disk }))
          ≡ some (loaded_accounts, m))
      × ((i : ℕ) → i < user_max_accounts → SameAccount (accounts i) (loaded_accounts i))
unfolding users_init
accounts_survive accounts before u t h words sync area f found room small =
    let (v, u', saved, cut, w) = persist-Stored accounts u h sync area f found room small in
    let start = cut.same_start in
    let empty = cut.empty in
    let count = length-passwd_bytes accounts in
    let area' : InArea u' =
      subst (λ n. (data_lba ≤ n) × (n ≤ data_end_lba)) (sym w.same_next) cut.in_area in
    let m = ufs_init (record t { disk = u'.disk }) in
    let mounted = ufs_init-Mounted u' (record t { disk = u'.disk }) w.synced area' refl in
    let same = Mounted-SameFile u' m h w.file mounted in
    let bytes = passwd_bytes accounts in
    let find =
      find_same u m h f.is_ready same.file.is_ready
        (λ k j p q. names_kept accounts u v u' m h k j f.in_bounds cut w mounted p q) found in
    let size : ufs_size m (pos h) ≡ 512 =
      ufs_size_lem m h same.file ∙ same.same_size ∙ w.size ∙ omega arith in
    let right_size : not (ufs_size m (pos h) == 512) ≡ false = ap (λ n. not (n == 512)) size in
    let read : (ufs_read_at (pos h) 0 512 m).0 ≡ (pos 512, bytes) =
      subst (λ n. (ufs_read_at (pos h) 0 n m).0 ≡ (pos n, bytes)) count
        (read-ufs_init v t h 0 bytes u' cut.in_area (omega arith) (omega arith) (omega arith) w) in
    (
      u',
      saved,
      loaded (store (λ j. 0) 0 bytes) before,
      (ufs_read_at (pos h) 0 512 m).1,
      rw (find, users_init)
          (if-false _ _ right_size
            ∙ ap
                (λ (r : ℤ × List ℕ).
                  some (loaded (store (λ j. 0) 0 r.1) before, (ufs_read_at (pos h) 0 512 m).1))
                read),
      λ i p. loaded-passwd_bytes accounts before i words p,
    )
