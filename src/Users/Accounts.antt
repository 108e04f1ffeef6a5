-- ===== src/Users/Accounts.antt =====
-- Adding an account and authenticating, in kernel/core/users.c.
use mini_kernel.Prelude.{
  str_eq_at, ℕ, zero, suc, ◌+◌, ◌≤◌, ◌<◌, ◌≡◌, ◌≢◌, refl, ap, sym, subst, ◌∙◌, ◌⊎◌, inl, inr, ℤ,
  pos, minus_one, Bool, true, false, Bool-cases, if_elim, Option, none, some, List, [], ◌∷◌,
  if◌then◌else◌, leb, ◌==◌, update, update_self, update_ne, length, arith, ==_iff, ℕ_discrete,
}
use mini_kernel.Users.{
  Account, hash_password, put_name, set_username, is_empty, named, auth_from, users_authenticate,
  name_taken, empty_slot, new_account, users_add, user_max_accounts,
}

put_name_before : (cs : List ℕ) (a : ℕ → ℕ) (i k : ℕ) → k < i → put_name a i cs k ≡ a k
unfolding put_name
put_name_before [] a i k h = ground arith
put_name_before (c ∷ cs) a i k h = ground (arith, put_name_before cs (update a i c) (i + 1) k)

-- A name of fewer than 20 characters is stored whole.
str_eq_at-put_name :
    (cs : List ℕ) (a : ℕ → ℕ) (i : ℕ) → i + length cs < 20 → str_eq_at (put_name a i cs) i cs ≡ true
unfolding str_eq_at put_name
str_eq_at-put_name [] a i h = ground arith
str_eq_at-put_name (c ∷ cs) a i h = ground (
  arith,
  str_eq_at-put_name cs (update a i c) (i + 1),
  put_name_before cs (update a i c) (i + 1) i,
)

-- The first of the accounts from `i` on that has the name decides.
auth_from-first :
    (accounts : ℕ → Account) (name : List ℕ) (h rounds i slot : ℕ)
    → i ≤ slot
    → slot < i + rounds
    → ((j : ℕ) → i ≤ j → j < slot → named name (accounts j) ≡ false)
    → named name (accounts slot) ≡ true
    → auth_from accounts name h rounds i
      ≡ (if (accounts slot).password_hash == h then some (accounts slot).uid else none)
unfolding auth_from
auth_from-first accounts name h zero i slot p q before here = absurd (omega arith)
auth_from-first accounts name h (suc rounds) i slot p q before here = elim (ℕ_discrete i slot) [
  | yes e ↦
      subst
        (λ k.
          (if named name (accounts k)
            then if (accounts k).password_hash == h then some (accounts k).uid else none
            else auth_from accounts name h rounds (i + 1))
          ≡ (if (accounts slot).password_hash == h then some (accounts slot).uid else none))
        (sym e) (rw here refl)
  | no ne ↦ rw (before i (omega arith) (omega arith)) (
      auth_from-first accounts name h rounds (i + 1) slot (omega arith) (omega arith)
        (λ j a b. before j (omega arith) b) here)
]

-- No account has the name: nobody is let in.
auth_from-none :
    (accounts : ℕ → Account) (name : List ℕ) (h rounds i : ℕ)
    → ((j : ℕ) → i ≤ j → j < i + rounds → named name (accounts j) ≡ false)
    → auth_from accounts name h rounds i ≡ none
unfolding auth_from
auth_from-none accounts name h zero i no_name = refl
auth_from-none accounts name h (suc rounds) i no_name =
    rw (no_name i (omega arith) (omega arith))
      (auth_from-none accounts name h rounds (i + 1) λ j p q. no_name j (omega arith) (omega arith))

or_false : (a b : Bool) → (if a then true else b) ≡ false → (a ≡ false) × (b ≡ false)
or_false true b e = cc
or_false false b e = (refl, e)

name_taken-false :
    (accounts : ℕ → Account) (name : List ℕ) (rounds i j : ℕ)
    → name_taken accounts name rounds i ≡ false
    → i ≤ j
    → j < i + rounds
    → named name (accounts j) ≡ false
unfolding name_taken
name_taken-false accounts name zero i j h p q = absurd (omega arith)
name_taken-false accounts name (suc rounds) i j h p q =
    let (here, later) =
      or_false (named name (accounts i)) (name_taken accounts name rounds (i + 1)) h in
    elim (ℕ_discrete j i) [
      | yes e ↦ rw e here
      | no ne ↦ name_taken-false accounts name rounds (i + 1) j later (omega arith) (omega arith)
    ]

empty_slot_cases :
    (accounts : ℕ → Account) (rounds i : ℕ)
    → ((empty_slot accounts rounds i ≡ none)
        × ((j : ℕ) → i ≤ j → j < i + rounds → is_empty (accounts j) ≡ false))
      ⊎ (j : ℕ) × (empty_slot accounts rounds i ≡ some j)
        × (i ≤ j)
        × (j < i + rounds)
        × (is_empty (accounts j) ≡ true)
unfolding empty_slot
empty_slot_cases accounts zero i = inl (refl, λ j p q. absurd (omega arith))
empty_slot_cases accounts (suc rounds) i = elim (Bool-cases (is_empty (accounts i))) [
  | inl e ↦ inr (i, rw e refl, omega arith, omega arith, e)
  | inr e ↦ elim (empty_slot_cases accounts rounds (i + 1)) [
    | inl (n, full) ↦ inl (
      rw (e, n) refl,
      λ j p q. elim (ℕ_discrete j i) [
        | yes same ↦ rw same e
        | no ne ↦ full j (omega arith) (omega arith)
      ],
    )
    | inr (j, s, p, q, free) ↦ inr (j, rw (e, s) refl, omega arith, omega arith, free)
  ]
]

-- Another password, or the same: what authentication gives for an account.
abbrev pub login_result : Account → List ℕ → Option ℕ
login_result a password = if a.password_hash == hash_password password then some a.uid else none

-- Why an account is not added.
abbrev pub Refused : List ℕ → (ℕ → Account) → Type 0
Refused name accounts =
    (length name ≡ 0)
    ⊎ (20 ≤ length name)
    ⊎ (name_taken accounts name user_max_accounts 0 ≡ true)
    ⊎ ((j : ℕ) → j < user_max_accounts → is_empty (accounts j) ≡ false)

-- What an addition gives.
abbrev pub AddResult : List ℕ → List ℕ → ℕ → (ℕ → Account) → ℤ × (ℕ → Account) → Type 0
AddResult name password uid accounts (r, accounts') =
    ((r ≡ minus_one) × (accounts' ≡ accounts) × Refused name accounts)
    ⊎ (slot : ℕ) × (r ≡ pos 0)
      × (slot < user_max_accounts)
      × (is_empty (accounts slot) ≡ true)
      × ((j : ℕ) → j ≢ slot → accounts' j ≡ accounts j)
      × ((attempt : List ℕ) → users_authenticate accounts name attempt ≡ none)
      × ((attempt : List ℕ)
          → users_authenticate accounts' name attempt
            ≡ (if hash_password password == hash_password attempt then some uid else none))

first_char : (a : ℕ → ℕ) (c : ℕ) (cs : List ℕ) → put_name a 0 (c ∷ cs) 0 ≡ c
unfolding put_name
first_char a c cs = put_name_before cs (update a 0 c) 1 0 (omega arith) ∙ update_self a 0 c

nonzero : (x c : ℕ) → x ≡ c → 0 < c → (x == 0) ≡ false
nonzero x c e h = ground arith

named_true :
    (name : List ℕ) (u : Account)
    → is_empty u ≡ false
    → str_eq_at u.username 0 name ≡ true
    → named name u ≡ true
unfolding named
named_true name u e h = rw e h

-- The new account has its name.
new_account-named :
    (a : Account) (c : ℕ) (cs password : List ℕ) (uid : ℕ)
    → 0 < c
    → length (c ∷ cs) < 20
    → named (c ∷ cs) (new_account a (c ∷ cs) password uid) ≡ true
unfolding set_username new_account
new_account-named a c cs password uid pos_c short =
    named_true (c ∷ cs) (new_account a (c ∷ cs) password uid)
      (nonzero (put_name a.username 0 (c ∷ cs) 0) c (first_char a.username c cs) pos_c)
      (str_eq_at-put_name (c ∷ cs) a.username 0 (omega arith))

added_lem :
    (c : ℕ) (cs password : List ℕ) (uid slot : ℕ) (accounts : ℕ → Account)
    → 0 < c
    → length (c ∷ cs) < 20
    → name_taken accounts (c ∷ cs) user_max_accounts 0 ≡ false
    → slot < user_max_accounts
    → is_empty (accounts slot) ≡ true
    → let accounts' = update accounts slot (new_account (accounts slot) (c ∷ cs) password uid) in
      AddResult (c ∷ cs) password uid accounts (pos 0, accounts')
unfolding users_authenticate
added_lem c cs password uid slot accounts pos_c short fresh lt free =
    let name = c ∷ cs in
    let a = new_account (accounts slot) name password uid in
    let accounts' = update accounts slot a in
    let other = λ (j : ℕ) (lt_j : j < 16).
      name_taken-false accounts name 16 0 j fresh (omega arith) (omega arith) in
    let at : accounts' slot ≡ a = update_self accounts slot a in
    inr (
      slot,
      refl,
      lt,
      free,
      (λ j ne. update_ne accounts slot j a ne),
      (λ attempt.
          auth_from-none accounts name (hash_password attempt) 16 0 λ j p q. other j (omega arith)),
      λ attempt.
          auth_from-first accounts' name (hash_password attempt) 16 0 slot (omega arith)
            (omega arith)
            (λ j p q.
              ap (named name) (update_ne accounts slot j a (omega arith)) ∙ other j (omega arith))
            (ap (named name) at ∙ new_account-named (accounts slot) c cs password uid pos_c short)
          ∙ ap
              (λ (x : Account).
                if x.password_hash == hash_password attempt then some x.uid else none)
              at,
    )

-- `users_add`, for a name that does not begin with NUL: it returns -1 only where the name is
-- empty, has 20 or more characters, is taken, or every account is in use, and then changes
-- nothing. Otherwise it returns 0 and fills an empty account: the name let nobody in before, and
-- now it lets in, with the user id given, whoever gives a password of the same hash, and nobody
-- else; the other accounts are unchanged.
pub add_lem :
    (c : ℕ) (cs password : List ℕ) (uid : ℕ) (accounts : ℕ → Account)
    → 0 < c
    → AddResult (c ∷ cs) password uid accounts (users_add (c ∷ cs) password uid accounts)
unfolding users_add
add_lem c cs password uid accounts pos_c =
    let name = c ∷ cs in
    let P = AddResult name password uid accounts in
    if_elim P (length name == 0) (λ e. inl (refl, refl, inl (ground arith)))
      λ e.
        if_elim P (leb 20 (length name)) (λ e. inl (refl, refl, inr (inl (ground arith))))
          λ short.
            if_elim P (name_taken accounts name user_max_accounts 0)
              (λ e. inl (refl, refl, inr (inr (inl e))))
              λ fresh. elim (empty_slot_cases accounts 16 0) [
                | inl (none_e, full) ↦
                    subst P (sym (rw none_e refl))
                      (inl (refl, refl, inr (inr (inr λ j h. full j (omega arith) (omega arith)))))
                | inr (slot, e, p, q, free) ↦ subst P (sym (rw e refl)) (
                    added_lem c cs password uid slot accounts pos_c (ground arith) fresh
                      (omega arith) free)
              ]

auth_from-some :
    (accounts : ℕ → Account) (name : List ℕ) (h uid rounds i : ℕ)
    → auth_from accounts name h rounds i ≡ some uid
    → (j : ℕ) × (j < i + rounds)
      × (named name (accounts j) ≡ true)
      × ((accounts j).password_hash ≡ h)
      × ((accounts j).uid ≡ uid)
unfolding auth_from
auth_from-some accounts name h uid zero i = λ e. cc
auth_from-some accounts name h uid (suc rounds) i =
    let Owner : Type 0 =
      (j : ℕ) × (j < i + suc rounds)
      × (named name (accounts j) ≡ true)
      × ((accounts j).password_hash ≡ h)
      × ((accounts j).uid ≡ uid) in
    let P = λ (r : Option ℕ). r ≡ some uid → Owner in
    if_elim P (named name (accounts i))
      (λ n.
        if_elim P ((accounts i).password_hash == h)
          (λ m e. (i, omega arith, n, (==_iff _ _).0 m, cc)) (λ m e. cc))
      (λ n e.
        let (j, lt, n', m, u) = auth_from-some accounts name h uid rounds (i + 1) e in
        (j, omega arith, n', m, u))

-- `users_authenticate` lets in with a user id only where an account that is not empty has the
-- name, the id and the hash of the password.
pub authenticate_lem :
    (accounts : ℕ → Account) (name password : List ℕ) (uid : ℕ)
    → users_authenticate accounts name password ≡ some uid
    → (j : ℕ) × (j < user_max_accounts)
      × (named name (accounts j) ≡ true)
      × ((accounts j).password_hash ≡ hash_password password)
      × ((accounts j).uid ≡ uid)
unfolding users_authenticate
authenticate_lem accounts name password uid h =
    auth_from-some accounts name (hash_password password) uid 16 0 h
