-- ===== src/Lang/Grammar.antt =====
-- The grammar of expressions that the scripts of programs/lang.c are written in, how an expression
-- is printed, and its value.
use mini_kernel.Prelude.{
  zero, suc, ◌/◌, ◌^◌, ltb, if◌then◌else◌, none, some, ◌>>=◌, negsuc, ℕ, ◌+◌, ◌*◌, ◌%◌, ◌≡◌, ℤ, pos,
  ◌+ℤ◌, ◌-ℤ◌, ◌*ℤ◌, true, false, List, [], ◌∷◌, take,
}
use mini_kernel.Lang.{Value, or_zero, Cursor, Vars, wrap, var_value, is_digit, is_ident_char}

abbrev pub AllIdent : List ℕ → Type 0
AllIdent [] = Unit {0}
AllIdent (c ∷ cs) = (is_ident_char c ≡ true) × AllIdent cs

-- A number is its digits, each taken modulo 10, and a name its characters.
mutual
  pub data Factor : Type 0 where
    num : ℕ → List ℕ → Factor
    var : (c : ℕ) (cs : List ℕ) → is_ident_char c ≡ true → is_digit c ≡ false → AllIdent cs → Factor
    neg : Factor → Factor
    paren : Expr → Factor
    spaced : Factor → Factor

  pub data Term : Type 0 where
    factor : Factor → Term
    mul : Term → Factor → Term
    div : Term → Factor → Term

  pub data Expr : Type 0 where
    term : Term → Expr
    add : Expr → Term → Expr
    sub : Expr → Term → Expr

abbrev pub show_digits : List ℕ → Cursor → Cursor
show_digits [] rest = rest
show_digits (d ∷ ds) rest = (b'0' + d % 10) ∷ show_digits ds rest

abbrev pub show_chars : List ℕ → Cursor → Cursor
show_chars [] rest = rest
show_chars (c ∷ cs) rest = c ∷ show_chars cs rest

-- An expression printed in front of a text. An operator stands behind a space.
unfoldable mutual
  pub show_factor : Factor → Cursor → Cursor
  show_factor (num d ds) rest = show_digits (d ∷ ds) rest
  show_factor (var c cs p q r) rest = show_chars (c ∷ cs) rest
  show_factor (neg x) rest = b'-' ∷ show_factor x rest
  show_factor (paren e) rest = b'(' ∷ show_expr e (b')' ∷ rest)
  show_factor (spaced x) rest = 32 ∷ show_factor x rest

  pub show_term : Term → Cursor → Cursor
  show_term (factor x) rest = show_factor x rest
  show_term (mul t x) rest = show_term t (32 ∷ b'*' ∷ show_factor x rest)
  show_term (div t x) rest = show_term t (32 ∷ b'/' ∷ show_factor x rest)

  pub show_expr : Expr → Cursor → Cursor
  show_expr (term t) rest = show_term t rest
  show_expr (add e t) rest = show_expr e (32 ∷ b'+' ∷ show_term t rest)
  show_expr (sub e t) rest = show_expr e (32 ∷ b'-' ∷ show_term t rest)

-- The number that digits spell behind `n`.
abbrev pub decimal : ℕ → List ℕ → ℕ
decimal n [] = n
decimal n (d ∷ ds) = decimal (n * 10 + d % 10) ds

-- A quotient, if it is a `long long`.
abbrev pub in_range : ℤ → Value
in_range (pos n) = if ltb n (2 ^ 63) then some (pos n) else none
in_range (negsuc n) = if ltb n (2 ^ 63) then some (negsuc n) else none

-- The quotient of two integers, towards zero: by 0 it is 0.
unfoldable pub divided : ℤ → ℤ → Value
divided v (pos zero) = some (pos 0)
divided (pos a) (pos (suc b)) = in_range (pos (a / suc b))
divided (pos a) (negsuc b) = in_range (pos 0 -ℤ pos (a / suc b))
divided (negsuc a) (pos (suc b)) = in_range (pos 0 -ℤ pos (suc a / suc b))
divided (negsuc a) (negsuc b) = in_range (pos (suc a / suc b))

-- The value: sums, differences and products wrap around, a quotient that is no `long long` is a
-- divide error, as is what is computed from one; operations of one rank go from the left, a name of
-- more than 15 characters is cut, and one that no variable has is 0.
unfoldable mutual
  unfolding wrap divided var_value

  pub value_factor : Vars → Factor → Value
  value_factor vars (num d ds) = some (wrap (pos (decimal 0 (d ∷ ds))))
  value_factor vars (var c cs p q r) = some (or_zero (var_value (take 15 (c ∷ cs)) vars))
  value_factor vars (neg x) = value_factor vars x >>= λ a. some (wrap (pos 0 -ℤ a))
  value_factor vars (paren e) = value_expr vars e
  value_factor vars (spaced x) = value_factor vars x

  pub value_term : Vars → Term → Value
  value_term vars (factor x) = value_factor vars x
  value_term vars (mul t x) =
      value_term vars t >>= λ a. value_factor vars x >>= λ b. some (wrap (a *ℤ b))
  value_term vars (div t x) = value_term vars t >>= λ a. value_factor vars x >>= λ b. divided a b

  pub value_expr : Vars → Expr → Value
  value_expr vars (term t) = value_term vars t
  value_expr vars (add e t) =
      value_expr vars e >>= λ a. value_term vars t >>= λ b. some (wrap (a +ℤ b))
  value_expr vars (sub e t) =
      value_expr vars e >>= λ a. value_term vars t >>= λ b. some (wrap (a -ℤ b))
