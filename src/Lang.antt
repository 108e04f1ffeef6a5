-- ===== src/Lang.antt =====
-- The scanning and the expressions of the script interpreter, programs/lang.c. A text is the list
-- of its characters before the NUL, and a `const char *` that moves along it is what is left. A
-- `long long` is an integer that wraps around at 64 bits, as the processor's does; the source
-- leaves overflow undefined. A quotient that does not fit is the processor's divide error, which
-- stops the machine.
pub mod Exec
pub mod Grammar
pub mod Fuel
pub mod Division
pub mod Equivalence
pub mod Variables
pub mod Numbers
pub mod Load
mod Tests
use mini_kernel.Prelude.{
  ℕ, zero, suc, ◌+◌, ◌-◌, ◌*◌, ◌/◌, ◌%◌, ◌^◌, ℤ, pos, negsuc, ◌+ℤ◌, ◌-ℤ◌, ◌*ℤ◌, pos_part, neg_part,
  sub_ℕ, Bool, true, false, ◌&&◌, ◌||◌, Option, none, some, ◌>>=◌, List, [], ◌∷◌, if◌then◌else◌,
  ltb, leb, ◌==◌, str_eq, length, take,
}

abbrev pub Cursor : Type 0
Cursor = List ℕ

-- `**s`: the NUL at the end.
abbrev pub peek : Cursor → ℕ
peek [] = 0
peek (c ∷ s) = c

-- `(*s)++` before the end
abbrev pub advance : Cursor → Cursor
advance [] = []
advance (c ∷ s) = s

-- The `long long` with the value's low 64 bits.
unfoldable pub wrap : ℤ → ℤ
wrap z =
    let low : ℕ = elim z [ pos n ↦ n % 2 ^ 64 | negsuc n ↦ 2 ^ 64 - 1 - n % 2 ^ 64 ] in
    if ltb low (2 ^ 63) then pos low else negsuc (2 ^ 64 - 1 - low)

-- What an expression computes: `none` is a divide error on the way.
abbrev pub Value : Type 0
Value = Option ℤ

-- `(rhs != 0) ? v / rhs : 0`, towards zero.
unfoldable pub quotient : ℤ → ℤ → Value
quotient v rhs =
    let size = (pos_part v + neg_part v) / (pos_part rhs + neg_part rhs) in
    if (pos_part rhs + neg_part rhs) == 0
    then some (pos 0)
    else if (neg_part v == 0) && (neg_part rhs == 0) || (ltb 0 (neg_part v) && ltb 0 (neg_part rhs))
    then (if ltb size (2 ^ 63) then some (pos size) else none)
    else if leb size (2 ^ 63)
    then some (sub_ℕ 0 size)
    else none

abbrev pub var_name_len : ℕ
var_name_len = 16

abbrev pub max_vars : ℕ
max_vars = 32

-- `vars`, the first `var_count` of them.
abbrev pub Vars : Type 0
Vars = List (List ℕ × ℤ)

-- `var_ref(name, 0)`, read: `none` is the null pointer.
unfoldable pub var_value : List ℕ → Vars → Option ℤ
unfolding str_eq
var_value name [] = none
var_value name ((n, v) ∷ vars) =
    let rest = var_value name vars in if str_eq n name then some v else rest

-- `*var_ref(name, 1) = value`, with room for `room` variables more: `none` is a write through the
-- null pointer.
unfoldable pub assign : List ℕ → ℤ → ℕ → Vars → Option Vars
unfolding str_eq
assign name value room [] = if room == 0 then none else some ((take 15 name, value) ∷ [])
assign name value room ((n, v) ∷ vars) =
    let rest = assign name value (room - 1) vars >>= λ vs. some ((n, v) ∷ vs) in
    if str_eq n name then some ((n, value) ∷ vars) else rest

unfoldable pub skip_ws : Cursor → Cursor
skip_ws [] = []
skip_ws (c ∷ s) = let rest = skip_ws s in if (c == 32) || (c == 9) then rest else c ∷ s

abbrev pub is_digit : ℕ → Bool
is_digit c = leb b'0' c && leb c b'9'

abbrev pub is_ident_char : ℕ → Bool
is_ident_char c =
    (leb b'a' c && leb c b'z') || (leb b'A' c && leb c b'Z') || is_digit c || (c == b'_')

-- The loop of `read_ident`, with `n` characters stored.
unfoldable pub read_ident : ℕ → Cursor → List ℕ × Cursor
read_ident n [] = ([], [])
read_ident n (c ∷ s) =
    let later = read_ident (n + 1) s in
    let stored : List ℕ × Cursor =
      (if ltb n (var_name_len - 1) then c ∷ later.0 else later.0, later.1) in
    if is_ident_char c then stored else ([], c ∷ s)

-- `v * 10 + (c - '0')`
unfoldable pub next_value : ℤ → ℕ → ℤ
unfolding wrap
next_value v c = wrap (v *ℤ pos 10 +ℤ pos (c - b'0'))

-- `v = v * 10 + (**s - '0')` as long as there are digits.
unfoldable pub read_digits : ℤ → Cursor → ℤ × Cursor
unfolding next_value
read_digits v [] = (v, [])
read_digits v (c ∷ s) =
    let later = read_digits (next_value v c) s in if is_digit c then later else (v, c ∷ s)

-- The number that `parse_factor` reads.
unfoldable pub parse_number : Cursor → Value × Cursor
unfolding read_digits
parse_number s = let (v, rest) = read_digits (pos 0) s in (some v, rest)

-- `ref ? *ref : 0`
abbrev pub or_zero : Option ℤ → ℤ
or_zero none = pos 0
or_zero (some v) = v

-- The end of `parse_factor`: a variable, or 0 where there is nothing to read.
unfoldable pub parse_name : Vars → Cursor → Value × Cursor
unfolding read_ident var_value
parse_name vars s =
    let (name, rest) = read_ident 0 s in
    if length name == 0 then (some (pos 0), rest) else (some (or_zero (var_value name vars)), rest)

-- `op` is '*' or '/'.
unfoldable pub times : ℕ → Value → Value → Value
unfolding wrap quotient
times op v rhs = v >>= λ a. rhs >>= λ b. if op == b'*' then some (wrap (a *ℤ b)) else quotient a b

-- `op` is '+' or '-'.
unfoldable pub plus : ℕ → Value → Value → Value
unfolding wrap
plus op v rhs = v >>= λ a. rhs >>= λ b. some (if op == b'+' then wrap (a +ℤ b) else wrap (a -ℤ b))

-- `-v`
unfoldable pub negated : Value → Value
unfolding wrap
negated v = v >>= λ a. some (wrap (pos 0 -ℤ a))

-- A closing parenthesis is skipped if it is there.
unfoldable pub close_paren : Value → Cursor → Value × Cursor
unfolding skip_ws
close_paren v s = let s' = skip_ws s in if peek s' == b')' then (v, advance s') else (v, s')

-- The three functions of the grammar and the loops of two of them, on fuel: `none` where it runs
-- out. Behind a divide error they only read on.
unfoldable mutual
  unfolding skip_ws close_paren read_digits parse_name times plus negated parse_number

  pub parse_factor : ℕ → Vars → Cursor → Option (Value × Cursor)
  parse_factor zero vars s = none
  parse_factor (suc f) vars s =
      let s' = skip_ws s in
      let inner = parse_expr f vars (advance s') >>= λ (v, r). some (close_paren v r) in
      let opposite = parse_factor f vars (advance s') >>= λ (v, r). some (negated v, r) in
      if peek s' == b'('
      then inner
      else if peek s' == b'-'
      then opposite
      else if is_digit (peek s')
      then some (parse_number s')
      else some (parse_name vars s')

  pub parse_term : ℕ → Vars → Cursor → Option (Value × Cursor)
  parse_term zero vars s = none
  parse_term (suc f) vars s = parse_factor f vars s >>= λ (v, r). term_loop f vars v (skip_ws r)

  pub term_loop : ℕ → Vars → Value → Cursor → Option (Value × Cursor)
  term_loop zero vars v s = none
  term_loop (suc f) vars v s =
      let next = parse_factor f vars (advance s) >>= λ (rhs, r).
      term_loop f vars (times (peek s) v rhs) (skip_ws r) in
      if (peek s == b'*') || (peek s == b'/') then next else some (v, s)

  pub parse_expr : ℕ → Vars → Cursor → Option (Value × Cursor)
  parse_expr zero vars s = none
  parse_expr (suc f) vars s = parse_term f vars s >>= λ (v, r). expr_loop f vars v (skip_ws r)

  pub expr_loop : ℕ → Vars → Value → Cursor → Option (Value × Cursor)
  expr_loop zero vars v s = none
  expr_loop (suc f) vars v s =
      let next = parse_term f vars (advance s) >>= λ (rhs, r).
      expr_loop f vars (plus (peek s) v rhs) (skip_ws r) in
      if (peek s == b'+') || (peek s == b'-') then next else some (v, s)

-- Three calls for each character, and three more.
abbrev pub enough_fuel : Cursor → ℕ
enough_fuel s = 3 * length s + 3

-- `parse_expr` of the source: the fuel never runs out.
unfoldable pub expression : Vars → Cursor → Value × Cursor
unfolding parse_expr
expression vars s = elim (parse_expr (enough_fuel s) vars s) [ none ↦ (none, s) | some r ↦ r ]

-- `read_cmp_op`: the operator's two characters, 0 for none.
unfoldable pub read_cmp_op : Cursor → (ℕ × ℕ) × Cursor
unfolding skip_ws
read_cmp_op s =
    let s' = skip_ws s in
    let a = peek s' in
    let b = peek (advance s') in
    if (b == b'=') && ((a == b'=') || (a == b'!') || (a == b'<') || (a == b'>'))
    then ((a, b), advance (advance s'))
    else if (a == b'<') || (a == b'>')
    then ((a, 0), advance s')
    else ((0, 0), s')
