-- ===== src/Lang/Fuel.antt =====
-- The fuel of the expression parser of programs/lang.c is enough for every text.
use mini_kernel.Prelude.{
  ℕ, zero, suc, ◌+◌, ◌*◌, ◌≤◌, ◌≡◌, ◌≢◌, refl, ℤ, pos, ◌||◌, Option, some, ◌>>=◌, List, [], ◌∷◌,
  ◌==◌, length, arith, if_elim, subst, sym,
}
use mini_kernel.Lang.{
  Value, Cursor, peek, advance, Vars, skip_ws, is_digit, is_ident_char, read_ident, read_digits,
  next_value, parse_name, times, plus, close_paren, parse_factor, parse_term, term_loop, parse_expr,
  expr_loop, enough_fuel, expression,
}

length-advance : (s : Cursor) → peek s ≢ 0 → length (advance s) + 1 ≡ length s
length-advance [] h = absurd (h refl)
length-advance (c ∷ s) h = omega arith

pub length-advance-le : (s : Cursor) → length (advance s) ≤ length s
length-advance-le [] = omega arith
length-advance-le (c ∷ s) = omega arith

pub length-skip_ws : (s : Cursor) → length (skip_ws s) ≤ length s
unfolding skip_ws
length-skip_ws [] = omega arith
length-skip_ws (c ∷ s) = ground (arith, length-skip_ws s)

length-read_ident : (n : ℕ) (s : Cursor) → length (read_ident n s).1 ≤ length s
unfolding read_ident
length-read_ident n [] = omega arith
length-read_ident n (c ∷ s) =
    if_elim (λ (r : List ℕ × Cursor). length r.1 ≤ suc (length s)) (is_ident_char c)
      (λ e. omega (arith, length-read_ident (n + 1) s)) (λ e. omega arith)

length-read_digits : (v : ℤ) (s : Cursor) → length (read_digits v s).1 ≤ length s
unfolding read_digits
length-read_digits v [] = omega arith
length-read_digits v (c ∷ s) =
    if_elim (λ (r : ℤ × Cursor). length r.1 ≤ suc (length s)) (is_digit c)
      (λ e. omega (arith, length-read_digits (next_value v c) s)) (λ e. omega arith)

length-parse_name : (vars : Vars) (s : Cursor) → length (parse_name vars s).1 ≤ length s
unfolding parse_name
length-parse_name vars s =
    if_elim (λ (r : Value × Cursor). length r.1 ≤ length s) (length (read_ident 0 s).0 == 0)
      (λ e. length-read_ident 0 s) (λ e. length-read_ident 0 s)

length-close_paren : (v : Value) (s : Cursor) → length (close_paren v s).1 ≤ length s
unfolding close_paren
length-close_paren v s =
    if_elim (λ (r : Value × Cursor). length r.1 ≤ length s) (peek (skip_ws s) == b')')
      (λ e. omega (arith, length-skip_ws s, length-advance-le (skip_ws s))) (λ e. length-skip_ws s)

-- A result, with at most `n` characters left.
abbrev Reads : ℕ → Option (Value × Cursor) → Type 0
Reads n m = (v : Value) × (r : Cursor) × (m ≡ some (v, r)) × (length r ≤ n)

Reads-bind :
    (n k : ℕ) (m : Option (Value × Cursor)) (next : Value × Cursor → Option (Value × Cursor))
    → Reads n m
    → ((v : Value) (r : Cursor) → length r ≤ n → Reads k (next (v, r)))
    → Reads k (m >>= next)
Reads-bind n k m next (v, r, e, le) go = subst (λ o. Reads k (o >>= next)) (sym e) (go v r le)

mutual
  unfolding parse_factor

  factor_total :
      (f : ℕ) (vars : Vars) (s : Cursor)
      → 3 * length s + 1 ≤ f
      → Reads (length s) (parse_factor f vars s)
  factor_total zero vars s h = absurd (omega arith)
  factor_total (suc f) vars s h =
      let s' = skip_ws s in
      let shorter = length-skip_ws s in
      if_elim (Reads (length s)) (peek s' == b'(')
        (λ e.
          let one = length-advance s' (ground arith) in
          Reads-bind (length (advance s')) (length s) (parse_expr f vars (advance s')) _
            (expr_total f vars (advance s') (omega arith))
            λ v r le. (_, _, refl, omega (arith, length-close_paren v r)))
        λ e.
          if_elim (Reads (length s)) (peek s' == b'-')
            (λ e2.
              let one = length-advance s' (ground arith) in
              Reads-bind (length (advance s')) (length s) (parse_factor f vars (advance s')) _
                (factor_total f vars (advance s') (omega arith))
                λ v r le. (_, _, refl, omega arith))
            λ e2.
              if_elim (Reads (length s)) (is_digit (peek s'))
                (λ e3. (_, _, refl, omega (arith, length-read_digits (pos 0) s')))
                (λ e3. (_, _, refl, omega (arith, length-parse_name vars s')))

  term_total :
      (f : ℕ) (vars : Vars) (s : Cursor)
      → 3 * length s + 2 ≤ f
      → Reads (length s) (parse_term f vars s)
  term_total zero vars s h = absurd (omega arith)
  term_total (suc f) vars s h =
      Reads-bind (length s) (length s) (parse_factor f vars s) _
        (factor_total f vars s (omega arith))
        λ v r le.
          term_loop_total f (length s) vars v (skip_ws r) (omega (arith, length-skip_ws r))
            (omega (arith, length-skip_ws r))

  term_loop_total :
      (f n : ℕ) (vars : Vars) (v : Value) (s : Cursor)
      → 3 * length s + 1 ≤ f
      → length s ≤ n
      → Reads n (term_loop f vars v s)
  term_loop_total zero n vars v s h k = absurd (omega arith)
  term_loop_total (suc f) n vars v s h k =
      if_elim (Reads n) ((peek s == b'*') || (peek s == b'/'))
        (λ e.
          let one = length-advance s (ground arith) in
          Reads-bind (length (advance s)) n (parse_factor f vars (advance s)) _
            (factor_total f vars (advance s) (omega arith))
            λ rhs r le.
              term_loop_total f n vars (times (peek s) v rhs) (skip_ws r)
                (omega (arith, length-skip_ws r)) (omega (arith, length-skip_ws r)))
        (λ e. (v, s, refl, k))

  expr_total :
      (f : ℕ) (vars : Vars) (s : Cursor)
      → 3 * length s + 3 ≤ f
      → Reads (length s) (parse_expr f vars s)
  expr_total zero vars s h = absurd (omega arith)
  expr_total (suc f) vars s h =
      Reads-bind (length s) (length s) (parse_term f vars s) _ (term_total f vars s (omega arith))
        λ v r le.
          expr_loop_total f (length s) vars v (skip_ws r) (omega (arith, length-skip_ws r))
            (omega (arith, length-skip_ws r))

  expr_loop_total :
      (f n : ℕ) (vars : Vars) (v : Value) (s : Cursor)
      → 3 * length s + 2 ≤ f
      → length s ≤ n
      → Reads n (expr_loop f vars v s)
  expr_loop_total zero n vars v s h k = absurd (omega arith)
  expr_loop_total (suc f) n vars v s h k =
      if_elim (Reads n) ((peek s == b'+') || (peek s == b'-'))
        (λ e.
          let one = length-advance s (ground arith) in
          Reads-bind (length (advance s)) n (parse_term f vars (advance s)) _
            (term_total f vars (advance s) (omega arith))
            λ rhs r le.
              expr_loop_total f n vars (plus (peek s) v rhs) (skip_ws r)
                (omega (arith, length-skip_ws r)) (omega (arith, length-skip_ws r)))
        (λ e. (v, s, refl, k))

-- The parser of expressions ends on every text, whatever it holds and however deep its
-- parentheses: with three units of fuel for each character and three more it has computed a value
-- or met a divide error, and what is left is no longer than the text.
pub parse_expr_total :
    (vars : Vars) (s : Cursor)
    → (v : Value) × (r : Cursor) × (parse_expr (enough_fuel s) vars s ≡ some (v, r))
      × (length r ≤ length s)
parse_expr_total vars s = expr_total (enough_fuel s) vars s (omega arith)

-- So `expression` is what the parser returns.
pub expression_lem :
    (vars : Vars) (s : Cursor) → parse_expr (enough_fuel s) vars s ≡ some (expression vars s)
unfolding expression
expression_lem vars s = let (v, r, e, le) = parse_expr_total vars s in rw (e, expression) refl
