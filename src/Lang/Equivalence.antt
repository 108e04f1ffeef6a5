-- ===== src/Lang/Equivalence.antt =====
-- The expression parser of programs/lang.c against the grammar.
use mini_kernel.Prelude.{
  ℕ, zero, suc, ◌+◌, ◌-◌, ◌*◌, ◌%◌, ◌<◌, ◌≡◌, ◌≢◌, refl, ap, sym, subst, ◌∙◌, ℤ, pos, true, false,
  ◌||◌, ◌⊎◌, inl, inr, Option, none, some, ◌>>=◌, List, [], ◌∷◌, if◌then◌else◌, ltb, ◌==◌, length,
  take, arith, if_elim,
}
use mini_kernel.Lang.{
  Value, parse_number, or_zero, Cursor, peek, Vars, wrap, var_value, skip_ws, is_digit,
  is_ident_char, read_ident, next_value, read_digits, parse_name, times, plus, negated,
  parse_factor, parse_term, term_loop, parse_expr, expr_loop, enough_fuel, expression,
}
use mini_kernel.Lang.Fuel.{expression_lem}
use mini_kernel.Lang.Division.{times-div}
use mini_kernel.Lang.Grammar.{
  AllIdent, Factor, Term, Expr, num, var, neg, paren, spaced, factor, mul, div, term, add, sub,
  show_digits, show_chars, show_factor, show_term, show_expr, decimal, value_factor, value_term,
  value_expr,
}

skip_ws_idem : (s : Cursor) → skip_ws (skip_ws s) ≡ skip_ws s
unfolding skip_ws
skip_ws_idem [] = refl
skip_ws_idem (c ∷ s) = ground (arith, skip_ws_idem s)

plain_char : (c : ℕ) (s : Cursor) → c ≢ 32 → c ≢ 9 → skip_ws (c ∷ s) ≡ c ∷ s
unfolding skip_ws
plain_char c s h k = ground arith

space_op : (c : ℕ) (s : Cursor) → c ≢ 32 → c ≢ 9 → skip_ws (32 ∷ c ∷ s) ≡ c ∷ s
unfolding skip_ws
space_op c s h k = plain_char c s h k

-- Reading digits one by one gives the wrapped value of the whole number.
next_value-wrap :
    (m d : ℕ) → d < 10 → next_value (wrap (pos m)) (b'0' + d) ≡ wrap (pos (m * 10 + d))
unfolding next_value wrap
next_value-wrap m d h = ground arith

-- What may follow a factor: neither a digit nor a character of a name.
abbrev pub FactorEnd : Cursor → Type 0
FactorEnd rest = is_ident_char (peek rest) ≡ false

read_digits-show :
    (ds : List ℕ) (m : ℕ) (rest : Cursor)
    → FactorEnd rest
    → read_digits (wrap (pos m)) (show_digits ds rest) ≡ (wrap (pos (decimal m ds)), rest)
unfolding read_digits
read_digits-show [] m [] h = refl
read_digits-show [] m (c ∷ rest) h = ground arith
read_digits-show (d ∷ ds) m rest h =
    ground (arith, next_value-wrap m (d % 10), read_digits-show ds (m * 10 + d % 10) rest h)

take-nil : (n : ℕ) → take {A = ℕ} n [] ≡ []
take-nil zero = refl
take-nil (suc n) = refl

take-room :
    (n c : ℕ) (cs : List ℕ)
    → (if ltb n 15 then c ∷ take (15 - (n + 1)) cs else take (15 - (n + 1)) cs)
      ≡ take (15 - n) (c ∷ cs)
take-room n c cs =
    if_elim (λ (l : List ℕ). l ≡ take (15 - n) (c ∷ cs)) (ltb n 15)
      (λ e. let more : suc (15 - (n + 1)) ≡ 15 - n = ground arith in ap (λ k. take k (c ∷ cs)) more)
      (λ e.
        let none_left : 15 - (n + 1) ≡ 0 = ground arith in
        let full : 0 ≡ 15 - n = ground arith in
        ap (λ k. take k cs) none_left ∙ ap (λ k. take k (c ∷ cs)) full)

read_ident-show :
    (cs : List ℕ) (n : ℕ) (rest : Cursor)
    → AllIdent cs
    → FactorEnd rest
    → read_ident n (show_chars cs rest) ≡ (take (15 - n) cs, rest)
unfolding read_ident
read_ident-show [] n [] h k = rw (take-nil (15 - n))
read_ident-show [] n (c ∷ rest) h k = rw (k, take-nil (15 - n))
read_ident-show (c ∷ cs) n rest (h, hs) k =
    rw (h, read_ident-show cs (n + 1) rest hs k) (ap (λ l. (l, rest)) (take-room n c cs))

positive : (n : ℕ) → (suc n == 0) ≡ false
positive n = ground arith

parse_name-show :
    (vars : Vars) (c : ℕ) (cs : List ℕ) (rest : Cursor)
    → is_ident_char c ≡ true
    → AllIdent cs
    → FactorEnd rest
    → parse_name vars (c ∷ show_chars cs rest)
      ≡ (some (or_zero (var_value (take 15 (c ∷ cs)) vars)), rest)
unfolding parse_name
parse_name-show vars c cs rest p r h =
    rw (read_ident-show (c ∷ cs) 0 rest (p, r) h, parse_name, positive (length (take 14 cs))) refl

-- A run of the parser gives no result, for lack of fuel, or this one.
abbrev Agrees : Option (Value × Cursor) → Option (Value × Cursor) → Type 0
Agrees m r = (m ≡ none) ⊎ (m ≡ r)

Agrees-bind :
    (m r : Option (Value × Cursor)) (a : Value × Cursor)
    (next : Value × Cursor → Option (Value × Cursor))
    → Agrees m (some a)
    → Agrees (next a) r
    → Agrees (m >>= next) r
Agrees-bind m r a next h k = elim h [
  | inl e ↦ inl (rw e refl)
  | inr e ↦ subst (λ o. Agrees (o >>= next) r) (sym e) k
]

digit_first :
    (f : ℕ) (vars : Vars) (c : ℕ) (s : Cursor)
    → is_digit c ≡ true
    → parse_factor (suc f) vars (c ∷ s) ≡ some (parse_number (c ∷ s))
unfolding parse_factor
digit_first f vars c s h = rw (plain_char c s (ground arith) (ground arith)) (ground arith)

name_first :
    (f : ℕ) (vars : Vars) (c : ℕ) (s : Cursor)
    → is_ident_char c ≡ true
    → is_digit c ≡ false
    → parse_factor (suc f) vars (c ∷ s) ≡ some (parse_name vars (c ∷ s))
unfolding parse_factor
name_first f vars c s h k = rw (plain_char c s (ground arith) (ground arith)) (ground arith)

-- What may follow a term, and an expression.
abbrev pub TermEnd : Cursor → Type 0
TermEnd rest =
    FactorEnd rest × (((peek (skip_ws rest) == b'*') || (peek (skip_ws rest) == b'/')) ≡ false)

abbrev pub ExprEnd : Cursor → Type 0
ExprEnd rest =
    TermEnd rest × (((peek (skip_ws rest) == b'+') || (peek (skip_ws rest) == b'-')) ≡ false)

-- A term, or an expression, of which the loop has read a part: the run goes on in the loop.
abbrev InTerm : Vars → Option (Value × Cursor) → Value → Cursor → Type 0
InTerm vars m v rest = (m ≡ none) ⊎ (f : ℕ) × (m ≡ term_loop f vars v (skip_ws rest))

abbrev InExpr : Vars → Option (Value × Cursor) → Value → Cursor → Type 0
InExpr vars m v rest = (m ≡ none) ⊎ (f : ℕ) × (m ≡ expr_loop f vars v (skip_ws rest))

term_loop_ends :
    (f : ℕ) (vars : Vars) (v : Value) (rest : Cursor)
    → TermEnd rest
    → Agrees (term_loop f vars v (skip_ws rest)) (some (v, skip_ws rest))
unfolding term_loop
term_loop_ends zero vars v rest h = inl refl
term_loop_ends (suc f) vars v rest (h, k) = inr (rw k refl)

expr_loop_ends :
    (f : ℕ) (vars : Vars) (v : Value) (rest : Cursor)
    → ExprEnd rest
    → Agrees (expr_loop f vars v (skip_ws rest)) (some (v, skip_ws rest))
unfolding expr_loop
expr_loop_ends zero vars v rest h = inl refl
expr_loop_ends (suc f) vars v rest (h, k) = inr (rw k refl)

InTerm-start :
    (m : Option (Value × Cursor)) (f : ℕ) (vars : Vars) (v : Value) (rest : Cursor)
    → Agrees m (some (v, rest))
    → InTerm vars (m >>= λ (w, r). term_loop f vars w (skip_ws r)) v rest
InTerm-start m f vars v rest h = elim h [ inl e ↦ inl (rw e refl) | inr e ↦ inr (f, rw e refl) ]

InExpr-start :
    (m : Option (Value × Cursor)) (f : ℕ) (vars : Vars) (v : Value) (rest : Cursor)
    → Agrees m (some (v, skip_ws rest))
    → InExpr vars (m >>= λ (w, r). expr_loop f vars w (skip_ws r)) v rest
InExpr-start m f vars v rest h = elim h [
  | inl e ↦ inl (rw e refl)
  | inr e ↦ inr (f, rw (e, skip_ws_idem rest) refl)
]

-- One more factor, one more term.
term_next :
    (f op : ℕ) (vars : Vars) (v w : Value) (y rest : Cursor)
    → ((op == b'*') || (op == b'/')) ≡ true
    → ((g : ℕ) → Agrees (parse_factor g vars y) (some (w, rest)))
    → InTerm vars (term_loop f vars v (op ∷ y)) (times op v w) rest
unfolding term_loop
term_next zero op vars v w y rest h read = inl refl
term_next (suc f) op vars v w y rest h read = elim (read f) [
  | inl e ↦ inl (rw (h, e) refl)
  | inr e ↦ inr (f, rw (h, e) refl)
]

expr_next :
    (f op : ℕ) (vars : Vars) (v w : Value) (y rest : Cursor)
    → ((op == b'+') || (op == b'-')) ≡ true
    → ((g : ℕ) → Agrees (parse_term g vars y) (some (w, skip_ws rest)))
    → InExpr vars (expr_loop f vars v (op ∷ y)) (plus op v w) rest
unfolding expr_loop
expr_next zero op vars v w y rest h read = inl refl
expr_next (suc f) op vars v w y rest h read = elim (read f) [
  | inl e ↦ inl (rw (h, e) refl)
  | inr e ↦ inr (f, rw (h, e, skip_ws_idem rest) refl)
]

InTerm-Agrees :
    (m : Option (Value × Cursor)) (vars : Vars) (v : Value) (rest : Cursor)
    → TermEnd rest
    → InTerm vars m v rest
    → Agrees m (some (v, skip_ws rest))
InTerm-Agrees m vars v rest h i = elim i [
  | inl e ↦ inl e
  | inr (f, e) ↦
      subst (λ o. Agrees o (some (v, skip_ws rest))) (sym e) (term_loop_ends f vars v rest h)
]

InExpr-Agrees :
    (m : Option (Value × Cursor)) (vars : Vars) (v : Value) (rest : Cursor)
    → ExprEnd rest
    → InExpr vars m v rest
    → Agrees m (some (v, skip_ws rest))
InExpr-Agrees m vars v rest h i = elim i [
  | inl e ↦ inl e
  | inr (f, e) ↦
      subst (λ o. Agrees o (some (v, skip_ws rest))) (sym e) (expr_loop_ends f vars v rest h)
]

InTerm-more :
    (m : Option (Value × Cursor)) (op : ℕ) (vars : Vars) (v w : Value) (y rest : Cursor)
    → ((op == b'*') || (op == b'/')) ≡ true
    → InTerm vars m v (32 ∷ op ∷ y)
    → ((g : ℕ) → Agrees (parse_factor g vars y) (some (w, rest)))
    → InTerm vars m (times op v w) rest
InTerm-more m op vars v w y rest h i read = elim i [
  | inl e ↦ inl e
  | inr (f, e) ↦
      subst (λ o. InTerm vars o (times op v w) rest)
        (sym (e ∙ ap (term_loop f vars v) (space_op op y (ground arith) (ground arith))))
        (term_next f op vars v w y rest h read)
]

InExpr-more :
    (m : Option (Value × Cursor)) (op : ℕ) (vars : Vars) (v w : Value) (y rest : Cursor)
    → ((op == b'+') || (op == b'-')) ≡ true
    → InExpr vars m v (32 ∷ op ∷ y)
    → ((g : ℕ) → Agrees (parse_term g vars y) (some (w, skip_ws rest)))
    → InExpr vars m (plus op v w) rest
InExpr-more m op vars v w y rest h i read = elim i [
  | inl e ↦ inl e
  | inr (f, e) ↦
      subst (λ o. InExpr vars o (plus op v w) rest)
        (sym (e ∙ ap (expr_loop f vars v) (space_op op y (ground arith) (ground arith))))
        (expr_next f op vars v w y rest h read)
]

mutual
  unfolding parse_factor show_factor value_factor times plus negated parse_number

  factor-Agrees :
      (x : Factor) (f : ℕ) (vars : Vars) (rest : Cursor)
      → FactorEnd rest
      → Agrees (parse_factor f vars (show_factor x rest)) (some (value_factor vars x, rest))
  factor-Agrees (num d ds) zero vars rest h = inl refl
  factor-Agrees (num d ds) (suc f) vars rest h = inr (
      digit_first f vars (b'0' + d % 10) (show_digits ds rest) (ground arith)
      ∙ ap (λ (r : ℤ × Cursor). some (some r.0, r.1)) (read_digits-show (d ∷ ds) 0 rest h))
  factor-Agrees (var c cs p q r) zero vars rest h = inl refl
  factor-Agrees (var c cs p q r) (suc f) vars rest h = inr (
      name_first f vars c (show_chars cs rest) p q ∙ ap some (parse_name-show vars c cs rest p r h))
  factor-Agrees (neg x) zero vars rest h = inl refl
  factor-Agrees (neg x) (suc f) vars rest h =
      Agrees-bind (parse_factor f vars (show_factor x rest)) _ (value_factor vars x, rest) _
        (factor-Agrees x f vars rest h) (inr refl)
  factor-Agrees (paren e) zero vars rest h = inl refl
  factor-Agrees (paren e) (suc f) vars rest h =
      Agrees-bind (parse_expr f vars (show_expr e (b')' ∷ rest))) _ (value_expr vars e, b')' ∷ rest)
        _
        (InExpr-Agrees _ vars (value_expr vars e) (b')' ∷ rest) ((refl, refl), refl)
          (expr-InExpr e f vars (b')' ∷ rest) (refl, refl)))
        (inr refl)
  factor-Agrees (spaced x) zero vars rest h = inl refl
  factor-Agrees (spaced x) (suc f) vars rest h = factor-Agrees x (suc f) vars rest h

  term-InTerm :
      (t : Term) (f : ℕ) (vars : Vars) (rest : Cursor)
      → FactorEnd rest
      → InTerm vars (parse_term f vars (show_term t rest)) (value_term vars t) rest
  term-InTerm (factor x) zero vars rest h = inl refl
  term-InTerm (factor x) (suc f) vars rest h =
      InTerm-start (parse_factor f vars (show_factor x rest)) f vars (value_factor vars x) rest
        (factor-Agrees x f vars rest h)
  term-InTerm (mul t x) f vars rest h =
      InTerm-more _ b'*' vars (value_term vars t) (value_factor vars x) (show_factor x rest) rest
        refl (term-InTerm t f vars (32 ∷ b'*' ∷ show_factor x rest) refl)
        λ g. factor-Agrees x g vars rest h
  term-InTerm (div t x) f vars rest h =
      let run = parse_term f vars (show_term t (32 ∷ b'/' ∷ show_factor x rest)) in
      subst (λ v. InTerm vars run v rest) (times-div (value_term vars t) (value_factor vars x))
        (InTerm-more run b'/' vars (value_term vars t) (value_factor vars x) (show_factor x rest)
          rest refl (term-InTerm t f vars (32 ∷ b'/' ∷ show_factor x rest) refl)
          λ g. factor-Agrees x g vars rest h)

  expr-InExpr :
      (e : Expr) (f : ℕ) (vars : Vars) (rest : Cursor)
      → TermEnd rest
      → InExpr vars (parse_expr f vars (show_expr e rest)) (value_expr vars e) rest
  expr-InExpr (term t) zero vars rest h = inl refl
  expr-InExpr (term t) (suc f) vars rest h =
      InExpr-start (parse_term f vars (show_term t rest)) f vars (value_term vars t) rest
        (InTerm-Agrees _ vars (value_term vars t) rest h (term-InTerm t f vars rest h.0))
  expr-InExpr (add e t) f vars rest h =
      InExpr-more _ b'+' vars (value_expr vars e) (value_term vars t) (show_term t rest) rest refl
        (expr-InExpr e f vars (32 ∷ b'+' ∷ show_term t rest) (refl, refl))
        λ g. InTerm-Agrees _ vars (value_term vars t) rest h (term-InTerm t g vars rest h.0)
  expr-InExpr (sub e t) f vars rest h =
      InExpr-more _ b'-' vars (value_expr vars e) (value_term vars t) (show_term t rest) rest refl
        (expr-InExpr e f vars (32 ∷ b'-' ∷ show_term t rest) (refl, refl))
        λ g. InTerm-Agrees _ vars (value_term vars t) rest h (term-InTerm t g vars rest h.0)

-- An expression of the grammar, printed in front of a text that neither goes on with a digit or a
-- character of a name nor, behind white space, with an operator: the interpreter computes the
-- expression's value, or meets a divide error where the value has one, and stops at the text, past
-- its white space.
pub expression-show_expr :
    (vars : Vars) (e : Expr) (rest : Cursor)
    → ExprEnd rest
    → expression vars (show_expr e rest) ≡ (value_expr vars e, skip_ws rest)
expression-show_expr vars e rest h =
    let s = show_expr e rest in
    let whole = expression_lem vars s in
    elim (InExpr-Agrees (parse_expr (enough_fuel s) vars s) vars (value_expr vars e) rest h
      (expr-InExpr e (enough_fuel s) vars rest h.0)) [
        | inl none_e ↦ absurd (cc (whole, none_e))
        | inr some_e ↦ cc (whole, some_e)
      ]
