-- ===== src/Lang/Variables.antt =====
-- The variables of a script of programs/lang.c.
use Prim.Native.String.{String}
use mini_kernel.Prelude.{
  ◌++◌, not, ◌||◌, codes, drop, ltb_ℤ, ℕ, zero, suc, ◌+◌, ◌-◌, ◌≤◌, ◌≡◌, refl, ap, sym, subst, ◌∙◌,
  ℤ, pos, true, false, ◌⊎◌, inl, inr, Option, none, some, Option-cases, List, [], ◌∷◌,
  if◌then◌else◌, ltb, ◌==◌, str_eq, str_eq_sound, str_eq_refl, length, take, arith, if_elim,
}
use mini_kernel.Lang.{
  Value, peek, advance, skip_ws, read_ident, is_ident_char, expression, read_cmp_op, Vars, Cursor,
  var_value, assign,
}
use mini_kernel.Lang.Exec.{
  Ended, finished, crashed, trapped, waiting, line_at, line_number, next_pc, proceed, after,
  limit_text, run_from, run_script, str_starts_with, eval_cmp, parse_line_number, read_line, Script,
  Executed, executed, crashes, traps, waits, with_values, print_value, store_var, stored_in,
  syntax_error, exec_let, exec_print, exec_input, exec_if, jump_to, exec_line, input_value, print,
}

take_all : (name : List ℕ) (n : ℕ) → length name ≤ n → take n name ≡ name
take_all [] zero h = refl
take_all [] (suc n) h = refl
take_all (c ∷ name) zero h = absurd (omega arith)
take_all (c ∷ name) (suc n) h = ap (λ cs. c ∷ cs) (take_all name n (omega arith))

str_eq-eq : (a b c : List ℕ) → str_eq a b ≡ true → str_eq a c ≡ str_eq b c
str_eq-eq a b c e = ap (λ x. str_eq x c) (str_eq_sound a b e)

str_eq_apart : (a b c : List ℕ) → str_eq a b ≡ false → str_eq a c ≡ true → str_eq b c ≡ true → ⊥
str_eq_apart a b c no_e p q =
    let same : a ≡ b = str_eq_sound a c p ∙ sym (str_eq_sound b c q) in
    cc (no_e, ap (str_eq a) same, str_eq_refl a)

-- What an assignment gives: no room, or the variables with the one changed.
abbrev pub Assigned : List ℕ → ℤ → ℕ → Vars → Option Vars → Type 0
Assigned name value room vars r =
    ((r ≡ none) × (var_value name vars ≡ none) × (room ≤ length vars))
    ⊎ (vars' : Vars) × (r ≡ some vars')
      × ((k : List ℕ)
          → var_value k vars' ≡ (if str_eq name k then some value else var_value k vars))
      × (length vars ≤ room → length vars' ≤ room)

-- An assignment under a name of at most 15 characters, with room for a number of variables: it
-- fails only where no variable has the name and the room is used up. Otherwise the variable of the
-- name has the value, every other is as before, and the room is not exceeded.
pub assign_lem :
    (name : List ℕ) (value : ℤ) (room : ℕ) (vars : Vars)
    → length name ≤ 15
    → Assigned name value room vars (assign name value room vars)
unfolding assign var_value
assign_lem name value room [] h =
    if_elim (Assigned name value room []) (room == 0) (λ e. inl (refl, refl, ground arith))
      (λ e.
        inr (
          (take 15 name, value) ∷ [],
          refl,
          (λ k. rw (take_all name 15 h) refl),
          λ le. ground arith,
        ))
assign_lem name value room ((n, v) ∷ vars) h =
    if_elim (Assigned name value room ((n, v) ∷ vars)) (str_eq n name)
      (λ e. inr ((n, value) ∷ vars, refl, (λ k. ground (arith, str_eq-eq n name k e)), λ le. le))
      (λ e. elim (assign_lem name value (room - 1) vars h) [
        | inl (failed, absent, full) ↦ inl (rw failed refl, rw e absent, omega arith)
        | inr (vs, done, values, fits) ↦ inr (
          (n, v) ∷ vs,
          rw done refl,
          (λ k. ground (arith, values k, str_eq_apart n name k)),
          λ le. omega (arith, fits),
        )
      ])

name_short : (n : ℕ) (s : Cursor) → length (read_ident n s).0 ≤ 15 - n
unfolding read_ident
name_short n [] = omega arith
name_short n (c ∷ s) =
    if_elim (λ (r : List ℕ × Cursor). length r.0 ≤ 15 - n) (is_ident_char c)
      (λ e.
        if_elim (λ (l : List ℕ). length l ≤ 15 - n) (ltb n 15)
          (λ lt. ground (arith, name_short (n + 1) s)) (λ ge. omega (arith, name_short (n + 1) s)))
      (λ e. omega arith)

-- A line writes through a null pointer only where 32 variables are in use, and leaves at most 32.
abbrev pub Bounded : Script → Executed → Type 0
Bounded st (executed flow st') = length st'.vars ≤ 32
Bounded st crashes = 32 ≤ length st.vars
Bounded st traps = Unit {0}
Bounded st waits = Unit {0}

store_var-Bounded :
    (name : List ℕ) (value : Value) (st : Script)
    → length name ≤ 15
    → length st.vars ≤ 32
    → Bounded st (store_var name value st)
unfolding store_var
store_var-Bounded name none st short h = tt
store_var-Bounded name (some value) st short h = elim (assign_lem name value 32 st.vars short) [
  | inl (e, absent, full) ↦ subst (λ o. Bounded st (stored_in st o)) (sym e) full
  | inr (vars, e, values, fits) ↦ subst (λ o. Bounded st (stored_in st o)) (sym e) (fits h)
]

syntax_error-Bounded :
    (what : String) (n : ℕ) (st : Script)
    → length st.vars ≤ 32
    → Bounded st (syntax_error what n st)
unfolding syntax_error
syntax_error-Bounded what n st h = h

exec_let-Bounded :
    (s : Cursor) (n : ℕ) (st : Script) → length st.vars ≤ 32 → Bounded st (exec_let s n st)
unfolding exec_let
exec_let-Bounded s n st h =
    let name = (read_ident 0 (skip_ws s)).0 in
    let s2 = skip_ws (read_ident 0 (skip_ws s)).1 in
    if_elim (Bounded st) (length name == 0) (λ e. syntax_error-Bounded "bad name" n st h)
      λ e.
        if_elim (Bounded st) (peek s2 == b'=')
          (λ e2.
            store_var-Bounded name (expression st.vars (advance s2)).0 st (name_short 0 (skip_ws s))
              h)
          (λ e2. syntax_error-Bounded "expected '='" n st h)

print_value-Bounded :
    (value : Value) (st : Script) → length st.vars ≤ 32 → Bounded st (print_value value st)
unfolding print_value
print_value-Bounded none st h = tt
print_value-Bounded (some v) st h = h

with_values-Bounded :
    (st : Script) (lhs rhs : Value) (go : ℤ → ℤ → Executed)
    → ((a b : ℤ) → Bounded st (go a b))
    → Bounded st (with_values lhs rhs go)
with_values-Bounded st none rhs go h = tt
with_values-Bounded st (some a) none go h = tt
with_values-Bounded st (some a) (some b) go h = h a b

exec_print-Bounded : (s : Cursor) (st : Script) → length st.vars ≤ 32 → Bounded st (exec_print s st)
unfolding exec_print
exec_print-Bounded s st h =
    if_elim (Bounded st) (peek (skip_ws s) == b'"') (λ e. h)
      (λ e. print_value-Bounded (expression st.vars (skip_ws s)).0 st h)

input_value-Bounded :
    (name : List ℕ) (got : Option (List ℕ × List ℕ × List ℕ)) (st : Script)
    → length name ≤ 15
    → length st.vars ≤ 32
    → Bounded st (input_value name got st)
unfolding input_value
input_value-Bounded name none st short h = tt
input_value-Bounded name (some (line, input, out)) st short h =
    store_var-Bounded name _ (record st { input = input; output = st.output ++ out }) short h

exec_input-Bounded :
    (s : Cursor) (n : ℕ) (st : Script) → length st.vars ≤ 32 → Bounded st (exec_input s n st)
unfolding exec_input
exec_input-Bounded s n st h =
    let name = (read_ident 0 (skip_ws s)).0 in
    if_elim (Bounded st) (length name == 0) (λ e. syntax_error-Bounded "bad name" n st h)
      λ e.
        input_value-Bounded name (read_line st.input [] []) (print (b'?' ∷ 32 ∷ []) st)
          (name_short 0 (skip_ws s)) h

jump_to-Bounded : (tgt : ℤ) (st : Script) → length st.vars ≤ 32 → Bounded st (jump_to tgt st)
jump_to-Bounded tgt st h = if_elim (Bounded st) (ltb_ℤ (pos 0) tgt) (λ e. h) (λ e. h)

exec_if-Bounded :
    (s : Cursor) (n : ℕ) (st : Script) → length st.vars ≤ 32 → Bounded st (exec_if s n st)
unfolding exec_if
exec_if-Bounded s n st h =
    let (lhs, s1) = expression st.vars s in
    let (op, s2) = read_cmp_op s1 in
    let (rhs, s3) = expression st.vars s2 in
    let s4 = skip_ws s3 in
    with_values-Bounded st lhs rhs _ λ a b.
      if_elim (Bounded st) (not (str_starts_with s4 (codes "goto ")))
        (λ e. syntax_error-Bounded "expected 'goto'" n st h)
        λ e.
          if_elim (Bounded st) (eval_cmp a op b)
            (λ e2. jump_to-Bounded (parse_line_number (skip_ws (drop 5 s4))) st h) (λ e2. h)

-- A line, executed with at most 32 variables in use: it leaves at most 32, and writes through a
-- null pointer only where there are 32 already.
pub exec_line-Bounded :
    (line : Cursor) (n : ℕ) (st : Script) → length st.vars ≤ 32 → Bounded st (exec_line line n st)
unfolding exec_line
exec_line-Bounded line n st h =
    let s = skip_ws line in
    let B = Bounded st in
    if_elim B ((peek s == 0) || (peek s == b'#')) (λ e. h)
      λ e.
        if_elim B (str_starts_with s (codes "let ")) (λ e1. exec_let-Bounded (drop 4 s) n st h)
          λ e1.
            if_elim B (str_starts_with s (codes "print "))
              (λ e2. exec_print-Bounded (drop 6 s) st h)
              λ e2.
                if_elim B (str_starts_with s (codes "input "))
                  (λ e3. exec_input-Bounded (drop 6 s) n st h)
                  λ e3.
                    if_elim B (str_starts_with s (codes "if "))
                      (λ e4. exec_if-Bounded (drop 3 s) n st h)
                      λ e4.
                        if_elim B (str_starts_with s (codes "goto "))
                          (λ e5. jump_to-Bounded (parse_line_number (skip_ws (drop 5 s))) st h)
                          λ e5.
                            if_elim B (str_eq s (codes "end")) (λ e6. h)
                              λ e6. syntax_error-Bounded "unknown statement" n st h

-- At the end of a script.
abbrev pub EndBounded : Ended → Type 0
EndBounded (finished st) = length st.vars ≤ 32
EndBounded (crashed st) = length st.vars ≡ 32
EndBounded (trapped st) = length st.vars ≤ 32
EndBounded (waiting st) = length st.vars ≤ 32

proceed-EndBounded :
    (go : ℤ → Script → Ended) (next : Option ℤ) (st : Script)
    → ((pc : ℤ) (st' : Script) → length st'.vars ≤ 32 → EndBounded (go pc st'))
    → length st.vars ≤ 32
    → EndBounded (proceed go next st)
proceed-EndBounded go none st all h = h
proceed-EndBounded go (some pc) st all h = all pc st h

after-EndBounded :
    (go : ℤ → Script → Ended) (pc : ℤ) (st : Script) (r : Executed)
    → ((pc' : ℤ) (st' : Script) → length st'.vars ≤ 32 → EndBounded (go pc' st'))
    → length st.vars ≤ 32
    → Bounded st r
    → EndBounded (after go pc st r)
after-EndBounded go pc st (executed flow st') all h b =
    proceed-EndBounded go (next_pc pc flow) st' all b
after-EndBounded go pc st crashes all h b = omega arith
after-EndBounded go pc st traps all h b = h
after-EndBounded go pc st waits all h b = h

run_from-EndBounded :
    (rounds : ℕ) (lines : List Cursor) (pc : ℤ) (st : Script)
    → length st.vars ≤ 32
    → EndBounded (run_from rounds lines pc st)
unfolding run_from
run_from-EndBounded zero lines pc st h = elim (Option-cases (line_at lines pc)) [
  | inl e ↦ subst EndBounded {x = finished st} (sym (rw (e, run_from) refl)) h
  | inr (line, e) ↦
      subst EndBounded {x = finished (print limit_text st)} (sym (rw (e, run_from) refl)) h
]
run_from-EndBounded (suc rounds) lines pc st h = elim (Option-cases (line_at lines pc)) [
  | inl e ↦ subst EndBounded {x = finished st} (sym (rw (e, run_from) refl)) h
  | inr (line, e) ↦
      subst EndBounded
        {x = after (run_from rounds lines) pc st (exec_line line (line_number pc) st)}
        (sym (rw (e, run_from) refl))
        (after-EndBounded (run_from rounds lines) pc st (exec_line line (line_number pc) st)
          (λ pc' st'. run_from-EndBounded rounds lines pc' st') h
          (exec_line-Bounded line (line_number pc) st h))
]

-- A script, run with no variables at its start: however it ends, at most 32 variables are in use,
-- and it writes through a null pointer only where there are exactly 32.
pub run_script-EndBounded :
    (lines : List Cursor) (input : List ℕ)
    → EndBounded (run_script lines (record { vars = []; input = input; output = [] }))
unfolding run_script
run_script-EndBounded lines input =
    run_from-EndBounded 2000000 lines (pos 0) (record { vars = []; input = input; output = [] })
      (omega arith)
