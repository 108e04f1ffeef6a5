-- ===== src/Lang/Exec.antt =====
-- The statements and the main loop of the script interpreter, programs/lang.c. What the script
-- reads from the keyboard is the list of the characters still to come; what it writes is the
-- list of the characters written.
use Prim.Native.String.{String}
use mini_kernel.Prelude.{
  ◌||◌, ℕ, zero, suc, ◌+◌, ◌-◌, ◌/◌, ◌%◌, ◌^◌, ℤ, pos, negsuc, ◌+ℤ◌, ltb_ℤ, eqb_ℤ, Bool, true,
  false, not, ◌&&◌, Option, none, some, List, [], ◌∷◌, ◌++◌, if◌then◌else◌, ltb, ◌==◌, codes,
  str_eq, length, get_elem?, drop,
}
use mini_kernel.Lang.{
  Value, Cursor, peek, advance, Vars, is_digit, skip_ws, read_ident, next_value, expression,
  read_cmp_op, assign, max_vars,
}

pub record Script : Type 0 where
  pub vars : Vars
  pub input : List ℕ
  pub output : List ℕ

unfoldable pub str_starts_with : Cursor → List ℕ → Bool
str_starts_with s [] = true
str_starts_with [] (p ∷ prefix) = false
str_starts_with (c ∷ s) (p ∷ prefix) =
    let rest = str_starts_with s prefix in if c == p then rest else false

abbrev pub print : List ℕ → Script → Script
print text st = record st { output = st.output ++ text }

-- The digits of an unsigned 64-bit number; 20 rounds are enough.
unfoldable pub digits : ℕ → ℕ → List ℕ → List ℕ
digits zero v out = out
digits (suc rounds) v out =
    let more = digits rounds (v / 10) ((b'0' + v % 10) ∷ out) in if v == 0 then out else more

unfoldable pub int_text : ℤ → List ℕ
unfolding digits
int_text (pos n) = if n == 0 then b'0' ∷ [] else digits 20 n []
int_text (negsuc n) = b'-' ∷ digits 20 (suc n) []

-- `eval_cmp` on the two characters of the operator.
unfoldable pub eval_cmp : ℤ → ℕ × ℕ → ℤ → Bool
eval_cmp lhs (a, b) rhs =
    if (a == b'=') && (b == b'=')
    then eqb_ℤ lhs rhs
    else if (a == b'!') && (b == b'=')
    then not (eqb_ℤ lhs rhs)
    else if (a == b'<') && (b == b'=')
    then not (ltb_ℤ rhs lhs)
    else if (a == b'>') && (b == b'=')
    then not (ltb_ℤ lhs rhs)
    else if (a == b'<') && (b == 0)
    then ltb_ℤ lhs rhs
    else if (a == b'>') && (b == 0)
    then ltb_ℤ rhs lhs
    else false

-- `read_line_stdin`: the characters to come, the line so far with its last character first, and
-- what was written; `none` where the characters to come hold no whole line.
unfoldable pub read_line : List ℕ → List ℕ → List ℕ → Option (List ℕ × List ℕ × List ℕ)
read_line [] line out = none
read_line (c ∷ input) line out =
    let erased = read_line input (drop 1 line) (if length line == 0 then out else out ++ 8 ∷ []) in
    let kept = read_line input (c ∷ line) (out ++ c ∷ []) in
    let dropped = read_line input line out in
    if c == 10
    then some (line, input, out ++ 10 ∷ [])
    else if c == 8
    then erased
    else if ltb (length line + 1) 32
    then kept
    else dropped

abbrev pub reversed : List ℕ → List ℕ → List ℕ
reversed [] out = out
reversed (c ∷ s) out = reversed s (c ∷ out)

unfoldable pub line_digits : ℤ → Cursor → ℤ
unfolding next_value
line_digits v [] = v
line_digits v (c ∷ s) =
    let later = line_digits (next_value v c) s in if is_digit c then later else v

unfoldable pub parse_line_number : Cursor → ℤ
unfolding line_digits
parse_line_number s = if is_digit (peek s) then line_digits (pos 0) s else negsuc 0

-- How a line goes on: at the next line, at a line that it names, or not at all.
pub data Flow : Type 0 where
  falls ends : Flow
  jumps : ℤ → Flow

-- What a line does: it is executed, it writes through a null pointer, it divides with a
-- divide error, or it waits for a line that has not been typed.
pub data Executed : Type 0 where
  executed : Flow → Script → Executed
  crashes traps waits : Executed

unfoldable pub syntax_error : String → ℕ → Script → Executed
unfolding int_text
syntax_error what line_no st = executed falls (
    print
      (codes "syntax error ("
        ++ (codes what ++ (codes ") on line " ++ (int_text (pos line_no) ++ 10 ∷ []))))
      st)

-- The value of an expression is printed.
unfoldable pub print_value : Value → Script → Executed
unfolding int_text
print_value none st = traps
print_value (some v) st = executed falls (print (int_text v ++ 10 ∷ []) st)

-- `none` is the write through the null pointer.
abbrev pub stored_in : Script → Option Vars → Executed
stored_in st none = crashes
stored_in st (some vars) = executed falls (record st { vars = vars })

-- `*var_ref(name, 1) = value`
unfoldable pub store_var : List ℕ → Value → Script → Executed
unfolding assign
store_var name none st = traps
store_var name (some value) st = stored_in st (assign name value max_vars st.vars)

-- The text behind "let "
unfoldable pub exec_let : Cursor → ℕ → Script → Executed
unfolding skip_ws read_ident expression assign store_var syntax_error
exec_let s line_no st =
    let (name, s1) = read_ident 0 (skip_ws s) in
    let s2 = skip_ws s1 in
    let stored = store_var name (expression st.vars (advance s2)).0 st in
    if length name == 0
    then syntax_error "bad name" line_no st
    else if peek s2 == b'='
    then stored
    else syntax_error "expected '='" line_no st

-- The characters before the closing quote, or before the end.
unfoldable pub quoted : Cursor → List ℕ
quoted [] = []
quoted (c ∷ s) = let rest = quoted s in if c == b'"' then [] else c ∷ rest

-- The text behind "print "
unfoldable pub exec_print : Cursor → Script → Executed
unfolding skip_ws quoted expression print_value
exec_print s st =
    let s' = skip_ws s in
    let shown = print_value (expression st.vars s').0 st in
    if peek s' == b'"' then executed falls (print (quoted (advance s') ++ 10 ∷ []) st) else shown

-- A line was read: its value goes to the variable.
unfoldable pub input_value : List ℕ → Option (List ℕ × List ℕ × List ℕ) → Script → Executed
unfolding skip_ws expression store_var assign
input_value name none st = waits
input_value name (some (line, input, out)) st =
    let value = (expression st.vars (skip_ws (reversed line []))).0 in
    store_var name value (record st { input = input; output = st.output ++ out })

-- The text behind "input "
unfoldable pub exec_input : Cursor → ℕ → Script → Executed
unfolding skip_ws read_ident read_line input_value syntax_error
exec_input s line_no st =
    let (name, s1) = read_ident 0 (skip_ws s) in
    let st' = print (b'?' ∷ 32 ∷ []) st in
    let got = input_value name (read_line st.input [] []) st' in
    if length name == 0 then syntax_error "bad name" line_no st else got

-- `tgt >= 1`
abbrev pub jump_to : ℤ → Script → Executed
jump_to tgt st = if ltb_ℤ (pos 0) tgt then executed (jumps tgt) st else executed falls st

-- Both values, or a divide error in one of them.
abbrev pub with_values : Value → Value → (ℤ → ℤ → Executed) → Executed
with_values none rhs go = traps
with_values (some a) none go = traps
with_values (some a) (some b) go = go a b

-- The text behind "if "
unfoldable pub exec_if : Cursor → ℕ → Script → Executed
unfolding expression read_cmp_op skip_ws str_starts_with eval_cmp parse_line_number syntax_error
exec_if s line_no st =
    let (lhs, s1) = expression st.vars s in
    let (op, s2) = read_cmp_op s1 in
    let (rhs, s3) = expression st.vars s2 in
    let s4 = skip_ws s3 in
    let tgt = parse_line_number (skip_ws (drop 5 s4)) in
    with_values lhs rhs λ a b.
      if not (str_starts_with s4 (codes "goto "))
      then syntax_error "expected 'goto'" line_no st
      else if eval_cmp a op b
      then jump_to tgt st
      else executed falls st

unfoldable pub exec_line : Cursor → ℕ → Script → Executed
unfolding skip_ws str_starts_with exec_let exec_print exec_input exec_if parse_line_number str_eq
    syntax_error
exec_line line line_no st =
    let s = skip_ws line in
    if (peek s == 0) || (peek s == b'#')
    then executed falls st
    else if str_starts_with s (codes "let ")
    then exec_let (drop 4 s) line_no st
    else if str_starts_with s (codes "print ")
    then exec_print (drop 6 s) st
    else if str_starts_with s (codes "input ")
    then exec_input (drop 6 s) line_no st
    else if str_starts_with s (codes "if ")
    then exec_if (drop 3 s) line_no st
    else if str_starts_with s (codes "goto ")
    then jump_to (parse_line_number (skip_ws (drop 5 s))) st
    else if str_eq s (codes "end")
    then executed ends st
    else syntax_error "unknown statement" line_no st

-- `(int)target`
unfoldable pub int_of_long : ℤ → ℤ
int_of_long z =
    let low : ℕ = elim z [ pos n ↦ n % 2 ^ 32 | negsuc n ↦ 2 ^ 32 - 1 - n % 2 ^ 32 ] in
    if ltb low (2 ^ 31) then pos low else negsuc (2 ^ 32 - 1 - low)

abbrev pub step_limit : ℕ
step_limit = 2000000

abbrev pub limit_text : List ℕ
limit_text = codes "lang: step limit exceeded (possible infinite loop)" ++ 10 ∷ []

-- How a script ends.
pub data Ended : Type 0 where
  finished crashed trapped waiting : Script → Ended

-- `lines[pc]`, where 0 <= pc < line_count
abbrev pub line_at : List Cursor → ℤ → Option Cursor
line_at lines (negsuc n) = none
line_at lines (pos i) = get_elem? lines i

-- Where the loop goes on: `none` where `running` is cleared.
unfoldable pub next_pc : ℤ → Flow → Option ℤ
unfolding int_of_long
next_pc pc falls = some (pc +ℤ pos 1)
next_pc pc ends = none
next_pc pc (jumps target) = some (int_of_long target +ℤ negsuc 0)

-- `pc + 1`
abbrev pub line_number : ℤ → ℕ
line_number (pos n) = n + 1
line_number (negsuc n) = 0

abbrev pub proceed : (ℤ → Script → Ended) → Option ℤ → Script → Ended
proceed go none st = finished st
proceed go (some pc) st = go pc st

-- The end of the loop's body, with what it does next.
abbrev pub after : (ℤ → Script → Ended) → ℤ → Script → Executed → Ended
after go pc st (executed flow st') = proceed go (next_pc pc flow) st'
after go pc st crashes = crashed st
after go pc st traps = trapped st
after go pc st waits = waiting st

-- The loop of `run_script` at `pc`, with `rounds` steps left below the limit.
unfoldable pub run_from : ℕ → List Cursor → ℤ → Script → Ended
unfolding exec_line next_pc int_of_long
run_from zero lines pc st = elim (line_at lines pc) [
  | none ↦ finished st
  | some line ↦ finished (print limit_text st)
]
run_from (suc rounds) lines pc st = elim (line_at lines pc) [
  | none ↦ finished st
  | some line ↦ after (run_from rounds lines) pc st (exec_line line (line_number pc) st)
]

unfoldable pub run_script : List Cursor → Script → Ended
run_script lines st = run_from step_limit lines (pos 0) st
