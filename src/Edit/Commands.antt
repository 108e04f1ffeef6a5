-- ===== src/Edit/Commands.antt =====
-- The commands of programs/edit.c and the loop that reads them. A command that needs a line that is
-- not typed yet waits for it.
use mini_kernel.Prelude.{
  ℕ, zero, suc, ◌+◌, ℤ, pos, negsuc, ◌-ℤ◌, ltb_ℤ, ◌||◌, List, [], ◌∷◌, if◌then◌else◌, ltb, leb,
  ◌==◌, length, drop, str_eq, codes,
}
use mini_kernel.Lang.Exec.{str_starts_with, int_of_long}
use mini_kernel.Edit.{
  Editor, max_lines, cmd_max, parse_uint, read_line, text_line, ensure_visible, save_file,
  insert_line, replace_line, delete_line, load_file,
}

-- Where a command leads: on to the next, to the end, or to a line that is not typed.
pub data Flow : Type 0 where
  goes : Editor → Flow
  ends : Editor → Flow
  waits : Editor → Flow

-- The rounds of `cmd_append`, over the lines typed.
unfoldable pub append_lines : List (List ℕ) → Editor → Flow
unfolding insert_line ensure_visible text_line
append_lines [] s = waits (record s { typed = [] })
append_lines (raw ∷ typed) s =
    let line = text_line raw in
    let later =
      append_lines typed (ensure_visible (pos s.line_count) (insert_line s.line_count line s)) in
    if length line == 0
    then goes (record s { typed = typed })
    else if leb max_lines s.line_count
    then goes (record s { typed = typed })
    else later

-- A change of the text with the next line typed.
unfoldable pub with_line : (List ℕ → Editor → Editor) → Editor → Flow
unfolding text_line
with_line change s = elim s.typed [
  | [] ↦ waits s
  | raw ∷ typed ↦ goes (change (text_line raw) (record s { typed = typed }))
]

unfoldable pub cmd_insert : ℤ → Editor → Flow
unfolding with_line insert_line ensure_visible
cmd_insert (negsuc n) s = goes s
cmd_insert (pos at) s =
    let inserted = with_line (λ line s'. ensure_visible (pos at) (insert_line at line s')) s in
    if ltb s.line_count at || leb max_lines s.line_count then goes s else inserted

unfoldable pub cmd_replace : ℤ → Editor → Flow
unfolding with_line replace_line ensure_visible
cmd_replace (negsuc n) s = goes s
cmd_replace (pos at) s =
    let replaced = with_line (λ line s'. ensure_visible (pos at) (replace_line at line s')) s in
    if leb s.line_count at then goes s else replaced

unfoldable pub cmd_delete : ℤ → Editor → Flow
unfolding delete_line
cmd_delete (negsuc n) s = goes s
cmd_delete (pos at) s = if leb s.line_count at then goes s else goes (delete_line at s)

-- A command with the number of a line behind its letter.
unfoldable pub numbered : List ℕ → (ℤ → Editor → Flow) → Editor → Flow
unfolding parse_uint int_of_long
numbered cmd run s =
    let n = parse_uint (drop 1 cmd) in
    if ltb_ℤ n (pos 0) then goes s else run (int_of_long n -ℤ pos 1) s

-- The chain of tests in the loop of `_start`.
unfoldable pub command : List ℕ → Editor → Flow
unfolding str_eq str_starts_with save_file append_lines numbered cmd_insert cmd_replace cmd_delete
    ensure_visible
command cmd s =
    if str_eq cmd (codes "q")
    then if s.modified then goes s else ends s
    else if str_eq cmd (codes "q!")
    then ends s
    else if str_eq cmd (codes "wq")
    then ends (save_file s)
    else if str_eq cmd (codes "w")
    then goes (save_file s)
    else if str_eq cmd (codes "a")
    then append_lines s.typed s
    else if str_starts_with cmd (codes "i")
    then numbered cmd cmd_insert s
    else if str_starts_with cmd (codes "r")
    then numbered cmd cmd_replace s
    else if str_starts_with cmd (codes "d")
    then numbered cmd cmd_delete s
    else if str_starts_with cmd (codes "g")
    then numbered cmd (λ line s'. goes (ensure_visible line s')) s
    else goes s

-- The loop of `_start`, which ends or waits for a line.
pub data Outcome : Type 0 where
  ended : Editor → Outcome
  waiting : Editor → Outcome
  out_of_fuel : Outcome

-- The loop with rounds left; each takes at least the line of its command.
unfoldable pub edit_from : ℕ → Flow → Outcome
unfolding command read_line
edit_from fuel (ends s) = ended s
edit_from fuel (waits s) = waiting s
edit_from zero (goes s) = out_of_fuel
edit_from (suc fuel) (goes s) = elim s.typed [
  | [] ↦ waiting s
  | raw ∷ typed ↦ edit_from fuel (command (read_line cmd_max [] raw) (record s { typed = typed }))
]

-- `_start` behind the file's name and the size of the screen.
unfoldable pub edit : Editor → Outcome
unfolding edit_from load_file
edit s = edit_from (length s.typed + 1) (goes (load_file s))
