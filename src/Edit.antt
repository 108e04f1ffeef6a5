-- ===== src/Edit.antt =====
-- The line editor of programs/edit.c. A line is the list of its characters, without the NUL, and
-- `typed` the lines that are typed, without their line feeds; the file is its bytes, which hold no
-- NUL. Drawing the screen and the status messages are left out. A write to the open file is complete.
pub mod Lines
pub mod Commands
pub mod Bounds
pub mod Saved
mod Tests
use mini_kernel.Prelude.{
  ℕ, zero, suc, ◌+◌, ◌-◌, ◌*◌, ℤ, pos, negsuc, minus_one, ◌+ℤ◌, ◌-ℤ◌, ltb_ℤ, Bool, true, false, not,
  ◌&&◌, ◌||◌, Option, none, some, List, [], ◌∷◌, ◌++◌, if◌then◌else◌, ltb, leb, ◌==◌, length, take,
  drop, update, str_eq, codes,
}
use mini_kernel.Lang.{is_digit, read_digits}
use mini_kernel.Lang.Exec.{reversed, str_starts_with, int_of_long}

abbrev pub max_lines : ℕ
max_lines = 200

abbrev pub max_line_len : ℕ
max_line_len = 120

abbrev pub cmd_max : ℕ
cmd_max = 128

-- The statics of edit.c, the file, whether it can be opened to be written, and the lines typed.
pub record Editor : Type 0 where
  pub lines : ℕ → List ℕ
  pub line_count : ℕ
  pub modified : Bool
  pub top_line : ℤ
  pub text_rows_visible : ℕ
  pub file : Option (List ℕ)
  pub can_save : Bool
  pub typed : List (List ℕ)

-- The value, or -1 where there is no number.
unfoldable pub parse_uint : List ℕ → ℤ
unfolding read_digits
parse_uint [] = minus_one
parse_uint (c ∷ s) =
    let rest = parse_uint s in
    if c == 32 then rest else if is_digit c then (read_digits (pos 0) (c ∷ s)).0 else minus_one

-- The loop of `read_line` over a typed line, with the line so far, its last character first.
unfoldable pub read_line : ℕ → List ℕ → List ℕ → List ℕ
read_line max_len line [] = reversed line []
read_line max_len line (c ∷ input) =
    let erased = read_line max_len (drop 1 line) input in
    let longer = read_line max_len (c ∷ line) input in
    let full = read_line max_len line input in
    if c == 8 then erased else if ltb (length line + 1) max_len then longer else full

-- A line for the text, of which `buf` has room for `MAX_LINE_LEN` characters.
unfoldable pub text_line : List ℕ → List ℕ
unfolding read_line
text_line raw = read_line (max_line_len + 1) [] raw

unfoldable pub ensure_visible : ℤ → Editor → Editor
ensure_visible line s =
    let rows = pos s.text_rows_visible in
    let top = line -ℤ rows +ℤ pos 1 in
    if ltb_ℤ line s.top_line
    then record s { top_line = line }
    else if ltb_ℤ line (s.top_line +ℤ rows)
    then s
    else record s { top_line = if ltb_ℤ top (pos 0) then pos 0 else top }

-- The reading of the file, in pieces of 512 bytes, with `total` bytes read.
unfoldable pub read_content : ℕ → ℕ → List ℕ → List ℕ
read_content zero total rest = []
read_content (suc rounds) total rest =
    let piece = take 512 rest in
    let later = read_content rounds (total + length piece) (drop 512 rest) in
    if leb (total + 512) (max_lines * (max_line_len + 1))
    then if length piece == 0 then [] else piece ++ later
    else []

-- The splitting into lines, with `count` lines stored and `line` the next so far.
unfoldable pub split_lines : (ℕ → List ℕ) → ℕ → List ℕ → List ℕ → (ℕ → List ℕ) × ℕ
split_lines lines count line [] =
    if ltb 0 (length line) && ltb count max_lines
    then (update lines count line, count + 1)
    else (lines, count)
split_lines lines count line (c ∷ content) =
    let next = split_lines (update lines count line) (count + 1) [] content in
    let longer =
      split_lines lines count (if ltb (length line) max_line_len then line ++ (c ∷ []) else line)
        content in
    if ltb count max_lines then if c == 10 then next else longer else (lines, count)

-- 48 rounds are enough: 47 pieces fill `content`.
unfoldable pub load_file : Editor → Editor
unfolding read_content split_lines
load_file s = elim s.file [
  | none ↦ record s { line_count = 0 }
  | some bytes ↦
      let (lines, count) = split_lines s.lines 0 [] (read_content 48 0 bytes) in
      record s { lines = lines; line_count = count }
]

-- What is written for `n` lines from line `i` on.
unfoldable pub saved_bytes : (ℕ → List ℕ) → ℕ → ℕ → List ℕ
saved_bytes lines i zero = []
saved_bytes lines i (suc n) = lines i ++ (10 ∷ saved_bytes lines (i + 1) n)

unfoldable pub save_file : Editor → Editor
unfolding saved_bytes
save_file s =
    if s.can_save
    then record s { file = some (saved_bytes s.lines 0 s.line_count); modified = false }
    else s

-- `lines[i] = lines[i - 1]` from the last of `n` lines behind `at` down to the first
unfoldable pub shift_down : ℕ → ℕ → (ℕ → List ℕ) → ℕ → List ℕ
shift_down at zero lines = lines
shift_down at (suc n) lines = shift_down at n (update lines (at + n + 1) (lines (at + n)))

-- `lines[i] = lines[i + 1]` for `n` lines from `at` on
unfoldable pub shift_up : ℕ → ℕ → (ℕ → List ℕ) → ℕ → List ℕ
shift_up at zero lines = lines
shift_up at (suc n) lines = shift_up (at + 1) n (update lines at (lines (at + 1)))

-- The changes of the text, with the line that was typed.
unfoldable pub insert_line : ℕ → List ℕ → Editor → Editor
unfolding shift_down
insert_line at line s = record s {
  lines = update (shift_down at (s.line_count - at) s.lines) at line;
  line_count = s.line_count + 1;
  modified = true;
}

unfoldable pub replace_line : ℕ → List ℕ → Editor → Editor
replace_line at line s = record s { lines = update s.lines at line; modified = true }

unfoldable pub delete_line : ℕ → Editor → Editor
unfolding shift_up
delete_line at s = record s {
  lines = shift_up at (s.line_count - 1 - at) s.lines;
  line_count = s.line_count - 1;
  modified = true;
}
