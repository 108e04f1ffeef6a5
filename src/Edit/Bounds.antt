-- ===== src/Edit/Bounds.antt =====
-- The bounds of programs/edit.c: the arrays hold the text, and the loop of commands goes on only as
-- long as lines are typed.
use mini_kernel.Prelude.{
  ℕ, zero, suc, ◌+◌, ◌-◌, ◌≤◌, ◌<◌, ◌≡◌, ◌≢◌, refl, ap, sym, inl, inr, subst, ℤ, pos, negsuc, ◌+ℤ◌,
  ltb_ℤ, ◌&&◌, ◌||◌, Option, none, some, List, [], ◌∷◌, ◌++◌, if◌then◌else◌, if_elim, ltb, leb,
  ◌==◌, length, length-drop, length-append, drop, str_eq, codes, arith, update, Option-cases,
}
use mini_kernel.Lang.Exec.{str_starts_with}
use mini_kernel.Lang.Load.{length-reversed}
use mini_kernel.Edit.{
  Editor, max_lines, max_line_len, cmd_max, parse_uint, read_line, text_line, ensure_visible,
  save_file, insert_line, replace_line, delete_line, load_file, split_lines, read_content,
}
use mini_kernel.Edit.Lines.{shift_down_at, shift_up_at}
use mini_kernel.Edit.Commands.{
  Flow, goes, ends, waits, append_lines, with_line, cmd_insert, cmd_replace, cmd_delete, numbered,
  command, Outcome, ended, waiting, out_of_fuel, edit_from, edit,
}

-- `line_count` lines in an array of 200, each with at most 120 characters.
abbrev pub Short : List ℕ → Type 0
Short line = length line ≤ 120

abbrev pub Fits : (ℕ → List ℕ) → ℕ → Type 0
Fits lines count = (count ≤ 200) × ((i : ℕ) → i < count → length (lines i) ≤ 120)

abbrev pub IsValid : Editor → Type 0
IsValid s = Fits s.lines s.line_count

read_line_short :
    (max_len : ℕ) (line input : List ℕ)
    → length line < max_len
    → length (read_line max_len line input) < max_len
unfolding read_line
read_line_short max_len line [] lt = omega (arith, length-reversed line [])
read_line_short max_len line (c ∷ input) lt =
    if_elim (λ (x : List ℕ). length x < max_len) (c == 8)
      (λ e. read_line_short max_len (drop 1 line) input (omega (arith, length-drop 1 line)))
      (λ ne.
        if_elim (λ (x : List ℕ). length x < max_len) (ltb (length line + 1) max_len)
          (λ room. read_line_short max_len (c ∷ line) input (ground arith))
          (λ full. read_line_short max_len line input lt))

text_line_short : (raw : List ℕ) → length (text_line raw) ≤ 120
unfolding text_line
text_line_short raw = omega (arith, read_line_short 121 [] raw (omega arith))

update-Fits :
    (lines : ℕ → List ℕ) (count at : ℕ) (line : List ℕ)
    → Fits lines count
    → length line ≤ 120
    → Fits (update lines at line) count
update-Fits lines count at line (few, short) ok =
    (few, λ i lt. if_elim Short (i == at) (λ e. ok) (λ ne. short i lt))

append-Fits :
    (lines : ℕ → List ℕ) (count : ℕ) (line : List ℕ)
    → count < 200
    → Fits lines count
    → length line ≤ 120
    → Fits (update lines count line) (count + 1)
append-Fits lines count line room (few, short) ok = (
  omega arith,
  λ i lt.
      if_elim Short (i == count) (λ e. ok)
        (λ ne. let other : i ≢ count = ground arith in short i (omega arith)),
)

split_lines-Fits :
    (lines : ℕ → List ℕ) (count : ℕ) (line content : List ℕ)
    → Fits lines count
    → length line ≤ 120
    → let (lines', count') = split_lines lines count line content in Fits lines' count'
unfolding split_lines
split_lines-Fits lines count line [] fits ok =
    if_elim (λ (r : (ℕ → List ℕ) × ℕ). Fits r.0 r.1) (ltb 0 (length line) && ltb count max_lines)
      (λ e. append-Fits lines count line (ground arith) fits ok) (λ e. fits)
split_lines-Fits lines count line (c ∷ content) fits ok =
    let Ok : (ℕ → List ℕ) × ℕ → Type 0 = λ r. Fits r.0 r.1 in
    if_elim Ok (ltb count max_lines)
      (λ lt.
        if_elim Ok (c == 10)
          (λ e.
            split_lines-Fits (update lines count line) (count + 1) [] content
              (append-Fits lines count line (ground arith) fits ok) (omega arith))
          (λ ne.
            split_lines-Fits lines count
              (if ltb (length line) max_line_len then line ++ (c ∷ []) else line) content fits
              (if_elim Short (ltb (length line) max_line_len)
                (λ room. let n = length-append line (c ∷ []) in ground arith) (λ full. ok))))
      (λ ge. fits)

load_of : Editor → Option (List ℕ) → Editor
load_of s none = record s { line_count = 0 }
load_of s (some bytes) =
    let (lines, count) = split_lines s.lines 0 [] (read_content 48 0 bytes) in
    record s { lines = lines; line_count = count }

load_of-IsValid :
    (s : Editor) (file : Option (List ℕ))
    → IsValid (load_of s file) × ((load_of s file).typed ≡ s.typed)
unfolding load_of
load_of-IsValid s none = ((omega arith, λ i lt. absurd (omega arith)), refl)
load_of-IsValid s (some bytes) = (
  split_lines-Fits s.lines 0 [] (read_content 48 0 bytes)
      (omega arith, λ i lt. absurd (omega arith)) (omega arith),
  refl,
)

load_file-IsValid : (s : Editor) → IsValid (load_file s) × ((load_file s).typed ≡ s.typed)
unfolding load_file load_of
load_file-IsValid s = elim (Option-cases s.file) [
  | inl missing ↦
      subst (λ (r : Editor). IsValid r × (r.typed ≡ s.typed)) (sym (ap (load_of s) missing))
        (load_of-IsValid s none)
  | inr (bytes, found) ↦
      subst (λ (r : Editor). IsValid r × (r.typed ≡ s.typed)) (sym (ap (load_of s) found))
        (load_of-IsValid s (some bytes))
]

insert_line-IsValid :
    (at : ℕ) (line : List ℕ) (s : Editor)
    → at ≤ s.line_count
    → s.line_count < 200
    → IsValid s
    → length line ≤ 120
    → IsValid (insert_line at line s)
unfolding insert_line
insert_line-IsValid at line s le room (few, short) ok = (
  omega arith,
  λ i lt.
      if_elim Short (i == at) (λ e. ok)
        (λ ne. subst Short (sym (shift_down_at at (s.line_count - at) i s.lines)) (
          if_elim Short (ltb at i && leb i (at + (s.line_count - at)))
            (λ moved. short (i - 1) (ground arith)) (λ kept. short i (ground arith)))),
)

delete_line-IsValid :
    (at : ℕ) (s : Editor) → at < s.line_count → IsValid s → IsValid (delete_line at s)
unfolding delete_line
delete_line-IsValid at s lt (few, short) = (
  omega arith,
  λ i less. subst Short (sym (shift_up_at at (s.line_count - 1 - at) i s.lines)) (
      if_elim Short (leb at i && ltb i (at + (s.line_count - 1 - at)))
        (λ moved. short (i + 1) (omega arith)) (λ kept. short i (omega arith))),
)

-- A command leads to a valid state, with no more lines typed than before.
abbrev Ok : ℕ → Flow → Type 0
Ok n (goes s) = IsValid s × (length s.typed ≤ n)
Ok n (ends s) = IsValid s
Ok n (waits s) = IsValid s

abbrev OkEditor : ℕ → Editor → Type 0
OkEditor n s = IsValid s × (length s.typed ≤ n)

ensure_visible-Ok :
    (n : ℕ) (line : ℤ) (s : Editor) → OkEditor n s → OkEditor n (ensure_visible line s)
unfolding ensure_visible
ensure_visible-Ok n line s ok =
    if_elim (OkEditor n) (ltb_ℤ line s.top_line) (λ e. ok)
      (λ e.
        if_elim (OkEditor n) (ltb_ℤ line (s.top_line +ℤ pos s.text_rows_visible)) (λ e'. ok)
          (λ e'. ok))

save_file-Ok : (n : ℕ) (s : Editor) → OkEditor n s → OkEditor n (save_file s)
unfolding save_file
save_file-Ok n s ok = if_elim (OkEditor n) s.can_save (λ e. ok) (λ e. ok)

more-Ok : (n m : ℕ) (flow : Flow) → n ≤ m → Ok n flow → Ok m flow
more-Ok n m (goes s) le (valid, few) = (valid, omega arith)
more-Ok n m (ends s) le ok = ok
more-Ok n m (waits s) le ok = ok

append_lines-Ok :
    (typed : List (List ℕ)) (s : Editor) → IsValid s → Ok (length typed) (append_lines typed s)
unfolding append_lines
append_lines-Ok [] s valid = valid
append_lines-Ok (raw ∷ typed) s valid =
    let n = length (raw ∷ typed) in
    if_elim (Ok n) (length (text_line raw) == 0) (λ e. (valid, omega arith))
      (λ ne.
        if_elim (Ok n) (leb max_lines s.line_count) (λ full. (valid, omega arith))
          (λ room. more-Ok (length typed) n (append_lines typed _) (omega arith) (
            append_lines-Ok typed _
              (ensure_visible-Ok (length s.typed) (pos s.line_count)
                (insert_line s.line_count (text_line raw) s)
                (
                  insert_line-IsValid s.line_count (text_line raw) s (omega arith) (ground arith)
                      valid (text_line_short raw),
                  omega arith,
                )).0)))

-- A change that keeps a state valid, given a line that fits.
abbrev Changes : (List ℕ → Editor → Editor) → Editor → Type 0
Changes change s =
    (line : List ℕ) (typed : List (List ℕ))
    → Short line
    → length typed ≤ length s.typed
    → OkEditor (length s.typed) (change line (record s { typed = typed }))

with_of : (List ℕ → Editor → Editor) → Editor → List (List ℕ) → Flow
with_of change s [] = waits s
with_of change s (raw ∷ typed) = goes (change (text_line raw) (record s { typed = typed }))

with_of-Ok :
    (change : List ℕ → Editor → Editor) (s : Editor) (typed : List (List ℕ))
    → IsValid s
    → length typed ≤ length s.typed
    → Changes change s
    → Ok (length s.typed) (with_of change s typed)
unfolding with_of
with_of-Ok change s [] valid le ok = valid
with_of-Ok change s (raw ∷ typed) valid le ok =
    ok (text_line raw) typed (text_line_short raw) (omega arith)

with_line-Ok :
    (change : List ℕ → Editor → Editor) (s : Editor)
    → IsValid s
    → Changes change s
    → Ok (length s.typed) (with_line change s)
unfolding with_line with_of
with_line-Ok change s valid ok = with_of-Ok change s s.typed valid (omega arith) ok

cmd_insert-Ok : (at : ℤ) (s : Editor) → IsValid s → Ok (length s.typed) (cmd_insert at s)
unfolding cmd_insert
cmd_insert-Ok (negsuc n) s valid = (valid, omega arith)
cmd_insert-Ok (pos at) s valid =
    if_elim (Ok (length s.typed)) (ltb s.line_count at || leb max_lines s.line_count)
      (λ bad. (valid, omega arith))
      (λ good.
        with_line-Ok (λ line s'. ensure_visible (pos at) (insert_line at line s')) s valid
          (λ line typed short le.
            ensure_visible-Ok (length s.typed) (pos at)
              (insert_line at line (record s { typed = typed }))
              (
                insert_line-IsValid at line (record s { typed = typed }) (ground arith)
                    (ground arith) valid short,
                le,
              )))

cmd_replace-Ok : (at : ℤ) (s : Editor) → IsValid s → Ok (length s.typed) (cmd_replace at s)
unfolding cmd_replace replace_line
cmd_replace-Ok (negsuc n) s valid = (valid, omega arith)
cmd_replace-Ok (pos at) s valid =
    if_elim (Ok (length s.typed)) (leb s.line_count at) (λ bad. (valid, omega arith))
      (λ good.
        with_line-Ok (λ line s'. ensure_visible (pos at) (replace_line at line s')) s valid
          (λ line typed short le.
            ensure_visible-Ok (length s.typed) (pos at)
              (replace_line at line (record s { typed = typed }))
              (update-Fits s.lines s.line_count at line valid short, le)))

same_typed : (at : ℕ) (s : Editor) → length (delete_line at s).typed ≤ length s.typed
unfolding delete_line
same_typed at s = omega arith

cmd_delete-Ok : (at : ℤ) (s : Editor) → IsValid s → Ok (length s.typed) (cmd_delete at s)
unfolding cmd_delete
cmd_delete-Ok (negsuc n) s valid = (valid, omega arith)
cmd_delete-Ok (pos at) s valid =
    if_elim (Ok (length s.typed)) (leb s.line_count at) (λ bad. (valid, omega arith))
      (λ good. (delete_line-IsValid at s (ground arith) valid, same_typed at s))

numbered-Ok :
    (cmd : List ℕ) (run : ℤ → Editor → Flow) (s : Editor)
    → IsValid s
    → ((at : ℤ) → Ok (length s.typed) (run at s))
    → Ok (length s.typed) (numbered cmd run s)
unfolding numbered
numbered-Ok cmd run s valid ok =
    if_elim (Ok (length s.typed)) (ltb_ℤ (parse_uint (drop 1 cmd)) (pos 0))
      (λ usage. (valid, omega arith)) (λ n. ok _)

command-Ok : (cmd : List ℕ) (s : Editor) → IsValid s → Ok (length s.typed) (command cmd s)
unfolding command
command-Ok cmd s valid =
    let P = Ok (length s.typed) in
    let here : OkEditor (length s.typed) s = (valid, omega arith) in
    let saved = save_file-Ok (length s.typed) s here in
    if_elim P (str_eq cmd (codes "q")) (λ e. if_elim P s.modified (λ m. here) (λ m. valid))
      (λ e.
        if_elim P (str_eq cmd (codes "q!")) (λ e. valid)
          (λ e.
            if_elim P (str_eq cmd (codes "wq")) (λ e. saved.0)
              (λ e.
                if_elim P (str_eq cmd (codes "w")) (λ e. saved)
                  (λ e.
                    if_elim P (str_eq cmd (codes "a")) (λ e. append_lines-Ok s.typed s valid)
                      (λ e.
                        if_elim P (str_starts_with cmd (codes "i"))
                          (λ e. numbered-Ok cmd cmd_insert s valid (λ at. cmd_insert-Ok at s valid))
                          (λ e.
                            if_elim P (str_starts_with cmd (codes "r"))
                              (λ e.
                                numbered-Ok cmd cmd_replace s valid
                                  (λ at. cmd_replace-Ok at s valid))
                              (λ e.
                                if_elim P (str_starts_with cmd (codes "d"))
                                  (λ e.
                                    numbered-Ok cmd cmd_delete s valid
                                      (λ at. cmd_delete-Ok at s valid))
                                  (λ e.
                                    if_elim P (str_starts_with cmd (codes "g"))
                                      (λ e.
                                        numbered-Ok cmd (λ line s'. goes (ensure_visible line s')) s
                                          valid
                                          (λ line. ensure_visible-Ok (length s.typed) line s here))
                                      (λ e. here)))))))))

-- The loop ends or waits for a line, in a valid state.
abbrev pub Finishes : Outcome → Type 0
Finishes (ended s) = IsValid s
Finishes (waiting s) = IsValid s
Finishes out_of_fuel = ⊥

round_of : ℕ → Editor → List (List ℕ) → Outcome
round_of fuel s [] = waiting s
round_of fuel s (raw ∷ typed) =
    edit_from fuel (command (read_line cmd_max [] raw) (record s { typed = typed }))

round_of-Finishes :
    (fuel n : ℕ) (s : Editor) (typed : List (List ℕ))
    → ((m : ℕ) (flow : Flow) → Ok m flow → m < fuel → Finishes (edit_from fuel flow))
    → IsValid s
    → length typed ≤ n
    → n < suc fuel
    → Finishes (round_of fuel s typed)
unfolding round_of
round_of-Finishes fuel n s [] rest valid few lt = valid
round_of-Finishes fuel n s (raw ∷ typed) rest valid few lt =
    rest (length typed) (command (read_line cmd_max [] raw) (record s { typed = typed }))
      (command-Ok (read_line cmd_max [] raw) (record s { typed = typed }) valid) (omega arith)

edit_from-Finishes :
    (fuel n : ℕ) (flow : Flow) → Ok n flow → n < fuel → Finishes (edit_from fuel flow)
unfolding edit_from round_of
edit_from-Finishes fuel n (ends s) ok lt = ok
edit_from-Finishes fuel n (waits s) ok lt = ok
edit_from-Finishes zero n (goes s) ok lt = absurd (omega arith)
edit_from-Finishes (suc fuel) n (goes s) (valid, few) lt =
    round_of-Finishes fuel n s s.typed (λ m flow ok less. edit_from-Finishes fuel m flow ok less)
      valid few lt

-- Whatever the file holds and whatever is typed: the editor ends or waits for a line, and then it has
-- at most 200 lines with at most 120 characters each, as many as its arrays have room for.
pub edit-Finishes : (s : Editor) → Finishes (edit s)
unfolding edit
edit-Finishes s =
    let (valid, typed) = load_file-IsValid s in
    edit_from-Finishes (length s.typed + 1) (length s.typed) (goes (load_file s))
      (valid, subst (λ (l : List (List ℕ)). length l ≤ length s.typed) (sym typed) (omega arith))
      (omega arith)
