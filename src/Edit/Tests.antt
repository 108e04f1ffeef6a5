-- ===== src/Edit/Tests.antt =====
-- The editor of programs/edit.c at concrete states.
use mini_kernel.Prelude.{
  ℕ, zero, suc, ◌+◌, ◌≤◌, ◌<◌, ◌≡◌, refl, pos, minus_one, ◌-ℤ◌, true, false, Option, none, some,
  List, [], ◌∷◌, ◌++◌, if◌then◌else◌, ◌==◌, length, take, drop, codes, arith,
}
use mini_kernel.Edit.{
  Editor, saved_bytes, insert_line, replace_line, delete_line, load_file, save_file, ensure_visible,
}
use mini_kernel.Edit.Lines.{text, edits-text}
use mini_kernel.Edit.Commands.{ended, edit}
use mini_kernel.Edit.Bounds.{Finishes, edit-Finishes}
use mini_kernel.Edit.Saved.{save_load, AllPlain}

-- Two lines, and three that are typed.
abbrev two_lines : Editor
two_lines = record {
  lines = λ i. if i == 0 then 65 ∷ [] else if i == 1 then 66 ∷ 66 ∷ [] else [];
  line_count = 2;
  modified = false;
  top_line = pos 0;
  text_rows_visible = 21;
  file = none;
  can_save = true;
  typed = codes "i2" ∷ codes "new" ∷ codes "wq" ∷ [];
}

edits-text_example :
    (text (insert_line 1 (codes "new") two_lines)
      ≡ take 1 (text two_lines) ++ (codes "new" ∷ drop 1 (text two_lines)))
    × (text (replace_line 1 (codes "new") two_lines)
        ≡ take 1 (text two_lines) ++ (codes "new" ∷ drop (1 + 1) (text two_lines)))
    × (text (delete_line 1 two_lines) ≡ take 1 (text two_lines) ++ drop (1 + 1) (text two_lines))
edits-text_example = edits-text 1 (codes "new") two_lines (omega arith)

edit-Finishes_example : Finishes (edit two_lines)
edit-Finishes_example = edit-Finishes two_lines

two_plain :
    (k : ℕ) → 0 ≤ k → k < 0 + 2 → AllPlain (two_lines.lines k) × (length (two_lines.lines k) ≤ 120)
two_plain zero p q = (((λ e. omega arith), tt), omega arith)
two_plain (suc zero) p q = (((λ e. omega arith), ((λ e. omega arith), tt)), omega arith)
two_plain (suc (suc k)) p q = absurd (omega arith)

two_fit : length (saved_bytes two_lines.lines 0 2) ≤ 24064
unfolding saved_bytes
two_fit = omega arith

save_load_example : text (load_file (save_file two_lines)) ≡ text two_lines
save_load_example = save_load two_lines refl (omega arith) two_plain two_fit

-- The command `g0` puts the first visible line before the first line of the text.
goes_before_first : (ensure_visible (pos 0 -ℤ pos 1) two_lines).top_line ≡ minus_one
unfolding ensure_visible
goes_before_first = refl

-- A file is loaded, changed and saved.
abbrev saved_file : Option (List ℕ)
saved_file = elim (edit (record two_lines { file = some (codes "a\nb\n") })) [
  | ended s ↦ s.file
  | _ ↦ none
]

inserted_and_saved : saved_file ≡ some (codes "a\nnew\nb\n")
unfolding edit
inserted_and_saved = refl
