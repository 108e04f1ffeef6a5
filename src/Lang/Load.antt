-- ===== src/Lang/Load.antt =====
-- How programs/lang.c splits the text of a script into lines. The text holds no NUL.
use mini_kernel.Prelude.{
  ℕ, ◌+◌, ◌≤◌, ◌≡◌, List, [], ◌∷◌, if◌then◌else◌, ltb, ◌==◌, length, arith, if_elim,
}
use mini_kernel.Lang.{Cursor}
use mini_kernel.Lang.Exec.{reversed}

-- The loop of `load_script` and what follows it, with `count` lines stored and `line` the
-- characters of the next, the last first.
unfoldable pub split_from : ℕ → List ℕ → List ℕ → List Cursor
split_from count line [] =
    if length line == 0 then [] else if ltb count 200 then reversed line [] ∷ [] else []
split_from count line (c ∷ content) =
    let stored = reversed line [] ∷ split_from (count + 1) [] content in
    let longer = split_from count (if ltb (length line) 120 then c ∷ line else line) content in
    if ltb count 200 then if c == 10 then stored else longer else []

-- `lines`, of which there are `line_count`, after `load_script` read the text.
unfoldable pub load_lines : List ℕ → List Cursor
unfolding split_from
load_lines content = split_from 0 [] content

pub length-reversed : (s out : List ℕ) → length (reversed s out) ≡ length s + length out
length-reversed [] out = omega arith
length-reversed (c ∷ s) out = omega (arith, length-reversed s (c ∷ out))

abbrev pub AllShort : List Cursor → Type 0
AllShort [] = Unit {0}
AllShort (l ∷ lines) = (length l ≤ 120) × AllShort lines

split_from-Short :
    (content : List ℕ) (count : ℕ) (line : List ℕ)
    → length line ≤ 120
    → count ≤ 200
    → (count + length (split_from count line content) ≤ 200)
      × AllShort (split_from count line content)
unfolding split_from
split_from-Short [] count line h k =
    let P = λ (ls : List Cursor). (count + length ls ≤ 200) × AllShort ls in
    if_elim P (length line == 0) (λ e. (omega arith, tt))
      λ e.
        if_elim P (ltb count 200)
          (λ lt. (ground arith, (omega (arith, length-reversed line []), tt)))
          (λ ge. (omega arith, tt))
split_from-Short (c ∷ content) count line h k =
    let P = λ (ls : List Cursor). (count + length ls ≤ 200) × AllShort ls in
    if_elim P (ltb count 200)
      (λ lt.
        if_elim P (c == 10)
          (λ e.
            let (few, short) =
              split_from-Short content (count + 1) [] (omega arith) (ground arith) in
            (omega arith, (omega (arith, length-reversed line []), short)))
          (λ e.
            split_from-Short content count (if ltb (length line) 120 then c ∷ line else line)
              (ground arith) k))
      (λ ge. (omega arith, tt))

-- However long the text of a script and its lines are: at most 200 lines are stored, and each has
-- at most 120 characters, as many as the array `lines` has room for beside the NUL.
pub load_lines-Short :
    (content : List ℕ) → (length (load_lines content) ≤ 200) × AllShort (load_lines content)
unfolding load_lines
load_lines-Short content =
    let (few, short) = split_from-Short content 0 [] (omega arith) (omega arith) in
    (omega arith, short)
