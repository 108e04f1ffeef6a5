-- ===== src/Edit/Saved.antt =====
-- What programs/edit.c saves and loads again.
use mini_kernel.Prelude.{
  ℕ, zero, suc, ◌+◌, ◌-◌, ◌*◌, ◌≤◌, ◌<◌, ◌≡◌, ◌≢◌, refl, ap, sym, subst, ◌∙◌, Bool, true, false,
  some, List, [], ◌∷◌, ◌++◌, append_assoc, append-nil, if◌then◌else◌, if-true, if-false, ltb, leb,
  ◌==◌, length, length-append, length-take, length-drop, take-append-drop, take, drop, update,
  update_self, update_ne, slice, slice_shift, arith, ℕ_discrete,
}
use mini_kernel.Edit.{
  Editor, max_lines, max_line_len, read_content, split_lines, load_file, saved_bytes, save_file,
}
use mini_kernel.Edit.Lines.{text}

if_same {ℓ} : {A : Type ℓ} (b : Bool) (x : A) → (if b then x else x) ≡ x
if_same true x = refl
if_same false x = refl

-- All the bytes of a file that fits are read.
read_content_all :
    (rounds total : ℕ) (rest : List ℕ)
    → length rest ≤ rounds * 512
    → total + rounds * 512 ≤ 24064
    → read_content (suc rounds) total rest ≡ rest
unfolding read_content
read_content_all zero total [] short fits =
    if_same (leb (total + 512) (max_lines * (max_line_len + 1))) []
read_content_all zero total (b ∷ rest) short fits = absurd (omega arith)
read_content_all (suc rounds) total [] short fits =
    if_same (leb (total + 512) (max_lines * (max_line_len + 1))) []
read_content_all (suc rounds) total (b ∷ rest) short fits =
    let all = b ∷ rest in
    let piece = take 512 all in
    let room : leb (total + 512) (max_lines * (max_line_len + 1)) ≡ true = ground arith in
    let n = length-take 512 all in
    let m = length-drop 512 all in
    let some_bytes : (length piece == 0) ≡ false = ground arith in
    if-true _ _ room
    ∙ if-false _ _ some_bytes
    ∙ ap (λ l. piece ++ l)
        (read_content_all rounds (total + length piece) (drop 512 all) (omega arith) (omega arith))
    ∙ take-append-drop 512 all

-- The characters of a line.
abbrev pub AllPlain : List ℕ → Type 0
AllPlain [] = Unit {0}
AllPlain (c ∷ line) = (c ≢ 10) × AllPlain line

split_line :
    (lines : ℕ → List ℕ) (count : ℕ) (line rest content : List ℕ)
    → count < 200
    → AllPlain rest
    → length line + length rest ≤ 120
    → split_lines lines count line (rest ++ (10 ∷ content))
      ≡ split_lines (update lines count (line ++ rest)) (count + 1) [] content
unfolding split_lines
split_line lines count line [] content lt plain short =
    let room : ltb count max_lines ≡ true = ground arith in
    if-true _ _ room
    ∙ ap (λ l. split_lines (update lines count l) (count + 1) [] content) (sym (append-nil line))
split_line lines count line (c ∷ rest) content lt (ne, plain) short =
    let room : ltb count max_lines ≡ true = ground arith in
    let other : (c == 10) ≡ false = ground arith in
    let stored : ltb (length line) max_line_len ≡ true = ground arith in
    let n = length-append line (c ∷ []) in
    if-true _ _ room
    ∙ if-false _ _ other
    ∙ ap (λ l. split_lines lines count l (rest ++ (10 ∷ content))) (if-true _ _ stored)
    ∙ split_line lines count (line ++ (c ∷ [])) rest content lt plain (omega arith)
    ∙ ap (λ l. split_lines (update lines count l) (count + 1) [] content)
        (append_assoc line (c ∷ []) rest)

-- What the splitting makes of lines that were saved.
abbrev Split : (ℕ → List ℕ) → (ℕ → List ℕ) → ℕ → ℕ → ℕ → (ℕ → List ℕ) × ℕ → Type 0
Split lines saved i count n (lines', count') =
    (count' ≡ count + n)
    × ((k : ℕ) → k < count → lines' k ≡ lines k)
    × ((k : ℕ) → k < n → lines' (count + k) ≡ saved (i + k))

Split-saved :
    (saved lines : ℕ → List ℕ) (i count n : ℕ)
    → count + n ≤ 200
    → ((k : ℕ) → i ≤ k → k < i + n → AllPlain (saved k) × (length (saved k) ≤ 120))
    → Split lines saved i count n (split_lines lines count [] (saved_bytes saved i n))
unfolding split_lines saved_bytes
Split-saved saved lines i count zero le plain =
    (omega arith, λ k lt. refl, λ k lt. absurd (omega arith))
Split-saved saved lines i count (suc n) le plain =
    let (plain_i, short_i) = plain i (omega arith) (omega arith) in
    let lines1 = update lines count (saved i) in
    let (counted, before, stored) =
      Split-saved saved lines1 (i + 1) (count + 1) n (omega arith)
        (λ k p q. plain k (omega arith) (omega arith)) in
    subst (Split lines saved i count (suc n))
      (sym (
        split_line lines count [] (saved i) (saved_bytes saved (i + 1) n) (omega arith) plain_i
          (omega arith)))
      (
        omega arith,
        λ k lt. before k (omega arith) ∙ update_ne lines count k (saved i) (λ e. omega arith),
        λ k lt. elim (ℕ_discrete k 0) [
          | yes e ↦
              let (lines', count') =
                split_lines lines1 (count + 1) [] (saved_bytes saved (i + 1) n) in
              ap lines' (omega arith)
              ∙ before count (omega arith)
              ∙ update_self lines count (saved i)
              ∙ ap saved (omega arith)
          | no ne ↦
              let (lines', count') =
                split_lines lines1 (count + 1) [] (saved_bytes saved (i + 1) n) in
              ap lines' (omega arith) ∙ stored (k - 1) (omega arith) ∙ ap saved (omega arith)
        ],
      )

-- Saving a text whose lines hold no line feed and at most 120 characters, 200 lines and 24064 bytes
-- at most, and loading the file gives the same text.
pub save_load :
    (s : Editor)
    → s.can_save ≡ true
    → s.line_count ≤ 200
    → ((k : ℕ) → 0 ≤ k → k < 0 + s.line_count → AllPlain (s.lines k) × (length (s.lines k) ≤ 120))
    → length (saved_bytes s.lines 0 s.line_count) ≤ 24064
    → text (load_file (save_file s)) ≡ text s
unfolding save_file load_file
save_load s opens few plain fits =
    let bytes = saved_bytes s.lines 0 s.line_count in
    let saved : Editor = record s { file = some bytes; modified = false } in
    let read : read_content 48 0 bytes ≡ bytes =
      read_content_all 47 0 bytes (omega arith) (omega arith) in
    let (counted, before, stored) =
      Split-saved s.lines s.lines 0 0 s.line_count (omega arith) plain in
    let r = split_lines s.lines 0 [] bytes in
    ap (λ x. text (load_file x)) (if-true _ _ opens)
    ∙ ap (λ l. let r' = split_lines s.lines 0 [] l in slice r'.0 0 r'.1) read
    ∙ ap (slice r.0 0) (counted ∙ omega arith)
    ∙ slice_shift r.0 s.lines 0 0 s.line_count stored
