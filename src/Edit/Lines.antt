-- ===== src/Edit/Lines.antt =====
-- The lines of programs/edit.c as a list, and what the loops over them do.
use mini_kernel.Prelude.{
  ℕ, zero, suc, ◌+◌, ◌-◌, ◌≤◌, ◌<◌, ◌≡◌, refl, ap, ap₂, sym, ◌∙◌, ◌&&◌, List, ◌∷◌, ◌++◌,
  if◌then◌else◌, ltb, leb, take, drop, update, update_self, slice, slice_agree, slice_shift,
  slice-append, arith, ℕ_discrete,
}
use mini_kernel.Edit.{Editor, shift_down, shift_up, insert_line, replace_line, delete_line}

-- The text that is edited.
abbrev pub text : Editor → List (List ℕ)
text s = slice s.lines 0 s.line_count

take-slice : (t : ℕ → List ℕ) (i n m : ℕ) → take n (slice t i (n + m)) ≡ slice t i n
take-slice t i zero m = refl
take-slice t i (suc n) m =
    let e : suc n + m ≡ suc (n + m) = omega arith in
    ap (λ k. take (suc n) (slice t i k)) e ∙ ap (λ l. t i ∷ l) (take-slice t (i + 1) n m)

drop-slice : (t : ℕ → List ℕ) (i n m : ℕ) → drop n (slice t i (n + m)) ≡ slice t (i + n) m
drop-slice t i zero m = ap₂ (slice t) (omega arith) (omega arith)
drop-slice t i (suc n) m =
    let e : suc n + m ≡ suc (n + m) = omega arith in
    ap (λ k. drop (suc n) (slice t i k)) e
    ∙ drop-slice t (i + 1) n m
    ∙ ap (λ k. slice t k m) (omega arith)

pub take_text :
    (t : ℕ → List ℕ) (at count : ℕ) → at ≤ count → take at (slice t 0 count) ≡ slice t 0 at
take_text t at count le =
    let e : count ≡ at + (count - at) = omega arith in
    ap (λ k. take at (slice t 0 k)) e ∙ take-slice t 0 at (count - at)

pub drop_text :
    (t : ℕ → List ℕ) (at count : ℕ)
    → at ≤ count
    → drop at (slice t 0 count) ≡ slice t at (count - at)
drop_text t at count le =
    let e : count ≡ at + (count - at) = omega arith in
    ap (λ k. drop at (slice t 0 k)) e
    ∙ drop-slice t 0 at (count - at)
    ∙ ap (λ k. slice t k (count - at)) (omega arith)

split_text :
    (t : ℕ → List ℕ) (at count : ℕ)
    → at ≤ count
    → slice t 0 count ≡ slice t 0 at ++ slice t at (count - at)
split_text t at count le =
    let e : 0 + at ≡ at = omega arith in
    sym (slice-append t 0 at count le) ∙ ap (λ k. slice t 0 at ++ slice t k (count - at)) e

pub shift_down_at :
    (at n j : ℕ) (t : ℕ → List ℕ)
    → shift_down at n t j ≡ (if ltb at j && leb j (at + n) then t (j - 1) else t j)
unfolding shift_down
shift_down_at at zero j t = ground arith
shift_down_at at (suc n) j t =
    let rest = shift_down_at at n j (update t (at + n + 1) (t (at + n))) in
    elim (ℕ_discrete j (at + n + 1)) [
      | yes e ↦ let same : t (at + n) ≡ t (j - 1) = ap t (omega arith) in ground arith
      | no ne ↦ ground arith
    ]

pub shift_up_at :
    (at n j : ℕ) (t : ℕ → List ℕ)
    → shift_up at n t j ≡ (if leb at j && ltb j (at + n) then t (j + 1) else t j)
unfolding shift_up
shift_up_at at zero j t = ground arith
shift_up_at at (suc n) j t =
    let rest = shift_up_at (at + 1) n j (update t at (t (at + 1))) in
    elim (ℕ_discrete j at) [
      | yes e ↦ let same : t (at + 1) ≡ t (j + 1) = ap t (omega arith) in ground arith
      | no ne ↦ ground arith
    ]

-- Inserting a line at a place in the text puts it there, before the lines that stood from there on.
pub insert_line-text :
    (at : ℕ) (line : List ℕ) (s : Editor)
    → at ≤ s.line_count
    → text (insert_line at line s) ≡ take at (text s) ++ (line ∷ drop at (text s))
unfolding insert_line
insert_line-text at line s le =
    let n = s.line_count - at in
    let t = s.lines in
    let t' = update (shift_down at n t) at line in
    let before : slice t' 0 at ≡ slice t 0 at =
      slice_agree t' t 0 at (λ k p q. let moved = shift_down_at at n k t in ground arith) in
    let behind : slice t' (at + 1) n ≡ slice t at n = slice_shift t' t (at + 1) at n (λ k lt.
      let moved = shift_down_at at n (at + 1 + k) t in
      let same : t (at + 1 + k - 1) ≡ t (at + k) = ap t (omega arith) in ground arith) in
    let count : s.line_count + 1 - at ≡ suc n = omega arith in
    split_text t' at (s.line_count + 1) (omega arith)
    ∙ ap₂ ◌++◌ (before ∙ sym (take_text t at s.line_count le)) (
        ap (slice t' at) count
        ∙ ap₂ ◌∷◌ (update_self (shift_down at n t) at line)
            (behind ∙ sym (drop_text t at s.line_count le)))

-- Replacing a line of the text leaves the lines before it and behind it.
pub replace_line-text :
    (at : ℕ) (line : List ℕ) (s : Editor)
    → at < s.line_count
    → text (replace_line at line s) ≡ take at (text s) ++ (line ∷ drop (at + 1) (text s))
unfolding replace_line
replace_line-text at line s lt =
    let t = s.lines in
    let t' = update t at line in
    let n = s.line_count - (at + 1) in
    let before : slice t' 0 at ≡ slice t 0 at = slice_agree t' t 0 at (λ k p q. ground arith) in
    let behind : slice t' (at + 1) n ≡ slice t (at + 1) n =
      slice_agree t' t (at + 1) n (λ k p q. ground arith) in
    let count : s.line_count - at ≡ suc n = omega arith in
    split_text t' at s.line_count (omega arith)
    ∙ ap₂ ◌++◌ (before ∙ sym (take_text t at s.line_count (omega arith))) (
        ap (slice t' at) count
        ∙ ap₂ ◌∷◌ (update_self t at line)
            (behind ∙ sym (drop_text t (at + 1) s.line_count (omega arith))))

-- Deleting a line of the text leaves the lines before it and behind it.
pub delete_line-text :
    (at : ℕ) (s : Editor)
    → at < s.line_count
    → text (delete_line at s) ≡ take at (text s) ++ drop (at + 1) (text s)
unfolding delete_line
delete_line-text at s lt =
    let n = s.line_count - 1 - at in
    let t = s.lines in
    let t' = shift_up at n t in
    let before : slice t' 0 at ≡ slice t 0 at =
      slice_agree t' t 0 at (λ k p q. let moved = shift_up_at at n k t in ground arith) in
    let behind : slice t' at n ≡ slice t (at + 1) n = slice_shift t' t at (at + 1) n (λ k less.
      let moved = shift_up_at at n (at + k) t in
      let same : t (at + k + 1) ≡ t (at + 1 + k) = ap t (omega arith) in ground arith) in
    let count : s.line_count - (at + 1) ≡ n = omega arith in
    split_text t' at (s.line_count - 1) (omega arith)
    ∙ ap₂ ◌++◌ (before ∙ sym (take_text t at s.line_count (omega arith))) (
        behind
        ∙ sym (drop_text t (at + 1) s.line_count (omega arith) ∙ ap (slice t (at + 1)) count))

-- Inserting, replacing and deleting at a line of the text: the line is put before it, stands in its
-- place, or it is gone, and the lines before it and behind it stay in their order.
pub edits-text :
    (at : ℕ) (line : List ℕ) (s : Editor)
    → at < s.line_count
    → (text (insert_line at line s) ≡ take at (text s) ++ (line ∷ drop at (text s)))
      × (text (replace_line at line s) ≡ take at (text s) ++ (line ∷ drop (at + 1) (text s)))
      × (text (delete_line at s) ≡ take at (text s) ++ drop (at + 1) (text s))
edits-text at line s lt = (
  insert_line-text at line s (omega arith),
  replace_line-text at line s lt,
  delete_line-text at s lt,
)
