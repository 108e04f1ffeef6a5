-- ===== src/Lang/Numbers.antt =====
-- The numbers that a script of programs/lang.c prints can be read back as expressions.
use native.Mathlib.Nat.{pow-suc}
use mini_kernel.Prelude.{
  some, ℕ, zero, suc, ◌+◌, ◌*◌, ◌/◌, ◌%◌, ◌^◌, ◌≤◌, ◌<◌, ◌≡◌, refl, ap, sym, ◌∙◌, ℤ, pos, negsuc,
  ◌-ℤ◌, pos_part, neg_part, false, List, [], ◌∷◌, ◌++◌, if◌then◌else◌, ◌==◌, arith, if_elim,
}
use mini_kernel.Lang.{Cursor, Vars, skip_ws, expression, wrap}
use mini_kernel.Lang.Exec.{digits, int_text}
use mini_kernel.Lang.Grammar.{num, neg, factor, term, show_digits, show_expr, value_expr, decimal}
use mini_kernel.Lang.Equivalence.{ExprEnd, expression-show_expr}

show_digits-append :
    (ds : List ℕ) (d : ℕ) (rest : Cursor)
    → show_digits (ds ++ d ∷ []) rest ≡ show_digits ds ((b'0' + d % 10) ∷ rest)
show_digits-append [] d rest = refl
show_digits-append (e ∷ ds) d rest = ap (λ s. (b'0' + e % 10) ∷ s) (show_digits-append ds d rest)

decimal-append : (ds : List ℕ) (n d : ℕ) → decimal n (ds ++ d ∷ []) ≡ decimal n ds * 10 + d % 10
decimal-append [] n d = refl
decimal-append (e ∷ ds) n d = decimal-append ds (n * 10 + e % 10) d

digits_shown :
    (rounds v : ℕ) (rest : Cursor)
    → v < 10 ^ rounds
    → (ds : List ℕ) × (digits rounds v rest ≡ show_digits ds rest) × (decimal 0 ds ≡ v)
unfolding digits
digits_shown zero v rest h = ([], refl, omega arith)
digits_shown (suc rounds) v rest h =
    if_elim (λ (l : List ℕ). (ds : List ℕ) × (l ≡ show_digits ds rest) × (decimal 0 ds ≡ v))
      (v == 0) (λ e. ([], refl, ground arith))
      λ e.
        let (ds, shown, value) =
          digits_shown rounds (v / 10) ((b'0' + v % 10) ∷ rest)
            (omega (arith, pow-suc 10 rounds)) in
        (
          ds ++ v ∷ [],
          shown ∙ sym (show_digits-append ds v rest),
          omega (arith, decimal-append ds 0 v),
        )

-- Digits in front of a text, as a number of the grammar.
as_number :
    (ds : List ℕ) (n : ℕ) → 0 < n → decimal 0 ds ≡ n → (d : ℕ) × (more : List ℕ) × (ds ≡ d ∷ more)
as_number [] n h e = absurd (omega arith)
as_number (d ∷ ds) n h e = (d, ds, refl)

digits-append :
    (rounds v : ℕ) (out rest : Cursor) → digits rounds v out ++ rest ≡ digits rounds v (out ++ rest)
unfolding digits
digits-append zero v out rest = refl
digits-append (suc rounds) v out rest =
    ground (arith, digits-append rounds (v / 10) ((b'0' + v % 10) ∷ out) rest)

-- The number that is printed, as a factor.
number_factor :
    (n : ℕ)
    → n < 10 ^ 20
    → (rest : Cursor)
    → (d : ℕ) × (ds : List ℕ) × ((if n == 0 then b'0' ∷ [] else digits 20 n []) ++ rest
        ≡ show_digits (d ∷ ds) rest)
      × (decimal 0 (d ∷ ds) ≡ n)
number_factor n h rest =
    if_elim
      (λ (l : List ℕ).
        (d : ℕ) × (ds : List ℕ) × (l ++ rest ≡ show_digits (d ∷ ds) rest)
        × (decimal 0 (d ∷ ds) ≡ n))
      (n == 0) (λ e. (0, [], refl, ground arith))
      λ e.
        let (ds, shown, value) = digits_shown 20 n rest h in
        let (d, more, split) = as_number ds n (ground arith) value in
        (
          d,
          more,
          digits-append 20 n [] rest ∙ shown ∙ ap (λ l. show_digits l rest) split,
          ap (decimal 0) (sym split) ∙ value,
        )

wrap_small : (n : ℕ) → n < 2 ^ 63 → wrap (pos n) ≡ pos n
unfolding wrap
wrap_small n h = ground arith

wrap_neg : (n : ℕ) → n < 2 ^ 63 → wrap (pos 0 -ℤ wrap (pos (suc n))) ≡ negsuc n
unfolding wrap
wrap_neg n h = ground arith

positive : (n : ℕ) → (suc n == 0) ≡ false
positive n = ground arith

as_digits :
    (n : ℕ) (rest : Cursor)
    → digits 20 (suc n) [] ++ rest
      ≡ (if suc n == 0 then b'0' ∷ [] else digits 20 (suc n) []) ++ rest
as_digits n rest = rw (positive n) refl

-- A 64-bit integer, printed in front of a text that ends an expression, is read back as itself.
pub expression-int_text :
    (vars : Vars) (z : ℤ) (rest : Cursor)
    → pos_part z < 2 ^ 63
    → neg_part z ≤ 2 ^ 63
    → ExprEnd rest
    → expression vars (int_text z ++ rest) ≡ (some z, skip_ws rest)
unfolding int_text show_expr value_expr
expression-int_text vars (pos n) rest h k end =
    let (d, ds, shown, value) = number_factor n (omega arith) rest in
    ap (expression vars) shown
    ∙ expression-show_expr vars (term (factor (num d ds))) rest end
    ∙ ap (λ v. (v, skip_ws rest)) (ap (λ m. some (wrap (pos m))) value ∙ ap some (wrap_small n h))
expression-int_text vars (negsuc n) rest h k end =
    let (d, ds, shown, value) = number_factor (suc n) (omega arith) rest in
    ap (λ s. expression vars (b'-' ∷ s)) (as_digits n rest ∙ shown)
    ∙ expression-show_expr vars (term (factor (neg (num d ds)))) rest end
    ∙ ap (λ v. (v, skip_ws rest))
        (ap (λ m. some (wrap (pos 0 -ℤ wrap (pos m)))) value ∙ ap some (wrap_neg n (omega arith)))
