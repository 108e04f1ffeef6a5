-- ===== src/Lang/Tests.antt =====
-- The script interpreter of programs/lang.c at concrete scripts.
use mini_kernel.Prelude.{
  none, ◌≤◌, ◌≡◌, refl, arith, List, [], ◌∷◌, ◌++◌, some, pos, negsuc, length, codes,
}
use mini_kernel.Lang.{Value, Cursor, Vars, skip_ws, parse_expr, enough_fuel, expression}
use mini_kernel.Lang.Grammar.{
  Expr, num, var, paren, spaced, factor, mul, term, add, sub, show_expr, value_expr,
}
use mini_kernel.Lang.Fuel.{parse_expr_total}
use mini_kernel.Lang.Equivalence.{expression-show_expr}
use mini_kernel.Lang.Exec.{finished, run_from, run_script, int_text}
use mini_kernel.Lang.Variables.{EndBounded, run_script-EndBounded}
use mini_kernel.Lang.Numbers.{expression-int_text}
use mini_kernel.Lang.Load.{load_lines, AllShort, load_lines-Short}

abbrev x_is_7 : Vars
x_is_7 = (codes "x", pos 7) ∷ []

parse_expr_total_example :
    (v : Value) × (r : Cursor) × (parse_expr (enough_fuel (codes "((x+")) x_is_7 (codes "((x+")
      ≡ some (v, r))
    × (length r ≤ length (codes "((x+"))
parse_expr_total_example = parse_expr_total x_is_7 (codes "((x+")

-- 10 - 2 *(x +1)
abbrev sample : Expr
sample = sub (term (factor (num 1 (0 ∷ [])))) (
    mul (factor (spaced (num 2 [])))
      (paren (add (term (factor (var b'x' [] refl refl tt))) (factor (num 1 [])))))

sample_text : show_expr sample (codes " goto") ≡ codes "10 - 2 *(x +1) goto"
unfolding show_expr
sample_text = refl

expression-show_expr_example :
    expression x_is_7 (show_expr sample (codes " goto")) ≡ (value_expr x_is_7 sample, codes "goto")
unfolding skip_ws
expression-show_expr_example =
    expression-show_expr x_is_7 sample (codes " goto") ((refl, refl), refl)

-- The most negative number divided by -1.
divide_error : expression [] (codes "(-9223372036854775807-1)/(-1) + 1") ≡ (none, [])
unfolding expression
divide_error = refl

sample_value : value_expr x_is_7 sample ≡ some (negsuc 5)
unfolding value_expr
sample_value = refl

abbrev script : List Cursor
script =
    codes "let n = 3"
    ∷ codes "# down"
    ∷ codes "print n"
    ∷ codes "let n = n - 1"
    ∷ codes "if n > 0 goto 3"
    ∷ codes "end"
    ∷ []

run_script-EndBounded_example :
    EndBounded (run_script script (record { vars = []; input = []; output = [] }))
run_script-EndBounded_example = run_script-EndBounded script []

counts_down :
    run_from 20 script (pos 0) (record { vars = []; input = []; output = [] })
    ≡ finished (record {
      vars = (codes "n", pos 0) ∷ [];
      input = [];
      output = codes "3" ++ 10 ∷ codes "2" ++ 10 ∷ codes "1" ++ 10 ∷ [];
    })
unfolding run_from
counts_down = refl

expression-int_text_example :
    expression [] (int_text (negsuc 41) ++ codes " ") ≡ (some (negsuc 41), [])
unfolding skip_ws
expression-int_text_example =
    expression-int_text [] (negsuc 41) (codes " ") (omega arith) (omega arith) ((refl, refl), refl)

load_lines-Short_example :
    (length (load_lines (codes "end")) ≤ 200) × AllShort (load_lines (codes "end"))
load_lines-Short_example = load_lines-Short (codes "end")
