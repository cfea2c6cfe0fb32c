-- ===== src/Tests/Language.antt =====
-- Expressions and spans at concrete texts, with a runtime whose floats are natural numbers.
use open_git.Base.{
  ℕ, ◌+◌, ◌==◌, ltb, leb, ◌≡◌, refl, true, false, List, [], ◌∷◌, ◌++◌, Option, none, some, Bytes,
  codes, length, bytes_eq, has_prefix, index_of, contains, is_member, All,
}
use open_git.Workflow.Expression.{
  ExprNode, literal, context, unary, binary, present, Diagnostic, match, skip_whitespace, span,
  is_space, is_digit, is_letter, is_word, advance, advance_by, match_keyword, parse_ident,
  parse_number, peek,
}
use open_git.Workflow.Expression.Text.{trim_space, trim_by, space_width, back_space_width}
use open_git.Workflow.Expression.Parse.{
  parse_expression, parse_trimmed, parse_or, chain, chain_loop, parse_and, parse_equality,
  parse_comparison, parse_unary, unary_loop, match_any, parse_primary, primary_body, parse_atom,
  args_loop, close_call, parse_function_call, parse_group, parse_keyword, parse_name, parse_string,
  parse_word, path_loop, string_loop,
}
use open_git.Workflow.Expression.Parse.Sound.{IsWhole}
use open_git.Workflow.Expression.Parse.Total.{parse_expression-answers, parse_expression-IsWhole}
use open_git.Workflow.Eval.{
  truthy, loose_equal, eval_context_path, lookup_path, split_dot, literal_value, equal_otherwise,
  as_string, Runtime, EvalContext, str, bool,
}
use open_git.Workflow.Eval.Result.{ok}
use open_git.Workflow.Eval.Format.{digits_value}
use open_git.Workflow.Eval.Evaluate.{evaluate, eval_binary, apply_binary}
use open_git.Workflow.Eval.Whole.{FaultsInCalls, evaluate-FaultsInCalls}
use open_git.Workflow.Interpolate.{
  interpolate_string, evaluate_condition, write_span, evaluate_inner, condition_text, find_expr_end,
}
use open_git.Workflow.Interpolate.Substitute.{spanned, interpolate_string-span}
use open_git.Workflow.Interpolate.Condition.{wrapped, evaluate_condition-wrapped}

abbrev pub counting : Runtime
counting = record {
  Float = ℕ;
  zero_float = 0;
  one_float = 1;
  equal = λ a b. a == b;
  less = ltb;
  less_equal = leb;
  is_nan = λ _. false;
  is_inf = λ _. false;
  trunc = λ n. n;
  parse_float = digits_value 0;
  format_int = λ n. (b'0' + n) ∷ [];
  format_float = λ n. (b'0' + n) ∷ [];
  to_lower = λ s. s;
  equal_fold = bytes_eq;
  quote = λ s. b'"' ∷ s ++ b'"' ∷ [];
}

abbrev refs : Bytes → Option (Bytes → Option Bytes)
refs name = elim (bytes_eq name (codes "github")) [
  | true ↦
      some (λ key. elim (bytes_eq key (codes "ref")) [ true ↦ some (codes "main") | false ↦ none ])
  | false ↦ none
]

abbrev running : EvalContext
running = record { contexts = refs; failed = false; cancelled = false }

abbrev failing : EvalContext
failing = record { contexts = λ _. none; failed = false; cancelled = false }

abbrev on_main : ExprNode
on_main =
    binary (codes "==") (present (context (codes "github.ref"))) (present (literal (codes "main")))

parse_expression-answers_example :
    (nodes : List ExprNode) × (diags : List Diagnostic) × (parse_expression (codes "a ==")
      ≡ some (nodes, diags))
parse_expression-answers_example = parse_expression-answers (codes "a ==")

abbrev not_a : ExprNode
not_a = unary (codes "!") (present (context (codes "a")))

parses : parse_expression (codes "!a") ≡ some (not_a ∷ [], [])
unfolding parse_expression parse_trimmed trim_space trim_by space_width back_space_width parse_or
    chain chain_loop parse_and parse_equality parse_comparison parse_unary unary_loop match
    match_any has_prefix skip_whitespace span is_space is_digit is_letter is_word parse_primary
    primary_body parse_atom is_member bytes_eq args_loop close_call parse_function_call parse_group
    parse_keyword parse_name parse_string parse_word path_loop string_loop advance advance_by
    match_keyword parse_ident parse_number peek
parses = refl

parse_expression-IsWhole_example : All IsWhole (not_a ∷ []) × (length (not_a ∷ []) ≡ 1)
unfolding trim_space trim_by space_width back_space_width
parse_expression-IsWhole_example = parse_expression-IsWhole (codes "!a") (not_a ∷ []) [] parses refl

evaluates : evaluate counting running on_main ≡ ok (bool true)
unfolding evaluate eval_binary bytes_eq apply_binary loose_equal eval_context_path lookup_path
    split_dot literal_value digits_value is_digit equal_otherwise as_string truthy
evaluates = refl

reads_ref : evaluate counting running (context (codes "github.ref")) ≡ ok (str (codes "main"))
unfolding evaluate eval_context_path lookup_path split_dot bytes_eq
reads_ref = refl

reads_main : evaluate counting running (literal (codes "main")) ≡ ok (str (codes "main"))
unfolding evaluate literal_value digits_value is_digit bytes_eq
reads_main = refl

whole : IsWhole on_main
unfolding is_member bytes_eq
whole = (refl, tt, tt)

evaluate-FaultsInCalls_example : FaultsInCalls (evaluate counting running on_main)
evaluate-FaultsInCalls_example = evaluate-FaultsInCalls counting running on_main whole

abbrev nested : Bytes
nested = codes "a ${{ b }} }} c"

interpolate_string-span_example :
    interpolate_string counting running (spanned (codes "on ") (codes " a ") (codes "!"))
    ≡ write_span
        (codes "on ")
        (evaluate_inner counting running (trim_space (codes " a ")))
        (interpolate_string counting running (codes "!"))
interpolate_string-span_example =
    interpolate_string-span counting running (codes "on ") (codes " a ") (codes "!")
      (refl, (refl, (refl, tt))) (refl, (refl, (refl, tt))) (refl, (refl, (refl, tt)))

evaluate_condition-wrapped_example :
    evaluate_condition counting running (wrapped (codes " '}$' "))
    ≡ evaluate_condition counting running (codes " '}$' ")
unfolding contains index_of has_prefix
evaluate_condition-wrapped_example =
    evaluate_condition-wrapped counting running (codes " '}$' ") refl refl

-- A closing in a string ends the span all the same.
ends_in_string :
    condition_text (wrapped (codes "contains('a}}b', '}}')")) ≡ some (codes "contains('a")
unfolding condition_text index_of has_prefix find_expr_end trim_space trim_by space_width
    back_space_width
ends_in_string = refl
