-- ===== src/Examples/Spacing.antt =====
-- The checks of spaces and braces on small texts.
use gameboy_emulator.Base.{◌≡◌, refl, List, [], ◌∷◌, some}
use gameboy_emulator.Base.Text.{Str, codes, elem, find, is_space}
use gameboy_emulator.Lint.Braces.{
  check_braces_spacing, missing_space, semicolon_spacing, tight_brace_pattern,
  initializer_end_pattern, trailing_text, empty_statement_pattern, only_semicolon_pattern,
  space_semicolon_pattern,
}
use gameboy_emulator.Lint.EmptyBodies.{check_empty_block_body, condition_pattern}
use gameboy_emulator.Lint.Expression.{close_expression, reverse_close_expression}
use gameboy_emulator.Lint.LineChecks.{line_report}
use gameboy_emulator.Lint.Operators
use gameboy_emulator.Lint.Regex.{match_re, search_re, group_of, literal, replace_all}
use gameboy_emulator.Lint.Semicolons.{
  captured, found_group, parenthesis_pattern, macro_pattern, bracket_end_pattern, alignas_pattern,
  decltype_pattern, assignment_pattern, semicolon_pattern, safe_macros, is_exempt, rfind, is_block,
  block_start, redundant_semicolon,
}
use gameboy_emulator.Lint.Spacing
use gameboy_emulator.Lint.Strings.{CleansedLines}

abbrev cleansed : List Str → CleansedLines
cleansed lines = record {
  elided = lines;
  lines = lines;
  raw_lines = lines;
  lines_without_raw_strings = lines;
}

abbrev texts : List Str
texts = codes "" ∷ codes "if (a) {};" ∷ codes "while (b);" ∷ codes "f{1};" ∷ codes "" ∷ []

-- The semicolon behind the braces of line 1.
semicolon_found : redundant_semicolon (cleansed texts) 1 ≡ some (some 1)
unfolding redundant_semicolon block_start captured found_group parenthesis_pattern is_block rfind
    is_exempt macro_pattern bracket_end_pattern alignas_pattern decltype_pattern assignment_pattern
    semicolon_pattern reverse_close_expression close_expression match_re search_re group_of literal
    is_space safe_macros elem gameboy_emulator.Lint.Expression.open_in
    gameboy_emulator.Lint.Expression.find_start_of_expression_in_line
    gameboy_emulator.Lint.Expression.start_step gameboy_emulator.Lint.Expression.close_in
    gameboy_emulator.Lint.Expression.find_end_of_expression_in_line
    gameboy_emulator.Lint.Expression.end_step
semicolon_found = refl

-- A loop whose body is a semicolon.
empty_loop :
    check_empty_block_body (cleansed texts) 2
    ≡ some (
        line_report 2
          (codes "whitespace/empty_loop_body")
          5
          (codes "Empty loop bodies should use {} or continue"))
unfolding check_empty_block_body captured condition_pattern close_expression match_re search_re
    group_of literal is_space find gameboy_emulator.Lint.Expression.close_in
    gameboy_emulator.Lint.Expression.find_end_of_expression_in_line
    gameboy_emulator.Lint.Expression.end_step line_report
empty_loop = refl

-- A brace initialization has no space before it.
initializer : check_braces_spacing (cleansed texts) [] 3 ≡ some []
unfolding check_braces_spacing missing_space captured tight_brace_pattern close_expression
    initializer_end_pattern trailing_text semicolon_spacing empty_statement_pattern
    only_semicolon_pattern space_semicolon_pattern match_re search_re group_of literal is_space
    gameboy_emulator.Lint.Expression.close_in
    gameboy_emulator.Lint.Expression.find_end_of_expression_in_line
    gameboy_emulator.Lint.Expression.end_step
initializer = refl

shift_without_spaces :
    Operators.check_operator_spacing (cleansed (codes "x = a<<b;" ∷ [])) 0
    ≡ some (line_report 0 (codes "whitespace/operators") 3 (codes "Missing spaces around <<"))
unfolding Operators.check_operator_spacing Operators.hide_operators
    Operators.operator_method_pattern Operators.assignment_spaces
    Operators.condition_keyword_pattern Operators.compound_pattern Operators.comparison_spaces
    Operators.comparison_pattern Operators.include_pattern Operators.less_spaces
    Operators.greater_spaces Operators.tight_less_pattern Operators.tight_greater_pattern
    Operators.shift_left_spaces Operators.shift_left_pattern Operators.is_digits
    Operators.shift_right_pattern Operators.unary_pattern captured found_group match_re search_re
    group_of literal is_space line_report
shift_without_spaces = refl

comma_without_space :
    Spacing.check_comma_spacing (cleansed (codes "f(a,b);" ∷ [])) 0
    ≡ line_report 0 (codes "whitespace/comma") 3 (codes "Missing space after ,")
unfolding Spacing.check_comma_spacing Spacing.tight_comma_pattern Spacing.operator_comma_pattern
    Spacing.tight_semicolon_pattern replace_all search_re literal is_space line_report
comma_without_space = refl

unequal_spaces :
    Spacing.check_parenthesis_spacing (cleansed (codes "if ( ab) {" ∷ [])) 0
    ≡ line_report 0 (codes "whitespace/parens") 5 (codes "Mismatching spaces inside () in if")
unfolding Spacing.check_parenthesis_spacing Spacing.tight_keyword_pattern
    Spacing.condition_spaces_pattern Spacing.for_end_pattern Spacing.condition_spaces found_group
    search_re group_of literal is_space line_report
unequal_spaces = refl

call_with_space :
    Spacing.check_spacing_for_function_call (cleansed (codes "x = f( 1);" ∷ [])) 0
    ≡ line_report 0 (codes "whitespace/parens") 4 (codes "Extra space after ( in function call")
unfolding Spacing.check_spacing_for_function_call Spacing.function_call Spacing.control_pattern
    Spacing.keyword_pattern Spacing.parenthesized Spacing.function_pointer_pattern
    Spacing.array_pointer_pattern Spacing.space_after_parenthesis Spacing.space_after_call_pattern
    Spacing.space_after_pattern Spacing.space_before_parenthesis Spacing.space_before_pattern
    Spacing.space_before_close Spacing.space_before_close_pattern found_group search_re group_of
    literal is_space line_report
call_with_space = refl

-- With a single character the pattern gives up the space for it, and there is no report.
unequal_spaces_missed : Spacing.check_parenthesis_spacing (cleansed (codes "if ( a) {" ∷ [])) 0 ≡ []
unfolding Spacing.check_parenthesis_spacing Spacing.tight_keyword_pattern
    Spacing.condition_spaces_pattern Spacing.for_end_pattern Spacing.condition_spaces found_group
    search_re group_of literal is_space line_report
unequal_spaces_missed = refl
