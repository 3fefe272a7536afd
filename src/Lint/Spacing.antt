-- ===== src/Lint/Spacing.antt =====
-- CheckSpacingForFunctionCall, CheckParenthesisSpacing and CheckCommaSpacing of scripts/cpplint.py.
use gameboy_emulator.Base.{
  ℕ, ◌+◌, Bool, List, [], ◌∷◌, ◌++◌, none, some, length, leb, ◌==◌, if◌then◌else◌, not, ◌&&◌, ◌||◌,
}
use gameboy_emulator.Base.Text.{Str, codes, str_eq, is_space}
use gameboy_emulator.Lint.Blocks.{line_at, searches, group_or_empty}
use gameboy_emulator.Lint.LineChecks.{line_report}
use gameboy_emulator.Lint.Regex.{
  Regex, Matched, is_word, boundary, line_start, line_end, set, seq, alt, star, not_ahead, group,
  char, any_char, space, plus, opt, literal, search_re, replace_all,
}
use gameboy_emulator.Lint.Semicolons.{found_group}
use gameboy_emulator.Lint.Strings.{CleansedLines}
use gameboy_emulator.Lint.Suppress.{Report}

abbrev but : ℕ → Regex
but c = set (λ x. not (x == c))

abbrev word : Regex
word = set is_word

-- \bNAME\s*\((.*)\)\s* and what follows.
unfoldable pub control_pattern : Str → Regex → Regex
control_pattern name last = seq boundary (
    seq (literal name) (
      seq (star space) (
        seq (char b'(') (seq (group 1 (star any_char)) (seq (char b')') (seq (star space) last))))))

-- What stands in the parentheses of a control structure, or else the line.
unfoldable pub function_call : Str → Str
function_call line = elim (found_group (control_pattern (codes "if") (char b'{')) line) [
  | some s ↦ s
  | none ↦ elim (found_group (control_pattern (codes "for") (char b'{')) line) [
    | some s ↦ s
    | none ↦
        elim (found_group (control_pattern (codes "while") (set (λ x. x == b'{' || x == b';')))
          line) [
            | some s ↦ s
            | none ↦ elim (found_group (control_pattern (codes "switch") (char b'{')) line) [
              | some s ↦ s
              | none ↦ line
            ]
          ]
  ]
]

words : List Str → Regex
words [] = Regex.nothing
words (s ∷ []) = literal s
words (s ∷ t ∷ ss) = alt (literal s) (words (t ∷ ss))

-- \b(if|for|while|switch|return|new|delete|catch|sizeof)\b
unfoldable pub keyword_pattern : Regex
unfolding words
keyword_pattern = seq boundary (
    seq
      (words (
        codes "if"
        ∷ codes "for"
        ∷ codes "while"
        ∷ codes "switch"
        ∷ codes "return"
        ∷ codes "new"
        ∷ codes "delete"
        ∷ codes "catch"
        ∷ codes "sizeof"
        ∷ []))
      boundary)

-- \([^)]+\), behind a space.
unfoldable pub parenthesized : Regex
parenthesized = seq (char b' ') (seq (char b'(') (seq (plus (but b')')) (char b')')))

-- \([^)]*(\)|,$), behind that.
unfoldable pub function_pointer_pattern : Regex
function_pointer_pattern =
    seq parenthesized
      (seq (char b'(') (seq (star (but b')')) (alt (char b')') (seq (char b',') line_end))))

-- \[[^\]]+\], behind that.
unfoldable pub array_pointer_pattern : Regex
array_pointer_pattern = seq parenthesized (seq (char b'[') (seq (plus (but b']')) (char b']')))

-- \w\s*\(\s(?!\s*\\$)
unfoldable pub space_after_call_pattern : Regex
space_after_call_pattern = seq word (
    seq (star space)
      (seq (char b'(') (seq space (not_ahead (seq (star space) (seq (char 92) line_end))))))

-- \(\s+(?!(\s*\\)|\()
unfoldable pub space_after_pattern : Regex
space_after_pattern =
    seq (char b'(') (seq (plus space) (not_ahead (alt (seq (star space) (char 92)) (char b'('))))

-- \w\s+\(
unfoldable pub space_before_pattern : Regex
space_before_pattern = seq word (seq (plus space) (char b'('))

-- A word with up to two underscores on either side.
abbrev underscored : Str → Regex
underscored name =
    let underscores : Regex = opt (seq (char b'_') (opt (char b'_'))) in
    seq underscores (seq (literal name) underscores)

-- _{0,2}asm_{0,2}\s+_{0,2}volatile_{0,2}\s+\(
unfoldable pub asm_pattern : Regex
asm_pattern =
    seq (underscored (codes "asm"))
      (seq (plus space) (seq (underscored (codes "volatile")) (seq (plus space) (char b'('))))

-- #\s*define|typedef|using\s+\w+\s*=
unfoldable pub definition_pattern : Regex
definition_pattern = alt (seq (char b'#') (seq (star space) (literal (codes "define")))) (
    alt (literal (codes "typedef")) (
      seq (literal (codes "using"))
        (seq (plus space) (seq (plus word) (seq (star space) (char b'='))))))

-- \w\s+\((\w+::)*\*\w+\)\(
unfoldable pub member_pointer_pattern : Regex
member_pointer_pattern = seq space_before_pattern (
    seq (star (seq (plus word) (literal (codes "::"))))
      (seq (char b'*') (seq (plus word) (literal (codes ")(")))))

-- \bcase\s+\(
unfoldable pub case_pattern : Regex
case_pattern = seq boundary (seq (literal (codes "case")) (seq (plus space) (char b'(')))

-- \boperator_*\b
unfoldable pub operator_name_pattern : Regex
operator_name_pattern =
    seq boundary (seq (literal (codes "operator")) (seq (star (char b'_')) boundary))

-- [^)]\s+\)\s*[^{\s]
unfoldable pub space_before_close_pattern : Regex
space_before_close_pattern = seq (but b')') (
    seq (plus space)
      (seq (char b')') (seq (star space) (set (λ x. not (x == b'{' || is_space x))))))

-- ^\s+\)
unfoldable pub leading_close_pattern : Regex
leading_close_pattern = seq line_start (seq (plus space) (char b')'))

unfoldable pub space_after_parenthesis : ℕ → Str → List Report
space_after_parenthesis linenum fncall =
    if searches space_after_call_pattern fncall
    then line_report linenum (codes "whitespace/parens") 4
        (codes "Extra space after ( in function call")
    else if searches space_after_pattern fncall
    then line_report linenum (codes "whitespace/parens") 2 (codes "Extra space after (")
    else []

unfoldable pub space_before_parenthesis : ℕ → Str → Str → List Report
space_before_parenthesis linenum line fncall =
    if searches space_before_pattern fncall
      && not (searches asm_pattern fncall)
      && not (searches definition_pattern fncall)
      && not (searches member_pointer_pattern fncall)
      && not (searches case_pattern fncall)
    then line_report linenum (codes "whitespace/parens")
        (if searches operator_name_pattern line then 0 else 4)
        (codes "Extra space before ( in function call")
    else []

unfoldable pub space_before_close : ℕ → Str → List Report
space_before_close linenum fncall =
    if searches space_before_close_pattern fncall
    then line_report linenum (codes "whitespace/parens") 2 (
        if searches leading_close_pattern fncall
        then codes "Closing ) should be moved to the previous line"
        else codes "Extra space before )")
    else []

unfoldable pub check_spacing_for_function_call : CleansedLines → ℕ → List Report
check_spacing_for_function_call c linenum =
    let line = line_at c.elided linenum in
    let fncall = function_call line in
    if not (searches keyword_pattern fncall)
      && not (searches function_pointer_pattern fncall)
      && not (searches array_pointer_pattern fncall)
    then space_after_parenthesis linenum fncall
      ++ (space_before_parenthesis linenum line fncall ++ space_before_close linenum fncall)
    else []

-- (if\(|for\(|while\(|switch\(), behind a space
unfoldable pub tight_keyword_pattern : Regex
unfolding words
tight_keyword_pattern =
    seq (char b' ')
      (group 1 (words (codes "if(" ∷ codes "for(" ∷ codes "while(" ∷ codes "switch(" ∷ [])))

-- \b(if|for|while|switch)\s*\(([ ]*)(.).*[^ ]+([ ]*)\)\s*{\s*$
unfoldable pub condition_spaces_pattern : Regex
unfolding words
condition_spaces_pattern = seq boundary (
    seq (group 1 (words (codes "if" ∷ codes "for" ∷ codes "while" ∷ codes "switch" ∷ []))) (
      seq (star space) (
        seq (char b'(') (
          seq (group 2 (star (char b' '))) (
            seq (group 3 any_char) (
              seq (star any_char) (
                seq (plus (but b' ')) (
                  seq (group 4 (star (char b' '))) (
                    seq (char b')')
                      (seq (star space) (seq (char b'{') (seq (star space) line_end))))))))))))

-- \bfor\s*\(.*; \)
unfoldable pub for_end_pattern : Regex
for_end_pattern = seq boundary (
    seq (literal (codes "for"))
      (seq (star space) (seq (char b'(') (seq (star any_char) (literal (codes "; )"))))))

-- The two checks on the spaces inside of a condition.
unfoldable pub condition_spaces : ℕ → Str → Matched → List Report
condition_spaces linenum line m =
    let left = length (group_or_empty 2 m) in
    let right = length (group_or_empty 4 m) in
    let excused : Bool =
      (str_eq (group_or_empty 3 m) (codes ";") && left == 1 + right)
      || (left == 0 && searches for_end_pattern line) in
    (if not (left == right) && not excused
      then line_report linenum (codes "whitespace/parens") 5
          (codes "Mismatching spaces inside () in " ++ group_or_empty 1 m)
      else [])
    ++ (if leb left 1
        then []
        else line_report linenum (codes "whitespace/parens") 5
            (codes "Should have zero or one spaces inside ( and ) in " ++ group_or_empty 1 m))

unfoldable pub check_parenthesis_spacing : CleansedLines → ℕ → List Report
check_parenthesis_spacing c linenum =
    let line = line_at c.elided linenum in
    elim (found_group tight_keyword_pattern line) [
      | none ↦ []
      | some keyword ↦
          line_report linenum (codes "whitespace/parens") 5
            (codes "Missing space before ( in " ++ keyword)
    ]
    ++ elim (search_re condition_spaces_pattern line) [
      | none ↦ []
      | some (before, m) ↦ condition_spaces linenum line m
    ]

-- ,[^,\s]
unfoldable pub tight_comma_pattern : Regex
tight_comma_pattern = seq (char b',') (set (λ x. not (x == b',' || is_space x)))

-- \boperator\s*,\s*\(
unfoldable pub operator_comma_pattern : Regex
operator_comma_pattern = seq boundary (
    seq (literal (codes "operator"))
      (seq (star space) (seq (char b',') (seq (star space) (char b'(')))))

-- ;[^\s};\\)/]
unfoldable pub tight_semicolon_pattern : Regex
tight_semicolon_pattern =
    seq (char b';')
      (set (λ x. not (is_space x || x == b'}' || x == b';' || x == 92 || x == b')' || x == b'/')))

unfoldable pub check_comma_spacing : CleansedLines → ℕ → List Report
check_comma_spacing c linenum =
    let line = line_at c.elided linenum in
    (if searches tight_comma_pattern (replace_all operator_comma_pattern (codes "F(") line)
        && searches tight_comma_pattern (line_at c.lines_without_raw_strings linenum)
      then line_report linenum (codes "whitespace/comma") 3 (codes "Missing space after ,")
      else [])
    ++ (if searches tight_semicolon_pattern line
        then line_report linenum (codes "whitespace/semicolon") 3 (codes "Missing space after ;")
        else [])
