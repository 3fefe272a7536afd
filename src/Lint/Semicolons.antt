-- ===== src/Lint/Semicolons.antt =====
-- CheckTrailingSemicolon of scripts/cpplint.py: a semicolon behind the end of a block. `none` is an
-- `IndexError`.
use gameboy_emulator.Base.{
  ℕ, zero, suc, ◌-◌, Bool, false, List, [], ◌∷◌, ◌++◌, Option, none, some, length, take, drop,
  reverse, ltb, ◌==◌, if◌then◌else◌, not, ◌&&◌, ◌||◌,
}
use gameboy_emulator.Base.Options.{◌>>=◌}
use gameboy_emulator.Base.Text.{Str, codes, elem}
use gameboy_emulator.Lint.Blocks.{line_at, matches, searches}
use gameboy_emulator.Lint.Expression.{close_expression, reverse_close_expression}
use gameboy_emulator.Lint.FileChecks.{get_previous_non_blank_line}
use gameboy_emulator.Lint.LineChecks.{line_report}
use gameboy_emulator.Lint.Regex.{
  Regex, boundary, line_end, set, seq, alt, star, group, char, any_char, space, plus, literal,
  match_re, search_re, group_of,
}
use gameboy_emulator.Lint.Strings.{CleansedLines}
use gameboy_emulator.Lint.Suppress.{Report, Suppressions, parse_nolint_suppressions}

-- The first group of a match at the beginning of a line.
unfoldable pub captured : Regex → Str → Option Str
captured r s = elim (match_re r s) [ none ↦ none | some m ↦ group_of 1 m.groups ]

-- The first group of a match anywhere.
unfoldable pub found_group : Regex → Str → Option Str
found_group r s = elim (search_re r s) [ none ↦ none | some (before, m) ↦ group_of 1 m.groups ]

-- ^(.*\)\s*)\{
unfoldable pub parenthesis_pattern : Regex
parenthesis_pattern = seq (group 1 (seq (star any_char) (seq (char b')') (star space)))) (char b'{')

-- ^(.*(?:else|\)\s*const)\s*)\{
unfoldable pub else_const_pattern : Regex
else_const_pattern =
    seq
      (group 1 (
        seq (star any_char) (
          seq
            (alt (literal (codes "else"))
              (seq (char b')') (seq (star space) (literal (codes "const")))))
            (star space))))
      (char b'{')

-- ^(\s*)\{
unfoldable pub indented_brace_pattern : Regex
indented_brace_pattern = seq (group 1 (star space)) (char b'{')

-- \b([A-Z_][A-Z0-9_]*)\s*$
unfoldable pub macro_pattern : Regex
macro_pattern =
    let capital : ℕ → Bool = λ x. (not (ltb x b'A') && not (ltb b'Z' x)) || x == b'_' in
    seq boundary (
      seq
        (group 1 (
          seq (set capital)
            (star (set (λ x. capital x || (not (ltb x b'0') && not (ltb b'9' x)))))))
        (seq (star space) line_end))

-- ^(.*\])\s*$
unfoldable pub bracket_end_pattern : Regex
bracket_end_pattern = seq (group 1 (seq (star any_char) (char b']'))) (seq (star space) line_end)

-- \boperator\s*\[\s*\]
unfoldable pub operator_bracket_pattern : Regex
operator_bracket_pattern = seq boundary (
    seq (literal (codes "operator"))
      (seq (star space) (seq (char b'[') (seq (star space) (char b']')))))

-- \b(?:struct|union)\s+alignas\s*$
unfoldable pub alignas_pattern : Regex
alignas_pattern = seq boundary (
    seq (alt (literal (codes "struct")) (literal (codes "union")))
      (seq (plus space) (seq (literal (codes "alignas")) (seq (star space) line_end))))

-- \bdecltype$
unfoldable pub decltype_pattern : Regex
decltype_pattern = seq boundary (seq (literal (codes "decltype")) line_end)

-- \s+=\s*$
unfoldable pub assignment_pattern : Regex
assignment_pattern = seq (plus space) (seq (char b'=') (seq (star space) line_end))

-- \]\s*$
unfoldable pub closing_bracket_pattern : Regex
closing_bracket_pattern = seq (char b']') (seq (star space) line_end)

-- [;{}]\s*$
unfoldable pub statement_end_pattern : Regex
statement_end_pattern =
    seq (set (λ x. x == b';' || x == b'{' || x == b'}')) (seq (star space) line_end)

-- ^\s*;
unfoldable pub semicolon_pattern : Regex
semicolon_pattern = seq (star space) (char b';')

unfoldable pub safe_macros : List Str
safe_macros =
    codes "TEST"
    ∷ codes "TEST_F"
    ∷ codes "MATCHER"
    ∷ codes "MATCHER_P"
    ∷ codes "TYPED_TEST"
    ∷ codes "EXCLUSIVE_LOCKS_REQUIRED"
    ∷ codes "SHARED_LOCKS_REQUIRED"
    ∷ codes "LOCKS_EXCLUDED"
    ∷ codes "INTERFACE_DEF"
    ∷ []

-- Does the text before the opening parenthesis speak against a block?
unfoldable pub is_exempt : Str → Bool
is_exempt prefix =
    elim (found_group macro_pattern prefix) [
      | none ↦ false
      | some name ↦ not (elem name safe_macros)
    ]
    || elim (captured bracket_end_pattern prefix) [
      | none ↦ false
      | some func ↦ not (searches operator_bracket_pattern func)
    ]
    || searches alignas_pattern prefix
    || searches decltype_pattern prefix
    || searches assignment_pattern prefix

index_of : ℕ → Str → Option ℕ
index_of c [] = none
index_of c (x ∷ s) = if x == c then some 0 else (do n ← index_of c s; some (suc n))

-- `s.rfind(c)` of a character.
unfoldable pub rfind : ℕ → Str → Option ℕ
unfolding index_of
rfind c s = do n ← index_of c (reverse s); some (length s - 1 - n)

-- Whether the match of case 1, whose first group is `start`, is kept.
unfoldable pub is_block : CleansedLines → ℕ → Str → Option Bool
is_block c linenum start = do
  closing_brace_pos ← rfind b')' start
  opening ← reverse_close_expression c.elided linenum closing_brace_pos
  let exempt : Bool = elim opening.pos [ none ↦ false | some p ↦ is_exempt (take p opening.line) ]
  let lambda : Bool =
      ltb 1 opening.linenum
      && searches closing_bracket_pattern (line_at c.elided (opening.linenum - 1))
  some (not exempt && not lambda)

-- The first group of `match` where it comes to the closing brace.
unfoldable pub block_start : CleansedLines → ℕ → Option (Option Str)
block_start c linenum =
    let line = line_at c.elided linenum in
    elim (captured parenthesis_pattern line) [
      | some start ↦ do kept ← is_block c linenum start; some (if kept then some start else none)
      | none ↦ elim (captured else_const_pattern line) [
        | some start ↦ some (some start)
        | none ↦ do
          previous ← get_previous_non_blank_line c.elided linenum
          some (elim previous [
            | none ↦ none
            | some (prevline, n) ↦
                if searches statement_end_pattern prevline
                then captured indented_brace_pattern line
                else none
          ])
      ]
    ]

-- The line of the closing brace with a semicolon behind it.
unfoldable pub redundant_semicolon : CleansedLines → ℕ → Option (Option ℕ)
redundant_semicolon c linenum = do
  start ← block_start c linenum
  elim start [
    | none ↦ some none
    | some text ↦ do
      end ← close_expression c.elided linenum (length text)
      some (elim end.pos [
        | none ↦ none
        | some p ↦ if matches semicolon_pattern (drop p end.line) then some end.linenum else none
      ])
  ]

-- The suppressions of the line before the brace and of its own, and the report. Line 0 is the marker
-- that is put before the text of a file: it has no brace.
unfoldable pub report_semicolon :
    CleansedLines → ℕ → Suppressions → Option (Suppressions × List Report)
report_semicolon c zero s = none
report_semicolon c (suc n) s =
    let before = parse_nolint_suppressions (line_at c.raw_lines n) n s in
    let own = parse_nolint_suppressions (line_at c.raw_lines (suc n)) (suc n) before.0 in
    some (
      own.0,
      before.1
          ++ (own.1
              ++ line_report (suc n) (codes "readability/braces") 4
                  (codes "You don't need a ; after a }")),
    )

unfoldable pub check_trailing_semicolon :
    CleansedLines → ℕ → Suppressions → Option (Suppressions × List Report)
check_trailing_semicolon c linenum s = do
  found ← redundant_semicolon c linenum
  elim found [ none ↦ some (s, []) | some endlinenum ↦ report_semicolon c endlinenum s ]
