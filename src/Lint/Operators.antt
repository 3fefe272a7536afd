-- ===== src/Lint/Operators.antt =====
-- CheckOperatorSpacing of scripts/cpplint.py: the spaces around operators. `none` is an `IndexError`.
use gameboy_emulator.Base.{
  ℕ, zero, suc, Bool, true, List, [], ◌∷◌, ◌++◌, map, Option, none, some, length, leb, ◌==◌,
  if◌then◌else◌, not, ◌&&◌, ◌||◌,
}
use gameboy_emulator.Base.Options.{◌>>=◌}
use gameboy_emulator.Base.Text.{Str, codes, str_eq, is_space}
use gameboy_emulator.Lint.Blocks.{line_at, matches, searches, group_or_empty}
use gameboy_emulator.Lint.Expression.{close_expression, reverse_close_expression}
use gameboy_emulator.Lint.LineChecks.{line_report}
use gameboy_emulator.Lint.Regex.{
  Regex, is_word, boundary, line_end, set, seq, alt, star, group, char, any_char, space, plus, opt,
  literal, match_re, search_re,
}
use gameboy_emulator.Lint.Semicolons.{captured, found_group}
use gameboy_emulator.Lint.Strings.{CleansedLines}
use gameboy_emulator.Lint.Suppress.{Report}

-- ^(.*\boperator\b)(\S+)(\s*\(.*)$
unfoldable pub operator_method_pattern : Regex
operator_method_pattern =
    seq (group 1 (seq (star any_char) (seq boundary (seq (literal (codes "operator")) boundary)))) (
      seq (group 2 (plus (set (λ x. not (is_space x)))))
        (seq (group 3 (seq (star space) (seq (char b'(') (star any_char)))) line_end))

-- The loop that hides the names of operator methods. Each round hides one word `operator`, which the
-- underscores behind it then make part of a longer word.
unfoldable pub hide_operators : ℕ → Str → Str
hide_operators zero line = line
hide_operators (suc fuel) line = elim (match_re operator_method_pattern line) [
  | none ↦ line
  | some m ↦
      hide_operators fuel
        (group_or_empty 1 m ++ (map (λ x. b'_') (group_or_empty 2 m) ++ group_or_empty 3 m))
]

abbrev word_or_dot : Regex
word_or_dot = set (λ x. is_word x || x == b'.')

-- \b(if|while|for)
unfoldable pub condition_keyword_pattern : Regex
condition_keyword_pattern = seq boundary (
    seq (alt (literal (codes "if")) (alt (literal (codes "while")) (literal (codes "for"))))
      (char b' '))

-- (>=|<=|==|!=|&=|\^=|\|=|\+=|\*=|\/=|\%=)
unfoldable pub compound_pattern : Regex
compound_pattern =
    seq
      (set (λ x.
        x == b'>'
        || x == b'<'
        || x == b'='
        || x == b'!'
        || x == b'&'
        || x == b'^'
        || x == b'|'
        || x == b'+'
        || x == b'*'
        || x == b'/'
        || x == b'%'))
      (char b'=')

unfoldable pub assignment_spaces : ℕ → Str → List Report
assignment_spaces linenum line =
    if (searches (seq word_or_dot (char b'=')) line || searches (seq (char b'=') word_or_dot) line)
      && not (searches condition_keyword_pattern line)
      && not (searches compound_pattern line)
      && not (searches (literal (codes "operator=")) line)
    then line_report linenum (codes "whitespace/operators") 4 (codes "Missing spaces around =")
    else []

abbrev comparison_sign : ℕ → Bool
comparison_sign x = x == b'<' || x == b'>' || x == b'=' || x == b'!' || is_space x

-- [^<>=!\s](==|!=|<=|>=|\|\|)[^<>=!\s,;\)]
unfoldable pub comparison_pattern : Regex
comparison_pattern = seq (set (λ x. not (comparison_sign x))) (
    seq
      (group 1 (
        alt (literal (codes "==")) (
          alt (literal (codes "!="))
            (alt (literal (codes "<=")) (alt (literal (codes ">=")) (literal (codes "||")))))))
      (set (λ x. not (comparison_sign x || x == b',' || x == b';' || x == b')'))))

-- #.*include
unfoldable pub include_pattern : Regex
include_pattern = seq (char b'#') (seq (star any_char) (literal (codes "include")))

-- ^(.*[^\s<])<[^\s=<,]
unfoldable pub tight_less_pattern : Regex
tight_less_pattern =
    seq (group 1 (seq (star any_char) (set (λ x. not (is_space x || x == b'<')))))
      (seq (char b'<') (set (λ x. not (is_space x || x == b'=' || x == b'<' || x == b','))))

-- ^(.*[^-\s>])>[^\s=>,]
unfoldable pub tight_greater_pattern : Regex
tight_greater_pattern =
    seq (group 1 (seq (star any_char) (set (λ x. not (x == b'-' || is_space x || x == b'>')))))
      (seq (char b'>') (set (λ x. not (is_space x || x == b'=' || x == b'>' || x == b','))))

unfoldable pub less_spaces : CleansedLines → ℕ → Str → Option (List Report)
less_spaces c linenum line = elim (captured tight_less_pattern line) [
  | none ↦ some []
  | some before ↦ do
    end ← close_expression c.elided linenum (length before)
    some (elim end.pos [
      | some p ↦ []
      | none ↦
          line_report linenum (codes "whitespace/operators") 3 (codes "Missing spaces around <")
    ])
]

unfoldable pub greater_spaces : CleansedLines → ℕ → Str → Option (List Report)
greater_spaces c linenum line = elim (captured tight_greater_pattern line) [
  | none ↦ some []
  | some before ↦ do
    start ← reverse_close_expression c.elided linenum (length before)
    some (elim start.pos [
      | some p ↦ []
      | none ↦
          line_report linenum (codes "whitespace/operators") 3 (codes "Missing spaces around >")
    ])
]

unfoldable pub comparison_spaces : CleansedLines → ℕ → Str → Option (List Report)
comparison_spaces c linenum line = elim (found_group comparison_pattern line) [
  | some operator ↦ some (
      line_report linenum (codes "whitespace/operators") 3
        (codes "Missing spaces around " ++ operator))
  | none ↦ if matches include_pattern line then some [] else (do
    less ← less_spaces c linenum line
    greater ← greater_spaces c linenum line
    some (less ++ greater))
]

-- (operator|[^\s(<])(?:L|UL|LL|ULL|l|ul|ll|ull)?<<([^\s,=<])
unfoldable pub shift_left_pattern : Regex
shift_left_pattern =
    seq
      (group 1
        (alt (literal (codes "operator")) (set (λ x. not (is_space x || x == b'(' || x == b'<')))))
      (seq
        (opt (
          alt (literal (codes "L")) (
            alt (literal (codes "UL")) (
              alt (literal (codes "LL")) (
                alt (literal (codes "ULL")) (
                  alt (literal (codes "l")) (
                    alt (literal (codes "ul"))
                      (alt (literal (codes "ll")) (literal (codes "ull"))))))))))
        (seq (literal (codes "<<"))
          (group 2 (set (λ x. not (is_space x || x == b',' || x == b'=' || x == b'<'))))))

all_digits : Str → Bool
all_digits [] = true
all_digits (c ∷ s) = leb b'0' c && leb c b'9' && all_digits s

-- `s.isdigit()`.
unfoldable pub is_digits : Str → Bool
unfolding all_digits
is_digits s = not (length s == 0) && all_digits s

unfoldable pub shift_left_spaces : ℕ → Str → List Report
shift_left_spaces linenum line = elim (search_re shift_left_pattern line) [
  | none ↦ []
  | some (before, m) ↦
      let left = group_or_empty 1 m in
      let right = group_or_empty 2 m in
      if not (is_digits left && is_digits right)
        && not (str_eq left (codes "operator") && str_eq right (codes ";"))
      then line_report linenum (codes "whitespace/operators") 3 (codes "Missing spaces around <<")
      else []
]

-- >>[a-zA-Z_]
unfoldable pub shift_right_pattern : Regex
shift_right_pattern =
    seq (literal (codes ">>")) (set (λ x. is_word x && not (leb b'0' x && leb x b'9')))

-- (!\s|~\s|[\s]--[\s;]|[\s]\+\+[\s;])
unfoldable pub unary_pattern : Regex
unary_pattern =
    let space_or_semicolon : Regex = set (λ x. is_space x || x == b';') in
    group 1 (
      alt (seq (char b'!') space) (
        alt (seq (char b'~') space) (
          alt (seq space (seq (literal (codes "--")) space_or_semicolon))
            (seq space (seq (literal (codes "++")) space_or_semicolon)))))

unfoldable pub check_operator_spacing : CleansedLines → ℕ → Option (List Report)
check_operator_spacing c linenum = do
  let whole : Str = line_at c.elided linenum
  let line : Str = hide_operators (length whole) whole
  comparisons ← comparison_spaces c linenum line
  let shift_right : List Report =
      if searches shift_right_pattern line
      then line_report linenum (codes "whitespace/operators") 3 (codes "Missing spaces around >>")
      else []
  let unary : List Report = elim (found_group unary_pattern line) [
    | none ↦ []
    | some operator ↦
        line_report linenum (codes "whitespace/operators") 4
          (codes "Extra space for operator " ++ operator)
  ]
  some (
      assignment_spaces linenum line
      ++ (comparisons ++ (shift_left_spaces linenum line ++ (shift_right ++ unary))))
