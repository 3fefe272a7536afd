-- ===== src/Lint/EmptyBodies.antt =====
-- CheckEmptyBlockBody of scripts/cpplint.py: loops and conditionals with nothing in them. `none` is an
-- `IndexError`.
use gameboy_emulator.Base.{
  ℕ, ◌+◌, ◌-◌, Bool, true, false, List, [], ◌∷◌, ◌++◌, map, Option, none, some, take, drop, ltb,
  ◌==◌, if◌then◌else◌, not,
}
use gameboy_emulator.Base.Options.{◌>>=◌}
use gameboy_emulator.Base.Text.{Str, codes, str_eq, find}
use gameboy_emulator.Lint.Blocks.{line_at, matches, searches}
use gameboy_emulator.Lint.Comments.{cleanse_comments}
use gameboy_emulator.Lint.Expression.{Place, close_expression}
use gameboy_emulator.Lint.LineChecks.{line_report}
use gameboy_emulator.Lint.Regex.{
  Regex, line_start, line_end, seq, alt, star, ahead, group, char, space, literal,
}
use gameboy_emulator.Lint.Semicolons.{captured}
use gameboy_emulator.Lint.Strings.{CleansedLines}
use gameboy_emulator.Lint.Suppress.{Report}

-- \s*(for|while|if)\s*\(
unfoldable pub condition_pattern : Regex
condition_pattern = seq (star space) (
    seq
      (group 1 (alt (literal (codes "for")) (alt (literal (codes "while")) (literal (codes "if")))))
      (seq (star space) (char b'(')))

-- ^\s*\{
unfoldable pub brace_pattern : Regex
brace_pattern = seq line_start (seq (star space) (char b'{'))

-- ^\s*$, which `^(?!\s*$)` is the opposite of.
unfoldable pub blank_pattern : Regex
blank_pattern = seq line_start (seq (star space) line_end)

-- ^(?=\s*else)
unfoldable pub else_ahead_pattern : Regex
else_ahead_pattern = seq line_start (ahead (seq (star space) (literal (codes "else"))))

-- The loop for the opening brace, from a line's text on; `later` are the lines behind it.
unfoldable pub find_opening : List Str → ℕ → Str → Option (ℕ × Str)
find_opening [] n fragment = if searches brace_pattern fragment then some (n, fragment) else none
find_opening (l ∷ later) n fragment =
    let rest = find_opening later (n + 1) l in
    if searches brace_pattern fragment
    then some (n, fragment)
    else if searches blank_pattern fragment
    then rest
    else none

-- Does the loop for an `else` find one?
unfoldable pub has_else : List Str → Str → Bool
has_else [] fragment = searches else_ahead_pattern fragment
has_else (l ∷ later) fragment =
    let rest = has_else later l in
    if searches else_ahead_pattern fragment
    then true
    else if searches blank_pattern fragment
    then rest
    else false

-- `'\n'.join(parts)`.
unfoldable pub join_lines : List Str → Str
join_lines [] = []
join_lines (part ∷ []) = part
join_lines (part ∷ next ∷ parts) = part ++ 10 ∷ join_lines (next ∷ parts)

-- `list(s)`: the characters as strings.
abbrev characters : Str → List Str
characters s = map (λ x. x ∷ []) s

-- The body between a brace of the opening line and the one that closes it.
unfoldable pub body_between :
    CleansedLines → (opening_linenum opening_pos closing_linenum closing_pos : ℕ) → Str
body_between c opening_linenum opening_pos closing_linenum closing_pos =
    let opening_line = line_at c.elided opening_linenum in
    if ltb opening_linenum closing_linenum
    then join_lines (
        characters (drop (opening_pos + 1) opening_line)
        ++ (take (closing_linenum - (opening_linenum + 1)) (drop (opening_linenum + 1) c.raw_lines)
            ++ take (closing_pos - 1) (line_at c.elided closing_linenum) ∷ []))
    else take (closing_pos - 1 - (opening_pos + 1)) (drop (opening_pos + 1) opening_line)

-- What is left to see once both braces are found: is the body empty, without an `else` behind it?
unfoldable pub is_empty_if : CleansedLines → (opening_linenum opening_pos : ℕ) → Place → ℕ → Bool
is_empty_if c opening_linenum opening_pos closing closing_pos =
    let raw = line_at c.raw_lines opening_linenum in
    if not (str_eq raw (cleanse_comments raw))
    then false
    else if not (
        searches blank_pattern
          (body_between c opening_linenum opening_pos closing.linenum closing_pos))
    then false
    else not (has_else (drop (closing.linenum + 1) c.elided) (drop closing_pos closing.line))

-- The part on `if`, behind the end of the condition.
unfoldable pub check_if_body : CleansedLines → Place → ℕ → Option (List Report)
check_if_body c end end_pos =
    elim (find_opening (drop (end.linenum + 1) c.elided) end.linenum (drop end_pos end.line)) [
      | none ↦ some []
      | some (opening_linenum, fragment) ↦ do
        found ← find fragment (codes "{")
        let opening_pos : ℕ = if opening_linenum == end.linenum then found + end_pos else found
        closing ← close_expression c.elided opening_linenum opening_pos
        some (elim closing.pos [
          | none ↦ []
          | some closing_pos ↦
              if is_empty_if c opening_linenum opening_pos closing closing_pos
              then line_report end.linenum (codes "whitespace/empty_if_body") 4
                  (codes "If statement had no body and no else clause")
              else []
        ])
    ]

abbrev semicolon_report : ℕ → Str → List Report
semicolon_report linenum keyword =
    if str_eq keyword (codes "if")
    then line_report linenum (codes "whitespace/empty_conditional_body") 5
        (codes "Empty conditional bodies should use {}")
    else line_report linenum (codes "whitespace/empty_loop_body") 5
        (codes "Empty loop bodies should use {} or continue")

unfoldable pub check_empty_block_body : CleansedLines → ℕ → Option (List Report)
check_empty_block_body c linenum =
    let line = line_at c.elided linenum in
    elim (captured condition_pattern line) [
      | none ↦ some []
      | some keyword ↦ do
        parenthesis ← find line (codes "(")
        end ← close_expression c.elided linenum parenthesis
        elim end.pos [
          | none ↦ some []
          | some end_pos ↦ do
            let first : List Report =
                if matches (char b';') (drop end_pos end.line)
                then semicolon_report end.linenum keyword
                else []
            second ← (if str_eq keyword (codes "if") then check_if_body c end end_pos else some [])
            some (first ++ second)
        ]
    ]
