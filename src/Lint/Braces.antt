-- ===== src/Lint/Braces.antt =====
-- _IsType and CheckBracesSpacing of scripts/cpplint.py: the spaces around braces and semicolons.
-- `none` is an `IndexError`.
use gameboy_emulator.Base.{
  ℕ, zero, suc, ◌+◌, ◌-◌, Bool, true, false, List, [], ◌∷◌, ◌++◌, Option, none, some, length, take,
  drop, ltb, ◌==◌, if◌then◌else◌, not, ◌&&◌, ◌||◌,
}
use gameboy_emulator.Base.Options.{◌>>=◌}
use gameboy_emulator.Base.Text.{Str, codes, find, is_space}
use gameboy_emulator.Lint.Blocks.{BlockInfo, namespace_info, line_at, matches, searches}
use gameboy_emulator.Lint.Expression.{Place, close_expression}
use gameboy_emulator.Lint.LineChecks.{line_report}
use gameboy_emulator.Lint.Regex.{
  Regex, nothing, boundary, line_start, line_end, set, seq, alt, star, group, char, any_char, space,
  plus, opt, literal,
}
use gameboy_emulator.Lint.Semicolons.{captured}
use gameboy_emulator.Lint.Strings.{CleansedLines}
use gameboy_emulator.Lint.Suppress.{Report}

any_of : List Regex → Regex
any_of [] = nothing
any_of (r ∷ rs) = alt r (any_of rs)

abbrev word : List ℕ → Regex
word s = literal s

-- `_TYPES`. Its last alternative is empty.
unfoldable pub types_pattern : Regex
unfolding any_of
types_pattern =
    seq
      (any_of (
        seq (word (codes "char"))
          (opt (seq (alt (word (codes "16")) (word (codes "32"))) (word (codes "_t"))))
        ∷ word (codes "wchar_t")
        ∷ word (codes "bool")
        ∷ word (codes "short")
        ∷ word (codes "int")
        ∷ word (codes "long")
        ∷ word (codes "signed")
        ∷ word (codes "unsigned")
        ∷ word (codes "float")
        ∷ word (codes "double")
        ∷ word (codes "ptrdiff_t")
        ∷ word (codes "size_t")
        ∷ word (codes "max_align_t")
        ∷ word (codes "nullptr_t")
        ∷ seq (opt (char b'u')) (
            seq (word (codes "int")) (
              seq (opt (alt (word (codes "_fast")) (word (codes "_least")))) (
                seq
                  (alt (word (codes "8"))
                    (alt (word (codes "16")) (alt (word (codes "32")) (word (codes "64")))))
                  (word (codes "_t")))))
        ∷ seq (opt (char b'u')) (
            seq (word (codes "int"))
              (seq (alt (word (codes "max")) (word (codes "ptr"))) (word (codes "_t"))))
        ∷ []))
      line_end

-- ^.*(\b\S+)$
unfoldable pub last_word_pattern : Regex
last_word_pattern =
    seq (star any_char) (seq (group 1 (seq boundary (plus (set (λ x. not (is_space x)))))) line_end)

-- \b(?:typename|class|struct)\s+ before the token, and \b behind it.
unfoldable pub typename_pattern : Str → Regex
typename_pattern token = seq boundary (
    seq
      (alt (literal (codes "typename")) (alt (literal (codes "class")) (literal (codes "struct"))))
      (seq (plus space) (seq (literal token) boundary)))

-- The last of the `count` lines from `start` on with the word `template`.
unfoldable pub find_template : List Str → (start count : ℕ) → Option ℕ
find_template elided start zero = none
find_template elided start (suc k) =
    let rest = find_template elided start k in
    elim (find (line_at elided (start + k)) (codes "template")) [
      | some position ↦ some (start + k)
      | none ↦ rest
    ]

unfoldable pub any_line : Regex → List Str → Bool
any_line r [] = false
any_line r (line ∷ lines) = searches r line || any_line r lines

abbrev next_block_start : List BlockInfo → ℕ
next_block_start [] = 0
next_block_start (b ∷ bs) = b.starting_linenum

abbrev is_namespace : BlockInfo → Bool
is_namespace b = elim b.kind [ namespace_info name ↦ true | _ ↦ false ]

-- The loop up the stack, its top first.
unfoldable pub declared_in : List Str → Regex → List BlockInfo → Bool
declared_in elided pattern [] = false
declared_in elided pattern (b ∷ bs) =
    let rest = declared_in elided pattern bs in
    let start = next_block_start bs in
    if is_namespace b
    then false
    else elim (find_template elided start (b.starting_linenum + 1 - start)) [
      | none ↦ rest
      | some first_line ↦
          any_line pattern (take (b.starting_linenum + 1 - first_line) (drop first_line elided))
          || rest
    ]

unfoldable pub is_type : CleansedLines → List BlockInfo → Str → Bool
is_type c stack expr =
    let token : Str = elim (captured last_word_pattern expr) [
      | some last_word ↦ last_word
      | none ↦ expr
    ] in
    matches types_pattern token || declared_in c.elided (typename_pattern token) stack

-- ^(.*[^ ({>]){
unfoldable pub tight_brace_pattern : Regex
tight_brace_pattern =
    seq
      (group 1
        (seq (star any_char) (set (λ x. not (x == b' ' || x == b'(' || x == b'{' || x == b'>')))))
      (char b'{')

-- ^[\s}]*[{.;,)<>\]:]
unfoldable pub initializer_end_pattern : Regex
initializer_end_pattern = seq (star (set (λ x. is_space x || x == b'}'))) (
    set (λ x.
      x == b'{'
      || x == b'.'
      || x == b';'
      || x == b','
      || x == b')'
      || x == b'<'
      || x == b'>'
      || x == b']'
      || x == b':'))

abbrev concat : List Str → Str
concat [] = []
concat (line ∷ lines) = line ++ concat lines

-- What follows the closing brace, with the two lines behind it but for the last line of the file.
unfoldable pub trailing_text : CleansedLines → Place → Str
trailing_text c end =
    let start = end.linenum + 1 in
    let last = length c.raw_lines - 1 in
    elim end.pos [ none ↦ [] | some p ↦ drop p end.line ]
    ++ concat (
        take ((if ltb (end.linenum + 3) last then end.linenum + 3 else last) - start)
          (drop start c.elided))

unfoldable pub missing_space : CleansedLines → List BlockInfo → ℕ → Option (List Report)
missing_space c stack linenum =
    let line = line_at c.elided linenum in
    elim (captured tight_brace_pattern line) [
      | none ↦ some []
      | some leading_text ↦ do
        end ← close_expression c.elided linenum (length leading_text)
        some (
            if not (matches initializer_end_pattern (trailing_text c end))
              && not (is_type c stack leading_text)
            then line_report linenum (codes "whitespace/braces") 5 (codes "Missing space before {")
            else [])
    ]

-- :\s*;\s*$
unfoldable pub empty_statement_pattern : Regex
empty_statement_pattern =
    seq (char b':') (seq (star space) (seq (char b';') (seq (star space) line_end)))

-- ^\s*;\s*$
unfoldable pub only_semicolon_pattern : Regex
only_semicolon_pattern =
    seq line_start (seq (star space) (seq (char b';') (seq (star space) line_end)))

-- \s+;\s*$
unfoldable pub space_semicolon_pattern : Regex
space_semicolon_pattern = seq (plus space) (seq (char b';') (seq (star space) line_end))

-- \bfor\b
unfoldable pub for_pattern : Regex
for_pattern = seq boundary (seq (literal (codes "for")) boundary)

unfoldable pub semicolon_spacing : ℕ → Str → List Report
semicolon_spacing linenum line =
    if searches empty_statement_pattern line
    then line_report linenum (codes "whitespace/semicolon") 5
        (codes "Semicolon defining empty statement. Use {} instead.")
    else if searches only_semicolon_pattern line
    then line_report linenum (codes "whitespace/semicolon") 5 (
        codes "Line contains only semicolon. If this should be an empty statement, "
        ++ codes "use {} instead.")
    else if searches space_semicolon_pattern line && not (searches for_pattern line)
    then line_report linenum (codes "whitespace/semicolon") 5 (
        codes "Extra space before last semicolon. If this should be an empty "
        ++ codes "statement, use {} instead.")
    else []

unfoldable pub check_braces_spacing : CleansedLines → List BlockInfo → ℕ → Option (List Report)
check_braces_spacing c stack linenum = do
  first ← missing_space c stack linenum
  let line : Str = line_at c.elided linenum
  let before_else : List Report =
      if searches (literal (codes "}else")) line
      then line_report linenum (codes "whitespace/braces") 5 (codes "Missing space before else")
      else []
  some (first ++ (before_else ++ semicolon_spacing linenum line))
