-- ===== src/Lint/Strings/Raw.antt =====
-- `CleanseRawStrings` of scripts/cpplint.py. The loop over the raw strings of a line takes fuel, and
-- `none` is a loop that has run out of it.
use mathlib.Core.Option
use gameboy_emulator.Base.{
  ℕ, zero, suc, ◌+◌, List, [], ◌∷◌, ◌++◌, Option, none, some, reverse, length, drop, ◌==◌,
  if◌then◌else◌, not, ◌||◌,
}
use gameboy_emulator.Base.Text.{Str, codes, starts_with, find, is_space}
use gameboy_emulator.Lint.Regex.{
  Regex, at_boundary, line_start, set, seq, alt, star, group, char, any_char, space, literal,
  match_re, group_of,
}

-- What R"…(…, with its `matched.group`s 1 to 3.
pub record RawString : Type 0 where
  pub before : Str
  pub name : Str
  pub body : Str

-- What follows the quotation mark of (?:R|u8R|uR|UR|LR)".
unfoldable pub raw_prefix : Str → Option Str
raw_prefix s =
    if starts_with s (codes "R\"")
    then some (drop 2 s)
    else if starts_with s (codes "u8R\"")
    then some (drop 4 s)
    else if starts_with s (codes "uR\"")
        || starts_with s (codes "UR\"")
        || starts_with s (codes "LR\"")
    then some (drop 3 s)
    else none

-- ([^\s\\()]*)\( up to the bracket, and what follows it.
unfoldable pub raw_name : Str → Option (Str × Str)
unfolding is_space
raw_name [] = none
raw_name (c ∷ cs) =
    if c == b'('
    then some ([], cs)
    else if is_space c || c == 92 || c == b')'
    then none
    else Option.map (λ p. (c ∷ p.0, p.1)) (raw_name cs)

-- ^(.*?)\b(?:R|u8R|uR|UR|LR)"([^\s\\()]*)\((.*)$ at the first place where it fits; `before` is
-- what has been passed, reversed.
unfoldable pub find_raw : Str → Str → Option RawString
unfolding raw_prefix at_boundary
find_raw before [] = none
find_raw before (c ∷ cs) =
    let rest = find_raw (c ∷ before) cs in
    if at_boundary (record { before = before; after = c ∷ cs })
    then elim (raw_prefix (c ∷ cs)) [
      | none ↦ rest
      | some quoted ↦ elim (raw_name quoted) [
        | none ↦ rest
        | some (name, body) ↦ some (record { before = reverse before; name = name; body = body })
      ]
    ]
    else rest

escaped_or_not : ℕ → Regex
escaped_or_not quote = alt (seq (char 92) any_char) (set (λ x. not (x == quote)))

-- ^([^'"]|'(\\.|[^'])*'|"(\\.|[^"])*")*//
unfoldable pub in_comment_pattern : Regex
unfolding literal escaped_or_not
in_comment_pattern = seq line_start (
    seq
      (star (
        group 1 (
          alt (set (λ x. not (x == b'\'' || x == b'"'))) (
            alt (seq (char b'\'') (seq (star (group 2 (escaped_or_not b'\''))) (char b'\'')))
              (seq (char b'"') (seq (star (group 3 (escaped_or_not b'"'))) (char b'"')))))))
      (literal (codes "//")))

-- One round of the loop over the raw strings of a line: a raw string that ends on the line is
-- replaced, one that does not is begun, or there is none.
pub data RawRound : Type 0 where
  again : Str → RawRound
  begun : Str → Str → RawRound
  none_left : RawRound

unfoldable pub raw_round : Str → RawRound
unfolding find_raw
raw_round line = elim (find_raw [] line) [
  | none ↦ none_left
  | some raw ↦ elim (match_re in_comment_pattern raw.before) [
    | some _ ↦ none_left
    | none ↦
        let delimiter = b')' ∷ raw.name ++ b'"' ∷ [] in
        elim (find raw.body delimiter) [
          | some end ↦
              again (raw.before ++ (codes "\"\"" ++ drop (end + length delimiter) raw.body))
          | none ↦ begun (raw.before ++ codes "\"\"") delimiter
        ]
  ]
]

-- The line, and the delimiter of a raw string that goes on.
unfoldable pub raw_loop : ℕ → Str → Option (Str × Option Str)
raw_loop zero line = none
raw_loop (suc fuel) line = elim (raw_round line) [
  | again next ↦ raw_loop fuel next
  | begun next delimiter ↦ some (next, some delimiter)
  | none_left ↦ some (line, none)
]

-- ^(\s*)\S, on a line that holds a delimiter and so is not blank.
leading_space : Str → Str
leading_space line =
    elim (match_re (seq line_start (seq (group 1 (star space)) (set (λ x. not (is_space x)))))
      line) [ none ↦ [] | some m ↦ elim (group_of 1 m.groups) [ none ↦ [] | some s ↦ s ] ]

-- A line inside a raw string: its end is looked for.
unfoldable pub resume : Str → Str → Str × Option Str
unfolding leading_space find
resume delimiter line = elim (find line delimiter) [
  | some end ↦ (leading_space line ++ (codes "\"\"" ++ drop (end + length delimiter) line), none)
  | none ↦ (codes "\"\"", some delimiter)
]

-- One line, and the delimiter that the next one begins with.
unfoldable pub raw_line : Option Str → Str → Option (Str × Option Str)
raw_line none line = raw_loop (suc (length line)) line
raw_line (some delimiter) line =
    let (next, still) = resume delimiter line in
    elim still [ some d ↦ some (next, some d) | none ↦ raw_loop (suc (length next)) next ]

unfoldable pub raw_lines_from : Option Str → List Str → Option (List Str)
raw_lines_from delimiter [] = some []
raw_lines_from delimiter (line ∷ lines) = elim (raw_line delimiter line) [
  | none ↦ none
  | some (next, still) ↦ Option.map (λ (rest : List Str). next ∷ rest) (raw_lines_from still lines)
]

unfoldable pub cleanse_raw_strings : List Str → Option (List Str)
cleanse_raw_strings raw_lines = raw_lines_from none raw_lines
