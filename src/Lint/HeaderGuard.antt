-- ===== src/Lint/HeaderGuard.antt =====
-- `GetHeaderGuardCPPVariable` and `CheckForHeaderGuard` of scripts/cpplint.py, without the --root
-- flag. What `FileInfo.RepositoryName` finds in the file system is an argument.
use gameboy_emulator.Base.{
  ℕ, ◌+◌, ◌-◌, Bool, false, List, [], ◌∷◌, ◌++◌, none, some, length, take, drop, leb, ◌==◌,
  if◌then◌else◌, not, ◌&&◌, ◌||◌,
}
use gameboy_emulator.Base.Text.{Str, codes, str_eq, starts_with, is_space}
use gameboy_emulator.Lint.Blocks.{line_at, matches, searches, group_or_empty}
use gameboy_emulator.Lint.Regex.{
  Regex, boundary, line_start, set, seq, alt, star, group, char, space, opt, literal, match_re,
}
use gameboy_emulator.Lint.Strings.{CleansedLines}
use gameboy_emulator.Lint.Suppress.{Report}

-- One character of the variable: `re.sub(r'[^a-zA-Z0-9]', '_', …)`, then `upper`.
unfoldable pub guard_code : ℕ → ℕ
guard_code x =
    if leb b'a' x && leb x b'z'
    then x - 32
    else if leb b'A' x && leb x b'Z' || leb b'0' x && leb x b'9'
    then x
    else b'_'

unfoldable pub guard_codes : Str → Str
unfolding guard_code
guard_codes [] = []
guard_codes (x ∷ xs) = guard_code x ∷ guard_codes xs

-- The end of `GetHeaderGuardCPPVariable`.
unfoldable pub get_header_guard_cpp_variable : Str → Str
unfolding guard_codes
get_header_guard_cpp_variable repository_name = guard_codes repository_name ++ codes "_"

abbrev add_word : Str → List Str → List Str
add_word [] ws = ws
add_word (x ∷ xs) ws = (x ∷ xs) ∷ ws

-- `s.split()`: the word at the beginning, which may be empty, and the others.
unfoldable pub split_words : Str → Str × List Str
unfolding is_space
split_words [] = ([], [])
split_words (x ∷ xs) =
    let (w, ws) = split_words xs in if is_space x then ([], add_word w ws) else (x ∷ w, ws)

unfoldable pub words : Str → List Str
unfolding split_words
words s = let (w, ws) = split_words s in add_word w ws

pub record Guard : Type 0 where
  pub ifndef : Str
  pub ifndef_linenum : ℕ
  pub define : Str
  pub endif : Str
  pub endif_linenum : ℕ

abbrev pub no_guard : Guard
no_guard = record { ifndef = []; ifndef_linenum = 0; define = []; endif = []; endif_linenum = 0 }

-- The words of a line that has at least two: the first #ifndef and #define are kept.
unfoldable pub scan_words : ℕ → List Str → Guard → Guard
scan_words linenum [] g = g
scan_words linenum (w ∷ []) g = g
scan_words linenum (w ∷ v ∷ ws) g =
    let g' =
      if length g.ifndef == 0 && str_eq w (codes "#ifndef")
      then record g { ifndef = v; ifndef_linenum = linenum }
      else g in
    if length g.define == 0 && str_eq w (codes "#define") then record g' { define = v } else g'

unfoldable pub scan_guard : ℕ → List Str → Guard → Guard
unfolding scan_words words
scan_guard linenum [] g = g
scan_guard linenum (line ∷ lines) g =
    let g' = scan_words linenum (words line) g in
    scan_guard (linenum + 1) lines (
      if starts_with line (codes "#endif")
      then record g' { endif = line; endif_linenum = linenum }
      else g')

-- //\s*NOLINT\(build/header_guard\)
unfoldable pub nolint_guard_pattern : Regex
unfolding literal
nolint_guard_pattern =
    seq (literal (codes "//")) (seq (star space) (literal (codes "NOLINT(build/header_guard)")))

-- #endif\s*//\s*VARIABLE(_)?\b
unfoldable pub line_comment_pattern : Str → Regex
unfolding literal
line_comment_pattern cppvar = seq (literal (codes "#endif")) (
    seq (star space) (
      seq (literal (codes "//"))
        (seq (star space) (seq (literal cppvar) (seq (opt (group 1 (char b'_'))) boundary)))))

-- #endif\s*/\*\s*VARIABLE(_)?\s*\*/
unfoldable pub block_comment_pattern : Str → Regex
unfolding literal
block_comment_pattern cppvar = seq (literal (codes "#endif")) (
    seq (star space) (
      seq (literal (codes "/*")) (
        seq (star space) (
          seq (literal cppvar)
            (seq (opt (group 1 (char b'_'))) (seq (star space) (literal (codes "*/"))))))))

-- A quoted text: the mark, then \. or anything but the mark, then the mark.
quoted : ℕ → Regex
quoted mark =
    seq (char mark) (seq (star (alt (char b'.') (set (λ x. not (x == mark))))) (char mark))

-- ^(?:(?:'(?:\.|[^'])*')|(?:"(?:\.|[^"])*")|[^'"])*//
unfoldable pub has_comment_pattern : Regex
unfolding quoted literal
has_comment_pattern = seq line_start (
    seq (star (alt (quoted b'\'') (alt (quoted b'"') (set (λ x. not (x == b'\'' || x == b'"'))))))
      (literal (codes "//")))

unfoldable pub any_matches : Regex → List Str → Bool
unfolding match_re
any_matches r [] = false
any_matches r (line ∷ lines) = matches r line || any_matches r lines

unfoldable pub any_searches : Regex → List Str → Bool
any_searches r [] = false
any_searches r (line ∷ lines) = searches r line || any_searches r lines

-- The calls of `ParseNolintSuppressions` and of `error`, in their order.
pub data GuardStep : Type 0 where
  parse_nolint : Str → ℕ → GuardStep
  report : Report → GuardStep

unfoldable pub guard_report : ℕ → ℕ → Str → GuardStep
guard_report linenum confidence message = report (record {
  line = linenum;
  category = codes "build/header_guard";
  confidence = confidence;
  message = message;
})

-- A comment that is there: only the doubled underscore is reported.
unfoldable pub deprecated : ℕ → Str → Str → List GuardStep
unfolding guard_report
deprecated linenum underscore message =
    if str_eq underscore (codes "_") then guard_report linenum 0 message ∷ [] else []

-- What follows the checks of the names: the comment behind the last #endif.
unfoldable pub check_endif : List Str → Str → Guard → List GuardStep
unfolding deprecated guard_report line_comment_pattern block_comment_pattern has_comment_pattern
    any_matches match_re
check_endif raw_lines cppvar g =
    let wanted = codes "#endif line should be \"#endif  // " ++ (cppvar ++ codes "\"") in
    let missing = guard_report g.endif_linenum 5 wanted ∷ [] in
    elim (match_re (line_comment_pattern cppvar) g.endif) [
      | some m ↦ deprecated g.endif_linenum (group_or_empty 1 m) wanted
      | none ↦
          if any_matches has_comment_pattern (take (length raw_lines - 2) (drop 1 raw_lines))
          then missing
          else elim (match_re (block_comment_pattern cppvar) g.endif) [
            | none ↦ missing
            | some m ↦
                deprecated g.endif_linenum (group_or_empty 1 m)
                  (codes "#endif line should be \"#endif  /* " ++ (cppvar ++ codes " */\""))
          ]
    ]

unfoldable pub check_names : List Str → Str → Guard → List GuardStep
unfolding guard_report
check_names raw_lines cppvar g =
    if str_eq g.ifndef cppvar
    then []
    else parse_nolint (line_at raw_lines g.ifndef_linenum) g.ifndef_linenum
      ∷ guard_report g.ifndef_linenum (if str_eq g.ifndef (cppvar ++ codes "_") then 0 else 5)
          (codes "#ifndef header guard has wrong style, please use: " ++ cppvar)
      ∷ []

-- `CheckForHeaderGuard`; `cppvar` is what `GetHeaderGuardCPPVariable` returns for the file.
unfoldable pub check_for_header_guard : CleansedLines → Str → List GuardStep
unfolding nolint_guard_pattern any_searches scan_guard guard_report check_names check_endif
check_for_header_guard c cppvar =
    let raw_lines = c.lines_without_raw_strings in
    let g = scan_guard 0 raw_lines no_guard in
    if any_searches nolint_guard_pattern raw_lines
    then []
    else if length g.ifndef == 0 || length g.define == 0 || not (str_eq g.ifndef g.define)
    then guard_report 0 5
        (codes "No #ifndef header guard found, suggested CPP variable is: " ++ cppvar)
      ∷ []
    else check_names raw_lines cppvar g
      ++ parse_nolint (line_at raw_lines g.endif_linenum) g.endif_linenum
        ∷ check_endif raw_lines cppvar g
