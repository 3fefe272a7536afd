-- ===== src/Lint/FileChecks.antt =====
-- The checks of scripts/cpplint.py that look at a whole file, and its helpers on blank lines and
-- indentation. A check returns the reports that it makes.
pub mod Blank
use gameboy_emulator.Base.{
  ℕ, zero, suc, ◌-◌, ◌+◌, Bool, true, false, List, [], ◌∷◌, ◌++◌, Option, none, some, length, take,
  drop, get_elem?, ltb, ◌==◌, if◌then◌else◌, not, ◌&&◌, ◌||◌,
}
use gameboy_emulator.Base.Text.{Str, codes, lower, find, is_space}
use gameboy_emulator.Lint.Regex.{
  Regex, line_start, seq, star, group, set, char, space, match_re, group_of,
}
use gameboy_emulator.Base.Text
use gameboy_emulator.Lint.Suppress.{Report}

contains : Str → Str → Bool
unfolding find
contains s sub = elim (find s sub) [ none ↦ false | some _ ↦ true ]

any_contains : Str → List Str → Bool
unfolding contains
any_contains sub [] = false
any_contains sub (line ∷ lines) = contains (lower line) sub || any_contains sub lines

-- The lines 1 to 10 are searched, without regard to case.
unfoldable pub check_for_copyright : List Str → List Report
unfolding any_contains lower
check_for_copyright lines =
    if any_contains (codes "copyright") (take 10 (drop 1 lines))
    then []
    else record {
      line = 0;
      category = codes "legal/copyright";
      confidence = 5;
      message =
          codes "No copyright message found.  "
          ++ codes "You should have a line: \"Copyright [year] <Copyright Owner>\"";
    }
      ∷ []

-- ^( *)\S
indent_pattern : Regex
unfolding is_space
indent_pattern = seq line_start (seq (group 1 (star (char 32))) (set (λ x. not (is_space x))))

unfoldable pub get_indent_level : Str → ℕ
unfolding match_re group_of indent_pattern
get_indent_level line = elim (match_re indent_pattern line) [
  | none ↦ 0
  | some m ↦ elim (group_of 1 m.groups) [ none ↦ 0 | some indent ↦ length indent ]
]

abbrev has_code : ℕ → Str → Bool
has_code c [] = false
has_code c (x ∷ xs) = x == c || has_code c xs

bad_utf8 : ℕ → Report
bad_utf8 linenum = record {
  line = linenum;
  category = codes "readability/utf8";
  confidence = 5;
  message = codes "Line contains invalid UTF-8 (or Unicode replacement character).";
}

nul_byte : ℕ → Report
nul_byte linenum = record {
  line = linenum;
  category = codes "readability/nul";
  confidence = 5;
  message = codes "Line contains NUL byte.";
}

-- `for linenum, line in enumerate(lines)`, from line `linenum` on; 0xFFFD is the replacement
-- character.
bad_from : ℕ → List Str → List Report
bad_from linenum [] = []
bad_from linenum (line ∷ lines) =
    (if has_code 0xFFFD line then bad_utf8 linenum ∷ [] else [])
    ++ ((if has_code 0 line then nul_byte linenum ∷ [] else []) ++ bad_from (linenum + 1) lines)

unfoldable pub check_for_bad_characters : List Str → List Report
unfolding bad_from bad_utf8 nul_byte
check_for_bad_characters lines = bad_from 0 lines

-- `len(lines) - 2` stands for the line number from two lines on; the caller adds a marker line
-- before the text of the file and one behind it, so there are never fewer.
unfoldable pub check_for_newline_at_eof : List Str → List Report
check_for_newline_at_eof lines =
    let before_last : Str = elim (get_elem? lines (length lines - 2)) [
      | none ↦ []
      | some line ↦ line
    ] in
    if ltb (length lines) 3 || not (length before_last == 0)
    then record {
      line = length lines - 2;
      category = codes "whitespace/ending_newline";
      confidence = 5;
      message = codes "Could not find a newline character at the end of the file.";
    }
      ∷ []
    else []

-- `not line or line.isspace()`.
unfoldable pub is_blank_line : Str → Bool
unfolding is_space
is_blank_line [] = true
is_blank_line (x ∷ xs) = is_space x && is_blank_line xs

-- The loop of `GetPreviousNonBlankLine` down from line `count - 1`; the outer `none` is the
-- `IndexError` of a line that is not there, the inner one the result `('', -1)`.
unfoldable pub previous_from : List Str → ℕ → Option (Option (Str × ℕ))
previous_from elided zero = some none
previous_from elided (suc n) =
    let rest = previous_from elided n in
    elim (get_elem? elided n) [
      | none ↦ none
      | some line ↦ if is_blank_line line then rest else some (some (line, n))
    ]

unfoldable pub get_previous_non_blank_line : List Str → ℕ → Option (Option (Str × ℕ))
unfolding previous_from
get_previous_non_blank_line elided linenum = previous_from elided linenum
