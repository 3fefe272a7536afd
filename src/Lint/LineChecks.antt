-- ===== src/Lint/LineChecks.antt =====
-- Checks of scripts/cpplint.py that look at one cleansed line. The caller reads a line of the file,
-- so it is there; a check returns the reports that it makes.
use gameboy_emulator.Base.{
  ℕ, zero, suc, ◌%◌, Bool, List, [], ◌∷◌, ◌++◌, ltb, ◌==◌, if◌then◌else◌, not, ◌||◌,
}
use gameboy_emulator.Base.Int.{ℤ, pos, negsuc, sub_ℕ}
use gameboy_emulator.Base.Text.{Str, codes, count, replace}
use gameboy_emulator.Lint.Blocks.{line_at, matches, searches}
use gameboy_emulator.Lint.Regex.{
  Regex, is_word, boundary, line_start, line_end, set, seq, alt, star, group, char, any_char, space,
  plus, literal,
}
use gameboy_emulator.Lint.Strings.{CleansedLines}
use gameboy_emulator.Lint.Suppress.{Report}

unfoldable pub line_report : ℕ → Str → ℕ → Str → List Report
line_report linenum category confidence message =
    record { line = linenum; category = category; confidence = confidence; message = message } ∷ []

-- `n % 2` of Python is a test that the integer is odd, whatever its sign.
unfoldable pub is_odd : ℤ → Bool
is_odd (pos n) = n % 2 == 1
is_odd (negsuc n) = n % 2 == 0

unfoldable pub check_for_multiline_comments_and_strings : CleansedLines → ℕ → List Report
unfolding count replace line_report is_odd
check_for_multiline_comments_and_strings c linenum =
    let line = replace (line_at c.elided linenum) (codes "\\\\") [] in
    (if ltb (count line (codes "*/")) (count line (codes "/*"))
      then line_report linenum (codes "readability/multiline_comment") 5 (
          codes "Complex multi-line /*...*/-style comment found. "
          ++ (codes "Lint may give bogus warnings.  "
              ++ (codes "Consider replacing these with //-style comments, "
                  ++ (codes "with #if 0...#endif, "
                      ++ codes "or with more clearly structured multi-line comments."))))
      else [])
    ++ (if is_odd (sub_ℕ (count line (codes "\"")) (count line (codes "\\\"")))
        then line_report linenum (codes "readability/multiline_string") 5 (
            codes "Multi-line string (\"...\") found.  This lint script doesn't "
            ++ (codes "do well with such strings, and may give bogus warnings.  "
                ++ codes "Use C++11 raw strings or concatenation instead."))
        else [])

-- (?:[-+*/=%^&|(<]\s*|>\s+)
unfoldable pub unsafe_func_prefix : Regex
unsafe_func_prefix =
    alt
      (seq
        (set (λ x.
          x == b'-'
          || x == b'+'
          || x == b'*'
          || x == b'/'
          || x == b'='
          || x == b'%'
          || x == b'^'
          || x == b'&'
          || x == b'|'
          || x == b'('
          || x == b'<'))
        (star space))
      (seq (char b'>') (plus space))

-- The prefix, the name, and an opening bracket.
unsafe_call : Str → Regex → Regex
unfolding literal
unsafe_call name arguments =
    seq unsafe_func_prefix (seq (literal name) (seq (char b'(') (seq arguments (char b')'))))

-- [^)]+
some_argument : Regex
some_argument = plus (set (λ x. not (x == b')')))

abbrev nothing_between : Regex
nothing_between = Regex.nothing

-- `_THREADING_LIST`, by the names of the functions.
unfoldable pub threading_list : List (Str × Str × Regex)
unfolding some_argument
threading_list =
    (codes "asctime", codes "asctime_r", some_argument)
    ∷ (codes "ctime", codes "ctime_r", some_argument)
    ∷ (codes "getgrgid", codes "getgrgid_r", some_argument)
    ∷ (codes "getgrnam", codes "getgrnam_r", some_argument)
    ∷ (codes "getlogin", codes "getlogin_r", nothing_between)
    ∷ (codes "getpwnam", codes "getpwnam_r", some_argument)
    ∷ (codes "getpwuid", codes "getpwuid_r", some_argument)
    ∷ (codes "gmtime", codes "gmtime_r", some_argument)
    ∷ (codes "localtime", codes "localtime_r", some_argument)
    ∷ (codes "rand", codes "rand_r", nothing_between)
    ∷ (codes "strtok", codes "strtok_r", some_argument)
    ∷ (codes "ttyname", codes "ttyname_r", some_argument)
    ∷ []

-- The loop over the functions that are left.
unfoldable pub threading_from : ℕ → Str → List (Str × Str × Regex) → List Report
unfolding unsafe_call line_report
threading_from linenum line [] = []
threading_from linenum line ((name, safe_name, arguments) ∷ others) =
    (if searches (unsafe_call name arguments) line
      then line_report linenum (codes "runtime/threadsafe_fn") 2 (
          codes "Consider using "
          ++ (safe_name
              ++ (codes "(...) instead of "
                  ++ (name ++ codes "(...) for improved thread safety."))))
      else [])
    ++ threading_from linenum line others

unfoldable pub check_posix_threading : CleansedLines → ℕ → List Report
unfolding threading_from threading_list
check_posix_threading c linenum = threading_from linenum (line_at c.elided linenum) threading_list

-- \bVLOG\((INFO|ERROR|WARNING|DFATAL|FATAL)\)
unfoldable pub vlog_pattern : Regex
unfolding literal
vlog_pattern = seq boundary (
    seq (literal (codes "VLOG(")) (
      seq
        (group 1 (
          alt (literal (codes "INFO")) (
            alt (literal (codes "ERROR")) (
              alt (literal (codes "WARNING"))
                (alt (literal (codes "DFATAL")) (literal (codes "FATAL")))))))
        (char b')')))

unfoldable pub check_vlog_arguments : CleansedLines → ℕ → List Report
unfolding vlog_pattern line_report
check_vlog_arguments c linenum =
    if searches vlog_pattern (line_at c.elided linenum)
    then line_report linenum (codes "runtime/vlog") 5 (
        codes "VLOG() should be used with numeric verbosity level.  "
        ++ codes "Use LOG() if you want symbolic severity levels.")
    else []

-- ^\s*\*\w+(\+\+|--);
unfoldable pub invalid_increment_pattern : Regex
unfolding literal
invalid_increment_pattern = seq line_start (
    seq (star space) (
      seq (char b'*') (
        seq (plus (set is_word))
          (seq (group 1 (alt (literal (codes "++")) (literal (codes "--")))) (char b';')))))

unfoldable pub check_invalid_increment : CleansedLines → ℕ → List Report
unfolding invalid_increment_pattern line_report
check_invalid_increment c linenum =
    if matches invalid_increment_pattern (line_at c.elided linenum)
    then line_report linenum (codes "runtime/invalid_increment") 5
        (codes "Changing pointer instead of value (or unused value of operator*).")
    else []

-- ^#define, and a backslash at the end of the line before.
unfoldable pub is_macro_definition : List Str → ℕ → Bool
unfolding literal
is_macro_definition lines zero =
    searches (seq line_start (literal (codes "#define"))) (line_at lines 0)
is_macro_definition lines (suc n) =
    searches (seq line_start (literal (codes "#define"))) (line_at lines (suc n))
    || searches (seq (char 92) line_end) (line_at lines n)

-- ^\s*(\btemplate\b)*.*class\s+\w+;\s*$
unfoldable pub forward_class_pattern : Regex
unfolding literal
forward_class_pattern = seq line_start (
    seq (star space) (
      seq (star (group 1 (seq boundary (seq (literal (codes "template")) boundary)))) (
        seq (star any_char) (
          seq (literal (codes "class")) (
            seq (plus space)
              (seq (plus (set is_word)) (seq (char b';') (seq (star space) line_end))))))))

unfoldable pub is_forward_class_declaration : List Str → ℕ → Bool
unfolding forward_class_pattern
is_forward_class_declaration lines linenum = matches forward_class_pattern (line_at lines linenum)
