-- ===== src/Lint/Constructs.antt =====
-- `CheckForNonStandardConstructs` of scripts/cpplint.py: the patterns of a line, and the check that a
-- constructor with one argument is marked explicit (Constructs/Explicit).
pub mod Explicit
pub mod Joined
use gameboy_emulator.Base.{
  ℕ, ◌+◌, Bool, List, [], ◌∷◌, ◌++◌, Option, none, some, leb, ◌==◌, if◌then◌else◌, not, ◌&&◌, ◌||◌,
}
use gameboy_emulator.Base.Text.{Str, codes, is_space, replace}
use gameboy_emulator.Lint.Blocks.{BlockInfo, line_at, matches, searches}
use gameboy_emulator.Lint.Constructs.Explicit.{check_explicit, one_of_words}
use gameboy_emulator.Lint.LineChecks.{line_report}
use gameboy_emulator.Lint.Regex.{
  Regex, is_word, boundary, line_start, set, seq, alt, star, group, char, any_char, space, plus,
  opt, literal,
}
use gameboy_emulator.Lint.Strings.{CleansedLines}
use gameboy_emulator.Lint.Suppress.{Report}

abbrev digit : Regex
digit = set (λ x. leb b'0' x && leb x b'9')

-- printf\s*\(.*".*%, and what follows it in a pattern.
unfoldable pub format_pattern : Regex → Regex
unfolding literal
format_pattern rest = seq (literal (codes "printf")) (
    seq (star space) (
      seq (char b'(')
        (seq (star any_char) (seq (char b'"') (seq (star any_char) (seq (char b'%') rest))))))

-- [-+ ]?\d*q
quad_format : Regex
quad_format =
    seq (opt (set (λ x. x == b'-' || x == b'+' || x == 32))) (seq (star digit) (char b'q'))

-- \d+\$
numbered_format : Regex
numbered_format = seq (plus digit) (char b'$')

-- ("|\').*\\(%|\[|\(|{)
unfoldable pub escape_pattern : Regex
escape_pattern = seq (group 1 (set (λ x. x == b'"' || x == b'\''))) (
    seq (star any_char)
      (seq (char 92) (group 2 (set (λ x. x == b'%' || x == b'[' || x == b'(' || x == b'{')))))

-- \b(const|…|u?int64)\s+(register|static|extern|typedef)\b
unfoldable pub storage_class_pattern : Regex
unfolding one_of_words
storage_class_pattern = seq boundary (
    seq
      (group 1 (
        one_of_words (
          codes "const"
          ∷ codes "volatile"
          ∷ codes "void"
          ∷ codes "char"
          ∷ codes "short"
          ∷ codes "int"
          ∷ codes "long"
          ∷ codes "float"
          ∷ codes "double"
          ∷ codes "signed"
          ∷ codes "unsigned"
          ∷ codes "schar"
          ∷ codes "uint8"
          ∷ codes "int8"
          ∷ codes "uint16"
          ∷ codes "int16"
          ∷ codes "uint32"
          ∷ codes "int32"
          ∷ codes "uint64"
          ∷ codes "int64"
          ∷ [])))
      (seq (plus space) (
        seq
          (group 2 (
            one_of_words
              (codes "register" ∷ codes "static" ∷ codes "extern" ∷ codes "typedef" ∷ [])))
          boundary)))

-- \s*#\s*endif\s*[^/\s]+
unfoldable pub endif_text_pattern : Regex
unfolding literal
endif_text_pattern = seq (star space) (
    seq (char b'#') (
      seq (star space) (
        seq (literal (codes "endif"))
          (seq (star space) (plus (set (λ x. not (x == b'/' || is_space x))))))))

-- \s*class\s+(\w+\s*::\s*)+\w+\s*;
unfoldable pub inner_forward_pattern : Regex
unfolding literal
inner_forward_pattern = seq (star space) (
    seq (literal (codes "class")) (
      seq (plus space) (
        seq
          (plus (
            group 1 (
              seq (plus (set is_word))
                (seq (star space) (seq (literal (codes "::")) (star space))))))
          (seq (plus (set is_word)) (seq (star space) (char b';'))))))

-- [+-]?\d+
signed_number : Regex
signed_number = seq (opt (set (λ x. x == b'+' || x == b'-'))) (plus digit)

-- (\.\d*)?, as a group.
fraction : ℕ → Regex
fraction n = opt (group n (seq (char b'.') (star digit)))

-- (\w+|[+-]?\d+(\.\d*)?)\s*(<|>)\?=?\s*(\w+|[+-]?\d+)(\.\d*)?
unfoldable pub extremum_pattern : Regex
unfolding signed_number fraction
extremum_pattern = seq (group 1 (alt (plus (set is_word)) (seq signed_number (fraction 2)))) (
    seq (star space) (
      seq (group 3 (set (λ x. x == b'<' || x == b'>'))) (
        seq (char b'?') (
          seq (opt (char b'=')) (
            seq (star space)
              (seq (group 4 (alt (plus (set is_word)) signed_number)) (fraction 5)))))))

-- ^\s*const\s*string\s*&\s*\w+\s*;
unfoldable pub string_reference_pattern : Regex
unfolding literal
string_reference_pattern = seq line_start (
    seq (star space) (
      seq (literal (codes "const")) (
        seq (star space) (
          seq (literal (codes "string")) (
            seq (star space) (
              seq (char b'&')
                (seq (star space) (seq (plus (set is_word)) (seq (star space) (char b';'))))))))))

abbrev when : Bool → List Report → List Report
when t reports = if t then reports else []

-- The checks of the line with its strings.
unfoldable pub check_formats : ℕ → Str → List Report
unfolding format_pattern quad_format numbered_format escape_pattern replace line_report
check_formats linenum line =
    when (searches (format_pattern quad_format) line) (
      line_report linenum (codes "runtime/printf_format") 3
        (codes "%q in format strings is deprecated.  Use %ll instead."))
    ++ (when (searches (format_pattern numbered_format) line) (
          line_report linenum (codes "runtime/printf_format") 2
            (codes "%N$ formats are unconventional.  Try rewriting to avoid them."))
        ++ when (searches escape_pattern (replace line (codes "\\\\") [])) (
            line_report linenum (codes "build/printf_format") 3
              (codes "%, [, (, and { are undefined character escapes.  Unescape them.")))

-- The checks of the line without comments and strings.
unfoldable pub check_declarations : ℕ → Str → List Report
unfolding storage_class_pattern endif_text_pattern inner_forward_pattern extremum_pattern
    string_reference_pattern line_report
check_declarations linenum line =
    when (searches storage_class_pattern line) (
      line_report linenum (codes "build/storage_class") 5 (
        codes "Storage-class specifier (static, extern, typedef, etc) should be "
        ++ codes "at the beginning of the declaration."))
    ++ (when (matches endif_text_pattern line) (
          line_report linenum (codes "build/endif_comment") 5
            (codes "Uncommented text after #endif is non-standard.  Use a comment."))
        ++ (when (matches inner_forward_pattern line) (
              line_report linenum (codes "build/forward_decl") 5
                (codes "Inner-style forward declarations are invalid.  Remove this line."))
            ++ (when (searches extremum_pattern line) (
                  line_report linenum (codes "build/deprecated") 3
                    (codes ">? and <? (max and min) operators are non-standard and deprecated."))
                ++ when (searches string_reference_pattern line) (
                    line_report linenum (codes "runtime/member_string_references") 2 (
                      codes "const string& members are dangerous. It is much better to use "
                      ++ codes "alternatives, such as pointers or simple constants.")))))

-- `CheckForNonStandardConstructs`, in a nesting state with these blocks. `none` is the `IndexError` of
-- an argument list that does not close.
unfoldable pub check_for_non_standard_constructs :
    CleansedLines → ℕ → List BlockInfo → Option (List Report)
unfolding check_formats check_declarations check_explicit
check_for_non_standard_constructs c linenum stack =
    let line = line_at c.elided linenum in
    elim (check_explicit linenum line stack) [
      | none ↦ none
      | some reports ↦ some (
          check_formats linenum (line_at c.lines linenum)
          ++ (check_declarations linenum line ++ reports))
    ]
