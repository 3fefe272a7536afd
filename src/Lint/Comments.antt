-- ===== src/Lint/Comments.antt =====
-- How scripts/cpplint.py takes comments out of lines.
pub mod Pass
pub mod Removed
pub mod Rounds
use gameboy_emulator.Base.{
  ℕ, zero, suc, ◌-◌, ◌+◌, ◌%◌, Bool, true, false, List, [], ◌∷◌, ◌++◌, Option, none, some, length,
  take, drop, leb, ltb, ◌==◌, if◌then◌else◌, not, ◌&&◌,
}
use gameboy_emulator.Base.Text.{
  Str, codes, starts_with, ends_with, strip, rstrip, find, replace, count,
}
use gameboy_emulator.Lint.Regex.{
  Regex, is_word, set, seq, alt, star, plus, ahead, not_ahead, line_end, group, char, space,
  literal, replace_all,
}
use gameboy_emulator.Lint.Suppress.{Report}

-- The next symbol behind an odd number of quotation marks that count is in a string. The
-- difference is negative in Python where one is counted twice; a multiple of two is added.
unfoldable pub is_cpp_string : Str → Bool
unfolding count replace
is_cpp_string line =
    let plain = replace line (codes "\\\\") (codes "XX") in
    let escaped = count plain (codes "\\\"") + count plain (codes "'\"'") in
    (count plain (codes "\"") + escaped) % 2 == 1

abbrev pub is_none : Option ℕ → Bool
is_none none = true
is_none (some _) = false

-- A comment that begins on the line and goes beyond it, and one that ends with it.
unfoldable pub opens : Str → Bool
unfolding strip find
opens line =
    let text = strip line in
    starts_with text (codes "/*") && is_none (find (drop 2 text) (codes "*/"))

unfoldable pub closes : Str → Bool
unfolding strip ends_with
closes line = ends_with (strip line) (codes "*/")

-- The search for the first line with a property, from line `lineix` on; the rest of the lines is
-- the first argument.
unfoldable pub first_line : (Str → Bool) → List Str → ℕ → ℕ
first_line p [] lineix = lineix
first_line p (line ∷ lines) lineix =
    let rest = first_line p lines (lineix + 1) in if p line then lineix else rest

-- For `lineix` up to the number of lines.
unfoldable pub find_next_multi_line_comment_start : List Str → ℕ → ℕ
find_next_multi_line_comment_start lines lineix = first_line opens (drop lineix lines) lineix

unfoldable pub find_next_multi_line_comment_end : List Str → ℕ → ℕ
find_next_multi_line_comment_end lines lineix = first_line closes (drop lineix lines) lineix

-- `number` lines behind the first `before` ones.
unfoldable pub clear : ℕ → ℕ → List Str → List Str
clear before number [] = []
clear (suc before) number (line ∷ lines) = line ∷ clear before number lines
clear zero zero (line ∷ lines) = line ∷ lines
clear zero (suc number) (line ∷ lines) = codes "/**/" ∷ clear zero number lines

unfoldable pub remove_multi_line_comments_from_range : List Str → ℕ → ℕ → List Str
remove_multi_line_comments_from_range lines begin end = clear begin (end - begin) lines

pub no_end : ℕ → Report
no_end linenum = record {
  line = linenum;
  category = codes "readability/multiline_comment";
  confidence = 5;
  message = codes "Could not find end of multi-line comment";
}

-- Each round passes at least one line, so the number of lines is enough fuel.
unfoldable pub remove_from : ℕ → List Str → ℕ → List Str × List Report
unfolding no_end
remove_from zero lines lineix = (lines, [])
remove_from (suc fuel) lines lineix =
    let lineix_begin = find_next_multi_line_comment_start lines lineix in
    let lineix_end = find_next_multi_line_comment_end lines lineix_begin in
    let cleared = remove_multi_line_comments_from_range lines lineix_begin (lineix_end + 1) in
    let rest = remove_from fuel cleared (lineix_end + 1) in
    if leb (length lines) lineix
    then (lines, [])
    else if leb (length lines) lineix_begin
    then (lines, [])
    else if leb (length lines) lineix_end
    then (lines, no_end (lineix_begin + 1) ∷ [])
    else rest

unfoldable pub remove_multi_line_comments : List Str → List Str × List Report
unfolding remove_from
remove_multi_line_comments lines = remove_from (length lines) lines 0

-- /\*(?:[^*]|\*(?!/))*\*/
c_comment : Regex
unfolding literal
c_comment = seq (literal (codes "/*")) (
    seq (star (alt (set (λ x. not (x == b'*'))) (seq (char b'*') (not_ahead (char b'/')))))
      (literal (codes "*/")))

-- (\s*C\s*$|C\s+|\s+C(?=\W)|C), where C is the pattern above.
cleanse_line_c_comments : Regex
unfolding c_comment
cleanse_line_c_comments = group 1 (
    alt (seq (star space) (seq c_comment (seq (star space) line_end))) (
      alt (seq c_comment (plus space))
        (alt (seq (plus space) (seq c_comment (ahead (set (λ x. not (is_word x)))))) c_comment)))

unfoldable pub cleanse_comments : Str → Str
unfolding replace_all cleanse_line_c_comments find is_cpp_string rstrip
cleanse_comments line =
    let code : Str = elim (find line (codes "//")) [
      | none ↦ line
      | some commentpos ↦
          if is_cpp_string (take commentpos line) then line else rstrip (take commentpos line)
    ] in
    replace_all cleanse_line_c_comments [] code
