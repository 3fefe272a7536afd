-- ===== src/Examples/Strings.antt =====
-- The style checker's cleansing of sample lines.
use gameboy_emulator.Base.{◌≡◌, List, [], ◌∷◌, some, refl}
use gameboy_emulator.Base.Text.{Str, codes, is_space}
use gameboy_emulator.Lint.Regex.{at_boundary, match_re, group_of}
use gameboy_emulator.Lint.Strings.{
  first_quote, take_number, quote_round, collapse_loop, number_pattern, escapes_pattern,
  include_pattern, collapse_strings, CleansedLines, cleansed_lines,
}
use gameboy_emulator.Lint.Strings.Raw.{
  raw_prefix, raw_name, find_raw, in_comment_pattern, raw_round, raw_loop, resume, raw_line,
  raw_lines_from, cleanse_raw_strings,
}
use gameboy_emulator.Lint.Strings.Aligned.{IsAligned, cleansed_lines-IsAligned}

abbrev raw_source : List Str
raw_source =
    codes "char a[] = R\"x(one)x\"; // R\"("
    ∷ codes "char b[] = u8R\"(two"
    ∷ codes "  three)\";"
    ∷ []

raw_strings_removed :
    cleanse_raw_strings raw_source
    ≡ some (codes "char a[] = \"\"; // R\"(" ∷ codes "char b[] = \"\"" ∷ codes "  \"\";" ∷ [])
unfolding cleanse_raw_strings raw_lines_from raw_line raw_loop raw_round find_raw raw_prefix
    raw_name in_comment_pattern resume at_boundary match_re group_of
raw_strings_removed = refl

strings_collapsed :
    collapse_strings (codes "f(\"a\\\"b\", 'c', 1'000'000);") ≡ some (codes "f(\"\", '', 1000000);")
unfolding collapse_strings collapse_loop quote_round first_quote take_number number_pattern
    escapes_pattern include_pattern is_space
strings_collapsed = refl

include_kept :
    collapse_strings (codes "#include \"gameboy.hpp\"") ≡ some (codes "#include \"gameboy.hpp\"")
unfolding collapse_strings collapse_loop quote_round first_quote take_number number_pattern
    escapes_pattern include_pattern is_space
include_kept = refl

cleansed_lines-IsAligned_example :
    (c : CleansedLines) × (cleansed_lines raw_source ≡ some c)
    × (c.raw_lines ≡ raw_source)
    × IsAligned c
cleansed_lines-IsAligned_example = cleansed_lines-IsAligned raw_source
