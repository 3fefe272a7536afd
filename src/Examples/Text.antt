-- ===== src/Examples/Text.antt =====
-- The style checker's scans of lines on sample sources.
use gameboy_emulator.Base.{
  ℕ, suc, false, none, ◌⊎◌, get_elem?, ◌≡◌, ◌≢◌, ◌↔◌, ◌+◌, ◌*◌, ◌^◌, ◌<◌, List, [], ◌∷◌, some,
  length, true, refl, arith,
}
use gameboy_emulator.Base.Text.{Str, codes, elem, ends_with}
use gameboy_emulator.Lint.Categories.{error_categories}
use gameboy_emulator.Lint.Suppress.{Suppressions, apply_nolint, parse_nolint_suppressions}
use gameboy_emulator.Lint.Comments.{
  opens, closes, no_end, first_line, clear, remove_multi_line_comments_from_range,
  find_next_multi_line_comment_start, find_next_multi_line_comment_end, remove_multi_line_comments,
  cleanse_comments,
}
use gameboy_emulator.Lint.Comments.Pass.{stripped}
use gameboy_emulator.Lint.Comments.Removed.{remove_multi_line_comments-stripped}
use gameboy_emulator.Lint.FileChecks.{is_blank_line, get_previous_non_blank_line}
use gameboy_emulator.Lint.FileChecks.Blank.{IsBlank, get_previous_non_blank_line_lem}
use gameboy_emulator.Lint.Expression.{close_expression, operator_pattern, reverse_close_expression}
use gameboy_emulator.Lint.Regex.{search_re}
use gameboy_emulator.Lint.Expression.Brackets.{Tree, round, square, text}
use gameboy_emulator.Lint.Expression.Forward.{line_with, close_expression-balanced}
use gameboy_emulator.Lint.Expression.Backward.{reverse_close_expression-balanced}
use gameboy_emulator.Lint.Expression.Steps.{operator_free}
use gameboy_emulator.Lint.FunctionState
use gameboy_emulator.Lint.FunctionState.{FunctionState, begin, finish, check, base_trigger}
use gameboy_emulator.Lint.FunctionState.Length.{
  count_lines, IsConfident, check-begin, check-IsConfident,
}

-- The text `<[i];>` between round brackets.
abbrev index : Tree
index =
    Tree.plain b'<'
      (Tree.wrap square (Tree.plain b'i' Tree.done) (Tree.plain b';' (Tree.plain b'>' Tree.done)))

abbrev before : Str
before = codes "f"

abbrev behind : Str
behind = codes "; }"

abbrev source : List Str
source = codes "{" ∷ line_with before round index behind ∷ codes "}" ∷ []

close_expression-balanced_example :
    close_expression source 1 (length before)
    ≡ some (record {
      line = line_with before round index behind;
      linenum = 1;
      pos = some (length before + length (text index) + 2);
    })
close_expression-balanced_example =
    close_expression-balanced source 1 before round index behind
      (refl, ((refl, tt), (refl, (refl, tt)))) refl

reverse_close_expression-balanced_example :
    reverse_close_expression source 1 (length before + length (text index) + 1)
    ≡ some (record {
      line = line_with before round index behind;
      linenum = 1;
      pos = some (length before);
    })
unfolding text search_re operator_pattern
reverse_close_expression-balanced_example =
    reverse_close_expression-balanced source 1 before round index behind
      (refl, ((refl, tt), (refl, (refl, tt)))) (unfold operator_free in refl) refl

abbrev name : Str
name = codes "TestBody"

check-begin_example :
    ((check 1 9 (count_lines 600 (begin name FunctionState.init)) ≢ [])
      ↔ (base_trigger name * 2 ^ 1 < 600))
    × (check 1 9 (finish (count_lines 600 (begin name FunctionState.init))) ≡ [])
check-begin_example = check-begin name 600 1 9 FunctionState.init

abbrev long_function : FunctionState
long_function = record { in_a_function = true; lines_in_function = 5000; current_function = name }

check-IsConfident_example : IsConfident 1 (check 1 9 long_function)
check-IsConfident_example =
    check-IsConfident long_function 1 9 (omega arith) refl (unfold base_trigger in omega arith)

abbrev spaced : List Str
spaced = codes "int x;" ∷ codes "  " ∷ [] ∷ codes "int y;" ∷ []

get_previous_non_blank_line_lem_example :
    ((get_previous_non_blank_line spaced 3 ≡ some none) × IsBlank spaced 0 3)
    ⊎ ((line : Str) × (n : ℕ) × (get_previous_non_blank_line spaced 3 ≡ some (some (line, n)))
        × (n < 3)
        × (get_elem? spaced n ≡ some line)
        × (is_blank_line line ≡ false)
        × IsBlank spaced (suc n) 3)
get_previous_non_blank_line_lem_example = get_previous_non_blank_line_lem spaced 3 (omega arith)

abbrev commented : List Str
commented =
    codes "int x;" ∷ codes " /* one" ∷ codes "two */" ∷ codes "int y;" ∷ codes "/* open" ∷ []

remove_multi_line_comments-stripped_example :
    remove_multi_line_comments commented ≡ stripped false 0 commented
remove_multi_line_comments-stripped_example = remove_multi_line_comments-stripped commented

commented_removed : remove_multi_line_comments commented ≡ (
  codes "int x;" ∷ codes "/**/" ∷ codes "/**/" ∷ codes "int y;" ∷ codes "/* open" ∷ [],
  no_end 5 ∷ [],
)
unfolding remove_multi_line_comments find_next_multi_line_comment_start
    find_next_multi_line_comment_end first_line opens closes remove_multi_line_comments_from_range
    clear
commented_removed = refl

cleansed : cleanse_comments (codes "f(a, /* b */ c);  // d") ≡ codes "f(a, c);"
unfolding cleanse_comments
cleansed = refl

-- A suppression of the line that follows.
abbrev sample : Str
sample = codes "int x;  // NOLINTNEXTLINE(runtime/int)"

abbrev empty : Suppressions
empty = record { by_line = []; everywhere = [] }

sample_parsed :
    parse_nolint_suppressions sample 7 empty
    ≡ (record { by_line = (some (codes "runtime/int"), 8) ∷ []; everywhere = [] }, [])
unfolding parse_nolint_suppressions apply_nolint elem error_categories ends_with
sample_parsed = refl
