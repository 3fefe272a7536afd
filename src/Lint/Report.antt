-- ===== src/Lint/Report.antt =====
-- `_ShouldPrintError` and `Error` of scripts/cpplint.py. The text on stderr is kept as the list of
-- the reports that were written, each with the format that was chosen for it.
pub mod Laws
use gameboy_emulator.Base.{
  ℕ, Bool, true, false, List, [], ◌∷◌, ◌++◌, Option, none, some, if◌then◌else◌, not, ltb, drop,
}
use gameboy_emulator.Base.Text.{Str, codes, str_eq, starts_with}
use gameboy_emulator.Lint.State.{State, increment_error_count}
use gameboy_emulator.Lint.Suppress.{Suppressions, Report, is_error_suppressed_by_nolint}

-- The loop over the filters; `none` is the failed `assert False`.
unfoldable pub filter_loop : Str → List Str → Bool → Option Bool
filter_loop category [] is_filtered = some is_filtered
filter_loop category (one_filter ∷ rest) is_filtered =
    if starts_with one_filter (codes "-")
    then filter_loop category rest
        (if starts_with category (drop 1 one_filter) then true else is_filtered)
    else if starts_with one_filter (codes "+")
    then filter_loop category rest
        (if starts_with category (drop 1 one_filter) then false else is_filtered)
    else none

unfoldable pub should_print_error : Suppressions → State → Report → Option Bool
unfolding filter_loop
should_print_error sup s r =
    if is_error_suppressed_by_nolint r.category r.line sup
    then some false
    else if ltb r.confidence s.verbose_level
    then some false
    else elim (filter_loop r.category s.filters false) [
      | none ↦ none
      | some is_filtered ↦ some (not is_filtered)
    ]

-- How a report is formatted.
pub data Style : Type 0 where
  vs7 eclipse emacs : Style

unfoldable pub style_of : Str → Style
style_of format =
    if str_eq format (codes "vs7")
    then vs7
    else if str_eq format (codes "eclipse")
    then eclipse
    else emacs

pub record Linter : Type 0 where
  pub state : State
  pub written : List (Style × Report)

-- `Error`; `none` is an assertion that failed on the way.
unfoldable pub error : Suppressions → Report → Linter → Option Linter
error sup r l = elim (should_print_error sup l.state r) [
  | none ↦ none
  | some false ↦ some l
  | some true ↦ some (record {
    state = increment_error_count r.category l.state;
    written = l.written ++ (style_of l.state.output_format, r) ∷ [];
  })
]
