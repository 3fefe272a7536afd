-- ===== src/Examples/Lint.antt =====
-- The style checker's state on sample settings and sources.
use gameboy_emulator.Base.{
  ◌≡◌, ◌⊎◌, ◌≢◌, ◌+◌, ◌++◌, true, false, List, [], ◌∷◌, some, length, refl, inl, arith,
}
use gameboy_emulator.Base.Text.{Str, codes, strip}
use gameboy_emulator.Lint.Categories.{default_filters}
use gameboy_emulator.Lint.State.{State, returned, value_error, all_signed, set_filters}
use gameboy_emulator.Lint.State.Filters.{
  AreFilters, no_filters, a_filter, all_have_signs, listed, comma_free, set_filters-listed,
}
use gameboy_emulator.Lint.Suppress.{Suppressions, Report}
use gameboy_emulator.Lint.Report.{Linter, should_print_error}
use gameboy_emulator.Lint.Report.Laws.{
  printable, should_print_error_lem, error_all, error_all-counts,
}
use gameboy_emulator.Lint.IncludeState
use gameboy_emulator.Lint.IncludeState.{
  HeaderType, IncludeState, c_sys_header, other_header, cpp_sys_header, check_next_include_order,
}
use gameboy_emulator.Lint.IncludeState.Order.{check_all, check_next-out_of_order}

-- The state under `--counting=toplevel --filter=-whitespace,+whitespace/tab`.
abbrev settings : State
settings = record {
  verbose_level = 1;
  error_count = 3;
  filters = codes "-whitespace" ∷ codes "+whitespace/tab" ∷ [];
  filters_backup = [];
  counting = codes "toplevel";
  errors_by_category = (codes "build", 3) ∷ [];
  quiet = false;
  output_format = codes "emacs";
}

abbrev errors : List Str
errors = codes "whitespace/tab" ∷ codes "build/include" ∷ codes "whitespace/line_length" ∷ []

abbrev flags : List Str
flags = codes "-whitespace" ∷ codes "build" ∷ []

flags-AreFilters : AreFilters flags
unfolding comma_free strip
flags-AreFilters = a_filter refl refl (a_filter refl refl no_filters)

set_filters-listed_example :
    let s' = record settings { filters = default_filters ++ flags } in
    ((all_have_signs flags ≡ true) × (set_filters (listed flags) settings ≡ returned s'))
    ⊎ ((all_have_signs flags ≡ false) × (set_filters (listed flags) settings ≡ value_error s'))
set_filters-listed_example = set_filters-listed flags settings flags-AreFilters

abbrev suppressions : Suppressions
suppressions = record { by_line = (some (codes "runtime/int"), 8) ∷ []; everywhere = [] }

abbrev tab : Report
tab = record {
  line = 8;
  category = codes "whitespace/tab";
  confidence = 1;
  message = codes "Tab found";
}

all_signed_settings : all_signed settings.filters ≡ true
unfolding all_signed
all_signed_settings = refl

should_print_error_lem_example :
    should_print_error suppressions settings tab ≡ some (printable suppressions settings tab)
should_print_error_lem_example =
    should_print_error_lem suppressions settings tab all_signed_settings

abbrev linter : Linter
linter = record { state = settings; written = [] }

error_all-counts_example :
    (l' : Linter) × (error_all suppressions (tab ∷ tab ∷ []) linter ≡ some l')
    × (l'.state.error_count + length linter.written ≡ linter.state.error_count + length l'.written)
error_all-counts_example = error_all-counts suppressions (tab ∷ tab ∷ []) linter all_signed_settings

check_next-out_of_order_example :
    let before = check_all (other_header ∷ cpp_sys_header ∷ []) IncludeState.init in
    ((check_next_include_order c_sys_header before).0 ≢ [])
    × ((check_next_include_order c_sys_header before).1 ≡ record before { last_header = [] })
check_next-out_of_order_example =
    check_next-out_of_order other_header c_sys_header (cpp_sys_header ∷ []) IncludeState.init
      (omega arith) (inl refl) (omega arith)
