-- ===== src/Lint/State.antt =====
-- `_CppLintState` of scripts/cpplint.py and the module's functions that pass on to its methods.
pub mod Counting
pub mod Filters
use gameboy_emulator.Base.{
  ℕ, ◌+◌, Bool, true, false, List, [], ◌∷◌, ◌++◌, Option, none, some, if◌then◌else◌, not, ◌&&◌,
  ◌||◌,
}
use gameboy_emulator.Base.Text.{Str, codes, str_eq, starts_with, split_on, strip}
use gameboy_emulator.Lint.Categories.{default_filters}

pub record State : Type 0 where
  pub verbose_level : ℕ
  pub error_count : ℕ
  pub filters : List Str
  pub filters_backup : List Str
  pub counting : Str
  pub errors_by_category : List (Str × ℕ)
  pub quiet : Bool
  pub output_format : Str

unfoldable pub init : State
unfolding default_filters
init = record {
  verbose_level = 1;
  error_count = 0;
  filters = default_filters;
  filters_backup = default_filters;
  counting = codes "total";
  errors_by_category = [];
  quiet = false;
  output_format = codes "emacs";
}

unfoldable pub set_output_format : Str → State → State
set_output_format format s = record s { output_format = format }

-- The setters below return the previous setting too.
unfoldable pub set_quiet : Bool → State → Bool × State
set_quiet quiet s = (s.quiet, record s { quiet = quiet })

unfoldable pub set_verbose_level : ℕ → State → ℕ × State
set_verbose_level level s = (s.verbose_level, record s { verbose_level = level })

unfoldable pub set_counting_style : Str → State → State
set_counting_style style s = record s { counting = style }

-- How a method that may raise `ValueError` ends; what it wrote before stays written.
pub data Call : Type 0 where
  returned value_error : State → Call

abbrev pub state_of : Call → State
state_of (returned s) = s
state_of (value_error s) = s

-- The filters of a comma-separated text that are not blank.
unfoldable pub clean_filters : List Str → List Str
unfolding strip
clean_filters [] = []
clean_filters (filt ∷ rest) =
    let clean_filt = strip filt in
    if str_eq clean_filt [] then clean_filters rest else clean_filt ∷ clean_filters rest

abbrev pub is_signed : Str → Bool
is_signed filt = starts_with filt (codes "+") || starts_with filt (codes "-")

unfoldable pub all_signed : List Str → Bool
all_signed [] = true
all_signed (filt ∷ rest) = is_signed filt && all_signed rest

-- The filters that a comma-separated text adds, in order.
unfoldable pub parsed_filters : Str → List Str
unfolding clean_filters split_on
parsed_filters filters =
    let (piece, pieces) = split_on b',' filters in clean_filters (piece ∷ pieces)

unfoldable pub add_filters : Str → State → Call
add_filters filters s =
    let s' = record s { filters = s.filters ++ parsed_filters filters } in
    if all_signed s'.filters then returned s' else value_error s'

unfoldable pub set_filters : Str → State → Call
set_filters filters s = add_filters filters (record s { filters = default_filters })

unfoldable pub backup_filters : State → State
backup_filters s = record s { filters_backup = s.filters }

unfoldable pub restore_filters : State → State
restore_filters s = record s { filters = s.filters_backup }

unfoldable pub reset_error_counts : State → State
reset_error_counts s = record s { error_count = 0; errors_by_category = [] }

-- `d[category] += 1`, with 0 for a category that is not there.
unfoldable pub bump : Str → List (Str × ℕ) → List (Str × ℕ)
bump category [] = (category, 1) ∷ []
bump category ((c, n) ∷ rest) =
    if str_eq c category then (c, n + 1) ∷ rest else (c, n) ∷ bump category rest

-- The key under which an error is counted: `category.split('/')[0]` unless the style is detailed.
unfoldable pub counted_category : Str → Str → Str
unfolding split_on
counted_category style category =
    if str_eq style (codes "detailed") then category else (split_on b'/' category).0

unfoldable pub increment_error_count : Str → State → State
increment_error_count category s =
    let s' = record s { error_count = s.error_count + 1 } in
    if str_eq s.counting (codes "toplevel") || str_eq s.counting (codes "detailed")
    then record s' {
      errors_by_category = bump (counted_category s.counting category) s.errors_by_category;
    }
    else s'

-- The lines of `PrintErrorCounts`, before formatting: the categories with their counts, and the
-- total.
unfoldable pub error_counts : State → List (Str × ℕ) × ℕ
error_counts s = (s.errors_by_category, s.error_count)
