-- ===== src/Lint/Report/Laws.antt =====
-- Which reports of scripts/cpplint.py are written.
use gameboy_emulator.Base.{
  ◌+◌, ◌≡◌, refl, Bool, true, false, List, [], ◌∷◌, ◌++◌, Option, none, some, if◌then◌else◌, not,
  leb, ◌&&◌, drop, length, arith, length-append, Bool-cases, inl, inr,
}
use gameboy_emulator.Base.Text.{Str, codes, starts_with}
use gameboy_emulator.Lint.State.{State, all_signed, increment_error_count}
use gameboy_emulator.Lint.Suppress.{Suppressions, Report, is_error_suppressed_by_nolint}
use gameboy_emulator.Lint.Report.{filter_loop, should_print_error, Linter, error, style_of}

-- What the last filter that applies to a category says, or `before` if none does: a filter
-- applies if the category begins with the filter's text behind the sign.
abbrev pub last_says : Str → List Str → Bool → Bool
last_says category [] before = before
last_says category (f ∷ rest) before =
    last_says category rest
      (if starts_with category (drop 1 f) then starts_with f (codes "-") else before)

filter_loop_lem :
    (category : Str) (filters : List Str) (before : Bool)
    → all_signed filters ≡ true
    → filter_loop category filters before ≡ some (last_says category filters before)
unfolding filter_loop all_signed
filter_loop_lem category [] before h = refl
filter_loop_lem category (f ∷ rest) before h = ground (
  arith,
  filter_loop_lem category rest true,
  filter_loop_lem category rest false,
  filter_loop_lem category rest before,
)

-- Not suppressed, confident enough, and not filtered out.
abbrev pub printable : Suppressions → State → Report → Bool
printable sup s r =
    not (is_error_suppressed_by_nolint r.category r.line sup)
    && (leb s.verbose_level r.confidence && not (last_says r.category s.filters false))

-- When every filter has a sign, no assertion fails, and a report is to be printed exactly when it is not suppressed, its confidence reaches the verbosity level, and the last filter that applies to its category, if any, has a plus sign.
pub should_print_error_lem :
    (sup : Suppressions) (s : State) (r : Report)
    → all_signed s.filters ≡ true
    → should_print_error sup s r ≡ some (printable sup s r)
unfolding should_print_error
should_print_error_lem sup s r h = ground (arith, filter_loop_lem r.category s.filters false h)

-- The error function over a sequence of reports.
unfoldable pub error_all : Suppressions → List Report → Linter → Option Linter
error_all sup [] l = some l
error_all sup (r ∷ rs) l = elim (error sup r l) [ none ↦ none | some l' ↦ error_all sup rs l' ]

increment-fields :
    (category : Str) (s : State)
    → ((increment_error_count category s).error_count ≡ s.error_count + 1)
      × ((increment_error_count category s).filters ≡ s.filters)
unfolding increment_error_count
increment-fields category s = ground arith

-- One report: it returns, and the count and the written reports grow together.
error_step :
    (sup : Suppressions) (r : Report) (l : Linter)
    → all_signed l.state.filters ≡ true
    → (l' : Linter) × (error sup r l ≡ some l')
      × (l'.state.filters ≡ l.state.filters)
      × (l'.state.error_count + length l.written ≡ l.state.error_count + length l'.written)
unfolding error
error_step sup r l h = elim (Bool-cases (printable sup l.state r)) [
  | inl yes_print ↦ (
    record {
      state = increment_error_count r.category l.state;
      written = l.written ++ (style_of l.state.output_format, r) ∷ [];
    },
    ground (arith, should_print_error_lem sup l.state r h, yes_print),
    (increment-fields r.category l.state).1,
    omega (
      arith,
      (increment-fields r.category l.state).0,
      length-append l.written ((style_of l.state.output_format, r) ∷ []),
    ),
  )
  | inr no_print ↦ (l, ground (arith, should_print_error_lem sup l.state r h, no_print), refl, refl)
]

-- When every filter has a sign, the error function returns on any sequence of reports, and the error count grows by exactly the number of reports that were written.
pub error_all-counts :
    (sup : Suppressions) (rs : List Report) (l : Linter)
    → all_signed l.state.filters ≡ true
    → (l' : Linter) × (error_all sup rs l ≡ some l')
      × (l'.state.error_count + length l.written ≡ l.state.error_count + length l'.written)
unfolding error_all
error_all-counts sup [] l h = (l, refl, refl)
error_all-counts sup (r ∷ rs) l h =
    let (l', ran, same, grown) = error_step sup r l h in
    let (end, finished, total) = error_all-counts sup rs l' (rw same h) in
    (end, rw (ran, error_all) finished, omega (arith, grown, total))
