-- ===== src/Lint/Suppress.antt =====
-- The suppressions of scripts/cpplint.py: NOLINT comments and directives for a whole file.
-- The dictionary of sets of line numbers is the list of its (category, line) pairs, `none` being
-- the key of "suppress all"; the dictionary of global suppressions is the list of its keys, whose
-- values are all `True`.
use gameboy_emulator.Base.{
  ℕ, ◌+◌, Bool, true, false, List, [], ◌∷◌, ◌++◌, Option, none, some, ◌==◌, if◌then◌else◌, not,
  ◌&&◌, ◌||◌, length, drop, take, ◌-◌,
}
use gameboy_emulator.Base.Text.{Str, codes, str_eq, elem, starts_with, ends_with}
use gameboy_emulator.Lint.Categories.{
  error_categories, legacy_error_categories, default_c_suppressed_categories,
  default_kernel_suppressed_categories,
}
use gameboy_emulator.Lint.Regex.{
  Regex, Matched, boundary, line_end, set, seq, alt, star, group, char, any_char, space, plus, opt,
  literal, search_re, group_of,
}

pub record Suppressions : Type 0 where
  pub by_line : List (Option Str × ℕ)
  pub everywhere : List Str

-- What a check hands to the error function.
pub record Report : Type 0 where
  pub line : ℕ
  pub category : Str
  pub confidence : ℕ
  pub message : Str

unfoldable pub reset_nolint_suppressions : Suppressions → Suppressions
reset_nolint_suppressions s = record { by_line = []; everywhere = [] }

-- \bNOLINT(NEXTLINE)?\b(\([^)]+\))?
unfoldable pub nolint_pattern : Regex
unfolding literal
nolint_pattern = seq boundary (
    seq (literal (codes "NOLINT")) (
      seq (opt (group 1 (literal (codes "NEXTLINE")))) (
        seq boundary
          (opt (group 2 (seq (char b'(') (seq (plus (set (λ x. not (x == b')')))) (char b')'))))))))

abbrev suppress : Option Str → ℕ → Suppressions → Suppressions
suppress category line s = record s { by_line = (category, line) ∷ s.by_line }

-- `category[1:-1]`.
abbrev inner : Str → Str
inner s = take (length s - 2) (drop 1 s)

unknown_category : ℕ → Str → Report
unknown_category linenum category = record {
  line = linenum;
  category = codes "readability/nolint";
  confidence = 5;
  message = codes "Unknown NOLINT error category: " ++ category;
}

-- The branches on the category in parentheses.
unfoldable pub apply_nolint : Option Str → ℕ → ℕ → Suppressions → Suppressions × List Report
unfolding unknown_category
apply_nolint none line linenum s = (suppress none line s, [])
apply_nolint (some category) line linenum s =
    if str_eq category (codes "(*)")
    then (suppress none line s, [])
    else if starts_with category (codes "(") && ends_with category (codes ")")
    then (if elem (inner category) error_categories
        then (suppress (some (inner category)) line s, [])
        else if elem (inner category) legacy_error_categories
        then (s, [])
        else (s, unknown_category linenum (inner category) ∷ []))
    else (s, [])

unfoldable pub parse_nolint_suppressions : Str → ℕ → Suppressions → Suppressions × List Report
unfolding search_re group_of nolint_pattern
parse_nolint_suppressions raw_line linenum s = elim (search_re nolint_pattern raw_line) [
  | none ↦ (s, [])
  | some (head, m) ↦
      let line : ℕ = elim (group_of 1 m.groups) [ some _ ↦ linenum + 1 | none ↦ linenum ] in
      apply_nolint (group_of 2 m.groups) line linenum s
]

-- (\s*|:)
spaces_or_colon : Regex
spaces_or_colon = alt (star space) (char b':')

-- \b(?:LINT_C_FILE|vim?:\s*.*(\s*|:)filetype=c(\s*|:|$))
unfoldable pub c_file_pattern : Regex
unfolding literal spaces_or_colon
c_file_pattern = seq boundary (
    alt (literal (codes "LINT_C_FILE")) (
      seq (literal (codes "vi")) (
        seq (opt (char b'm')) (
          seq (char b':') (
            seq (star space) (
              seq (star any_char) (
                seq (group 1 spaces_or_colon) (
                  seq (literal (codes "filetype=c"))
                    (group 2 (alt (star space) (alt (char b':') line_end)))))))))))

-- \b(?:LINT_KERNEL_FILE)
unfoldable pub kernel_file_pattern : Regex
unfolding literal
kernel_file_pattern = seq boundary (literal (codes "LINT_KERNEL_FILE"))

abbrev found : Option (Str × Matched) → Bool
found none = false
found (some _) = true

abbrev add_if : Bool → List Str → List Str → List Str
add_if t new old = if t then new ++ old else old

unfoldable pub process_global_suppressions : List Str → Suppressions → Suppressions
unfolding search_re c_file_pattern kernel_file_pattern
process_global_suppressions [] s = s
process_global_suppressions (line ∷ lines) s = process_global_suppressions lines (record s {
  everywhere =
      add_if (found (search_re kernel_file_pattern line)) default_kernel_suppressed_categories (
        add_if (found (search_re c_file_pattern line)) default_c_suppressed_categories
          s.everywhere);
})

abbrev same_key : Option Str → Option Str → Bool
same_key none none = true
same_key (some a) (some b) = str_eq a b
same_key _ _ = false

unfoldable pub has_line : Option Str → ℕ → List (Option Str × ℕ) → Bool
has_line key line [] = false
has_line key line ((k, n) ∷ rest) = (same_key k key && n == line) || has_line key line rest

unfoldable pub is_error_suppressed_by_nolint : Str → ℕ → Suppressions → Bool
unfolding has_line elem
is_error_suppressed_by_nolint category linenum s =
    elem category s.everywhere
    || (has_line (some category) linenum s.by_line || has_line none linenum s.by_line)
