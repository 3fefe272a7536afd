-- ===== src/Lint/Constructs/Explicit.antt =====
-- The second half of `CheckForNonStandardConstructs` of scripts/cpplint.py: constructors that can be
-- called with one argument.
use mathlib.Core.Option
use gameboy_emulator.Base.{
  ℕ, zero, suc, ◌+◌, Bool, true, false, List, [], ◌∷◌, ◌++◌, Option, none, some, length, drop, ltb,
  leb, ◌==◌, if◌then◌else◌, not, ◌&&◌, ◌||◌,
}
use gameboy_emulator.Base.Text.{Str, codes, str_eq, count, find, split_on, strip}
use gameboy_emulator.Lint.Blocks.{BlockInfo, ClassInfo, matches, searches, group_or_empty}
use gameboy_emulator.Lint.LineChecks.{line_report}
use gameboy_emulator.Lint.Nesting.Update.{innermost_class}
use gameboy_emulator.Lint.Regex.{
  Regex, is_word, boundary, set, seq, alt, star, group, char, space, plus, opt, literal, match_re,
  group_of,
}
use gameboy_emulator.Lint.Suppress.{Report}

-- One of some words, tried in their order.
unfoldable pub one_of_words : List Str → Regex
unfolding literal
one_of_words [] = set (λ x. false)
one_of_words (w ∷ []) = literal w
one_of_words (w ∷ v ∷ ws) = alt (literal w) (one_of_words (v ∷ ws))

-- `name.split('::')[-1]`; each round takes two characters, so the length is enough fuel.
base_loop : ℕ → Str → Str
unfolding find
base_loop zero name = name
base_loop (suc fuel) name = elim (find name (codes "::")) [
  | none ↦ name
  | some i ↦ base_loop fuel (drop (i + 2) name)
]

unfoldable pub base_classname : Str → Str
unfolding base_loop
base_classname name = base_loop (length name) name

-- (?:(?:inline|constexpr)\s+)*
specifiers : Regex
unfolding one_of_words
specifiers = star (seq (one_of_words (codes "inline" ∷ codes "constexpr" ∷ [])) (plus space))

abbrev no_bracket : Regex
no_bracket = set (λ x. not (x == b'(' || x == b')'))

-- \s+ specifiers (explicit\s+)? specifiers name\s*\(((?:[^()]|\([^()]*\))*)\)
unfoldable pub constructor_pattern : Str → Regex
unfolding literal specifiers
constructor_pattern name = seq (plus space) (
    seq specifiers (
      seq (opt (group 1 (seq (literal (codes "explicit")) (plus space)))) (
        seq specifiers (
          seq (literal name) (
            seq (star space) (
              seq (char b'(') (
                seq
                  (group 2
                    (star (alt no_bracket (seq (char b'(') (seq (star no_bracket) (char b')'))))))
                  (char b')'))))))))

-- Is an argument cut off inside a template parameter list or a function's arguments?
unfoldable pub is_cut : Str → Bool
unfolding count
is_cut arg =
    ltb (count arg (codes ">")) (count arg (codes "<"))
    || ltb (count arg (codes ")")) (count arg (codes "("))

-- The loop that joins the pieces of an argument; `none` is the `IndexError` where no piece is left.
unfoldable pub collapse_args : Str → List Str → Option (List Str)
unfolding is_cut
collapse_args arg [] = if is_cut arg then none else some (arg ∷ [])
collapse_args arg (next ∷ others) =
    let joined = collapse_args (arg ++ b',' ∷ next) others in
    let rest = collapse_args next others in
    if is_cut arg then joined else Option.map (λ args. arg ∷ args) rest

-- The arguments of a constructor, from the text in its brackets.
unfoldable pub constructor_args : Str → Option (List Str)
unfolding split_on collapse_args
constructor_args text =
    let (first, others) = split_on b',' text in
    if length text == 0 then some [] else collapse_args first others

unfoldable pub has_default : Str → Bool
has_default [] = false
has_default (x ∷ xs) = x == b'=' || has_default xs

unfoldable pub count_defaulted : List Str → ℕ
unfolding has_default
count_defaulted [] = 0
count_defaulted (arg ∷ args) = (if has_default arg then 1 else 0) + count_defaulted args

unfoldable pub is_noarg : List Str → Bool
unfolding strip
is_noarg [] = true
is_noarg (arg ∷ []) = str_eq (strip arg) (codes "void")
is_noarg (arg ∷ next ∷ others) = false

unfoldable pub is_onearg : List Str → Bool
unfolding is_noarg count_defaulted
is_onearg [] = false
is_onearg (arg ∷ others) =
    not (is_noarg (arg ∷ others))
    && (length others == 0 || leb (length others) (count_defaulted (arg ∷ others)))

-- \bstd\s*::\s*initializer_list\b
unfoldable pub initializer_list_pattern : Regex
unfolding literal
initializer_list_pattern = seq boundary (
    seq (literal (codes "std")) (
      seq (star space) (
        seq (literal (codes "::"))
          (seq (star space) (seq (literal (codes "initializer_list")) boundary)))))

-- (const\s+)?name(\s*<[^>]*>)?(\s+const)?\s*(?:<\w+>\s*)?&
unfoldable pub copy_pattern : Str → Regex
unfolding literal
copy_pattern name = seq (opt (group 1 (seq (literal (codes "const")) (plus space)))) (
    seq (literal name) (
      seq
        (opt (
          group 2 (
            seq (star space)
              (seq (char b'<') (seq (star (set (λ x. not (x == b'>')))) (char b'>'))))))
        (seq (opt (group 3 (seq (plus space) (literal (codes "const"))))) (
          seq (star space) (
            seq (opt (seq (char b'<') (seq (plus (set is_word)) (seq (char b'>') (star space)))))
              (char b'&'))))))

-- A constructor that may do without `explicit`, by its first argument.
unfoldable pub is_exempt : Str → List Str → Bool
unfolding initializer_list_pattern copy_pattern strip
is_exempt name [] = false
is_exempt name (arg ∷ others) =
    searches initializer_list_pattern arg || matches (copy_pattern name) (strip arg)

unfoldable pub explicit_reports : ℕ → Str → Bool → List Str → List Report
unfolding is_onearg is_noarg is_exempt count_defaulted line_report
explicit_reports linenum name is_marked_explicit args =
    if not is_marked_explicit && is_onearg args && not (is_exempt name args)
    then line_report linenum (codes "runtime/explicit") 5 (
        if count_defaulted args == 0
        then codes "Single-parameter constructors should be marked explicit."
        else codes "Constructors callable with one argument should be marked explicit.")
    else if is_marked_explicit && not (is_onearg args) && is_noarg args
    then line_report linenum (codes "runtime/explicit") 5
        (codes "Zero-parameter constructors should not be marked explicit.")
    else []

-- The check inside the class `info` whose head is complete.
unfoldable pub check_constructor : ℕ → Str → ClassInfo → Option (List Report)
unfolding match_re group_of base_classname constructor_pattern constructor_args explicit_reports
check_constructor linenum line info =
    let name = base_classname info.name in
    elim (match_re (constructor_pattern name) line) [
      | none ↦ some []
      | some m ↦
          let is_marked_explicit : Bool = elim (group_of 1 m.groups) [
            | none ↦ false
            | some s ↦ true
          ] in
          Option.map (explicit_reports linenum name is_marked_explicit)
            (constructor_args (group_or_empty 2 m))
    ]

unfoldable pub check_explicit : ℕ → Str → List BlockInfo → Option (List Report)
unfolding innermost_class check_constructor
check_explicit linenum line stack = elim (innermost_class stack) [
  | none ↦ some []
  | some (b, info) ↦ if b.seen_open_brace then check_constructor linenum line info else some []
]
