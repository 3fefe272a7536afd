-- ===== src/Lint/Strings.antt =====
-- How scripts/cpplint.py takes strings out of lines: `_CollapseStrings` and the four copies of a file
-- in `CleansedLines`; `CleanseRawStrings` is in Strings/Raw. A loop takes fuel, and `none` is a loop
-- that has run out of it.
use mathlib.Core.Option
pub mod Raw
pub mod Rounds
pub mod Aligned
use Prim.Native.String.{String}
use gameboy_emulator.Base.{
  Bool, true, false, leb, ℕ, zero, suc, ◌+◌, List, [], ◌∷◌, ◌++◌, Option, none, some, length, drop,
  ◌==◌, if◌then◌else◌, not, ◌&&◌, ◌||◌,
}
use gameboy_emulator.Base.Text.{Str, codes, find}
use gameboy_emulator.Lint.Comments.{cleanse_comments}
use gameboy_emulator.Lint.Regex.{
  Regex, is_word, any_char, boundary, line_start, line_end, set, seq, alt, star, group, char, space,
  plus, opt, literal, match_re, search_re, replace_all,
}
use gameboy_emulator.Lint.Strings.Raw.{cleanse_raw_strings}

-- ^\s*#\s*include\s*([<"])([^>"]*)[>"].*$
unfoldable pub include_pattern : Regex
unfolding literal
include_pattern = seq line_start (
    seq (star space) (
      seq (char b'#') (
        seq (star space) (
          seq (literal (codes "include")) (
            seq (star space) (
              seq (group 1 (set (λ x. x == b'<' || x == b'"'))) (
                seq (group 2 (star (set (λ x. not (x == b'>' || x == b'"')))))
                  (seq (set (λ x. x == b'>' || x == b'"')) (seq (star any_char) line_end)))))))))

abbrev digit : Regex
digit = set (λ x. leb b'0' x && leb x b'9')

abbrev hex_digit : Regex
hex_digit =
    set (λ x. leb b'0' x && leb x b'9' || leb b'a' x && leb x b'f' || leb b'A' x && leb x b'F')

abbrev one_of : String → Regex
one_of s = set (λ x. any_of x (codes s))
  where
    any_of : ℕ → Str → Bool
    any_of x [] = false
    any_of x (c ∷ cs) = x == c || any_of x cs

-- \\([abfnrtv?"\\\']|\d+|x[0-9a-fA-F]+)
unfoldable pub escapes_pattern : Regex
escapes_pattern =
    seq (char 92)
      (group 1 (alt (one_of "abfnrtv?\"\\'") (alt (plus digit) (seq (char b'x') (plus hex_digit)))))

-- \b(?:0[bBxX]?|[1-9])[0-9a-fA-F]*$
unfoldable pub number_pattern : Regex
number_pattern = seq boundary (
    seq (alt (seq (char b'0') (opt (one_of "bBxX"))) (set (λ x. leb b'1' x && leb x b'9')))
      (seq (star hex_digit) line_end))

-- ^([^\'"]*)([\'"])(.*)$, with its groups.
pub record Quoted : Type 0 where
  pub head : Str
  pub quote : ℕ
  pub tail : Str

unfoldable pub first_quote : Str → Option Quoted
first_quote [] = none
first_quote (c ∷ cs) =
    if c == b'\'' || c == b'"'
    then some (record { head = []; quote = c; tail = cs })
    else Option.map (λ (q : Quoted). record q { head = c ∷ q.head }) (first_quote cs)

-- ^((?:\'?[0-9a-zA-Z_])*)(.*)$: group 1 with its quotation marks taken out, and group 2.
unfoldable pub take_number : Str → Str × Str
take_number [] = ([], [])
take_number (c ∷ []) = if is_word c then (c ∷ [], []) else ([], c ∷ [])
take_number (c ∷ d ∷ cs) =
    let (word, rest) = take_number (d ∷ cs) in
    let (word', rest') = take_number cs in
    if is_word c
    then (c ∷ word, rest)
    else if c == b'\'' && is_word d
    then (d ∷ word', rest')
    else ([], c ∷ d ∷ cs)

-- One round of the loop over the quotation marks of a line: it goes on with what is collected and
-- what is left, or returns.
pub data QuoteRound : Type 0 where
  more : Str → Str → QuoteRound
  done : Str → QuoteRound

unfoldable pub quote_round : Str → Str → QuoteRound
unfolding first_quote find search_re number_pattern take_number
quote_round collapsed elided = elim (first_quote elided) [
  | none ↦ done (collapsed ++ elided)
  | some q ↦
      let unmatched = done (collapsed ++ elided) in
      if q.quote == b'"'
      then elim (find q.tail (codes "\"")) [
        | some n ↦ more (collapsed ++ (q.head ++ codes "\"\"")) (drop (n + 1) q.tail)
        | none ↦ unmatched
      ]
      else elim (search_re number_pattern q.head) [
        | some _ ↦
            let (word, rest) = take_number (b'\'' ∷ q.tail) in
            more (collapsed ++ (q.head ++ word)) rest
        | none ↦ elim (find q.tail (codes "'")) [
          | some n ↦ more (collapsed ++ (q.head ++ codes "''")) (drop (n + 1) q.tail)
          | none ↦ unmatched
        ]
      ]
]

unfoldable pub collapse_loop : ℕ → Str → Str → Option Str
collapse_loop zero collapsed elided = none
collapse_loop (suc fuel) collapsed elided = elim (quote_round collapsed elided) [
  | more collapsed' elided' ↦ collapse_loop fuel collapsed' elided'
  | done s ↦ some s
]

unfoldable pub collapse_strings : Str → Option Str
unfolding match_re include_pattern replace_all escapes_pattern
collapse_strings elided = elim (match_re include_pattern elided) [
  | some _ ↦ some elided
  | none ↦
      let plain = replace_all escapes_pattern [] elided in
      collapse_loop (suc (length plain)) [] plain
]

pub record CleansedLines : Type 0 where
  pub elided : List Str
  pub lines : List Str
  pub raw_lines : List Str
  pub lines_without_raw_strings : List Str

abbrev pub num_lines : CleansedLines → ℕ
num_lines c = length c.raw_lines

-- The loop of the constructor: the members `lines` and `elided`.
unfoldable pub cleanse_each : List Str → Option (List Str × List Str)
cleanse_each [] = some ([], [])
cleanse_each (line ∷ lines) = elim (collapse_strings line) [
  | none ↦ none
  | some elided ↦
      Option.map
        (λ (p : List Str × List Str). (cleanse_comments line ∷ p.0, cleanse_comments elided ∷ p.1))
        (cleanse_each lines)
]

unfoldable pub cleansed_lines : List Str → Option CleansedLines
cleansed_lines raw_lines = elim (cleanse_raw_strings raw_lines) [
  | none ↦ none
  | some without ↦
      Option.map
        (λ (p : List Str × List Str). record {
          elided = p.1;
          lines = p.0;
          raw_lines = raw_lines;
          lines_without_raw_strings = without;
        })
        (cleanse_each without)
]
