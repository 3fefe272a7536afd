-- ===== src/Lint/Expression.antt =====
-- The bracket matching of scripts/cpplint.py: `FindEndOfExpressionInLine`, `CloseExpression` and
-- their two reverse counterparts. The stack is a list with its top first.
pub mod Brackets
pub mod Forward
pub mod Backward
pub mod Progress
pub mod Steps
use gameboy_emulator.Base.{
  ℕ, zero, suc, ◌+◌, ◌-◌, Bool, true, false, List, [], ◌∷◌, ◌++◌, Option, none, some, reverse,
  length, take, drop, get_elem?, ◌==◌, if◌then◌else◌, not, ◌&&◌, ◌||◌,
}
use gameboy_emulator.Base.Text.{Str, codes}
use gameboy_emulator.Lint.Regex.{
  Regex, boundary, line_end, seq, alt, star, char, space, literal, match_re, search_re,
}

abbrev pub is_open : ℕ → Bool
is_open c = c == b'(' || c == b'[' || c == b'{'

abbrev pub is_close : ℕ → Bool
is_close c = c == b')' || c == b']' || c == b'}'

abbrev pub pairs_with : ℕ → ℕ → Bool
pairs_with o c = (o == b'(' && c == b')') || (o == b'[' && c == b']') || (o == b'{' && c == b'}')

-- \boperator\s*$
unfoldable pub operator_pattern : Regex
unfolding literal
operator_pattern = seq boundary (seq (literal (codes "operator")) (seq (star space) line_end))

abbrev pub searches : Regex → Str → Bool
searches r s = elim (search_re r s) [ none ↦ false | some m ↦ true ]

abbrev pub matches : Regex → Str → Bool
matches r s = elim (match_re r s) [ none ↦ false | some m ↦ true ]

abbrev pub head_is : ℕ → Str → Bool
head_is c [] = false
head_is c (x ∷ xs) = x == c

-- (position, None), (-1, None) and (-1, stack).
pub data Scan : Type 0 where
  closed : ℕ → Scan
  failed : Scan
  unclosed : Str → Scan

-- What one round of a loop does: go on with a stack, or return.
pub data Step : Type 0 where
  next : Str → Step
  skip : Str → Step
  stop : Scan → Step

-- `while stack and stack[-1] == c: stack.pop()`.
unfoldable pub drop_pending : ℕ → Str → Str
drop_pending c [] = []
drop_pending c (x ∷ st) = if x == c then drop_pending c st else x ∷ st

-- `stack.pop()`, and `done` if that empties the stack.
abbrev pub pop_or : Scan → Str → Step
pop_or done [] = stop failed
pop_or done (x ∷ []) = stop done
pop_or done (x ∷ y ∷ st) = next (y ∷ st)

-- A closing bracket `c` that ends at `done`, against the top of the stack.
pub close_step : ℕ → Scan → Str → Step
close_step c done [] = stop failed
close_step c done (x ∷ st) = if pairs_with x c then pop_or done (x ∷ st) else stop failed

-- One round of the forward loop: `before` is `line[0:i]` reversed, `c` is `line[i]`.
unfoldable pub end_step : Str → ℕ → ℕ → Str → Step
unfolding close_step drop_pending
end_step before c i st =
    if is_open c
    then next (c ∷ st)
    else if c == b'<'
    then (if head_is b'<' before
        then (if head_is b'<' st then pop_or failed st else next st)
        else if searches operator_pattern (reverse before)
        then next st
        else next (b'<' ∷ st))
    else if is_close c
    then close_step c (closed (i + 1)) (drop_pending b'<' st)
    else if c == b'>'
    then (if head_is b'-' before
          || (not (length before == 0) && searches operator_pattern (reverse (drop 1 before)))
        then next st
        else if head_is b'<' st
        then pop_or (closed (i + 1)) st
        else next st)
    else if c == b';'
    then (let st' = drop_pending b'<' st in if length st' == 0 then stop failed else next st')
    else next st

unfoldable pub scan_end : Str → Str → ℕ → Str → Scan
scan_end before [] i st = unclosed st
scan_end before (c ∷ cs) i st = elim (end_step before c i st) [
  | next st' ↦ scan_end (c ∷ before) cs (i + 1) st'
  | skip st' ↦ scan_end (c ∷ before) cs (i + 1) st'
  | stop r ↦ r
]

unfoldable pub find_end_of_expression_in_line : Str → ℕ → Str → Scan
unfolding scan_end
find_end_of_expression_in_line line startpos st =
    scan_end (reverse (take startpos line)) (drop startpos line) startpos st

-- The line, line number and position that are returned; `none` is the position -1.
pub record Place : Type 0 where
  pub line : Str
  pub linenum : ℕ
  pub pos : Option ℕ

-- The scan of the following lines, from line `linenum` on; `line` is the one before.
unfoldable pub close_in : List Str → Str → ℕ → ℕ → Scan → Place
close_in lines line linenum num_lines (closed p) = record {
  line = line;
  linenum = linenum - 1;
  pos = some p;
}
close_in [] line linenum num_lines r = record { line = line; linenum = num_lines; pos = none }
close_in (l ∷ lines) line linenum num_lines failed = record {
  line = line;
  linenum = num_lines;
  pos = none;
}
close_in (l ∷ lines) line linenum num_lines (unclosed st) =
    if length st == 0
    then record { line = line; linenum = num_lines; pos = none }
    else close_in lines l (linenum + 1) num_lines (find_end_of_expression_in_line l 0 st)

-- <[<=]
pub less_pattern : Regex
less_pattern = seq (char b'<') (alt (char b'<') (char b'='))

-- `none` is the `IndexError` of a line or a position that is not there.
unfoldable pub close_expression : List Str → ℕ → ℕ → Option Place
unfolding less_pattern
close_expression elided linenum pos = elim (get_elem? elided linenum) [
  | none ↦ none
  | some line ↦ elim (get_elem? line pos) [
    | none ↦ none
    | some c ↦ some (
        if not (is_open c || c == b'<') || matches less_pattern (drop pos line)
        then record { line = line; linenum = length elided; pos = none }
        else close_in (drop (linenum + 1) elided) line (linenum + 1) (length elided)
            (find_end_of_expression_in_line line pos []))
  ]
]

-- \s>=\s
unfoldable pub comparison_pattern : Regex
comparison_pattern = seq space (seq (char b'>') (seq (char b'=') space))

-- An opening bracket `c` at `done`, against the top of the stack.
pub open_step : ℕ → Scan → Str → Step
open_step c done [] = stop failed
open_step c done (x ∷ st) = if pairs_with c x then pop_or done (x ∷ st) else stop failed

-- One round of the backward loop: `before` is `line[0:i]` reversed, `c` is `line[i]`, `after` the
-- text behind it; `skip` is a round that passes over one more character.
unfoldable pub start_step : Str → ℕ → Str → Str → Step
unfolding open_step drop_pending comparison_pattern
start_step before c after st =
    if is_close c
    then next (c ∷ st)
    else if c == b'>'
    then (if not (length before == 0)
          && (head_is b'-' before
              || matches comparison_pattern (take 1 before ++ c ∷ after)
              || searches operator_pattern (reverse before))
        then skip st
        else next (b'>' ∷ st))
    else if c == b'<'
    then (if head_is b'<' before
        then skip st
        else if head_is b'>' st
        then pop_or (closed (length before)) st
        else next st)
    else if is_open c
    then open_step c (closed (length before)) (drop_pending b'>' st)
    else if c == b';'
    then (let st' = drop_pending b'>' st in if length st' == 0 then stop failed else next st')
    else next st

unfoldable pub scan_start : Str → Str → Str → Scan
scan_start [] after st = unclosed st
scan_start (c ∷ []) after st = elim (start_step [] c after st) [
  | next st' ↦ unclosed st'
  | skip st' ↦ unclosed st'
  | stop r ↦ r
]
scan_start (c ∷ d ∷ before) after st = elim (start_step (d ∷ before) c after st) [
  | next st' ↦ scan_start (d ∷ before) (c ∷ after) st'
  | skip st' ↦ scan_start before (d ∷ c ∷ after) st'
  | stop r ↦ r
]

-- `count` is `endpos + 1`, the number of characters to look at.
unfoldable pub find_start_of_expression_in_line : Str → ℕ → Str → Scan
unfolding scan_start
find_start_of_expression_in_line line count st =
    scan_start (reverse (take count line)) (drop count line) st

-- The scan of the preceding lines, nearest first; `linenum` is the number of the line scanned.
unfoldable pub open_in : List Str → Str → ℕ → Scan → Place
open_in lines line linenum (closed p) = record { line = line; linenum = linenum; pos = some p }
open_in [] line linenum r = record { line = line; linenum = 0; pos = none }
open_in (l ∷ lines) line linenum failed = record { line = line; linenum = 0; pos = none }
open_in (l ∷ lines) line linenum (unclosed st) =
    if length st == 0
    then record { line = line; linenum = 0; pos = none }
    else open_in lines l (linenum - 1) (find_start_of_expression_in_line l (length l) st)

unfoldable pub reverse_close_expression : List Str → ℕ → ℕ → Option Place
reverse_close_expression elided linenum pos = elim (get_elem? elided linenum) [
  | none ↦ none
  | some line ↦ elim (get_elem? line pos) [
    | none ↦ none
    | some c ↦ some (
        if not (is_close c || c == b'>')
        then record { line = line; linenum = 0; pos = none }
        else open_in (reverse (take linenum elided)) line linenum
            (find_start_of_expression_in_line line (pos + 1) []))
  ]
]
