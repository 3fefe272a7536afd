-- ===== src/Lint/Strings/Aligned.antt =====
-- The loops of `CleansedLines` in scripts/cpplint.py end, and its four copies have one length.
use gameboy_emulator.Base.{
  ℕ, zero, suc, ◌<◌, ◌≡◌, ◌⊎◌, inl, inr, refl, List, [], ◌∷◌, Option, none, some, length,
  Option-cases, arith,
}
use gameboy_emulator.Base.Text.{Str}
use gameboy_emulator.Lint.Comments.{cleanse_comments}
use gameboy_emulator.Lint.Regex.{match_re, replace_all}
use gameboy_emulator.Lint.Strings.{
  collapse_loop, collapse_strings, include_pattern, escapes_pattern, CleansedLines, cleanse_each,
  cleansed_lines,
}
use gameboy_emulator.Lint.Strings.Raw.{
  RawRound, raw_round, again, begun, none_left, raw_loop, resume, raw_line, raw_lines_from,
  cleanse_raw_strings,
}
use gameboy_emulator.Lint.Strings.Rounds.{quote_round-cases, raw_round-again}

collapse_loop_total :
    (fuel : ℕ) (collapsed elided : Str)
    → length elided < fuel
    → (s : Str) × (collapse_loop fuel collapsed elided ≡ some s)
unfolding collapse_loop
collapse_loop_total zero collapsed elided h = absurd (omega arith)
collapse_loop_total (suc fuel) collapsed elided h = elim (quote_round-cases collapsed elided) [
  | inl (s, ended) ↦ (s, ground arith)
  | inr (c, e, going, shorter) ↦
      let (s, rest) = collapse_loop_total fuel c e (omega arith) in (s, ground arith)
]

-- The loop of `_CollapseStrings` ends on every line.
pub collapse_strings_total : (line : Str) → (s : Str) × (collapse_strings line ≡ some s)
unfolding collapse_strings
collapse_strings_total line = elim (Option-cases (match_re include_pattern line)) [
  | inr (m, included) ↦ (line, ground arith)
  | inl other ↦
      let plain = replace_all escapes_pattern [] line in
      let (s, ended) = collapse_loop_total (suc (length plain)) [] plain (omega arith) in
      (s, ground arith)
]

RawRound-cases :
    (r : RawRound)
    → ((next : Str) × (r ≡ again next))
      ⊎ (((next : Str) × (d : Str) × (r ≡ begun next d)) ⊎ (r ≡ none_left))
RawRound-cases (again next) = inl (next, refl)
RawRound-cases (begun next d) = inr (inl (next, d, refl))
RawRound-cases none_left = inr (inr refl)

raw_loop_total :
    (fuel : ℕ) (line : Str)
    → length line < fuel
    → (r : Str × Option Str) × (raw_loop fuel line ≡ some r)
unfolding raw_loop
raw_loop_total zero line h = absurd (omega arith)
raw_loop_total (suc fuel) line h = elim (RawRound-cases (raw_round line)) [
  | inl (next, e) ↦
      let (r, rest) = raw_loop_total fuel next (omega (arith, raw_round-again line next e)) in
      (r, ground arith)
  | inr (inl (next, d, e)) ↦ ((next, some d), ground arith)
  | inr (inr e) ↦ ((line, none), ground arith)
]

raw_line_total :
    (delimiter : Option Str) (line : Str)
    → (r : Str × Option Str) × (raw_line delimiter line ≡ some r)
unfolding raw_line
raw_line_total none line = raw_loop_total (suc (length line)) line (omega arith)
raw_line_total (some d) line = elim (Option-cases (resume d line).1) [
  | inr (d', still) ↦ (((resume d line).0, some d'), ground arith)
  | inl ended ↦
      let next = (resume d line).0 in
      let (r, rest) = raw_loop_total (suc (length next)) next (omega arith) in (r, ground arith)
]

raw_lines_total :
    (delimiter : Option Str) (lines : List Str)
    → (out : List Str) × (raw_lines_from delimiter lines ≡ some out) × (length out ≡ length lines)
unfolding raw_lines_from
raw_lines_total delimiter [] = ([], refl, refl)
raw_lines_total delimiter (line ∷ lines) =
    let (r, one) = raw_line_total delimiter line in
    let (out, rest, long) = raw_lines_total r.1 lines in
    (r.0 ∷ out, ground arith, omega (arith, long))

cleanse_each_total :
    (lines : List Str)
    → (p : List Str × List Str) × (cleanse_each lines ≡ some p)
      × (length p.0 ≡ length lines)
      × (length p.1 ≡ length lines)
unfolding cleanse_each
cleanse_each_total [] = (([], []), refl, refl, refl)
cleanse_each_total (line ∷ lines) =
    let (elided, one) = collapse_strings_total line in
    let (p, rest, long, elided_long) = cleanse_each_total lines in
    (
      (cleanse_comments line ∷ p.0, cleanse_comments elided ∷ p.1),
      ground arith,
      omega (arith, long),
      omega (arith, elided_long),
    )

-- The four copies have one length.
pub record IsAligned (c : CleansedLines) : Type 0 where
  pub elided_long : length c.elided ≡ length c.raw_lines
  pub lines_long : length c.lines ≡ length c.raw_lines
  pub without_long : length c.lines_without_raw_strings ≡ length c.raw_lines

-- For every text the constructor of `CleansedLines` returns: the loops over the raw strings and the quotation marks of each line end, the lines given are kept as the raw lines, and the other three copies have as many lines.
pub cleansed_lines-IsAligned :
    (raw_lines : List Str)
    → (c : CleansedLines) × (cleansed_lines raw_lines ≡ some c)
      × (c.raw_lines ≡ raw_lines)
      × IsAligned c
unfolding cleansed_lines cleanse_raw_strings
cleansed_lines-IsAligned raw_lines =
    let (without, removed, long) = raw_lines_total none raw_lines in
    let (p, each, lines_long, elided_long) = cleanse_each_total without in
    (
      record {
        elided = p.1;
        lines = p.0;
        raw_lines = raw_lines;
        lines_without_raw_strings = without;
      },
      ground arith,
      refl,
      omega (arith, long, lines_long, elided_long),
    )
