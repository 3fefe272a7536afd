-- ===== src/Lint/Comments/Removed.antt =====
-- What `RemoveMultiLineComments` of scripts/cpplint.py makes of a text.
use mathlib.Core.List.{append_assoc}
use gameboy_emulator.Base.{
  ℕ, zero, suc, ◌≤◌, ◌+◌, ◌≡◌, ◌∙◌, true, false, List, [], ◌∷◌, ◌++◌, length, arith, refl, ap, sym,
  inl, inr, length-append,
}
use gameboy_emulator.Base.Text.{Str}
use gameboy_emulator.Lint.Comments.{
  opens, closes, find_next_multi_line_comment_start, remove_from, remove_multi_line_comments,
}
use gameboy_emulator.Lint.Comments.Pass.{
  none_of, behind, stripped, blank, begins, stripped-code, stripped-open, stripped-none,
  stripped-through,
}
use gameboy_emulator.Lint.Comments.Rounds.{
  Hit, find_first, round-none, search-none, open-case, closed-case, start-at,
}

-- A round leaves a text with fewer lines to go, of which the pass makes the same.
record Passage (fuel : ℕ) (done lines : List Str) : Type 0 where
  passed : List Str
  rest : List Str
  shorter : length rest ≤ fuel
  step :
      remove_from (suc fuel) (done ++ lines) (length done)
      ≡ remove_from fuel (passed ++ rest) (length passed)
  same :
      behind passed (stripped false (length passed) rest)
      ≡ behind done (stripped false (length done) lines)

endless-round :
    (fuel : ℕ) (done lines : List Str) (f : Hit opens lines)
    → none_of closes (f.line ∷ f.rest) ≡ true
    → remove_from (suc fuel) (done ++ lines) (length done)
      ≡ behind done (stripped false (length done) lines)
endless-round fuel done lines f endless =
    let shift : length (done ++ f.front) + 1 ≡ length done + length f.front + 1 =
      omega (arith, length-append done f.front) in
    let code_then = append_assoc done f.front (f.line ∷ f.rest) in
    ap (λ w. remove_from (suc fuel) w (length done))
      (ap (λ (w : List Str). done ++ w) f.whole ∙ sym code_then)
    ∙ open-case fuel done f.front f.line f.rest f.none f.holds endless
    ∙ rw (
      code_then,
      shift,
      f.whole,
      stripped-code f.front (f.line ∷ f.rest) (length done) f.none,
      stripped-open f.line f.rest (length done + length f.front) f.holds endless,
    )

-- A comment with an end, the lines of which are split where it ends.
ended-round :
    (fuel : ℕ) (done lines : List Str)
    → length lines ≤ suc fuel
    → (f : Hit opens lines) → Hit closes (f.line ∷ f.rest)
    → Passage fuel done lines
unfolding begins
ended-round fuel done lines enough f g =
    let comment = g.front ++ g.line ∷ g.rest in
    let whole : lines ≡ f.front ++ comment =
      f.whole ∙ ap (λ (w : List Str). f.front ++ w) g.whole in
    let starts : begins opens comment ≡ true = ap (λ w. begins opens w) (sym g.whole) ∙ f.holds in
    let size : length lines ≡ length f.front + length comment =
      ap (λ (w : List Str). length w) whole ∙ length-append f.front comment in
    let start =
      ap (λ w. find_next_multi_line_comment_start ((done ++ f.front) ++ w) (length done))
        (sym g.whole)
      ∙ start-at done f.front f.line f.rest f.none f.holds in
    record {
      passed = (done ++ f.front) ++ blank (g.front ++ g.line ∷ []);
      rest = g.rest;
      shorter = omega (arith, length-append g.front (g.line ∷ g.rest));
      step =
          ap (λ w. remove_from (suc fuel) w (length done))
            (ap (λ (w : List Str). done ++ w) whole ∙ sym (append_assoc done f.front comment))
          ∙ closed-case fuel done f.front g.front g.line g.rest start g.none g.holds;
      same =
          stripped-through done f.front g.front g.line g.rest f.none starts g.none g.holds
          ∙ ap (λ w. behind done (stripped false (length done) w)) (sym whole);
    }

remove_from-stripped :
    (fuel : ℕ) (done lines : List Str)
    → length lines ≤ fuel
    → remove_from fuel (done ++ lines) (length done)
      ≡ behind done (stripped false (length done) lines)
unfolding remove_from stripped find_next_multi_line_comment_start
remove_from-stripped zero done [] enough = refl
remove_from-stripped zero done (l ∷ lines) enough = absurd (omega arith)
remove_from-stripped (suc fuel) done lines enough = elim (find_first opens lines) [
  | inl plain ↦
      round-none fuel (length done) (done ++ lines) (search-none opens done lines plain)
      ∙ ap (λ r. behind done r) (sym (stripped-none lines (length done) plain))
  | inr f ↦ elim (find_first closes (f.line ∷ f.rest)) [
    | inl endless ↦ endless-round fuel done lines f endless
    | inr g ↦
        let round = ended-round fuel done lines enough f g in
        round.step ∙ remove_from-stripped fuel round.passed round.rest round.shorter ∙ round.same
  ]
]

-- Removing the comments that span lines by searching for the next one and clearing its lines, over and over, is the one pass over the lines that keeps only whether it is in a comment: the result has the same lines, and the report on a comment without an end where that has it.
pub remove_multi_line_comments-stripped :
    (lines : List Str) → remove_multi_line_comments lines ≡ stripped false 0 lines
unfolding remove_multi_line_comments
remove_multi_line_comments-stripped lines =
    remove_from-stripped (length lines) [] lines (omega arith)
