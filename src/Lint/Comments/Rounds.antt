-- ===== src/Lint/Comments/Rounds.antt =====
-- One round of the loop of `RemoveMultiLineComments` of scripts/cpplint.py: its two searches, and
-- the lines that it clears.
use mathlib.Core.List.{append_assoc}
use gameboy_emulator.Base.{
  ℕ, suc, ◌<◌, ◌+◌, ◌-◌, ◌≡◌, ◌∙◌, Bool, true, List, [], ◌∷◌, ◌++◌, length, drop, arith, refl, ap,
  sym, Bool-cases, inl, inr, ◌⊎◌, length-append,
}
use gameboy_emulator.Base.Text.{Str, codes}
use gameboy_emulator.Lint.Comments.{
  opens, closes, first_line, clear, find_next_multi_line_comment_start, no_end,
  find_next_multi_line_comment_end, remove_multi_line_comments_from_range, remove_from,
}
use gameboy_emulator.Lint.Comments.Pass.{none_of, blank, length-blank}

-- Either no line has a property, or there is a first one that does.
pub record Hit (p : Str → Bool) (lines : List Str) : Type 0 where
  pub front : List Str
  pub line : Str
  pub rest : List Str
  pub whole : lines ≡ front ++ line ∷ rest
  pub none : none_of p front ≡ true
  pub holds : p line ≡ true

pub find_first : (p : Str → Bool) (lines : List Str) → (none_of p lines ≡ true) ⊎ Hit p lines
unfolding none_of
find_first p [] = inl refl
find_first p (l ∷ ls) = elim (Bool-cases (p l)) [
  | inl here ↦
      inr (record { front = []; line = l; rest = ls; whole = refl; none = refl; holds = here })
  | inr not_here ↦ elim (find_first p ls) [
    | inl none ↦ inl (ground arith)
    | inr f ↦ inr (record {
      front = l ∷ f.front;
      line = f.line;
      rest = f.rest;
      whole = ap (λ (w : List Str). l ∷ w) f.whole;
      none = ground (arith, f.none);
      holds = f.holds;
    })
  ]
]

first_line-none :
    (p : Str → Bool) (lines : List Str) (i : ℕ)
    → none_of p lines ≡ true
    → first_line p lines i ≡ i + length lines
unfolding none_of first_line
first_line-none p [] i h = omega arith
first_line-none p (l ∷ ls) i h = ground (arith, first_line-none p ls (i + 1))

first_line-found :
    (p : Str → Bool) (front : List Str) (line : Str) (rest : List Str) (i : ℕ)
    → none_of p front ≡ true
    → p line ≡ true
    → first_line p (front ++ line ∷ rest) i ≡ i + length front
unfolding none_of first_line
first_line-found p [] line rest i h here = rw here (omega arith)
first_line-found p (l ∷ front) line rest i h here =
    ground (arith, first_line-found p front line rest (i + 1))

clear-blank :
    (front comment rest : List Str)
    → clear (length front) (length comment) (front ++ (comment ++ rest))
      ≡ front ++ (blank comment ++ rest)
unfolding clear blank
clear-blank [] [] [] = refl
clear-blank [] [] (l ∷ rest) = refl
clear-blank [] (l ∷ comment) rest =
    ap (λ (w : List Str). codes "/**/" ∷ w) (clear-blank [] comment rest)
clear-blank (l ∷ front) comment rest = ap (λ (w : List Str). l ∷ w) (clear-blank front comment rest)

drop-front : (front rest : List Str) → drop (length front) (front ++ rest) ≡ rest
drop-front [] rest = refl
drop-front (l ∷ front) rest = drop-front front rest

-- Where the two searches of a round end, behind the lines `front`.
module _ (p : Str → Bool) (front lines : List Str) where
  pub search-none :
      none_of p lines ≡ true
      → first_line p (drop (length front) (front ++ lines)) (length front) ≡ length (front ++ lines)
  search-none h =
      rw (drop-front front lines, length-append front lines)
        (first_line-none p lines (length front) h)

  search-found :
      (f : Hit p lines)
      → first_line p (drop (length front) (front ++ lines)) (length front)
        ≡ length front + length f.front
  search-found f =
      ap (λ w. first_line p w (length front)) (drop-front front lines ∙ f.whole)
      ∙ first_line-found p f.front f.line f.rest (length front) f.none f.holds

-- A round in which the first search ends at the end of the text, and one in which the second does.
pub round-none :
    (fuel i : ℕ) (lines : List Str)
    → find_next_multi_line_comment_start lines i ≡ length lines
    → remove_from (suc fuel) lines i ≡ (lines, [])
unfolding remove_from
round-none fuel i lines at_end = ground arith

round-open :
    (fuel i begin : ℕ) (lines : List Str)
    → i < length lines
    → begin < length lines
    → find_next_multi_line_comment_start lines i ≡ begin
    → find_next_multi_line_comment_end lines begin ≡ length lines
    → remove_from (suc fuel) lines i ≡ (lines, no_end (begin + 1) ∷ [])
unfolding remove_from
round-open fuel i begin lines more fits start at_end = rw (start, at_end) (ground arith)

round-closed :
    (fuel i begin end : ℕ) (lines : List Str)
    → i < length lines
    → begin < length lines
    → end < length lines
    → find_next_multi_line_comment_start lines i ≡ begin
    → find_next_multi_line_comment_end lines begin ≡ end
    → remove_from (suc fuel) lines i
      ≡ remove_from fuel (clear begin (end + 1 - begin) lines) (end + 1)
unfolding remove_from remove_multi_line_comments_from_range
round-closed fuel i begin end lines more fits fits' start stop_at =
    rw (start, stop_at) (ground arith)

-- The first search of a round, over lines of code behind the lines of the rounds before.
pub start-at :
    (done code : List Str) (f : Str) (rest : List Str)
    → none_of opens code ≡ true
    → opens f ≡ true
    → find_next_multi_line_comment_start ((done ++ code) ++ f ∷ rest) (length done)
      ≡ length (done ++ code)
unfolding find_next_multi_line_comment_start
start-at done code f rest plain starts =
    rw (append_assoc done code (f ∷ rest), length-append done code)
      (search-found opens done (code ++ f ∷ rest) (record {
        front = code;
        line = f;
        rest = rest;
        whole = refl;
        none = plain;
        holds = starts;
      }))

pub open-case :
    (fuel : ℕ) (done code : List Str) (f : Str) (rest : List Str)
    → none_of opens code ≡ true
    → opens f ≡ true
    → none_of closes (f ∷ rest) ≡ true
    → remove_from (suc fuel) ((done ++ code) ++ f ∷ rest) (length done)
      ≡ ((done ++ code) ++ f ∷ rest, no_end (length (done ++ code) + 1) ∷ [])
unfolding find_next_multi_line_comment_end
open-case fuel done code f rest plain starts endless =
    let lines = (done ++ code) ++ f ∷ rest in
    let size : length lines ≡ length (done ++ code) + suc (length rest) =
      length-append (done ++ code) (f ∷ rest) in
    let parts : length (done ++ code) ≡ length done + length code = length-append done code in
    round-open fuel (length done) (length (done ++ code)) lines (omega arith) (omega arith)
      (start-at done code f rest plain starts)
      (search-none closes (done ++ code) (f ∷ rest) endless)

pub closed-case :
    (fuel : ℕ) (done code front : List Str) (last : Str) (rest : List Str)
    → find_next_multi_line_comment_start ((done ++ code) ++ (front ++ last ∷ rest)) (length done)
      ≡ length (done ++ code)
    → none_of closes front ≡ true
    → closes last ≡ true
    → let passed = (done ++ code) ++ blank (front ++ last ∷ []) in
      remove_from (suc fuel) ((done ++ code) ++ (front ++ last ∷ rest)) (length done)
      ≡ remove_from fuel (passed ++ rest) (length passed)
unfolding find_next_multi_line_comment_end
closed-case fuel done code front last rest start h ends =
    let before = done ++ code in
    let lines = before ++ (front ++ last ∷ rest) in
    let comment = front ++ last ∷ [] in
    let size : length lines ≡ length before + length (front ++ last ∷ rest) =
      length-append before (front ++ last ∷ rest) in
    let size' : length (front ++ last ∷ rest) ≡ length front + suc (length rest) =
      length-append front (last ∷ rest) in
    let parts : length before ≡ length done + length code = length-append done code in
    let number : length before + length front + 1 - length before ≡ length comment =
      omega (arith, length-append front (last ∷ [])) in
    let next_line : length before + length front + 1 ≡ length (before ++ blank comment) = omega (
      arith,
      length-append before (blank comment),
      length-blank comment,
      length-append front (last ∷ []),
    ) in
    let cleared : clear (length before) (length comment) lines ≡ (before ++ blank comment) ++ rest =
      ap (λ w. clear (length before) (length comment) (before ++ w))
        (sym (append_assoc front (last ∷ []) rest))
      ∙ clear-blank before comment rest
      ∙ sym (append_assoc before (blank comment) rest) in
    round-closed fuel (length done) (length before) (length before + length front) lines
      (omega arith) (omega arith) (omega arith) start
      (search-found closes before (front ++ last ∷ rest)
        (record { front = front; line = last; rest = rest; whole = refl; none = h; holds = ends }))
    ∙ rw (number, cleared, next_line)
