-- ===== src/Lint/Templates/Progress.antt =====
-- Each round of `InTemplateArgumentList` of scripts/cpplint.py ends the search or goes forward.
use gameboy_emulator.Base.{
  ℕ, zero, suc, ◌+◌, ◌-◌, ◌<◌, ◌≤◌, ◌≡◌, ◌∙◌, ◌⊎◌, inl, inr, refl, ap, Bool, false, List, [], ◌∷◌,
  none, some, get_elem?, length, length-drop, drop, Bool-cases, Option-cases, arith, ◌==◌,
}
use gameboy_emulator.Base.Text.{Str}
use gameboy_emulator.Lint.Expression.{close_expression}
use gameboy_emulator.Lint.Expression.Progress.{close_expression-progress}
use gameboy_emulator.Lint.Templates.{
  is_mark, next_mark, TemplateRound, at, answer, template_round, template_loop, size_of,
  in_template_argument_list,
}

next_mark-bound : (s : Str) (w t : ℕ) → next_mark s ≡ some (w, t) → (0 < w) × (w ≤ length s)
unfolding next_mark
next_mark-bound [] w t e = absurd (ground arith)
next_mark-bound (c ∷ []) w t e = (ground arith, ground arith)
next_mark-bound (c ∷ d ∷ cs) w t e = elim (Bool-cases (is_mark c)) [
  | inl mark ↦ (ground arith, ground arith)
  | inr other ↦ elim (Option-cases (next_mark (d ∷ cs))) [
    | inl absent ↦ absurd (ground arith)
    | inr ((w', t'), there) ↦
        let (low, high) = next_mark-bound (d ∷ cs) w' t' there in (ground arith, ground arith)
  ]
]

-- The characters from a place on.
remaining : List Str → ℕ → ℕ → ℕ
remaining elided n pos = elim (get_elem? elided n) [
  | none ↦ 0
  | some line ↦ suc (length (drop pos line)) + size_of (drop (suc n) elided)
]

remaining-here :
    (elided : List Str) (n pos : ℕ) {line : Str}
    → get_elem? elided n ≡ some line
    → remaining elided n pos ≡ suc (length line - pos) + size_of (drop (suc n) elided)
unfolding remaining
remaining-here elided n pos {line} there = ground (arith, length-drop pos line)

remaining-later :
    (elided : List Str) (n m pos : ℕ) → m ≤ n → remaining elided n pos ≤ size_of (drop m elided)
unfolding remaining size_of
remaining-later [] n m pos h = omega arith
remaining-later (l ∷ ls) zero zero pos h = omega (arith, length-drop pos l)
remaining-later (l ∷ ls) (suc n) zero pos h =
    omega (arith, remaining-later ls n zero pos (omega arith))
remaining-later (l ∷ ls) zero (suc m) pos h = absurd (omega arith)
remaining-later (l ∷ ls) (suc n) (suc m) pos h = remaining-later ls n m pos (omega arith)

round-advances :
    (elided : List Str) (line : Str) (n pos n' pos' : ℕ)
    → template_round elided line n pos ≡ at n' pos'
    → (n < n') ⊎ ((n' ≡ n) × ((pos < pos') × (pos < length line)))
unfolding template_round
round-advances elided line n pos n' pos' e = elim (Option-cases (next_mark (drop pos line))) [
  | inl absent ↦ ground arith
  | inr ((w, t), there) ↦
      let (low, high) = next_mark-bound (drop pos line) w t there in
      elim (Bool-cases (t == b'<')) [
        | inr other ↦ ground (arith, length-drop pos line)
        | inl opening ↦ elim (Option-cases (close_expression elided n (pos + w - 1))) [
          | inl absent ↦ absurd (ground arith)
          | inr (place, found) ↦ elim (Option-cases place.pos) [
            | inl unclosed ↦ absurd (ground arith)
            | inr (p, at_p) ↦ ground (
              arith,
              length-drop pos line,
              close_expression-progress elided n (pos + w - 1) found at_p,
            )
          ]
        ]
      ]
]

round-remaining :
    (elided : List Str) (n pos n' pos' : ℕ) {line : Str}
    → get_elem? elided n ≡ some line
    → template_round elided line n pos ≡ at n' pos'
    → remaining elided n' pos' < remaining elided n pos
round-remaining elided n pos n' pos' {line} there e =
    elim (round-advances elided line n pos n' pos' e) [
      | inl later ↦
          omega
            (arith, remaining-here elided n pos there, remaining-later elided n' (suc n) pos' later)
      | inr (same, (forward, inside)) ↦ omega (
        arith,
        remaining-here elided n pos there,
        remaining-here elided n' pos' {line = line} (ap (get_elem? elided) same ∙ there),
        ap (λ k. size_of (drop (suc k) elided)) same,
      )
    ]

TemplateRound-cases :
    (r : TemplateRound) → ((n : ℕ) × (pos : ℕ) × (r ≡ at n pos)) ⊎ ((b : Bool) × (r ≡ answer b))
TemplateRound-cases (at n pos) = inl (n, pos, refl)
TemplateRound-cases (answer b) = inr (b, refl)

template_loop_total :
    (fuel : ℕ) (elided : List Str) (n pos : ℕ)
    → remaining elided n pos < fuel
    → (b : Bool) × (template_loop fuel elided n pos ≡ some b)
unfolding template_loop
template_loop_total zero elided n pos h = absurd (omega arith)
template_loop_total (suc fuel) elided n pos h = elim (Option-cases (get_elem? elided n)) [
  | inl end ↦ (false, ground arith)
  | inr (line, there) ↦ elim (TemplateRound-cases (template_round elided line n pos)) [
    | inl (n', pos', on) ↦
        let less = round-remaining elided n pos n' pos' there on in
        let (b, e) = template_loop_total fuel elided n' pos' (omega arith) in (b, ground arith)
    | inr (b, ends) ↦ (b, ground arith)
  ]
]

-- The search for the end of a template argument list ends, wherever it begins.
pub in_template_argument_list_total :
    (elided : List Str) (n pos : ℕ) → (b : Bool) × (in_template_argument_list elided n pos ≡ some b)
unfolding in_template_argument_list
in_template_argument_list_total elided n pos =
    template_loop_total (suc (size_of elided)) elided n pos
      (omega (arith, remaining-later elided n 0 pos (omega arith)))
