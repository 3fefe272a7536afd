-- ===== src/Lint/FileChecks/Blank.antt =====
-- What the search for a line that is not blank in scripts/cpplint.py finds.
use gameboy_emulator.Base.{
  ℕ, zero, suc, ◌<◌, ◌≤◌, ◌≡◌, ◌⊎◌, inl, inr, true, false, List, [], ◌∷◌, none, some, length,
  get_elem?, arith, refl, ◌∙◌, Bool-cases,
}
use gameboy_emulator.Base.Text.{Str}
use gameboy_emulator.Lint.FileChecks.{is_blank_line, previous_from, get_previous_non_blank_line}

-- The lines from `low` to below `high` are there and blank.
pub record IsBlank (elided : List Str) (low high : ℕ) : Type 0 where
  pub blank :
      (i : ℕ)
      → low ≤ i
      → i < high
      → (l : Str) × (get_elem? elided i ≡ some l) × (is_blank_line l ≡ true)

present :
    (elided : List Str) (i : ℕ) → i < length elided → (l : Str) × (get_elem? elided i ≡ some l)
present (l ∷ ls) zero h = (l, refl)
present (l ∷ ls) (suc i) h = present ls i (omega arith)
present [] i h = absurd (omega arith)

extend :
    (elided : List Str) (low n : ℕ) (l : Str)
    → IsBlank elided low n
    → get_elem? elided n ≡ some l
    → is_blank_line l ≡ true
    → IsBlank elided low (suc n)
extend elided low n l h found blank = record {
  blank = λ i lo hi. elim (split i n hi) [
    | inl below ↦ h.blank i lo below
    | inr same ↦ (l, ground arith, blank)
  ];
}
  where
    split : (i n : ℕ) → i < suc n → (i < n) ⊎ (i ≡ n)
    split i n h = omega arith

module _ (elided : List Str) (k : ℕ) (l : Str) (found : get_elem? elided k ≡ some l) where
  skipped :
      is_blank_line l ≡ true
      → get_previous_non_blank_line elided (suc k) ≡ get_previous_non_blank_line elided k
  unfolding get_previous_non_blank_line previous_from
  skipped blank = ground arith

  taken : is_blank_line l ≡ false → get_previous_non_blank_line elided (suc k) ≡ some (some (l, k))
  unfolding get_previous_non_blank_line previous_from
  taken text = ground arith

-- For a line number up to the number of lines the search returns: either no line is found and all lines before are blank, or it finds a line before that is not blank, with its text, and all lines between the two are blank.
pub get_previous_non_blank_line_lem :
    (elided : List Str) (linenum : ℕ)
    → linenum ≤ length elided
    → ((get_previous_non_blank_line elided linenum ≡ some none) × IsBlank elided 0 linenum)
      ⊎ ((line : Str) × (n : ℕ) × (get_previous_non_blank_line elided linenum
            ≡ some (some (line, n)))
          × (n < linenum)
          × (get_elem? elided n ≡ some line)
          × (is_blank_line line ≡ false)
          × IsBlank elided (suc n) linenum)
unfolding get_previous_non_blank_line previous_from
get_previous_non_blank_line_lem elided zero h =
    inl (refl, record { blank = λ i lo hi. absurd (omega arith) })
get_previous_non_blank_line_lem elided (suc k) h =
    let (l, found) = present elided k (omega arith) in
    elim (Bool-cases (is_blank_line l)) [
      | inl blank ↦ elim (get_previous_non_blank_line_lem elided k (omega arith)) [
        | inl (result, all) ↦
            inl (skipped elided k l found blank ∙ result, extend elided 0 k l all found blank)
        | inr (line, n, result, below, at, text, all) ↦ inr (
          line,
          n,
          skipped elided k l found blank ∙ result,
          omega arith,
          at,
          text,
          extend elided (suc n) k l all found blank,
        )
      ]
      | inr text ↦ inr (
        l,
        k,
        taken elided k l found text,
        omega arith,
        found,
        text,
        record { blank = λ i lo hi. absurd (omega arith) },
      )
    ]
