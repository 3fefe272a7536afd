-- ===== src/Lint/Strings/Rounds.antt =====
-- Each round of the loops of scripts/cpplint.py over quotation marks leaves a shorter text.
use gameboy_emulator.Base.{
  suc, ◌+◌, ◌<◌, ◌≤◌, ◌≡◌, ◌∙◌, ◌⊎◌, inl, inr, refl, ap, [], ◌∷◌, ◌++◌, none, some, reverse, length,
  length-append, length-drop, drop, Bool-cases, Option-cases, arith, ◌==◌, ◌||◌,
}
use gameboy_emulator.Base.Text.{Str, codes, find, starts_with}
use gameboy_emulator.Lint.Expression.Brackets.{reverse-eq-push, length-push}
use gameboy_emulator.Lint.Regex.{Matched, search_re, match_re, at_boundary}
use gameboy_emulator.Lint.Strings.{
  Quoted, first_quote, take_number, number_pattern, more, done, quote_round,
}
use gameboy_emulator.Lint.Strings.Raw.{
  RawString, raw_prefix, raw_name, find_raw, in_comment_pattern, again, raw_round,
}

first_quote-cases :
    (s : Str)
    → (first_quote s ≡ none)
      ⊎ ((q : Quoted) × (first_quote s ≡ some q) × (length s ≡ length q.head + suc (length q.tail)))
unfolding first_quote
first_quote-cases [] = inl refl
first_quote-cases (c ∷ cs) = elim (Bool-cases (c == b'\'' || c == b'"')) [
  | inl here ↦ inr (record { head = []; quote = c; tail = cs }, rw here, omega arith)
  | inr later ↦ elim (first_quote-cases cs) [
    | inl e ↦ inl (rw (later, e))
    | inr (q, e, long) ↦ inr (record q { head = c ∷ q.head }, rw (later, e), omega (arith, long))
  ]
]

take_number-le : (s : Str) → length (take_number s).1 ≤ length s
unfolding take_number
take_number-le [] = omega arith
take_number-le (c ∷ []) = ground arith
take_number-le (c ∷ d ∷ cs) = ground (arith, take_number-le (d ∷ cs), take_number-le cs)

-- A number has at least one digit.
no_number : search_re number_pattern [] ≡ none
unfolding search_re number_pattern at_boundary
no_number = refl

digits-pos :
    (head : Str) {m : Str × Matched} → search_re number_pattern head ≡ some m → 0 < length head
digits-pos [] e = cc (no_number, e)
digits-pos (x ∷ xs) e = omega arith

-- A round of the loop of `_CollapseStrings` ends it or leaves less of the line.
pub quote_round-cases :
    (collapsed elided : Str)
    → ((s : Str) × (quote_round collapsed elided ≡ done s))
      ⊎ ((c : Str) × (e : Str) × (quote_round collapsed elided ≡ more c e)
          × (length e < length elided))
unfolding quote_round
quote_round-cases collapsed elided = elim (first_quote-cases elided) [
  | inl e ↦ inl (collapsed ++ elided, ground arith)
  | inr (q, e, long) ↦ elim (Bool-cases (q.quote == b'"')) [
    | inl double ↦ elim (Option-cases (find q.tail (codes "\""))) [
      | inl absent ↦ inl (collapsed ++ elided, ground arith)
      | inr (n, found) ↦ inr (
        collapsed ++ (q.head ++ codes "\"\""),
        drop (n + 1) q.tail,
        ground arith,
        omega (arith, long, length-drop (n + 1) q.tail),
      )
    ]
    | inr single ↦ elim (Option-cases (search_re number_pattern q.head)) [
      | inl word ↦ elim (Option-cases (find q.tail (codes "'"))) [
        | inl absent ↦ inl (collapsed ++ elided, ground arith)
        | inr (n, found) ↦ inr (
          collapsed ++ (q.head ++ codes "''"),
          drop (n + 1) q.tail,
          ground arith,
          omega (arith, long, length-drop (n + 1) q.tail),
        )
      ]
      | inr (m, number) ↦ inr (
        collapsed ++ (q.head ++ (take_number (b'\'' ∷ q.tail)).0),
        (take_number (b'\'' ∷ q.tail)).1,
        ground arith,
        omega (arith, long, take_number-le (b'\'' ∷ q.tail), digits-pos q.head number),
      )
    ]
  ]
]

raw_prefix-cases :
    (s : Str)
    → (raw_prefix s ≡ none) ⊎ ((t : Str) × (raw_prefix s ≡ some t) × (length t + 2 ≤ length s))
unfolding raw_prefix
raw_prefix-cases [] = inl refl
raw_prefix-cases (a ∷ []) = inl (ground arith)
raw_prefix-cases (a ∷ b ∷ s) = elim (Bool-cases (starts_with (a ∷ b ∷ s) (codes "R\""))) [
  | inl plain ↦ inr (s, ground arith, omega arith)
  | inr _ ↦ elim (Bool-cases (starts_with (a ∷ b ∷ s) (codes "u8R\""))) [
    | inl utf8 ↦ inr (drop 2 s, ground arith, omega (arith, length-drop 2 s))
    | inr _ ↦ elim (Option-cases (raw_prefix (a ∷ b ∷ s))) [
      | inl absent ↦ inl absent
      | inr (t, found) ↦ inr (t, found, ground (arith, length-drop 1 s))
    ]
  ]
]

raw_name-cases :
    (s : Str)
    → (raw_name s ≡ none)
      ⊎ ((p : Str × Str) × (raw_name s ≡ some p) × (suc (length p.0) + length p.1 ≡ length s))
unfolding raw_name
raw_name-cases [] = inl refl
raw_name-cases (c ∷ cs) = elim (raw_name-cases cs) [
  | inl absent ↦ elim (Option-cases (raw_name (c ∷ cs))) [
    | inl e ↦ inl e
    | inr (p, e) ↦ inr (p, e, ground arith)
  ]
  | inr (p, found, long) ↦ elim (Option-cases (raw_name (c ∷ cs))) [
    | inl e ↦ inl e
    | inr (p', e) ↦ inr (p', e, ground arith)
  ]
]

length-reverse : (s : Str) → length (reverse s) ≡ length s
length-reverse s = ap (λ (x : Str). length x) (reverse-eq-push s) ∙ length-push s [] ∙ omega arith

-- A raw string has at least three characters before its body.
find_raw-bound :
    (before s : Str) (raw : RawString)
    → find_raw before s ≡ some raw
    → length raw.before + 3 + length raw.body ≤ length before + length s
unfolding find_raw
find_raw-bound before [] raw e = cc
find_raw-bound before (c ∷ cs) raw e = elim (raw_prefix-cases (c ∷ cs)) [
  | inl plain ↦ ground (arith, find_raw-bound (c ∷ before) cs raw)
  | inr (quoted, found, short) ↦ elim (raw_name-cases quoted) [
    | inl unnamed ↦ ground (arith, find_raw-bound (c ∷ before) cs raw)
    | inr (p, named, long) ↦
        ground (arith, find_raw-bound (c ∷ before) cs raw, length-reverse before)
  ]
]

-- A round of the loop of `CleanseRawStrings` ends it or leaves a shorter line.
pub raw_round-again : (line next : Str) → raw_round line ≡ again next → length next < length line
unfolding raw_round
raw_round-again line next e = elim (Option-cases (find_raw [] line)) [
  | inl absent ↦ absurd (ground arith)
  | inr (raw, found) ↦ elim (Option-cases (match_re in_comment_pattern raw.before)) [
    | inr (m, comment) ↦ absurd (ground arith)
    | inl code ↦ elim (Option-cases (find raw.body (b')' ∷ raw.name ++ b'"' ∷ []))) [
      | inl open_end ↦ absurd (ground arith)
      | inr (n, ended) ↦
          let rest = drop (n + length (b')' ∷ raw.name ++ b'"' ∷ [])) raw.body in
          let same : raw.before ++ (codes "\"\"" ++ rest) ≡ next = ground arith in
          omega (
            arith,
            ap (λ (x : Str). length x) same,
            length-append raw.before (codes "\"\"" ++ rest),
            length-drop (n + length (b')' ∷ raw.name ++ b'"' ∷ [])) raw.body,
            find_raw-bound [] line raw found,
          )
    ]
  ]
]
