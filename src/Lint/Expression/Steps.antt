-- ===== src/Lint/Expression/Steps.antt =====
-- One step of the scan of `FindStartOfExpressionInLine` of scripts/cpplint.py, on a bracket and on
-- every other character.
use gameboy_emulator.Base.{
  ℕ, suc, ◌≡◌, refl, true, [], ◌∷◌, length, reverse, ◌==◌, ◌&&◌, arith, zero, Bool, false,
  Bool-cases, inl, inr, ◌⊎◌, not,
}
use gameboy_emulator.Base.Text.{Str, is_space}
use gameboy_emulator.Lint.Regex.{match_re}
use gameboy_emulator.Lint.Expression.{
  open_step, searches, matches, operator_pattern, comparison_pattern, skip, next, stop, closed,
  start_step,
}
use gameboy_emulator.Lint.Expression.Brackets.{
  Kind, round, open_of, close_of, is_bracket, pending, drop_pending-pending, popped, push,
}

-- No position of a text, given in reverse, stands right behind the word `operator` and blanks.
unfoldable pub operator_free : Str → Bool
operator_free [] = true
operator_free (c ∷ before) =
    not (searches operator_pattern (reverse (c ∷ before))) && operator_free before

pub operator_free-push :
    (w before : Str) → operator_free (push w before) ≡ true → operator_free before ≡ true
unfolding push operator_free
operator_free-push [] before h = h
operator_free-push (c ∷ w) before h =
    let rest : operator_free (c ∷ before) ≡ true = operator_free-push w (c ∷ before) h in
    ground arith

-- The character in front is there and no bracket.
unfoldable pub head_plain : Str → Bool
head_plain [] = false
head_plain (d ∷ before) = not (is_bracket d)

comparison-head :
    (d : ℕ) (w : Str) → is_space d ≡ false → matches comparison_pattern (d ∷ w) ≡ false
unfolding comparison_pattern match_re
comparison-head d w h = rw (matches, h) refl

space-plain : (d : ℕ) → is_space d ≡ true → is_bracket d ≡ false
unfolding is_space
space-plain d h = ground arith

-- A round on a character that is no bracket changes the pending `>` at most; it may pass over the
-- character in front, which is no bracket then.
unfoldable pub Passes : Str → ℕ → Str → ℕ → ℕ → Str → Type 0
Passes before c after m x st =
    (m' : ℕ) × ((start_step before c after (pending b'>' m (x ∷ st))
        ≡ next (pending b'>' m' (x ∷ st)))
      ⊎ ((start_step before c after (pending b'>' m (x ∷ st)) ≡ skip (pending b'>' m' (x ∷ st)))
          × (head_plain before ≡ true)))

step_greater :
    (before after : Str) (m x : ℕ) (st : Str)
    → operator_free before ≡ true
    → Passes before b'>' after m x st
unfolding Passes start_step pending head_plain operator_free
step_greater [] after m x st free = (suc m, inl refl)
step_greater (d ∷ before) after m x st free =
    let none_before : searches operator_pattern (reverse (d ∷ before)) ≡ false = ground arith in
    let there : not (length (d ∷ before) == 0) ≡ true = ground arith in
    elim (Bool-cases (d == b'-')) [
      | inl arrow ↦
          let plain : not (is_bracket d) ≡ true = ground arith in
          (m, inr (rw (there, arrow) refl, plain))
      | inr no_arrow ↦ elim (Bool-cases (matches comparison_pattern (d ∷ b'>' ∷ after))) [
        | inl comparison ↦ elim (Bool-cases (is_space d)) [
          | inl blank ↦
              let plain : not (is_bracket d) ≡ true = ground (arith, space-plain d blank) in
              (m, inr (rw (there, no_arrow, comparison) refl, plain))
          | inr glued ↦
              let never : matches comparison_pattern (d ∷ b'>' ∷ after) ≡ false =
                comparison-head d (b'>' ∷ after) glued in
              absurd (ground arith)
        ]
        | inr no_comparison ↦ (suc m, inl (rw (there, no_arrow, no_comparison, none_before) refl))
      ]
    ]

step_less :
    (before after : Str) (m x : ℕ) (st : Str)
    → (x == b'>') ≡ false
    → Passes before b'<' after m x st
unfolding Passes start_step head_plain
step_less [] after m x st settled =
    let (m', e) = popped (closed 0) b'>' m x st settled in (m', inl e)
step_less (d ∷ before) after m x st settled = elim (Bool-cases (d == b'<')) [
  | inl shift ↦
      let plain : not (is_bracket d) ≡ true = ground arith in (m, inr (rw shift refl, plain))
  | inr single ↦
      let (m', e) = popped (closed (length (d ∷ before))) b'>' m x st settled in
      (m', inl (rw single e))
]

pub step_plain :
    (before after : Str) (c m x : ℕ) (st : Str)
    → (x == b'>') ≡ false
    → operator_free before ≡ true
    → is_bracket c ≡ false
    → Passes before c after m x st
unfolding Passes start_step pending
step_plain before after c m x st settled free h = elim (Bool-cases (c == b'>')) [
  | inl greater ↦
      let same : c ≡ b'>' = ground arith in rw same (step_greater before after m x st free)
  | inr not_greater ↦ elim (Bool-cases (c == b'<')) [
    | inl less ↦
        let same : c ≡ b'<' = ground arith in rw same (step_less before after m x st settled)
    | inr other ↦ elim (Bool-cases (c == b';')) [
      | inl semicolon ↦
          let same : c ≡ b';' = ground arith in
          (0, inl (rw same (rw (drop_pending-pending b'>' m x st settled) (ground arith))))
      | inr ordinary ↦ (m, inl (ground arith))
    ]
  ]
]

pub step_close :
    (before after st : Str) (k : Kind)
    → start_step before (close_of k) after st ≡ next (close_of k ∷ st)
unfolding start_step
step_close before after st round = refl
step_close before after st _ = refl

-- An opening bracket in front of the text inside of it, and one that empties the stack.
pub step_open :
    (before after : Str) (m m' x : ℕ) (st : Str) (k : Kind)
    → start_step before (open_of k) after (pending b'>' m (close_of k ∷ pending b'>' m' (x ∷ st)))
      ≡ next (pending b'>' m' (x ∷ st))
unfolding start_step pending open_step
step_open before after m zero x st round = rw (drop_pending-pending b'>' m b')' (x ∷ st) refl) refl
step_open before after m (suc m') x st round =
    rw (drop_pending-pending b'>' m b')' (b'>' ∷ pending b'>' m' (x ∷ st)) refl) refl
step_open before after m zero x st Kind.square =
    rw (drop_pending-pending b'>' m b']' (x ∷ st) refl) refl
step_open before after m (suc m') x st Kind.square =
    rw (drop_pending-pending b'>' m b']' (b'>' ∷ pending b'>' m' (x ∷ st)) refl) refl
step_open before after m zero x st Kind.curly =
    rw (drop_pending-pending b'>' m b'}' (x ∷ st) refl) refl
step_open before after m (suc m') x st Kind.curly =
    rw (drop_pending-pending b'>' m b'}' (b'>' ∷ pending b'>' m' (x ∷ st)) refl) refl

pub step_last :
    (before after : Str) (m : ℕ) (k : Kind)
    → start_step before (open_of k) after (pending b'>' m (close_of k ∷ []))
      ≡ stop (closed (length before))
unfolding start_step open_step
step_last before after m round = rw (drop_pending-pending b'>' m b')' [] refl) refl
step_last before after m Kind.square = rw (drop_pending-pending b'>' m b']' [] refl) refl
step_last before after m Kind.curly = rw (drop_pending-pending b'>' m b'}' [] refl) refl
