-- ===== src/Lint/Expression/Forward.antt =====
-- `FindEndOfExpressionInLine` and `CloseExpression` of scripts/cpplint.py on balanced texts.
use mathlib.Core.List.{append_assoc}
use gameboy_emulator.Base.{
  ℕ, ◌+◌, ◌≡◌, refl, ◌∙◌, sym, ap, true, false, List, [], ◌∷◌, ◌++◌, some, length, drop, get_elem?,
  ap₂, length-append, ◌==◌, Bool-cases, inl, inr, not, ◌&&◌, zero, suc, reverse, ◌||◌, arith,
}
use gameboy_emulator.Base.Text.{Str}
use gameboy_emulator.Lint.Regex.{match_re}
use gameboy_emulator.Lint.Expression.{
  close_step, failed, head_is, searches, operator_pattern, next, stop, Scan, closed, end_step,
  scan_end, is_open, matches, less_pattern, find_end_of_expression_in_line, close_in,
  close_expression,
}
use gameboy_emulator.Lint.Expression.Brackets.{
  Kind, round, open_of, close_of, Tree, done, plain, wrap, is_bracket, IsPlain, pending,
  drop_pending-pending, popped, open-plain, text, push, push-append, drop-prefix, get_elem?-prefix,
}

module _ (before : Str) (i m x : ℕ) (st : Str) (settled : (x == b'<') ≡ false) where
  -- A character that is no bracket changes the pending `<` at most.
  step_less :
      (m' : ℕ) × (end_step before b'<' i (pending b'<' m (x ∷ st))
        ≡ next (pending b'<' m' (x ∷ st)))
  unfolding end_step pending
  step_less = elim (Bool-cases (head_is b'<' before)) [
    | inl shift ↦ let (m', e) = popped failed b'<' m x st settled in (m', rw shift e)
    | inr single ↦ elim (Bool-cases (searches operator_pattern (reverse before))) [
      | inl method ↦ (m, rw (single, method))
      | inr less ↦ (suc m, rw (single, less))
    ]
  ]

  step_greater :
      (m' : ℕ) × (end_step before b'>' i (pending b'<' m (x ∷ st))
        ≡ next (pending b'<' m' (x ∷ st)))
  unfolding end_step
  step_greater =
      let passed =
        head_is b'-' before
        || (not (length before == 0) && searches operator_pattern (reverse (drop 1 before))) in
      elim (Bool-cases passed) [
        | inl arrow ↦ (m, rw arrow)
        | inr closing ↦
            let (m', e) = popped (closed (i + 1)) b'<' m x st settled in (m', rw closing e)
      ]

  step_plain :
      (c : ℕ)
      → is_bracket c ≡ false
      → (m' : ℕ) × (end_step before c i (pending b'<' m (x ∷ st)) ≡ next (pending b'<' m' (x ∷ st)))
  unfolding end_step pending
  step_plain c h = elim (Bool-cases (c == b'<')) [
    | inl less ↦ let same : c ≡ b'<' = ground arith in rw same step_less
    | inr not_less ↦ elim (Bool-cases (c == b'>')) [
      | inl greater ↦ let same : c ≡ b'>' = ground arith in rw same step_greater
      | inr other ↦ elim (Bool-cases (c == b';')) [
        | inl semicolon ↦
            let same : c ≡ b';' = ground arith in
            (0, rw same (rw (drop_pending-pending b'<' m x st settled) (ground arith)))
        | inr ordinary ↦ (m, ground arith)
      ]
    ]
  ]

  step_open :
      (k : Kind)
      → end_step before (open_of k) i (pending b'<' m (x ∷ st))
        ≡ next (open_of k ∷ pending b'<' m (x ∷ st))
  unfolding end_step
  step_open round = refl
  step_open _ = refl

-- A closing bracket behind the text inside of it, and one that empties the stack.
step_close :
    (before : Str) (i m m' x : ℕ) (st : Str) (k : Kind)
    → end_step before (close_of k) i (pending b'<' m (open_of k ∷ pending b'<' m' (x ∷ st)))
      ≡ next (pending b'<' m' (x ∷ st))
unfolding end_step pending close_step
step_close before i m zero x st round = rw (drop_pending-pending b'<' m b'(' (x ∷ st) refl) refl
step_close before i m (suc m') x st round =
    rw (drop_pending-pending b'<' m b'(' (b'<' ∷ pending b'<' m' (x ∷ st)) refl) refl
step_close before i m zero x st Kind.square =
    rw (drop_pending-pending b'<' m b'[' (x ∷ st) refl) refl
step_close before i m (suc m') x st Kind.square =
    rw (drop_pending-pending b'<' m b'[' (b'<' ∷ pending b'<' m' (x ∷ st)) refl) refl
step_close before i m zero x st Kind.curly =
    rw (drop_pending-pending b'<' m b'{' (x ∷ st) refl) refl
step_close before i m (suc m') x st Kind.curly =
    rw (drop_pending-pending b'<' m b'{' (b'<' ∷ pending b'<' m' (x ∷ st)) refl) refl

step_last :
    (before : Str) (i m : ℕ) (k : Kind)
    → end_step before (close_of k) i (pending b'<' m (open_of k ∷ [])) ≡ stop (closed (i + 1))
unfolding end_step close_step
step_last before i m round = rw (drop_pending-pending b'<' m b'(' [] refl) refl
step_last before i m Kind.square = rw (drop_pending-pending b'<' m b'[' [] refl) refl
step_last before i m Kind.curly = rw (drop_pending-pending b'<' m b'{' [] refl) refl

scan-next :
    (before cs st st' : Str) (c i : ℕ)
    → end_step before c i st ≡ next st'
    → scan_end before (c ∷ cs) i st ≡ scan_end (c ∷ before) cs (i + 1) st'
unfolding scan_end
scan-next before cs st st' c i e = rw (e, scan_end)

scan-stop :
    (before cs st : Str) (c i : ℕ) (r : Scan)
    → end_step before c i st ≡ stop r
    → scan_end before (c ∷ cs) i st ≡ r
unfolding scan_end
scan-stop before cs st c i r e = rw (e, scan_end)

step_first :
    (before : Str) (i : ℕ) (k : Kind) → end_step before (open_of k) i [] ≡ next (open_of k ∷ [])
unfolding end_step
step_first before i round = refl
step_first before i _ = refl

-- Scanning a balanced text changes the pending `<` at most, unless the stack is empty.
scan-tree :
    (t : Tree) (before rest : Str) (i m x : ℕ) (st : Str)
    → (x == b'<') ≡ false
    → IsPlain t
    → (m' : ℕ) × (scan_end before (text t ++ rest) i (pending b'<' m (x ∷ st))
        ≡ scan_end (push (text t) before) rest (i + length (text t)) (pending b'<' m' (x ∷ st)))
unfolding text push pending
scan-tree done before rest i m x st settled h =
    (m, ap (λ j. scan_end before rest j (pending b'<' m (x ∷ st))) (omega arith))
scan-tree (plain c t) before rest i m x st settled h =
    let (m₁, now) = step_plain before i m x st settled c h.0 in
    let (m', later) = scan-tree t (c ∷ before) rest (i + 1) m₁ x st settled h.1 in
    (
      m',
      scan-next before (text t ++ rest) _ _ c i now
          ∙ later
          ∙ ap (λ j. scan_end (push (text t) (c ∷ before)) rest j (pending b'<' m' (x ∷ st)))
              (omega arith),
    )
scan-tree (wrap k t u) before rest i m x st settled h =
    let all = pending b'<' m (x ∷ st) in
    let inside : Str = push (text t) (open_of k ∷ before) in
    let end : ℕ = i + 1 + length (text t) in
    let (m₁, within) =
      scan-tree t (open_of k ∷ before) (close_of k ∷ (text u ++ rest)) (i + 1) 0 (open_of k) all
        (open-plain k).0 h.0 in
    let (m', behind) = scan-tree u (close_of k ∷ inside) rest (end + 1) m x st settled h.1 in
    (
      m',
      scan-next before _ all (open_of k ∷ all) (open_of k) i (step_open before i m x st settled k)
          ∙ ap (λ w. scan_end (open_of k ∷ before) w (i + 1) (open_of k ∷ all))
              (append_assoc (text t) (close_of k ∷ text u) rest)
          ∙ within
          ∙ scan-next inside (text u ++ rest) _ all (close_of k) end
              (step_close inside end m₁ m x st k)
          ∙ behind
          ∙ ap₂ (λ b j. scan_end b rest j (pending b'<' m' (x ∷ st)))
              (sym (push-append (text t) (close_of k ∷ text u) (open_of k ∷ before)))
              (omega (arith, length-append (text t) (close_of k ∷ text u))),
    )

-- Scanning a bracketed text from its opening bracket stops right behind the closing one.
scan-wrapped :
    (k : Kind) (t : Tree) (before rest : Str) (i : ℕ)
    → IsPlain t
    → scan_end before (open_of k ∷ (text t ++ close_of k ∷ rest)) i []
      ≡ closed (i + length (text t) + 2)
unfolding pending
scan-wrapped k t before rest i h =
    let inside : Str = push (text t) (open_of k ∷ before) in
    let (m, within) =
      scan-tree t (open_of k ∷ before) (close_of k ∷ rest) (i + 1) 0 (open_of k) [] (open-plain k).0
        h in
    scan-next before _ [] (open_of k ∷ []) (open_of k) i (step_first before i k)
    ∙ within
    ∙ scan-stop inside rest _ (close_of k) (i + 1 + length (text t)) _
        (step_last inside (i + 1 + length (text t)) m k)
    ∙ ap closed (omega arith)

-- The line with a bracketed text behind a prefix.
abbrev pub line_with : Str → Kind → Tree → Str → Str
line_with prefix k t rest = prefix ++ open_of k ∷ (text t ++ close_of k ∷ rest)

is_open-open_of : (k : Kind) → (is_open (open_of k) || open_of k == b'<') ≡ true
is_open-open_of round = refl
is_open-open_of _ = refl

no_less : (k : Kind) (w : Str) → matches less_pattern (open_of k ∷ w) ≡ false
unfolding less_pattern match_re
no_less round w = refl
no_less _ w = refl

close_at :
    (elided : List Str) (linenum pos c p : ℕ) (line : Str)
    → get_elem? elided linenum ≡ some line
    → get_elem? line pos ≡ some c
    → (is_open c || c == b'<') ≡ true
    → matches less_pattern (drop pos line) ≡ false
    → find_end_of_expression_in_line line pos [] ≡ closed p
    → close_expression elided linenum pos
      ≡ some (record { line = line; linenum = linenum; pos = some p })
unfolding close_expression close_in
close_at elided linenum pos c p line e1 e2 opens greater scanned = ground arith

-- On a line that holds a text in round, square or curly brackets behind any prefix, the brackets of these three kinds inside of it being balanced and its other characters arbitrary, `<`, `>` and `;` included, `CloseExpression` at the opening bracket returns that line and the position right behind the closing bracket, whatever follows it on the line and whatever the other lines are.
pub close_expression-balanced :
    (elided : List Str) (linenum : ℕ) (prefix : Str) (k : Kind) (t : Tree) (rest : Str)
    → IsPlain t
    → get_elem? elided linenum ≡ some (line_with prefix k t rest)
    → close_expression elided linenum (length prefix)
      ≡ some (record {
        line = line_with prefix k t rest;
        linenum = linenum;
        pos = some (length prefix + length (text t) + 2);
      })
unfolding find_end_of_expression_in_line
close_expression-balanced elided linenum prefix k t rest plain_text found =
    close_at elided linenum (length prefix) (open_of k) _ (line_with prefix k t rest) found
      (get_elem?-prefix prefix (text t ++ close_of k ∷ rest) (open_of k)) (is_open-open_of k)
      (rw (drop-prefix prefix (open_of k ∷ (text t ++ close_of k ∷ rest))) (no_less k _))
      (rw (drop-prefix prefix (open_of k ∷ (text t ++ close_of k ∷ rest)))
        (scan-wrapped k t _ rest (length prefix) plain_text))
