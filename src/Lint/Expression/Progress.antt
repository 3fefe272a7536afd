-- ===== src/Lint/Expression/Progress.antt =====
-- Where `CloseExpression` of scripts/cpplint.py ends: behind the place where it begins.
use gameboy_emulator.Base.{
  ℕ, ◌+◌, ◌<◌, ◌≡◌, ◌∙◌, sym, ◌⊎◌, inl, inr, refl, ap, Bool, true, false, List, [], ◌∷◌, none, some,
  get_elem?, length, reverse, take, drop, Bool-cases, Option-cases, arith, ◌==◌, if◌then◌else◌, not,
  ◌&&◌, ◌||◌,
}
use gameboy_emulator.Base.Text.{Str}
use gameboy_emulator.Lint.Expression.{
  is_open, is_close, head_is, searches, matches, less_pattern, operator_pattern, Scan, closed,
  failed, unclosed, Step, next, skip, stop, pop_or, close_step, drop_pending, end_step, scan_end,
  find_end_of_expression_in_line, Place, close_in, close_expression,
}

pop_or-failed : (st : Str) (p : ℕ) → pop_or failed st ≡ stop (closed p) → ⊥
pop_or-failed [] p e = absurd (ground arith)
pop_or-failed (x ∷ []) p e = absurd (ground arith)
pop_or-failed (x ∷ y ∷ st) p e = absurd (ground arith)

pop_or-closed : (st : Str) (q p : ℕ) → pop_or (closed q) st ≡ stop (closed p) → q ≡ p
pop_or-closed [] q p e = absurd (ground arith)
pop_or-closed (x ∷ []) q p e = ground arith
pop_or-closed (x ∷ y ∷ st) q p e = absurd (ground arith)

close_step-closed :
    (c : ℕ) (st : Str) (q p : ℕ) → close_step c (closed q) st ≡ stop (closed p) → q ≡ p
unfolding close_step
close_step-closed c [] q p e = absurd (ground arith)
close_step-closed c (x ∷ st) q p e = ground (arith, pop_or-closed (x ∷ st) q p)

by_cases :
    {P : Type 0} (b : Bool) {x y r : Step}
    → (x ≡ r → P)
    → (y ≡ r → P)
    → (if b then x else y) ≡ r
    → P
by_cases true yes_case no_case e = yes_case e
by_cases false yes_case no_case e = no_case e

next-closed : {P : Type 0} (st : Str) (p : ℕ) → next st ≡ stop (closed p) → P
next-closed st p e = absurd (ground arith)

failed-closed : {P : Type 0} (p : ℕ) → stop failed ≡ stop (closed p) → P
failed-closed p e = absurd (ground arith)

-- A round that ends the scan ends it behind its own character.
end_step-closed :
    (before : Str) (c i : ℕ) (st : Str) (p : ℕ)
    → end_step before c i st ≡ stop (closed p)
    → i + 1 ≡ p
unfolding end_step
end_step-closed before c i st p = by_cases (is_open c) (next-closed (c ∷ st) p) (
    by_cases (c == b'<')
      (by_cases (head_is b'<' before)
        (by_cases (head_is b'<' st) (λ e. absurd (pop_or-failed st p e)) (next-closed st p))
        (by_cases (searches operator_pattern (reverse before)) (next-closed st p)
          (next-closed (b'<' ∷ st) p)))
      (by_cases (is_close c) (close_step-closed c settled (i + 1) p) (
        by_cases (c == b'>')
          (by_cases arrow (next-closed st p)
            (by_cases (head_is b'<' st) (pop_or-closed st (i + 1) p) (next-closed st p)))
          (by_cases (c == b';')
            (by_cases (length settled == 0) (failed-closed p) (next-closed settled p))
            (next-closed st p)))))
  where
    settled : Str
    settled = drop_pending b'<' st

    arrow : Bool
    arrow =
        head_is b'-' before
        || (not (length before == 0) && searches operator_pattern (reverse (drop 1 before)))

Step-cases :
    (s : Step)
    → (((t : Str) × (s ≡ next t)) ⊎ ((t : Str) × (s ≡ skip t))) ⊎ ((r : Scan) × (s ≡ stop r))
Step-cases (next t) = inl (inl (t, refl))
Step-cases (skip t) = inl (inr (t, refl))
Step-cases (stop r) = inr (r, refl)

scan_end-closed :
    (before cs : Str) (i : ℕ) (st : Str) (p : ℕ) → scan_end before cs i st ≡ closed p → i < p
unfolding scan_end
scan_end-closed before [] i st p e = absurd (ground arith)
scan_end-closed before (c ∷ cs) i st p e = elim (Step-cases (end_step before c i st)) [
  | inl (inl (t, on)) ↦ ground (arith, scan_end-closed (c ∷ before) cs (i + 1) t p)
  | inl (inr (t, on)) ↦ ground (arith, scan_end-closed (c ∷ before) cs (i + 1) t p)
  | inr (r, ends) ↦ ground (arith, end_step-closed before c i st p)
]

close_in-more :
    (l : Str) (lines : List Str) (line : Str) (linenum num_lines : ℕ) (st : Str)
    → (length st == 0) ≡ false
    → close_in (l ∷ lines) line (linenum + 1) num_lines (unclosed st)
      ≡ close_in lines l (linenum + 1 + 1) num_lines (find_end_of_expression_in_line l 0 st)
unfolding close_in
close_in-more l lines line linenum num_lines st more = rw more refl

close_in-cases :
    (lines : List Str) (line : Str) (linenum num_lines : ℕ) (r : Scan) (p : ℕ)
    → (close_in lines line (linenum + 1) num_lines r).pos ≡ some p
    → ((r ≡ closed p) × ((close_in lines line (linenum + 1) num_lines r).linenum ≡ linenum))
      ⊎ (linenum < (close_in lines line (linenum + 1) num_lines r).linenum)
unfolding close_in
close_in-cases lines line linenum num_lines (closed q) p e = inl (ground arith)
close_in-cases [] line linenum num_lines failed p e = absurd (ground arith)
close_in-cases (l ∷ lines) line linenum num_lines failed p e = absurd (ground arith)
close_in-cases [] line linenum num_lines (unclosed st) p e = absurd (ground arith)
close_in-cases (l ∷ lines) line linenum num_lines (unclosed st) p e =
    elim (Bool-cases (length st == 0)) [
      | inl empty ↦ absurd (ground arith)
      | inr more ↦
          let found = find_end_of_expression_in_line l 0 st in
          let same = close_in-more l lines line linenum num_lines st more in
          let later =
            close_in-cases lines l (linenum + 1) num_lines found p
              (sym (ap (λ q. q.pos) same) ∙ e) in
          inr (further same later)
    ]
  where
    further :
        {q q' : Place} {P : Type 0} {n : ℕ}
        → q ≡ q'
        → (P × (q'.linenum ≡ n + 1)) ⊎ (n + 1 < q'.linenum)
        → n < q.linenum
    further same (inl (first, here)) = ground arith
    further same (inr beyond) = ground arith

close_expression-at :
    (elided : List Str) (linenum pos : ℕ) {line : Str} {c : ℕ}
    → get_elem? elided linenum ≡ some line
    → get_elem? line pos ≡ some c
    → close_expression elided linenum pos
      ≡ some (
          if not (is_open c || c == b'<') || matches less_pattern (drop pos line)
          then record { line = line; linenum = length elided; pos = none }
          else close_in
              (drop (linenum + 1) elided)
              line
              (linenum + 1)
              (length elided)
              (scan_end (reverse (take pos line)) (drop pos line) pos []))
unfolding close_expression find_end_of_expression_in_line
close_expression-at elided linenum pos there begins = ground arith

placed :
    (b : Bool) (line : Str) (n : ℕ) {q place : Place} {p : ℕ}
    → some (if b then record { line = line; linenum = n; pos = none } else q) ≡ some place
    → place.pos ≡ some p
    → q ≡ place
placed true line n e h = absurd (ground arith)
placed false line n e h = ground arith

-- An expression that closes closes behind its opening bracket, in the same line or a later one.
pub close_expression-progress :
    (elided : List Str) (linenum pos : ℕ) {place : Place} {p : ℕ}
    → close_expression elided linenum pos ≡ some place
    → place.pos ≡ some p
    → ((place.linenum ≡ linenum) × (pos < p)) ⊎ (linenum < place.linenum)
unfolding close_expression find_end_of_expression_in_line
close_expression-progress elided linenum pos {place} {p} e at_p =
    elim (Option-cases (get_elem? elided linenum)) [
      | inl out ↦ absurd (ground arith)
      | inr (line, there) ↦ elim (Option-cases (get_elem? line pos)) [
        | inl out ↦ absurd (ground arith)
        | inr (c, begins) ↦
            let found = scan_end (reverse (take pos line)) (drop pos line) pos [] in
            let lines = drop (linenum + 1) elided in
            let bad = not (is_open c || c == b'<') || matches less_pattern (drop pos line) in
            let same =
              placed bad line (length elided)
                (sym (close_expression-at elided linenum pos there begins) ∙ e) at_p in
            behind same (scan_end-closed (reverse (take pos line)) (drop pos line) pos [] p) (
              close_in-cases lines line linenum (length elided) found p
                (ap (λ q. q.pos) same ∙ at_p))
      ]
    ]
  where
    behind :
        {q q' : Place} {r : Scan} {n i j : ℕ}
        → q ≡ q'
        → (r ≡ closed j → i < j)
        → ((r ≡ closed j) × (q.linenum ≡ n)) ⊎ (n < q.linenum)
        → ((q'.linenum ≡ n) × (i < j)) ⊎ (n < q'.linenum)
    behind same ends (inl (ended, here)) = inl (ground arith, ends ended)
    behind same ends (inr beyond) = inr (ground arith)
