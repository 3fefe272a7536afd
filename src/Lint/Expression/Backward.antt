-- ===== src/Lint/Expression/Backward.antt =====
-- `FindStartOfExpressionInLine` and `ReverseCloseExpression` of scripts/cpplint.py on balanced
-- texts.
use mathlib.Core.List.{append_assoc}
use native.Mathlib.Numerals.{add-one}
use gameboy_emulator.Base.{
  ℕ, suc, ◌+◌, ◌≡◌, refl, ◌∙◌, sym, ap, true, List, [], ◌∷◌, ◌++◌, some, length, get_elem?, reverse,
  ◌==◌, ◌||◌, arith, length-append, Bool, false, inl, inr, not,
}
use gameboy_emulator.Base.Text.{Str}
use gameboy_emulator.Lint.Expression.{
  skip, next, stop, Scan, closed, is_close, start_step, scan_start,
  find_start_of_expression_in_line, open_in, reverse_close_expression,
}
use gameboy_emulator.Lint.Expression.Brackets.{
  Kind, round, open_of, close_of, Tree, done, plain, wrap, is_bracket, IsPlain, pending,
  close-plain, text, push, push-append, length-push, get_elem?-prefix, take-through, drop-through,
  reverse-eq-push,
}
use gameboy_emulator.Lint.Expression.Forward.{line_with}
use gameboy_emulator.Lint.Expression.Steps.{
  operator_free, operator_free-push, head_plain, Passes, step_plain, step_close, step_open,
  step_last,
}

scan-next :
    (before after st st' : Str) (c : ℕ)
    → start_step before c after st ≡ next st'
    → scan_start (c ∷ before) after st ≡ scan_start before (c ∷ after) st'
unfolding scan_start
scan-next [] after st st' c e = rw (e, scan_start)
scan-next (d ∷ before) after st st' c e = rw (e, scan_start)

scan-stop :
    (before after st : Str) (c : ℕ) (r : Scan)
    → start_step before c after st ≡ stop r
    → scan_start (c ∷ before) after st ≡ r
unfolding scan_start
scan-stop [] after st c r e = rw (e, scan_start)
scan-stop (d ∷ before) after st c r e = rw (e, scan_start)

-- The scan goes on in front of a position, or in front of the character before it.
scan_at : Bool → Str → Str → Str → Scan
scan_at true (d ∷ before) after st = scan_start before (d ∷ after) st
scan_at _ before after st = scan_start before after st

-- Where a scan comes to: the pending `>`, and whether it is one character further on.
record Reaches (s : Scan) (before after : Str) (x : ℕ) (st : Str) : Type 0 where
  further : Bool
  left : ℕ
  scan : s ≡ scan_at further before after (pending b'>' left (x ∷ st))
  in_front : further ≡ true → head_plain before ≡ true

scan-skip :
    (before after st st' : Str) (c : ℕ)
    → head_plain before ≡ true
    → start_step before c after st ≡ skip st'
    → scan_start (c ∷ before) after st ≡ scan_at true before (c ∷ after) st'
unfolding scan_start scan_at head_plain
scan-skip [] after st st' c h e = cc
scan-skip (d ∷ before) after st st' c h e = rw (e, scan_start)

-- A character that is no bracket, unless the scan has passed over it.
scan-plain :
    (further : Bool) (before after : Str) (c m x : ℕ) (st : Str)
    → (x == b'>') ≡ false
    → operator_free before ≡ true
    → is_bracket c ≡ false
    → Reaches (scan_at further (c ∷ before) after (pending b'>' m (x ∷ st))) before (c ∷ after) x st
unfolding scan_at Passes
scan-plain true before after c m x st settled free h = record {
  further = false;
  left = m;
  scan = refl;
  in_front = λ e. cc;
}
scan-plain false before after c m x st settled free h =
    let (m', how) = step_plain before after c m x st settled free h in
    elim how [
      | inl now ↦ record {
        further = false;
        left = m';
        scan = scan-next before after _ _ c now;
        in_front = λ e. cc;
      }
      | inr (now, front) ↦ record {
        further = true;
        left = m';
        scan = scan-skip before after _ _ c front now;
        in_front = λ e. front;
      }
    ]

-- The scan passes over no bracket.
front-bracket :
    (further : Bool) (c : ℕ) (before after st : Str)
    → is_bracket c ≡ true
    → (further ≡ true → head_plain (c ∷ before) ≡ true)
    → scan_at further (c ∷ before) after st ≡ scan_start (c ∷ before) after st
unfolding head_plain scan_at
front-bracket true c before after st h front =
    let no_bracket : not (is_bracket c) ≡ true = front refl in absurd (ground arith)
front-bracket false c before after st h front = refl

open-bracket : (k : Kind) → is_bracket (open_of k) ≡ true
open-bracket round = refl
open-bracket _ = refl

close-bracket : (k : Kind) → is_bracket (close_of k) ≡ true
close-bracket round = refl
close-bracket _ = refl

-- Scanning a balanced text backwards changes the pending `>` at most, unless the stack is empty.
scan-tree :
    (t : Tree) (further : Bool) (before after : Str) (m x : ℕ) (st : Str)
    → (x == b'>') ≡ false
    → operator_free (push (text t) before) ≡ true
    → (further ≡ true → head_plain (push (text t) before) ≡ true)
    → IsPlain t
    → Reaches
        (scan_at further (push (text t) before) after (pending b'>' m (x ∷ st)))
        before
        (text t ++ after)
        x
        st
unfolding text push scan_at scan_start pending
scan-tree done further before after m x st settled free front h = record {
  further = further;
  left = m;
  scan = refl;
  in_front = front;
}
scan-tree (plain c t) further before after m x st settled free front h =
    let r = scan-tree t further (c ∷ before) after m x st settled free front h.1 in
    let rest : operator_free (c ∷ before) ≡ true = operator_free-push (text t) (c ∷ before) free in
    let rest_free : operator_free before ≡ true = operator_free-push (c ∷ []) before rest in
    let q = scan-plain r.further before (text t ++ after) c r.left x st settled rest_free h.0 in
    record { further = q.further; left = q.left; scan = r.scan ∙ q.scan; in_front = q.in_front }
scan-tree (wrap k t u) further before after m x st settled free front h =
    let inside : Str = push (text t) (open_of k ∷ before) in
    let split = push-append (text t) (close_of k ∷ text u) (open_of k ∷ before) in
    let free_u : operator_free (push (text u) (close_of k ∷ inside)) ≡ true =
      ap (λ w. operator_free w) (sym split) ∙ free in
    let r =
      scan-tree u further (close_of k ∷ inside) after m x st settled free_u
        (λ e. ap (λ w. head_plain w) (sym split) ∙ front e) h.1 in
    let free_t : operator_free (close_of k ∷ inside) ≡ true =
      operator_free-push (text u) (close_of k ∷ inside) free_u in
    let free_in : operator_free inside ≡ true =
      operator_free-push (close_of k ∷ []) inside free_t in
    let all = pending b'>' r.left (x ∷ st) in
    let behind = text u ++ after in
    let q =
      scan-tree t false (open_of k ∷ before) (close_of k ∷ behind) 0 (close_of k) all
        (close-plain k).1 free_in (λ e. cc) h.0 in
    record {
      further = false;
      left = r.left;
      scan =
          ap (λ w. scan_at further w after (pending b'>' m (x ∷ st))) split
          ∙ r.scan
          ∙ front-bracket r.further (close_of k) inside behind all (close-bracket k) r.in_front
          ∙ scan-next inside behind all (close_of k ∷ all) (close_of k)
              (step_close inside behind all k)
          ∙ q.scan
          ∙ front-bracket q.further (open_of k) before _ _ (open-bracket k) q.in_front
          ∙ scan-next before _ _ all (open_of k) (step_open before _ q.left r.left x st k)
          ∙ ap (λ w. scan_start before (open_of k ∷ w) all)
              (sym (append_assoc (text t) (close_of k ∷ text u) after));
      in_front = λ e. cc;
    }

scan-wrapped :
    (k : Kind) (t : Tree) (before rest : Str)
    → IsPlain t
    → operator_free (push (text t) (open_of k ∷ before)) ≡ true
    → scan_start (close_of k ∷ push (text t) (open_of k ∷ before)) rest [] ≡ closed (length before)
unfolding scan_at scan_start pending
scan-wrapped k t before rest h free =
    let inside : Str = push (text t) (open_of k ∷ before) in
    let q =
      scan-tree t false (open_of k ∷ before) (close_of k ∷ rest) 0 (close_of k) [] (close-plain k).1
        free (λ e. cc) h in
    scan-next inside rest [] (close_of k ∷ []) (close_of k) (step_close inside rest [] k)
    ∙ q.scan
    ∙ front-bracket q.further (open_of k) before _ _ (open-bracket k) q.in_front
    ∙ scan-stop before _ _ (open_of k) (closed (length before)) (step_last before _ q.left k)

is_close-close_of : (k : Kind) → (is_close (close_of k) || close_of k == b'>') ≡ true
is_close-close_of round = refl
is_close-close_of _ = refl

open_at :
    (elided : List Str) (linenum pos c p : ℕ) (line : Str)
    → get_elem? elided linenum ≡ some line
    → get_elem? line pos ≡ some c
    → (is_close c || c == b'>') ≡ true
    → find_start_of_expression_in_line line (pos + 1) [] ≡ closed p
    → reverse_close_expression elided linenum pos
      ≡ some (record { line = line; linenum = linenum; pos = some p })
unfolding reverse_close_expression open_in
open_at elided linenum pos c p line e1 e2 closes scanned = ground arith

-- The text up to the closing bracket.
abbrev pub front_of : Str → Kind → Tree → Str
front_of prefix k t = prefix ++ open_of k ∷ text t

line_eq :
    (prefix : Str) (k : Kind) (t : Tree) (rest : Str)
    → line_with prefix k t rest ≡ front_of prefix k t ++ close_of k ∷ rest
line_eq prefix k t rest = sym (append_assoc prefix (open_of k ∷ text t) (close_of k ∷ rest))

front_length :
    (prefix : Str) (k : Kind) (t : Tree)
    → length prefix + length (text t) + 1 ≡ length (front_of prefix k t)
front_length prefix k t = omega (arith, length-append prefix (open_of k ∷ text t))

reverse_front :
    (prefix : Str) (k : Kind) (t : Tree)
    → reverse (front_of prefix k t ++ close_of k ∷ [])
      ≡ close_of k ∷ push (text t) (open_of k ∷ push prefix [])
unfolding push
reverse_front prefix k t =
    reverse-eq-push (front_of prefix k t ++ close_of k ∷ [])
    ∙ push-append (front_of prefix k t) (close_of k ∷ []) []
    ∙ ap (λ (w : Str). close_of k ∷ w) (push-append prefix (open_of k ∷ text t) [])

front_free :
    (prefix : Str) (k : Kind) (t : Tree)
    → operator_free (reverse (front_of prefix k t)) ≡ true
    → operator_free (push (text t) (open_of k ∷ push prefix [])) ≡ true
unfolding push
front_free prefix k t free =
    ap (λ w. operator_free w)
      (sym (reverse-eq-push (front_of prefix k t) ∙ push-append prefix (open_of k ∷ text t) []))
    ∙ free

find_start-wrapped :
    (prefix : Str) (k : Kind) (t : Tree) (rest : Str)
    → IsPlain t
    → operator_free (reverse (front_of prefix k t)) ≡ true
    → find_start_of_expression_in_line
        (front_of prefix k t ++ close_of k ∷ rest)
        (suc (length (front_of prefix k t)))
        []
      ≡ closed (length prefix)
unfolding find_start_of_expression_in_line
find_start-wrapped prefix k t rest h free =
    rw
      (
        take-through (front_of prefix k t) rest (close_of k),
        drop-through (front_of prefix k t) rest (close_of k),
        reverse_front prefix k t,
      )
      (scan-wrapped k t (push prefix []) rest h (front_free prefix k t free)
        ∙ ap closed (omega (arith, length-push prefix [])))

-- On a line that holds, behind any prefix, a round, square or curly bracket around a text that is balanced in these three kinds of brackets (and may hold any other character, `<`, `>` and `;` included), `ReverseCloseExpression` at the closing bracket returns that line and the position of the opening bracket, provided that the word `operator`, with or without blanks behind it, ends nowhere on the line before the closing bracket.
pub reverse_close_expression-balanced :
    (elided : List Str) (linenum : ℕ) (prefix : Str) (k : Kind) (t : Tree) (rest : Str)
    → IsPlain t
    → operator_free (reverse (front_of prefix k t)) ≡ true
    → get_elem? elided linenum ≡ some (line_with prefix k t rest)
    → reverse_close_expression elided linenum (length prefix + length (text t) + 1)
      ≡ some (record {
        line = line_with prefix k t rest;
        linenum = linenum;
        pos = some (length prefix);
      })
reverse_close_expression-balanced elided linenum prefix k t rest plain_text free found =
    rw (front_length prefix k t) (
      open_at elided linenum (length (front_of prefix k t)) (close_of k) (length prefix)
        (line_with prefix k t rest) found
        (rw (line_eq prefix k t rest) (get_elem?-prefix (front_of prefix k t) rest (close_of k)))
        (is_close-close_of k)
        (rw (line_eq prefix k t rest, add-one)
          (find_start-wrapped prefix k t rest plain_text free)))
