-- ===== src/Lint/Expression/Brackets.antt =====
-- Texts balanced in round, square and curly brackets, as trees, and the stacks that the scans of
-- scripts/cpplint.py have on them.
use mathlib.Core.List.{append_assoc, append-nil, reverse-append}
use gameboy_emulator.Base.{
  ℕ, zero, suc, ◌+◌, ◌≡◌, refl, ◌∙◌, sym, ap, Bool, true, false, [], ◌∷◌, ◌++◌, some, length, take,
  drop, get_elem?, reverse, if◌then◌else◌, ◌==◌, ◌||◌, arith,
}
use gameboy_emulator.Base.Text.{Str}
use gameboy_emulator.Lint.Expression.{Scan, next, is_open, is_close, head_is, drop_pending, pop_or}

pub data Kind : Type 0 where
  round square curly : Kind

abbrev pub open_of : Kind → ℕ
open_of round = b'('
open_of square = b'['
open_of curly = b'{'

abbrev pub close_of : Kind → ℕ
close_of round = b')'
close_of square = b']'
close_of curly = b'}'

pub data Tree : Type 0 where
  done : Tree
  plain : ℕ → Tree → Tree
  wrap : Kind → Tree → Tree → Tree

-- Every character but the six brackets: an angle bracket, an operator with one, or a semicolon too.
abbrev pub is_bracket : ℕ → Bool
is_bracket c = is_open c || is_close c

abbrev pub IsPlain : Tree → Type 0
IsPlain done = Unit
IsPlain (plain c t) = (is_bracket c ≡ false) × IsPlain t
IsPlain (wrap k t u) = IsPlain t × IsPlain u

-- A stack with a number of pending angle brackets `c` on the top.
unfoldable pub pending : ℕ → ℕ → Str → Str
pending c zero st = st
pending c (suc m) st = c ∷ pending c m st

pub drop_pending-pending :
    (c m x : ℕ) (st : Str) → (x == c) ≡ false → drop_pending c (pending c m (x ∷ st)) ≡ x ∷ st
unfolding drop_pending pending
drop_pending-pending c zero x st other = rw other
drop_pending-pending c (suc m) x st other =
    let same : (c == c) ≡ true = ground arith in rw same (drop_pending-pending c m x st other)

-- Popping a pending angle bracket, if there is one.
pub popped :
    (r : Scan) (c m x : ℕ) (st : Str)
    → (x == c) ≡ false
    → let all = pending c m (x ∷ st) in
      (m' : ℕ) × ((if head_is c all then pop_or r all else next all) ≡ next (pending c m' (x ∷ st)))
unfolding pending
popped r c zero x st other = (0, rw other)
popped r c (suc zero) x st other = let same : (c == c) ≡ true = ground arith in (0, rw same)
popped r c (suc (suc m)) x st other = let same : (c == c) ≡ true = ground arith in (suc m, rw same)

-- The brackets are none of the angle brackets.
pub open-plain : (k : Kind) → ((open_of k == b'<') ≡ false) × ((open_of k == b'>') ≡ false)
open-plain round = (refl, refl)
open-plain _ = (refl, refl)

pub close-plain : (k : Kind) → ((close_of k == b'<') ≡ false) × ((close_of k == b'>') ≡ false)
close-plain round = (refl, refl)
close-plain _ = (refl, refl)

unfoldable pub text : Tree → Str
text done = []
text (plain c t) = c ∷ text t
text (wrap k t u) = open_of k ∷ (text t ++ close_of k ∷ text u)

-- A text read onto a reversed prefix.
unfoldable pub push : Str → Str → Str
push [] before = before
push (c ∷ cs) before = push cs (c ∷ before)

pub push-append : (v w before : Str) → push (v ++ w) before ≡ push w (push v before)
unfolding push
push-append [] w before = refl
push-append (c ∷ v) w before = push-append v w (c ∷ before)

pub length-push : (w before : Str) → length (push w before) ≡ length w + length before
unfolding push
length-push [] before = omega arith
length-push (c ∷ w) before = omega (arith, length-push w (c ∷ before))

pub reverse-push : (w before : Str) → reverse w ++ before ≡ push w before
unfolding push
reverse-push [] before = refl
reverse-push (c ∷ w) before =
    rw (reverse-append (c ∷ []) w, append_assoc) (reverse-push w (c ∷ before))

-- Where a text stands behind a prefix.
pub take-prefix : (p w : Str) → take (length p) (p ++ w) ≡ p
take-prefix [] w = refl
take-prefix (c ∷ p) w = ap (λ (x : Str). c ∷ x) (take-prefix p w)

pub drop-prefix : (p w : Str) → drop (length p) (p ++ w) ≡ w
drop-prefix [] w = refl
drop-prefix (c ∷ p) w = drop-prefix p w

pub get_elem?-prefix : (p w : Str) (c : ℕ) → get_elem? (p ++ c ∷ w) (length p) ≡ some c
get_elem?-prefix [] w c = refl
get_elem?-prefix (x ∷ p) w c = get_elem?-prefix p w c

pub take-through : (p w : Str) (c : ℕ) → take (suc (length p)) (p ++ c ∷ w) ≡ p ++ c ∷ []
take-through [] w c = refl
take-through (x ∷ p) w c = ap (λ (y : Str). x ∷ y) (take-through p w c)

pub drop-through : (p w : Str) (c : ℕ) → drop (suc (length p)) (p ++ c ∷ w) ≡ w
drop-through [] w c = refl
drop-through (x ∷ p) w c = drop-through p w c

pub reverse-eq-push : (w : Str) → reverse w ≡ push w []
reverse-eq-push w = sym (append-nil (reverse w)) ∙ reverse-push w []
