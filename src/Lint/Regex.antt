-- ===== src/Lint/Regex.antt =====
-- What scripts/cpplint.py uses of Python's `re`: a backtracking matcher with groups, greedy and
-- lazy repetition, word boundaries and lookahead, over strings. The pattern cache of `Match`
-- and `Search` has no effect on their results and is not kept.
use gameboy_emulator.Base.{
  ℕ, zero, suc, Bool, true, false, List, [], ◌∷◌, ◌++◌, Option, none, some, reverse, length, leb,
  ◌==◌, if◌then◌else◌, not, ◌&&◌, ◌||◌,
}
use gameboy_emulator.Base.Text.{Str, is_space}

pub data Regex : Type 0 where
  nothing boundary line_start line_end : Regex
  set : (ℕ → Bool) → Regex
  seq alt : Regex → Regex → Regex
  star lazy ahead not_ahead : Regex → Regex
  group : ℕ → Regex → Regex

-- A position in a text: what stands before it, last character first, and what follows.
pub record Cursor : Type 0 where
  pub before : Str
  pub after : Str

abbrev pub Groups : Type 0
Groups = List (ℕ × Str)

pub record Matched : Type 0 where
  pub end : Cursor
  pub groups : Groups

abbrev pub is_word : ℕ → Bool
is_word x =
    (leb b'a' x && leb x b'z')
    || (leb b'A' x && leb x b'Z')
    || (leb b'0' x && leb x b'9')
    || x == b'_'

unfoldable pub word_first : Str → Bool
word_first [] = false
word_first (x ∷ xs) = is_word x

unfoldable pub at_boundary : Cursor → Bool
unfolding word_first
at_boundary c = if word_first c.before then not (word_first c.after) else word_first c.after

-- `$` without MULTILINE: at the end, or before a final newline.
at_line_end : Str → Bool
at_line_end [] = true
at_line_end (x ∷ []) = x == 10
at_line_end _ = false

at_start : Str → Bool
at_start [] = true
at_start _ = false

abbrev Continue : Type 0
Continue = Cursor → Groups → Option Matched

abbrev or_else : Option Matched → Option Matched → Option Matched
or_else none b = b
or_else (some x) b = some x

-- The characters between two positions of one text, by the difference of their lengths.
between : Cursor → Cursor → Str
between from to = reverse (go (length to.before) to.before)
  where
    go : ℕ → Str → Str
    go zero s = []
    go (suc n) [] = []
    go (suc n) (x ∷ xs) = if length (x ∷ xs) == length from.before then [] else x ∷ go n xs

step_set : (ℕ → Bool) → Str → Str → (Str → Str → Option Matched) → Option Matched
step_set p before [] k = none
step_set p before (x ∷ xs) k = elim (p x) [ true ↦ k (x ∷ before) xs | false ↦ none ]

-- Greedy repetition: as long as a round consumes something, try another one first.
many :
    ℕ → (Cursor → Groups → Continue → Option Matched) → Cursor → Groups → Continue → Option Matched
many zero once c g k = k c g
many (suc fuel) once c g k =
    elim (once c g (λ c' g'. elim (length c'.after == length c.after) [
      | true ↦ none
      | false ↦ many fuel once c' g' k
    ])) [ some r ↦ some r | none ↦ k c g ]

-- Lazy repetition: try to go on first.
few :
    ℕ → (Cursor → Groups → Continue → Option Matched) → Cursor → Groups → Continue → Option Matched
few zero once c g k = k c g
few (suc fuel) once c g k = elim (k c g) [
  | some r ↦ some r
  | none ↦ once c g (λ c' g'. elim (length c'.after == length c.after) [
    | true ↦ none
    | false ↦ few fuel once c' g' k
  ])
]

run : Regex → Cursor → Groups → Continue → Option Matched
unfolding at_boundary at_line_end at_start between step_set many few word_first
run nothing c g k = k c g
run boundary c g k = elim (at_boundary c) [ true ↦ k c g | false ↦ none ]
run line_start c g k = elim (at_start c.before) [ true ↦ k c g | false ↦ none ]
run line_end c g k = elim (at_line_end c.after) [ true ↦ k c g | false ↦ none ]
run (set p) c g k = step_set p c.before c.after (λ b a. k (record { before = b; after = a }) g)
run (seq r s) c g k = run r c g (λ c' g'. run s c' g' k)
run (alt r s) c g k = elim (run r c g k) [ some x ↦ some x | none ↦ run s c g k ]
run (star r) c g k = many (suc (length c.after)) (run r) c g k
run (lazy r) c g k = few (suc (length c.after)) (run r) c g k
run (ahead r) c g k = elim (run r c g (λ c' g'. some (record { end = c'; groups = g' }))) [
  | some x ↦ k c g
  | none ↦ none
]
run (not_ahead r) c g k = elim (run r c g (λ c' g'. some (record { end = c'; groups = g' }))) [
  | some x ↦ none
  | none ↦ k c g
]
run (group n r) c g k = run r c g (λ c' g'. k c' ((n, between c c') ∷ g'))

-- The match of a pattern at one position.
unfoldable pub match_at : Regex → Cursor → Option Matched
unfolding run
match_at r c = run r c [] (λ c' g. some (record { end = c'; groups = g }))

-- `Match(pattern, s)`: at the start of the text.
unfoldable pub match_re : Regex → Str → Option Matched
unfolding match_at
match_re r s = match_at r (record { before = []; after = s })

search_from : Regex → Str → Str → Option (Str × Matched)
unfolding match_at
search_from r before [] = elim (match_at r (record { before = before; after = [] })) [
  | some m ↦ some (reverse before, m)
  | none ↦ none
]
search_from r before (x ∷ xs) = elim (match_at r (record { before = before; after = x ∷ xs })) [
  | some m ↦ some (reverse before, m)
  | none ↦ search_from r (x ∷ before) xs
]

-- `Search(pattern, s)`: the leftmost match, with the text before it.
unfoldable pub search_re : Regex → Str → Option (Str × Matched)
unfolding search_from
search_re r s = search_from r [] s

-- `matched.group(n)`; `none` for a group that took no part.
unfoldable pub group_of : ℕ → Groups → Option Str
group_of n [] = none
group_of n ((m, s) ∷ g) = if m == n then some s else group_of n g

sub_loop : Regex → Str → ℕ → Str → Str → Str
unfolding match_at
sub_loop r rep zero before s = s
sub_loop r rep (suc fuel) before [] = []
sub_loop r rep (suc fuel) before (x ∷ xs) =
    elim (match_at r (record { before = before; after = x ∷ xs })) [
      | some m ↦ rep ++ sub_loop r rep fuel (m.end).before (m.end).after
      | none ↦ x ∷ sub_loop r rep fuel (x ∷ before) xs
    ]

-- `pattern.sub(rep, s)` for a literal replacement and a pattern that never matches nothing: each
-- round takes a character, so the length is enough fuel.
unfoldable pub replace_all : Regex → Str → Str → Str
unfolding sub_loop
replace_all r rep s = sub_loop r rep (length s) [] s

-- Classes and shorthands.
abbrev pub char : ℕ → Regex
char c = set (λ x. x == c)

abbrev pub any_char : Regex
any_char = set (λ x. not (x == 10))

abbrev pub space : Regex
space = set is_space

abbrev pub plus : Regex → Regex
plus r = seq r (star r)

abbrev pub opt : Regex → Regex
opt r = alt r nothing

unfoldable pub literal : Str → Regex
literal [] = nothing
literal (c ∷ s) = seq (char c) (literal s)
