-- ===== src/Lint/Templates.antt =====
-- `InTemplateArgumentList` of scripts/cpplint.py.
pub mod Progress
use mathlib.Core.Option
use gameboy_emulator.Base.{
  ℕ, zero, suc, ◌+◌, ◌-◌, Bool, true, false, List, [], ◌∷◌, Option, none, some, length, drop,
  get_elem?, leb, ◌==◌, if◌then◌else◌, ◌||◌,
}
use gameboy_emulator.Base.Text.{Str}
use gameboy_emulator.Lint.Expression.{close_expression}

-- [{};=\[\]\.<>]
unfoldable pub is_mark : ℕ → Bool
is_mark x =
    x == b'{'
    || x == b'}'
    || x == b';'
    || x == b'='
    || x == b'['
    || x == b']'
    || x == b'.'
    || x == b'<'
    || x == b'>'

-- ^[^{};=\[\]\.<>]*(.): how much matches, and group 1. Where there is no mark, the last character
-- is left to the group.
unfoldable pub next_mark : Str → Option (ℕ × ℕ)
unfolding is_mark
next_mark [] = none
next_mark (c ∷ []) = some (1, c)
next_mark (c ∷ d ∷ cs) =
    if is_mark c then some (1, c) else Option.map (λ p. (suc p.0, p.1)) (next_mark (d ∷ cs))

-- One round of the loop: it goes on at a line and a position, or returns.
pub data TemplateRound : Type 0 where
  at : ℕ → ℕ → TemplateRound
  answer : Bool → TemplateRound

unfoldable pub template_round : List Str → Str → ℕ → ℕ → TemplateRound
unfolding next_mark
template_round elided line linenum pos = elim (next_mark (drop pos line)) [
  | none ↦ at (linenum + 1) 0
  | some (width, token) ↦
      let pos' = pos + width in
      if token == b'{' || token == b'}' || token == b';'
      then answer false
      else if token == b'>' || token == b'=' || token == b'[' || token == b']' || token == b'.'
      then answer true
      else if token == b'<'
      then elim (close_expression elided linenum (pos' - 1)) [
        | none ↦ answer false
        | some place ↦ elim place.pos [ none ↦ answer false | some end ↦ at place.linenum end ]
      ]
      else if leb (length line) (pos' + 1)
      then at (linenum + 1) 0
      else at linenum (pos' + 1)
]

-- `none` is a loop that has run out of its fuel.
unfoldable pub template_loop : ℕ → List Str → ℕ → ℕ → Option Bool
template_loop zero elided linenum pos = none
template_loop (suc fuel) elided linenum pos = elim (get_elem? elided linenum) [
  | none ↦ some false
  | some line ↦ elim (template_round elided line linenum pos) [
    | at linenum' pos' ↦ template_loop fuel elided linenum' pos'
    | answer b ↦ some b
  ]
]

-- The characters of the lines, each with its end.
unfoldable pub size_of : List Str → ℕ
size_of [] = 0
size_of (line ∷ lines) = suc (length line) + size_of lines

unfoldable pub in_template_argument_list : List Str → ℕ → ℕ → Option Bool
in_template_argument_list elided linenum pos =
    template_loop (suc (size_of elided)) elided linenum pos
