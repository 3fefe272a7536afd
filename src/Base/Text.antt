-- ===== src/Base/Text.antt =====
-- Python's strings as lists of character codes, with the string methods that the style checker
-- calls; spaces and letters are those of ASCII.
use Prim.Native.Char.{code}
use Prim.Native.Nat.{ℕ, zero, suc, ◌+◌}
use Prim.Native.String.{String}
use mathlib.Core.Path.{◌≡◌, refl}
use mathlib.Core.Logic.{◌↔◌}
use mathlib.Core.Bool.{Bool, true, false, ◌&&◌, ◌||◌}
use mathlib.Core.Option.{Option, none, some}
use mathlib.Core.Option
use mathlib.Core.List.{List, [], ◌∷◌, ◌++◌, map, reverse}
use native.Mathlib.Omega.{arith}
use gameboy_emulator.Base.Tests.{◌==◌, leb, if◌then◌else◌}
use gameboy_emulator.Base.Lists.{length, drop}

abbrev pub Str : Type 0
Str = List ℕ

-- The codes of a literal. `String` has its own `[]` and `∷`.
abbrev pub codes : String → Str
codes String.[] = []
codes (String.◌∷◌ c s) = code c ∷ codes s

abbrev pub str_eq : Str → Str → Bool
str_eq [] [] = true
str_eq (x ∷ xs) (y ∷ ys) = x == y && str_eq xs ys
str_eq _ _ = false

pub str_eq_iff : (a b : Str) → (str_eq a b ≡ true) ↔ (a ≡ b)
str_eq_iff [] [] = ground arith
str_eq_iff [] (y ∷ ys) = ground arith
str_eq_iff (x ∷ xs) [] = ground arith
str_eq_iff (x ∷ xs) (y ∷ ys) = ground (arith, str_eq_iff xs ys)

pub str_eq_refl : (a : Str) → str_eq a a ≡ true
str_eq_refl a = (str_eq_iff a a).1 refl

-- `s in (…)`.
unfoldable pub elem : Str → List Str → Bool
elem s [] = false
elem s (t ∷ ts) = str_eq s t || elem s ts

-- `s.startswith(prefix)`.
abbrev pub starts_with : Str → Str → Bool
starts_with s [] = true
starts_with [] (p ∷ ps) = false
starts_with (x ∷ xs) (p ∷ ps) = x == p && starts_with xs ps

-- `s.endswith(suffix)`.
unfoldable pub ends_with : Str → Str → Bool
ends_with s suffix = starts_with (reverse s) (reverse suffix)

-- `s.find(sub)`; `none` is the -1 of Python.
unfoldable pub find : Str → Str → Option ℕ
find [] sub = if starts_with [] sub then some 0 else none
find (x ∷ xs) sub =
    let rest = Option.map suc (find xs sub) in if starts_with (x ∷ xs) sub then some 0 else rest

-- `s.split(c)` for a separator of one character; the first piece and the others.
unfoldable pub split_on : ℕ → Str → Str × List Str
split_on c [] = ([], [])
split_on c (x ∷ xs) =
    let (piece, pieces) = split_on c xs in
    if x == c then ([], piece ∷ pieces) else (x ∷ piece, pieces)

-- Of the codes below 128, those for which `str.isspace` holds.
unfoldable pub is_space : ℕ → Bool
is_space x = (leb 9 x && leb x 13) || (leb 28 x && leb x 32)

unfoldable pub lstrip : Str → Str
unfolding is_space
lstrip [] = []
lstrip (x ∷ xs) = if is_space x then lstrip xs else x ∷ xs

unfoldable pub rstrip : Str → Str
unfolding lstrip
rstrip s = reverse (lstrip (reverse s))

unfoldable pub strip : Str → Str
unfolding rstrip
strip s = rstrip (lstrip s)

unfoldable pub lower : Str → Str
lower = map (λ x. if leb b'A' x && leb x b'Z' then x + 32 else x)

-- `s.replace(old, new)` for a non-empty `old`; each round takes a character, so the length of `s`
-- is enough fuel.
replace_loop : Str → Str → ℕ → Str → Str
replace_loop old new zero s = s
replace_loop old new (suc fuel) [] = []
replace_loop old new (suc fuel) (x ∷ xs) = elim (starts_with (x ∷ xs) old) [
  | true ↦ new ++ replace_loop old new fuel (drop (length old) (x ∷ xs))
  | false ↦ x ∷ replace_loop old new fuel xs
]

unfoldable pub replace : Str → Str → Str → Str
unfolding replace_loop
replace s old new = replace_loop old new (length s) s

-- `s.count(sub)` for a non-empty `sub`: occurrences that do not overlap.
count_loop : Str → ℕ → Str → ℕ
count_loop sub zero s = 0
count_loop sub (suc fuel) [] = 0
count_loop sub (suc fuel) (x ∷ xs) = elim (starts_with (x ∷ xs) sub) [
  | true ↦ suc (count_loop sub fuel (drop (length sub) (x ∷ xs)))
  | false ↦ count_loop sub fuel xs
]

unfoldable pub count : Str → Str → ℕ
unfolding count_loop
count s sub = count_loop sub (length s) s
