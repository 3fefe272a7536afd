-- ===== src/Lint/State/Counting.antt =====
-- The error statistic of scripts/cpplint.py against the list of errors that it counts.
use gameboy_emulator.Base.{ℕ, ◌+◌, ◌≡◌, Bool, List, [], ◌∷◌, if◌then◌else◌, ◌||◌, arith}
use gameboy_emulator.Base.Text.{Str, codes, str_eq}
use gameboy_emulator.Lint.State.{State, bump, counted_category, increment_error_count}

-- The count that a category has, 0 if it is not there.
unfoldable pub count_of : Str → List (Str × ℕ) → ℕ
count_of k [] = 0
count_of k ((c, n) ∷ rest) = if str_eq c k then n else count_of k rest

unfoldable pub total : List (Str × ℕ) → ℕ
total [] = 0
total ((c, n) ∷ rest) = n + total rest

pub total-bump : (category : Str) (m : List (Str × ℕ)) → total (bump category m) ≡ total m + 1
unfolding total bump
total-bump category [] = omega arith
total-bump category ((c, n) ∷ rest) = ground (arith, total-bump category rest)

-- The statistic after a sequence of errors.
unfoldable pub count_all : List Str → State → State
count_all [] s = s
count_all (c ∷ cs) s = count_all cs (increment_error_count c s)

-- How many of the errors are counted under `k`.
unfoldable pub occurrences : Str → Str → List Str → ℕ
occurrences style k [] = 0
occurrences style k (c ∷ cs) =
    (if str_eq (counted_category style c) k then 1 else 0) + occurrences style k cs

abbrev pub by_category : Str → Bool
by_category style = str_eq style (codes "toplevel") || str_eq style (codes "detailed")
