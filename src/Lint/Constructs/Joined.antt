-- ===== src/Lint/Constructs/Joined.antt =====
-- What the collapsing of constructor arguments in scripts/cpplint.py keeps.
use gameboy_emulator.Base.{Bool, true, List, [], ◌∷◌, ◌++◌, not, ◌&&◌}
use gameboy_emulator.Base.Text.{Str}
use gameboy_emulator.Lint.Constructs.Explicit.{is_cut}

-- A piece and those behind it, joined by commas.
unfoldable pub join_from : Str → List Str → Str
join_from arg [] = arg
join_from arg (next ∷ others) = arg ++ b',' ∷ join_from next others

unfoldable pub join : List Str → Str
unfolding join_from
join [] = []
join (arg ∷ others) = join_from arg others

unfoldable pub none_cut : List Str → Bool
none_cut [] = true
none_cut (arg ∷ others) = not (is_cut arg) && none_cut others
