-- ===== src/Base/Bytes.antt =====
-- `Binary`, a `std::vector<word>`: its size and its elements. An element access out of range is
-- an outcome of its own.
use gameboy_emulator.Base.Tests.{ltb, ◌==◌, if◌then◌else◌, lt→ltb}
use gameboy_emulator.Base.Calls.{Outcome, ok, out_of_range}
use Prim.Native.Nat.{ℕ, zero, suc, ◌+◌, ◌<◌}
use mathlib.Core.Path.{◌≡◌}
use mathlib.Core.List.{List, [], ◌∷◌}

pub record Binary : Type 0 where
  pub size : ℕ
  pub cell : ℕ → ℕ

-- `std::vector<word>(n)`, all zero.
abbrev pub zeros : ℕ → Binary
zeros n = record { size = n; cell = λ i. 0 }

-- A function with one value changed.
abbrev pub update : (ℕ → ℕ) → ℕ → ℕ → ℕ → ℕ
update f i v j = if j == i then v else f j

unfoldable pub read_at : Binary → ℕ → Outcome ℕ
read_at v i = if ltb i v.size then ok (v.cell i) else out_of_range

unfoldable pub write_at : Binary → ℕ → ℕ → Outcome Binary
write_at v i x = if ltb i v.size then ok (record v { cell = update v.cell i x }) else out_of_range

-- `count` elements from index `from` on.
unfoldable pub slice : Binary → ℕ → ℕ → List ℕ
slice v from zero = []
slice v from (suc count) = v.cell from ∷ slice v (from + 1) count

pub read_at-in_range : (v : Binary) (i : ℕ) → i < v.size → read_at v i ≡ ok (v.cell i)
unfolding read_at
read_at-in_range v i h = rw (lt→ltb i v.size h)

pub write_at-in_range :
    (v : Binary) (i x : ℕ)
    → i < v.size
    → write_at v i x ≡ ok (record v { cell = update v.cell i x })
unfolding write_at
write_at-in_range v i x h = rw (lt→ltb i v.size h)
