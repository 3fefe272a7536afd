-- ===== src/Cpu/Control/Bits.antt =====
-- Clearing one of the five interrupt flags.
use Prim.Native.Nat.{bit_and}
use gameboy_emulator.Base.{ℕ, ◌-◌, ◌^◌, ◌<◌, ◌≡◌, refl, Bool, true, false, ◌==◌, ◌&&◌, not, arith}
use gameboy_emulator.Base.Words.{all_below, all_below_sound}
use gameboy_emulator.Cpu.Control.{has_bit}

same_bit : Bool → Bool → Bool
same_bit true b = b
same_bit false b = not b

same_bit_sound : (a b : Bool) → same_bit a b ≡ true → a ≡ b
unfolding same_bit
same_bit_sound a b h = ground arith

-- Bit `j` of five flags of which bit `i` has been cleared.
abbrev clear_test : ℕ → ℕ → ℕ → Bool
clear_test x i j =
    same_bit (has_bit (bit_and (bit_and x (31 - 2 ^ i)) 31) j) (not (j == i) && has_bit x j)

abbrev clear_row : ℕ → ℕ → Bool
clear_row x i = all_below 5 (clear_test x i)

abbrev clear_page : ℕ → Bool
clear_page x = all_below 5 (clear_row x)

clear_table : all_below 32 clear_page ≡ true
unfolding all_below has_bit same_bit
clear_table = refl

pub cleared_bit :
    (x i j : ℕ)
    → x < 32
    → i < 5
    → j < 5
    → has_bit (bit_and (bit_and x (31 - 2 ^ i)) 31) j ≡ not (j == i) && has_bit x j
cleared_bit x i j small five j_five =
    let page = all_below_sound 32 clear_page x clear_table small in
    let row = all_below_sound 5 (clear_row x) i page five in
    same_bit_sound _ _ (all_below_sound 5 (clear_test x i) j row j_five)
