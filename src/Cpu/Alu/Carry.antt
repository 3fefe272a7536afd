-- ===== src/Cpu/Alu/Carry.antt =====
-- The half carry tests of src/CPU/cpu.cpp as comparisons of sums.
use gameboy_emulator.Base.{ℕ, ◌+◌, ◌%◌, ◌<◌, ◌≡◌, arith, leb}
use gameboy_emulator.Base.Words.{bit_and_nibble, bit_and_low12, carry_bit, carry12_bit}
use gameboy_emulator.Cpu.Alu.{get_half_carry_flag, get_half_carry_flag_dword}

pub get_half_carry_flag_lem :
    (a b : ℕ) → a < 256 → b < 256 → get_half_carry_flag a b ≡ leb 16 (a % 16 + b % 16)
unfolding get_half_carry_flag
get_half_carry_flag_lem a b ha hb =
    rw (bit_and_nibble a ha, bit_and_nibble b hb) (carry_bit (a % 16 + b % 16) (omega arith))

-- For two 16-bit operands `getHalfCarryFlag` is set exactly when their low twelve bits add up to 4096 or more.
pub get_half_carry_flag_dword_lem :
    (a b : ℕ)
    → a < 65536
    → b < 65536
    → get_half_carry_flag_dword a b ≡ leb 4096 (a % 4096 + b % 4096)
unfolding get_half_carry_flag_dword
get_half_carry_flag_dword_lem a b ha hb =
    rw (bit_and_low12 a ha, bit_and_low12 b hb) (carry12_bit (a % 4096 + b % 4096) (omega arith))
