-- ===== src/Cpu/Alu/Add.antt =====
-- What `addRegister` and `adcRegister` compute.
use gameboy_emulator.Base.{ℕ, ◌+◌, ◌*◌, ◌%◌, ◌≤◌, ◌<◌, ◌≡◌, ◌↔◌, refl, true, false, arith}
use gameboy_emulator.Base.Words.{bit, bit_and_nibble}
use gameboy_emulator.Cpu.Registers.{Registers}
use gameboy_emulator.Cpu.Alu.{get_carry_flag, add_register, adc_register}
use gameboy_emulator.Cpu.Alu.Carry.{get_half_carry_flag_lem}

-- The state after an addition of `x`, `y` and a carry `k` into `A`: nothing but `A` and `F` has
-- changed, and both say what the sum was.
pub record IsSum (x y k : ℕ) (before after : Registers) : Type 0 where
  pub value : after.a + 256 * bit after.f.fc ≡ x + y + k
  pub fits : after.a < 256
  pub zero_flag : (after.f.fz ≡ true) ↔ (after.a ≡ 0)
  pub half_carry : (after.f.fh ≡ true) ↔ (16 ≤ x % 16 + y % 16 + k)
  pub subtract_flag : after.f.fn ≡ false
  pub rest : after ≡ record before { a = after.a; f = after.f }

-- `addRegister` adds the operand without a carry: the nine bits of carry and `A` are the sum, `H` is the carry out of the low nibble, `Z` tells a zero result, `N` is clear, and no other register changes.
pub add_register-IsSum :
    (reg : ℕ) (r : Registers) → r.a < 256 → reg < 256 → IsSum r.a reg 0 r (add_register reg r)
unfolding add_register get_carry_flag
add_register-IsSum reg r ha hr = record {
  value = ground arith;
  fits = omega arith;
  zero_flag = ground arith;
  half_carry = rw (get_half_carry_flag_lem r.a reg ha hr) (ground arith);
  subtract_flag = refl;
  rest = refl;
}

-- `adcRegister` adds the operand and the old carry flag: the nine bits of carry and `A` are the sum, `H` is the carry out of the low nibble, `Z` tells a zero result, `N` is clear, and no other register changes.
pub adc_register-IsSum :
    (reg : ℕ) (r : Registers)
    → r.a < 256
    → reg < 256
    → IsSum r.a reg (bit r.f.fc) r (adc_register reg r)
unfolding adc_register
adc_register-IsSum reg r ha hr = record {
  value = ground arith;
  fits = omega arith;
  zero_flag = ground arith;
  half_carry = ground (arith, bit_and_nibble r.a ha, bit_and_nibble reg hr);
  subtract_flag = refl;
  rest = refl;
}
