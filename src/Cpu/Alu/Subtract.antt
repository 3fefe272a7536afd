-- ===== src/Cpu/Alu/Subtract.antt =====
-- What `subRegister`, `sbcRegister` and `cpRegister` compute.
use gameboy_emulator.Base.{ℕ, ◌+◌, ◌*◌, ◌%◌, ◌<◌, ◌≡◌, ◌↔◌, refl, true, arith}
use gameboy_emulator.Base.Words.{bit, bit_and_nibble}
use gameboy_emulator.Cpu.Registers.{Registers}
use gameboy_emulator.Cpu.Alu.{add_register, sub_register, sbc_register, cp_register}

-- The state after `y` and a borrow `k` have been taken from `x`.
pub record IsDifference (x y k : ℕ) (before after : Registers) : Type 0 where
  pub value : after.a + y + k ≡ x + 256 * bit after.f.fc
  pub fits : after.a < 256
  pub zero_flag : (after.f.fz ≡ true) ↔ (after.a ≡ 0)
  pub half_borrow : (after.f.fh ≡ true) ↔ (x % 16 < y % 16 + k)
  pub subtract_flag : after.f.fn ≡ true
  pub rest : after ≡ record before { a = after.a; f = after.f }

pub sub_register-IsDifference :
    (reg : ℕ) (r : Registers)
    → r.a < 256
    → reg < 256
    → IsDifference r.a reg 0 r (sub_register reg r)
unfolding sub_register
sub_register-IsDifference reg r ha hr = record {
  value = ground arith;
  fits = omega arith;
  zero_flag = ground arith;
  half_borrow = ground (arith, bit_and_nibble r.a ha, bit_and_nibble reg hr);
  subtract_flag = refl;
  rest = refl;
}

-- `sbcRegister` takes the operand and the old carry from `A`: the borrow and `A` give the difference, `H` is the borrow out of the low nibble, `Z` tells a zero result, `N` is set, and no other register changes.
pub sbc_register-IsDifference :
    (reg : ℕ) (r : Registers)
    → r.a < 256
    → reg < 256
    → IsDifference r.a reg (bit r.f.fc) r (sbc_register reg r)
unfolding sbc_register
sbc_register-IsDifference reg r ha hr = record {
  value = ground arith;
  fits = omega arith;
  zero_flag = ground arith;
  half_borrow = ground (arith, bit_and_nibble r.a ha, bit_and_nibble reg hr);
  subtract_flag = refl;
  rest = refl;
}

-- `cpRegister` leaves the flags that `subRegister` leaves and keeps every register but `F`; after it `Z` is set exactly when `A` equals the operand and `C` exactly when `A` is below it.
pub cp_register-compares :
    (reg : ℕ) (r : Registers)
    → r.a < 256
    → reg < 256
    → (cp_register reg r ≡ record r { f = (sub_register reg r).f })
      × (((cp_register reg r).f.fz ≡ true) ↔ (r.a ≡ reg))
      × (((cp_register reg r).f.fc ≡ true) ↔ (r.a < reg))
unfolding cp_register sub_register
cp_register-compares reg r ha hr = (refl, ground arith, ground arith)

-- Subtracting the operand that was just added gives `A` back.
pub sub_register-add_register :
    (reg : ℕ) (r : Registers)
    → r.a < 256
    → reg < 256
    → (sub_register reg (add_register reg r)).a ≡ r.a
unfolding sub_register add_register
sub_register-add_register reg r ha hr = omega arith
