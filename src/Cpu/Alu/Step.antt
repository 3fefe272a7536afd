-- ===== src/Cpu/Alu/Step.antt =====
-- `incRegister` and `decRegister` undo one another.
use gameboy_emulator.Base.{ℕ, ◌%◌, ◌<◌, ◌≡◌, ◌↔◌, refl, true, arith}
use gameboy_emulator.Base.Words.{bit_and_nibble}
use gameboy_emulator.Cpu.Registers.{Flags}
use gameboy_emulator.Cpu.Alu.{inc_register, dec_register}
use gameboy_emulator.Cpu.Alu.Carry.{get_half_carry_flag_lem}

-- For a byte, `decRegister` after `incRegister` gives the byte back and so does the other order; both keep the carry flag; the half carry of the increment is set exactly when the low nibble was 15, the half borrow of the decrement exactly when it was 0.
pub inc_register-dec_register :
    (reg : ℕ) (f : Flags)
    → reg < 256
    → let up = inc_register reg f in
      let down = dec_register reg f in
      ((dec_register up.0 up.1).0 ≡ reg)
      × ((inc_register down.0 down.1).0 ≡ reg)
      × (up.1.fc ≡ f.fc)
      × (down.1.fc ≡ f.fc)
      × ((up.1.fh ≡ true) ↔ (reg % 16 ≡ 15))
      × ((down.1.fh ≡ true) ↔ (reg % 16 ≡ 0))
unfolding inc_register dec_register
inc_register-dec_register reg f h = (
  omega arith,
  omega arith,
  refl,
  refl,
  rw (get_half_carry_flag_lem reg 1 h (omega arith)) (ground arith),
  ground (arith, bit_and_nibble reg h),
)
