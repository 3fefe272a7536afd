-- ===== src/Examples/Cpu.antt =====
-- The arithmetic of src/CPU/cpu.cpp on sample registers.
use gameboy_emulator.Base.{ℕ, true, false, arith}
use gameboy_emulator.Cpu.Registers.{Flags, Registers}
use gameboy_emulator.Cpu.Alu.{adc_register, sbc_register}
use gameboy_emulator.Cpu.Alu.Add.{IsSum, adc_register-IsSum}
use gameboy_emulator.Cpu.Alu.Subtract.{IsDifference, sbc_register-IsDifference}

abbrev carry_set : Flags
carry_set = record { fz = false; fn = false; fh = false; fc = true }

abbrev byte : ℕ
byte = 0xFF

abbrev sample : Registers
sample = record {
  a = 0x3C;
  f = carry_set;
  b = 0;
  c = 0x13;
  d = 0;
  e = 0xD8;
  h = 0x01;
  l = 0x4D;
  sp = 0xFFFE;
  pc = 0x100;
}

adc_register-IsSum_example : IsSum 0x3C 0xC3 1 sample (adc_register 0xC3 sample)
adc_register-IsSum_example = adc_register-IsSum 0xC3 sample (omega arith) (omega arith)

sbc_register-IsDifference_example : IsDifference 0x3C 0x3C 1 sample (sbc_register 0x3C sample)
sbc_register-IsDifference_example =
    sbc_register-IsDifference 0x3C sample (omega arith) (omega arith)
