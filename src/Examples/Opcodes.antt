-- ===== src/Examples/Opcodes.antt =====
-- Instructions on a concrete processor.
use gameboy_emulator.Base.{
  ℕ, ◌+◌, ◌-◌, ◌%◌, ◌≡◌, refl, true, false, [], none, some, ◌==◌, if◌then◌else◌, leb, ltb, debug,
  ok, arith,
}
use gameboy_emulator.Base.Int.{pos}
use gameboy_emulator.Base.Words.{u16}
use gameboy_emulator.Bus.{read}
use gameboy_emulator.Cartridge.Mbc0.{refers_to_cartridge}
use gameboy_emulator.Cpu.Alu.{add_register, sub_register}
use gameboy_emulator.Cpu.Clock.{execute_current_instruction}
use gameboy_emulator.Cpu.Control.{Processor}
use gameboy_emulator.Cpu.Opcodes.{Opcode}
use gameboy_emulator.Cpu.Opcodes.Arithmetic.{decimal_adjust}
use gameboy_emulator.Cpu.Opcodes.Decimal.{packed, Shows, decimal_adjust-add_sub}
use gameboy_emulator.Cpu.Opcodes.Execute.{execute}
use gameboy_emulator.Cpu.Opcodes.Progress.{
  IsTime, fetched, prefixed_time, execute_current_instruction-fetch,
  execute_current_instruction-prefixed,
}
use gameboy_emulator.Cpu.Opcodes.Prefixed.{execute_cb}
use gameboy_emulator.Cpu.Opcodes.Table.{opcode_at, timing_at, cb_opcode_at}
use gameboy_emulator.Cpu.Registers.{Registers}

abbrev registers : Registers
registers = record {
  a = 0x47;
  f = record { fz = false; fn = false; fh = false; fc = true };
  b = 0;
  c = 0;
  d = 0;
  e = 0;
  h = 0xC0;
  l = 0;
  sp = 0xFFFE;
  pc = 0xC100;
}

decimal_adjust-add_sub_example :
    Shows
      (decimal_adjust (add_register (packed 58) registers))
      ((47 + 58) % 100)
      (leb 100 (47 + 58))
    × Shows
        (decimal_adjust (sub_register (packed 58) registers))
        ((47 + 100 - 58) % 100)
        (ltb 47 58)
decimal_adjust-add_sub_example =
    decimal_adjust-add_sub registers 47 58 (omega arith) (omega arith) refl

-- `ADD A, (HL)`.
abbrev ready : Processor
ready = record {
  regs = registers;
  halted = false;
  crashed = false;
  ime = false;
  busy_cycles = pos 0;
  bus = record {
    memory = λ a. if a == 0xC100 then 0x86 else 3;
    cart = none;
    joypad_status = 0xFF;
    serial_buffer = [];
  };
}

first_byte : read debug ready.bus 0xC100 ≡ ok 0x86
unfolding read refers_to_cartridge
first_byte = refl

execute_current_instruction-fetch_example :
    (o : Opcode) × (t : ℕ) × (opcode_at 0x86 ≡ some o)
    × (timing_at 0x86 ≡ some t)
    × IsTime t
    × (execute_current_instruction debug ready ≡ execute debug o (fetched 1 t ready))
execute_current_instruction-fetch_example =
    execute_current_instruction-fetch debug ready 0x86 refl first_byte (omega arith) (omega arith)

-- `SWAP A` behind the prefix.
abbrev prefixed : Processor
prefixed = record ready {
  bus = record (ready.bus) { memory = λ a. if a == 0xC100 then 0xCB else 0x37 };
}

prefix_byte : read debug prefixed.bus 0xC100 ≡ ok 0xCB
unfolding read refers_to_cartridge
prefix_byte = refl

second_byte : read debug prefixed.bus (u16 (0xC100 + 1)) ≡ ok 0x37
unfolding read refers_to_cartridge
second_byte = refl

execute_current_instruction-prefixed_example :
    execute_current_instruction debug prefixed
    ≡ execute_cb debug (cb_opcode_at 0x37) (fetched 2 (prefixed_time 0x37) prefixed)
execute_current_instruction-prefixed_example =
    execute_current_instruction-prefixed debug prefixed 0x37 refl prefix_byte second_byte
      (omega arith)
