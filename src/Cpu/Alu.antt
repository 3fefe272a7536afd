-- ===== src/Cpu/Alu.antt =====
-- The arithmetic helpers of src/CPU/cpu.cpp. `word&` parameters are passed and returned; the
-- sums and differences of `word`s are done in `int`, and only the stored result wraps.
pub mod Carry
pub mod Add
pub mod Subtract
pub mod Step
use Prim.Native.Nat.{bit_and, bit_or, bit_xor}
use gameboy_emulator.Base.{ℕ, ◌+◌, ◌-◌, ◌%◌, ◌^◌, Bool, false, true, ◌==◌, ltb}
use gameboy_emulator.Base.Words.{u8, bit}
use gameboy_emulator.Cpu.Registers.{Flags, Registers}

unfoldable pub get_carry_flag : ℕ → ℕ → Bool
get_carry_flag a b = ltb 0xFF (a + b)

unfoldable pub get_carry_flag_dword : ℕ → ℕ → Bool
get_carry_flag_dword a b = ltb 0xFFFF (a + b)

unfoldable pub get_half_carry_flag : ℕ → ℕ → Bool
get_half_carry_flag a b = bit_and (bit_and a 0xF + bit_and b 0xF) 0x10 == 0x10

unfoldable pub get_half_carry_flag_dword : ℕ → ℕ → Bool
get_half_carry_flag_dword a b = bit_and (bit_and a 0xFFF + bit_and b 0xFFF) 0x1000 == 0x1000

unfoldable pub inc_register : ℕ → Flags → ℕ × Flags
inc_register reg f =
    let reg' = u8 (reg + 1) in
    (reg', record f { fh = get_half_carry_flag reg 1; fz = reg' == 0; fn = false })

unfoldable pub dec_register : ℕ → Flags → ℕ × Flags
dec_register reg f =
    let reg' = u8 (reg + 256 - 1) in
    (reg', record f { fh = ltb (bit_and reg 0xF) 1; fz = reg' == 0; fn = true })

unfoldable pub add_register : ℕ → Registers → Registers
add_register reg r =
    let a' = u8 (r.a + reg) in
    record r {
      a = a';
      f = record {
        fc = get_carry_flag r.a reg;
        fh = get_half_carry_flag r.a reg;
        fz = a' == 0;
        fn = false;
      };
    }

unfoldable pub sub_register : ℕ → Registers → Registers
sub_register reg r =
    let a' = u8 (r.a + 256 - reg) in
    record r {
      a = a';
      f = record {
        fh = ltb (bit_and r.a 0xF) (bit_and reg 0xF);
        fc = ltb r.a reg;
        fz = a' == 0;
        fn = true;
      };
    }

unfoldable pub and_register : ℕ → Registers → Registers
and_register reg r =
    let a' = bit_and r.a reg in
    record r { a = a'; f = record { fz = a' == 0; fc = false; fh = true; fn = false } }

unfoldable pub or_register : ℕ → Registers → Registers
or_register reg r =
    let a' = bit_or r.a reg in
    record r { a = a'; f = record { fz = a' == 0; fc = false; fh = false; fn = false } }

unfoldable pub xor_register : ℕ → Registers → Registers
xor_register reg r =
    let a' = bit_xor r.a reg in
    record r { a = a'; f = record { fz = a' == 0; fn = false; fh = false; fc = false } }

unfoldable pub adc_register : ℕ → Registers → Registers
adc_register reg r =
    let result = r.a + reg + bit r.f.fc in
    let a' = u8 result in
    record r {
      a = a';
      f = record {
        fh = ltb 0xF (bit_and r.a 0xF + bit_and reg 0xF + bit r.f.fc);
        fc = ltb 0xFF result;
        fz = a' == 0;
        fn = false;
      };
    }

-- `result` is an `int`: it is negative exactly when `reg + F[FC]` is above `A`.
unfoldable pub sbc_register : ℕ → Registers → Registers
sbc_register reg r =
    let taken = reg + bit r.f.fc in
    let a' = u8 (r.a + 2 ^ 9 - taken) in
    record r {
      a = a';
      f = record {
        fh = ltb (bit_and r.a 0xF) (bit_and reg 0xF + bit r.f.fc);
        fc = ltb r.a taken;
        fz = a' == 0;
        fn = true;
      };
    }

unfoldable pub cp_register : ℕ → Registers → Registers
cp_register reg r =
    let result = u8 (r.a + 256 - reg) in
    record r {
      f = record {
        fh = ltb (bit_and r.a 0xF) (bit_and reg 0xF);
        fc = ltb r.a reg;
        fz = result == 0;
        fn = true;
      };
    }
