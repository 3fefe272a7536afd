-- ===== src/Cpu/Opcodes/Arithmetic.antt =====
-- The arithmetic and the rotations of src/CPU/opcodes.hpp that are not calls of the helpers alone.
use Prim.Native.Nat.{bit_and, bit_or}
use gameboy_emulator.Base.{
  ℕ, ◌+◌, ◌-◌, ◌*◌, ◌/◌, ◌%◌, ◌^◌, Bool, true, false, ltb, ◌==◌, if◌then◌else◌, not, ◌||◌, Build,
  Outcome, ok, ◌>>=◌,
}
use gameboy_emulator.Base.Words.{u8, u16, bit}
use gameboy_emulator.Cpu.Alu.{
  get_carry_flag, get_carry_flag_dword, get_half_carry_flag, get_half_carry_flag_dword,
  inc_register, dec_register, add_register, sub_register, and_register, or_register, adc_register,
  sbc_register, xor_register, cp_register,
}
use gameboy_emulator.Cpu.Control.{Processor, with_sp, get_ihl, set_ihl, pop_pc}
use gameboy_emulator.Cpu.Opcodes.{
  Reg, Operation, op_add, op_sub, op_and, op_or, op_adc, op_sbc, op_xor, op_cp,
}
use gameboy_emulator.Cpu.Opcodes.Loads.{get_reg, set_reg, extend}
use gameboy_emulator.Cpu.Registers.{Flags, Registers, dword_lsb, get_hl, set_hl}

abbrev pub with_flags : Flags → Processor → Processor
with_flags f p = record p { regs = record p.regs { f = f } }

-- `nthBit`.
unfoldable pub nth_bit : ℕ → ℕ → Bool
nth_bit byte n = byte / 2 ^ n % 2 == 1

-- The registers behind a rotation of A.
abbrev pub rotated : ℕ → Bool → Registers → Registers
rotated value carry r = record r {
  a = value;
  f = record { fc = carry; fz = false; fn = false; fh = false };
}

unfoldable pub rotate_rla : Registers → Registers
rotate_rla r = rotated (bit_or (u8 (r.a * 2)) (bit r.f.fc)) (nth_bit r.a 7) r

unfoldable pub rotate_rlca : Registers → Registers
rotate_rlca r = rotated (bit_or (u8 (r.a * 2)) (bit (nth_bit r.a 7))) (nth_bit r.a 7) r

unfoldable pub rotate_rra : Registers → Registers
rotate_rra r = rotated (bit_or (r.a / 2) (bit r.f.fc * 2 ^ 7)) (nth_bit r.a 0) r

unfoldable pub rotate_rrca : Registers → Registers
rotate_rrca r = rotated (bit_or (r.a / 2) (bit (nth_bit r.a 0) * 2 ^ 7)) (nth_bit r.a 0) r

-- `ADD_HL_XX`, of the pair's value or of SP.
unfoldable pub add_to_hl : ℕ → Registers → Registers
add_to_hl value r =
    let f' = record r.f {
      fn = false;
      fh = get_half_carry_flag_dword (get_hl r) value;
      fc = get_carry_flag_dword (get_hl r) value;
    } in
    set_hl (u16 (get_hl r + value)) (record r { f = f' })

-- `ADD_SP_e`. The carries are those of the sum of two bytes.
unfoldable pub add_to_sp : Build → Processor → Outcome Processor
add_to_sp build p = do
  (e, p₁) ← pop_pc build p
  let sp : ℕ = p₁.regs.sp
  ok (
      with_sp (u16 (sp + extend e)) (
        with_flags
          (record {
            fn = false;
            fz = false;
            fh = get_half_carry_flag (dword_lsb sp) e;
            fc = get_carry_flag (dword_lsb sp) e;
          })
          p₁))

unfoldable pub increment : Reg → Registers → Registers
increment x r = let (v, f') = inc_register (get_reg x r) r.f in set_reg x v (record r { f = f' })

unfoldable pub decrement : Reg → Registers → Registers
decrement x r = let (v, f') = dec_register (get_reg x r) r.f in set_reg x v (record r { f = f' })

-- The calls of `addRegister` to `cpRegister`.
unfoldable pub operate : Operation → ℕ → Registers → Registers
operate op_add n r = add_register n r
operate op_sub n r = sub_register n r
operate op_and n r = and_register n r
operate op_or n r = or_register n r
operate op_adc n r = adc_register n r
operate op_sbc n r = sbc_register n r
operate op_xor n r = xor_register n r
operate op_cp n r = cp_register n r

-- `INC_iHL` and `DEC_iHL`: Z is that of the byte which is read back.
unfoldable pub increment_ihl : Build → Processor → Outcome Processor
increment_ihl build p = do
  old ← get_ihl build p
  let half : Bool = get_half_carry_flag old 1
  p₁ ← set_ihl build (u8 (old + 1)) (with_flags (record p.regs.f { fh = half }) p)
  new ← get_ihl build p₁
  ok (with_flags (record p₁.regs.f { fz = new == 0; fn = false }) p₁)

unfoldable pub decrement_ihl : Build → Processor → Outcome Processor
decrement_ihl build p = do
  old ← get_ihl build p
  let half : Bool = ltb (bit_and old 0xF) 1
  p₁ ← set_ihl build (u8 (old + 256 - 1)) (with_flags (record p.regs.f { fh = half }) p)
  new ← get_ihl build p₁
  ok (with_flags (record p₁.regs.f { fz = new == 0; fn = true }) p₁)

-- `DAA`: what is added or subtracted first, and the carry flag behind it.
unfoldable pub adjust_high : Registers → ℕ × Bool
adjust_high r =
    if r.f.fn
    then (if r.f.fc then u8 (r.a + 256 - 0x60) else r.a, r.f.fc)
    else if r.f.fc || ltb 0x99 r.a
    then (u8 (r.a + 0x60), true)
    else (r.a, r.f.fc)

-- Then the lower digit.
unfoldable pub adjust_low : Flags → ℕ → ℕ
adjust_low f a =
    if f.fn
    then (if f.fh then u8 (a + 256 - 0x6) else a)
    else if f.fh || ltb 0x09 (bit_and a 0x0F)
    then u8 (a + 0x6)
    else a

unfoldable pub decimal_adjust : Registers → Registers
decimal_adjust r =
    let (a₁, carry) = adjust_high r in
    let a₂ = adjust_low r.f a₁ in
    record r { a = a₂; f = record r.f { fc = carry; fz = a₂ == 0; fh = false } }

unfoldable pub set_carry : Registers → Registers
set_carry r = record r { f = record r.f { fc = true; fn = false; fh = false } }

unfoldable pub complement : Registers → Registers
complement r = record r { a = 255 - r.a; f = record r.f { fn = true; fh = true } }

unfoldable pub complement_carry : Registers → Registers
complement_carry r = record r { f = record r.f { fc = not r.f.fc; fn = false; fh = false } }
