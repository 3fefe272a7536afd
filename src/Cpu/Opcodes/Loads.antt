-- ===== src/Cpu/Opcodes/Loads.antt =====
-- The loads of src/CPU/opcodes.hpp, of 8 and of 16 bits, and `popPCSigned` of src/CPU/cpu.cpp. A
-- signed byte that is added to 16 bits is extended.
use gameboy_emulator.Base.{
  ℕ, ◌+◌, ◌*◌, ◌/◌, ◌%◌, ◌^◌, false, ltb, ◌==◌, if◌then◌else◌, Build, Outcome, ok, ◌>>=◌,
}
use gameboy_emulator.Base.Words.{u16, bit}
use gameboy_emulator.Bus.{Component, read, write}
use gameboy_emulator.Cpu.Alu.{get_carry_flag, get_half_carry_flag}
use gameboy_emulator.Cpu.Control.{Processor, get_ihl, set_ihl, set_sp, pop_pc, pop_sp, push_byte}
use gameboy_emulator.Cpu.Opcodes.{
  Reg, reg_a, reg_b, reg_c, reg_d, reg_e, reg_h, reg_l, Pair, pair_bc, pair_de, pair_hl,
}
use gameboy_emulator.Cpu.Registers.{
  Flags, Registers, two_word_to_dword, dword_lsb, dword_msb, get_bc, set_bc, get_de, set_de, get_hl,
  set_hl,
}

abbrev pub with_regs : Registers → Processor → Processor
with_regs r p = record p { regs = r }

abbrev pub get_reg : Reg → Registers → ℕ
get_reg reg_a r = r.a
get_reg reg_b r = r.b
get_reg reg_c r = r.c
get_reg reg_d r = r.d
get_reg reg_e r = r.e
get_reg reg_h r = r.h
get_reg reg_l r = r.l

abbrev pub set_reg : Reg → ℕ → Registers → Registers
set_reg reg_a v r = record r { a = v }
set_reg reg_b v r = record r { b = v }
set_reg reg_c v r = record r { c = v }
set_reg reg_d v r = record r { d = v }
set_reg reg_e v r = record r { e = v }
set_reg reg_h v r = record r { h = v }
set_reg reg_l v r = record r { l = v }

abbrev pub get_pair : Pair → Registers → ℕ
get_pair pair_bc r = get_bc r
get_pair pair_de r = get_de r
get_pair pair_hl r = get_hl r

abbrev pub set_pair : Pair → ℕ → Registers → Registers
set_pair pair_bc v r = set_bc v r
set_pair pair_de v r = set_de v r
set_pair pair_hl v r = set_hl v r

-- The registers of a pair, the higher byte first.
abbrev pub high_reg : Pair → Reg
high_reg pair_bc = reg_b
high_reg pair_de = reg_d
high_reg pair_hl = reg_h

abbrev pub low_reg : Pair → Reg
low_reg pair_bc = reg_c
low_reg pair_de = reg_e
low_reg pair_hl = reg_l

-- `F.to_ulong()`.
unfoldable pub flag_bits : Flags → ℕ
flag_bits f = bit f.fz * 2 ^ 7 + bit f.fn * 2 ^ 6 + bit f.fh * 2 ^ 5 + bit f.fc * 2 ^ 4

-- `F = value & 0b11110000`.
unfoldable pub bits_flags : ℕ → Flags
bits_flags v = record {
  fz = v / 2 ^ 7 % 2 == 1;
  fn = v / 2 ^ 6 % 2 == 1;
  fh = v / 2 ^ 5 % 2 == 1;
  fc = v / 2 ^ 4 % 2 == 1;
}

-- A `signed char` in 16 bits.
unfoldable pub extend : ℕ → ℕ
extend e = if ltb e 0x80 then e else e + 0xFF00

unfoldable pub write_bus : Build → ℕ → ℕ → Processor → Outcome Processor
write_bus build address value p = do
  bus ← write build address value Component.cpu p.bus
  ok (record p { bus = bus })

unfoldable pub load_a : Build → ℕ → Processor → Outcome Processor
load_a build address p = do
  value ← read build p.bus address
  ok (with_regs (set_reg reg_a value p.regs) p)

-- `LD_X_n`, which calls `loadImm`.
unfoldable pub load_imm : Build → Reg → Processor → Outcome Processor
load_imm build r p = do (n, p₁) ← pop_pc build p; ok (with_regs (set_reg r n p₁.regs) p₁)

-- The two bytes behind the instruction, as an address.
unfoldable pub pop_address : Build → Processor → Outcome (ℕ × Processor)
pop_address build p = do
  (lsb, p₁) ← pop_pc build p
  (msb, p₂) ← pop_pc build p₁
  ok (two_word_to_dword msb lsb, p₂)

-- `LD_inn_SP`.
unfoldable pub store_sp : Build → Processor → Outcome Processor
store_sp build p = do
  (nn, p₁) ← pop_address build p
  p₂ ← write_bus build nn (dword_lsb p₁.regs.sp) p₁
  write_bus build (u16 (nn + 1)) (dword_msb p₂.regs.sp) p₂

-- `LD_HL_SPe`. The carries are those of the sum of two bytes.
unfoldable pub load_hl_sp : Build → Processor → Outcome Processor
load_hl_sp build p = do
  (e, p₁) ← pop_pc build p
  let r : Registers = set_hl (u16 (p₁.regs.sp + extend e)) p₁.regs
  ok (
      with_regs
        (record r {
          f = record {
            fc = get_carry_flag (dword_lsb r.sp) e;
            fh = get_half_carry_flag (dword_lsb r.sp) e;
            fz = false;
            fn = false;
          };
        })
        p₁)

-- `LD_XX_nn`.
unfoldable pub load_pair : Build → Pair → Processor → Outcome Processor
load_pair build pair p = do
  (nn, p₁) ← pop_address build p
  ok (with_regs (set_pair pair nn p₁.regs) p₁)

unfoldable pub load_sp : Build → Processor → Outcome Processor
load_sp build p = do (lsb, p₁) ← pop_pc build p; (msb, p₂) ← pop_pc build p₁; ok (set_sp msb lsb p₂)

-- `POP_XX` and `POP_AF`.
unfoldable pub pop_pair_from_stack : Build → Pair → Processor → Outcome Processor
pop_pair_from_stack build pair p = do
  (low, p₁) ← pop_sp build p
  (high, p₂) ← pop_sp build (with_regs (set_reg (low_reg pair) low p₁.regs) p₁)
  ok (with_regs (set_reg (high_reg pair) high p₂.regs) p₂)

unfoldable pub pop_af_from_stack : Build → Processor → Outcome Processor
pop_af_from_stack build p = do
  (low, p₁) ← pop_sp build p
  (high, p₂) ← pop_sp build (with_regs (record p₁.regs { f = bits_flags low }) p₁)
  ok (with_regs (set_reg reg_a high p₂.regs) p₂)

-- `PUSH_XX` and `PUSH_AF`.
unfoldable pub push_pair_to_stack : Build → Pair → Processor → Outcome Processor
push_pair_to_stack build pair p = do
  p₁ ← push_byte build (get_reg (high_reg pair) p.regs) p
  push_byte build (get_reg (low_reg pair) p₁.regs) p₁

unfoldable pub push_af_to_stack : Build → Processor → Outcome Processor
push_af_to_stack build p = do
  p₁ ← push_byte build p.regs.a p
  push_byte build (flag_bits p₁.regs.f) p₁

-- What `HL(HL() + step)` makes of the processor; the step down is 2^16 - 1.
unfoldable pub step_hl : ℕ → Processor → Processor
step_hl step p = with_regs (set_hl (u16 (get_hl p.regs + step)) p.regs) p

-- `LD_iHLp_A` and `LD_iHLm_A`, `LD_A_iHLp` and `LD_A_iHLm`.
unfoldable pub store_and_step : Build → ℕ → Processor → Outcome Processor
store_and_step build step p = do p₁ ← set_ihl build p.regs.a p; ok (step_hl step p₁)

unfoldable pub load_and_step : Build → ℕ → Processor → Outcome Processor
load_and_step build step p = do
  value ← get_ihl build p
  ok (step_hl step (with_regs (set_reg reg_a value p.regs) p))
