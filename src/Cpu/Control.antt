-- ===== src/Cpu/Control.antt =====
-- src/CPU/cpu.cpp: jumps, calls, the stack and the dispatch of interrupts. `Processor` is a CPU with
-- the bus that it points to; `busyCycles` is an `int`, and a jump that is not taken may subtract
-- from it.
pub mod Stack
pub mod Bits
pub mod Served
use gameboy_emulator.Base.{
  ℕ, zero, suc, ◌+◌, ◌/◌, ◌%◌, ◌^◌, Bool, true, false, List, [], ◌∷◌, ltb, ◌==◌, if◌then◌else◌, not,
  ◌&&◌, get_elem?, element, Build, Outcome, ok, ◌>>=◌, ◌>>◌, assert,
}
use gameboy_emulator.Base.Int.{ℤ, pos, negsuc, ◌+ℤ◌, is_ℕ}
use gameboy_emulator.Base.Words.{u16}
use gameboy_emulator.Bus.{Bus, Component, read, write}
use gameboy_emulator.Cpu.Registers.{Registers, two_word_to_dword, dword_lsb, dword_msb, get_hl}
use gameboy_emulator.Interrupts.{interrupt_enable, interrupt_flags, set_interrupt_flag}

pub record Processor : Type 0 where
  pub regs : Registers
  pub halted : Bool
  pub crashed : Bool
  pub ime : Bool
  pub busy_cycles : ℤ
  pub bus : Bus

abbrev pub with_pc : ℕ → Processor → Processor
with_pc pc p = record p { regs = record p.regs { pc = pc } }

abbrev pub with_sp : ℕ → Processor → Processor
with_sp sp p = record p { regs = record p.regs { sp = sp } }

-- The two meanings of `iHL`.
unfoldable pub get_ihl : Build → Processor → Outcome ℕ
get_ihl build p = read build p.bus (get_hl p.regs)

unfoldable pub set_ihl : Build → ℕ → Processor → Outcome Processor
set_ihl build value p = do
  bus ← write build (get_hl p.regs) value Component.cpu p.bus
  ok (record p { bus = bus })

unfoldable pub set_sp : ℕ → ℕ → Processor → Processor
set_sp msb lsb p = with_sp (two_word_to_dword msb lsb) p

unfoldable pub set_pc : ℕ → ℕ → Processor → Processor
set_pc msb lsb p = with_pc (two_word_to_dword msb lsb) p

unfoldable pub pop_pc : Build → Processor → Outcome (ℕ × Processor)
pop_pc build p = do value ← read build p.bus p.regs.pc; ok (value, with_pc (u16 (p.regs.pc + 1)) p)

unfoldable pub pop_sp : Build → Processor → Outcome (ℕ × Processor)
pop_sp build p = do value ← read build p.bus p.regs.sp; ok (value, with_sp (u16 (p.regs.sp + 1)) p)

-- `*--SP = value`.
pub push_byte : Build → ℕ → Processor → Outcome Processor
push_byte build value p = do
  let sp : ℕ = u16 (p.regs.sp + 0xFFFF)
  bus ← write build sp value Component.cpu p.bus
  ok (record (with_sp sp p) { bus = bus })

unfoldable pub push_pc_to_stack : Build → Processor → Outcome Processor
unfolding push_byte
push_pc_to_stack build p = do
  p₁ ← push_byte build (dword_msb p.regs.pc) p
  push_byte build (dword_lsb p₁.regs.pc) p₁

unfoldable pub ret : Build → Bool → Processor → Outcome Processor
ret build condition p =
    if not condition
    then ok (record p { busy_cycles = p.busy_cycles +ℤ negsuc 2 })
    else (do (lsb, p₁) ← pop_sp build p; (msb, p₂) ← pop_sp build p₁; ok (set_pc msb lsb p₂))

-- The byte is a `signed char`, added to 16 bits.
unfoldable pub jr : Build → Bool → Processor → Outcome Processor
jr build condition p = do
  (e, p₁) ← pop_pc build p
  if not condition
      then ok (record p₁ { busy_cycles = p₁.busy_cycles +ℤ negsuc 0 })
      else ok (with_pc (u16 (p₁.regs.pc + (if ltb e 0x80 then e else e + 0xFF00))) p₁)

unfoldable pub jp_imm : Build → Bool → Processor → Outcome Processor
jp_imm build condition p = do
  (lsb, p₁) ← pop_pc build p
  (msb, p₂) ← pop_pc build p₁
  if not condition
      then ok (record p₂ { busy_cycles = p₂.busy_cycles +ℤ negsuc 0 })
      else ok (set_pc msb lsb p₂)

unfoldable pub call_imm : Build → Bool → Processor → Outcome Processor
call_imm build condition p = do
  (lsb, p₁) ← pop_pc build p
  (msb, p₂) ← pop_pc build p₁
  if not condition
      then ok (record p₂ { busy_cycles = p₂.busy_cycles +ℤ negsuc 2 })
      else (do p₃ ← push_pc_to_stack build p₂; ok (set_pc msb lsb p₃))

abbrev pub interrupt_jump_addresses : List ℕ
interrupt_jump_addresses = 0x40 ∷ 0x48 ∷ 0x50 ∷ 0x58 ∷ 0x60 ∷ []

unfoldable pub trigger_interrupt : Build → ℕ → Processor → Outcome Processor
trigger_interrupt build interrupt p = do
  assert build (is_ℕ p.busy_cycles 0)
  if not p.ime then ok p else (do
    bus ← set_interrupt_flag build interrupt false p.bus
    p₁ ← push_pc_to_stack build (record p { ime = false; bus = bus })
    target ← element (get_elem? interrupt_jump_addresses interrupt)
    ok (record (with_pc target p₁) { busy_cycles = pos 5 }))

-- `flags[i]` of a bitset.
unfoldable pub has_bit : ℕ → ℕ → Bool
has_bit flags i = flags / 2 ^ i % 2 == 1

-- The loop over the interrupts, with `left` of them to go from `i` on.
unfoldable pub trigger_loop : Build → ℕ → ℕ → ℕ → ℕ → Processor → Outcome (Bool × Processor)
trigger_loop build zero i enabled requested p = ok (false, p)
trigger_loop build (suc left) i enabled requested p =
    let rest = trigger_loop build left (i + 1) enabled requested p in
    if has_bit requested i && has_bit enabled i
    then (do p₁ ← trigger_interrupt build i p; ok (true, record p₁ { halted = false }))
    else rest

unfoldable pub try_trigger_interrupt : Build → Processor → Outcome (Bool × Processor)
try_trigger_interrupt build p = do
  assert build (is_ℕ p.busy_cycles 0)
  if not p.ime && not p.halted then ok (false, p) else (do
    enabled ← interrupt_enable build p.bus
    if enabled == 0 then ok (false, p) else (do
      requested ← interrupt_flags build p.bus
      if requested == 0 then ok (false, p) else trigger_loop build 5 0 enabled requested p))
