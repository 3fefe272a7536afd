-- ===== src/Cpu/Opcodes/Prefixed.antt =====
-- `executeCBOpcode` of src/CPU/opcodes.hpp.
use Prim.Native.Nat.{bit_and, bit_or}
use gameboy_emulator.Base.{
  ℕ, ◌-◌, ◌*◌, ◌/◌, ◌^◌, Bool, true, false, ◌==◌, if◌then◌else◌, not, Build, Outcome, ok, ◌>>=◌,
  ◌>>◌, assert,
}
use gameboy_emulator.Base.Int.{pos}
use gameboy_emulator.Base.Words.{u8, bit}
use gameboy_emulator.Cpu.Control.{Processor, get_ihl, set_ihl}
use gameboy_emulator.Cpu.Opcodes.{
  Target, in_reg, at_hl, Shift, rlc, rrc, rl, rr, sla, sra, srl, CbOpcode, shift, swap, bit_n,
  res_n, set_n,
}
use gameboy_emulator.Cpu.Opcodes.Arithmetic.{with_flags, nth_bit}
use gameboy_emulator.Cpu.Opcodes.Loads.{with_regs, get_reg, set_reg}
use gameboy_emulator.Cpu.Opcodes.Table.{cb_timing}

-- The result of a shift of a byte, given the carry flag; the cases of a register and of the byte at HL
-- compute the same.
unfoldable pub shift_result : Shift → Bool → ℕ → ℕ
shift_result rlc c x = bit_or (u8 (x * 2)) (bit (nth_bit x 7))
shift_result rrc c x = bit_or (x / 2) (bit (nth_bit x 0) * 2 ^ 7)
shift_result rl c x = bit_or (u8 (x * 2)) (bit c)
shift_result rr c x = bit_or (x / 2) (bit c * 2 ^ 7)
shift_result sla c x = u8 (x * 2)
shift_result sra c x = bit_or (x / 2) (bit (nth_bit x 7) * 2 ^ 7)
shift_result srl c x = x / 2

-- The bit that is shifted out.
unfoldable pub shift_carry : Shift → ℕ → Bool
shift_carry rlc x = nth_bit x 7
shift_carry rrc x = nth_bit x 0
shift_carry rl x = nth_bit x 7
shift_carry rr x = nth_bit x 0
shift_carry sla x = nth_bit x 7
shift_carry sra x = nth_bit x 0
shift_carry srl x = nth_bit x 0

unfoldable pub swap_nibbles : ℕ → ℕ
swap_nibbles x = bit_or (u8 (x * 2 ^ 4)) (x / 2 ^ 4)

-- `temp[n] = value` on a byte.
unfoldable pub put_bit : ℕ → Bool → ℕ → ℕ
put_bit n value x = if value then bit_or x (2 ^ n) else bit_and x (255 - 2 ^ n)

unfoldable pub get_target : Build → Target → Processor → Outcome ℕ
get_target build (in_reg r) p = ok (get_reg r p.regs)
get_target build at_hl p = get_ihl build p

unfoldable pub set_target : Build → Target → ℕ → Processor → Outcome Processor
set_target build (in_reg r) v p = ok (with_regs (set_reg r v p.regs) p)
set_target build at_hl v p = set_ihl build v p

unfoldable pub execute_cb : Build → CbOpcode → Processor → Outcome Processor
execute_cb build (shift s t) p = do
  x ← get_target build t p
  let result : ℕ = shift_result s p.regs.f.fc x
  p₁ ← set_target build t result p
  ok (with_flags (record { fc = shift_carry s x; fz = result == 0; fn = false; fh = false }) p₁)
-- Z is that of the byte which is read back.
execute_cb build (swap t) p = do
  x ← get_target build t p
  p₁ ← set_target build t (swap_nibbles x) p
  y ← get_target build t p₁
  ok (with_flags (record { fz = y == 0; fc = false; fn = false; fh = false }) p₁)
execute_cb build (bit_n n t) p = do
  x ← get_target build t p
  ok (with_flags (record p.regs.f { fz = not (nth_bit x n); fn = false; fh = true }) p)
execute_cb build (res_n n t) p = do
  x ← get_target build t p
  set_target build t (put_bit n false x) p
execute_cb build (set_n n t) p = do
  x ← get_target build t p
  set_target build t (put_bit n true x) p

unfoldable pub execute_cb_opcode : Build → CbOpcode → Processor → Outcome Processor
execute_cb_opcode build opcode p = do
  assert build (not (cb_timing opcode == 0))
  execute_cb build opcode (record p { busy_cycles = pos (cb_timing opcode) })
