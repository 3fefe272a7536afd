-- ===== src/Cpu/Clock.antt =====
-- `machineClock` and `executeCurrentInstruction` of src/CPU/cpu.cpp.
use gameboy_emulator.Base.{
  Bool, true, false, not, ◌==◌, if◌then◌else◌, Build, Outcome, ok, ◌>>=◌, ◌>>◌, assert, element,
}
use gameboy_emulator.Base.Int.{ℤ, pos, negsuc, ◌+ℤ◌, is_ℕ}
use gameboy_emulator.Cpu.Control.{Processor, pop_pc, try_trigger_interrupt}
use gameboy_emulator.Cpu.Opcodes.Execute.{execute_opcode}
use gameboy_emulator.Cpu.Opcodes.Prefixed.{execute_cb_opcode}
use gameboy_emulator.Cpu.Opcodes.Table.{opcode_at, cb_opcode_at}

unfoldable pub execute_current_instruction : Build → Processor → Outcome Processor
execute_current_instruction build p = do
  assert build (is_ℕ p.busy_cycles 0)
  (number, p₁) ← pop_pc build p
  if not (number == 0xCB)
      then (do opcode ← element (opcode_at number); execute_opcode build number opcode p₁)
      else (do (second, p₂) ← pop_pc build p₁; execute_cb_opcode build (cb_opcode_at second) p₂)

-- `n >= 0` of an `int`.
abbrev is_not_negative : ℤ → Bool
is_not_negative (pos n) = true
is_not_negative (negsuc n) = false

unfoldable pub machine_clock : Build → Processor → Outcome Processor
machine_clock build p = do
  assert build (is_not_negative p.busy_cycles)
  if p.crashed
      then ok p
      else if not (is_ℕ p.busy_cycles 0)
      then ok (record p { busy_cycles = p.busy_cycles +ℤ negsuc 0 })
      else (do
        (triggered, p₁) ← try_trigger_interrupt build p
        if triggered
            then ok p₁
            else if p₁.halted
            then ok p₁
            else execute_current_instruction build p₁)
