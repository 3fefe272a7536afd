-- ===== src/Cpu/Opcodes/Execute.antt =====
-- `executeOpcode` of src/CPU/opcodes.hpp. A read of the bus changes nothing, so a byte at HL that a
-- case reads several times before it writes is read once here.
use gameboy_emulator.Base.{
  ℕ, ◌+◌, Bool, true, false, not, ◌==◌, Build, Outcome, ok, ◌>>=◌, ◌>>◌, assert, element,
}
use gameboy_emulator.Base.Int.{pos}
use gameboy_emulator.Base.Words.{u16}
use gameboy_emulator.Cpu.Control.{
  Processor, with_pc, with_sp, get_ihl, set_ihl, pop_pc, push_pc_to_stack, ret, jr, jp_imm,
  call_imm,
}
use gameboy_emulator.Cpu.Opcodes.{
  Condition, always, on_z, on_c, on_nz, on_nc, Opcode, undefined, nop, stop, halt, di, ei, cb, rla,
  rlca, rra, rrca, inc_pair, dec_pair, add_hl, inc_sp, dec_sp, add_hl_sp, add_sp_e, jr_e, ret_if,
  jp_nn, call_nn, reti, jp_hl, rst, ld_inn_sp, ld_hl_spe, ld_sp_hl, ld_sp_nn, ld_pair_nn, pop_pair,
  push_pair, pop_af, push_af, ld_n, ld_ihl_from, ld_from_ihl, ld, ld_ihl_n, ld_a_ibc, ld_a_ide,
  ld_ibc_a, ld_ide_a, ld_ihlp_a, ld_ihlm_a, ld_a_ihlp, ld_a_ihlm, ldh_in_a, ldh_a_in, ldh_ic_a,
  ldh_a_ic, ld_inn_a, ld_a_inn, inc, dec, inc_ihl, dec_ihl, alu, alu_ihl, alu_n, daa, scf, cpl, ccf,
}
use gameboy_emulator.Cpu.Opcodes.Loads.{
  with_regs, get_reg, set_reg, get_pair, set_pair, write_bus, load_a, load_imm, pop_address,
  store_sp, load_hl_sp, load_pair, load_sp, pop_pair_from_stack, pop_af_from_stack,
  push_pair_to_stack, push_af_to_stack, store_and_step, load_and_step,
}
use gameboy_emulator.Cpu.Opcodes.Arithmetic.{
  rotate_rla, rotate_rlca, rotate_rra, rotate_rrca, add_to_hl, add_to_sp, increment, decrement,
  operate, increment_ihl, decrement_ihl, decimal_adjust, set_carry, complement, complement_carry,
}
use gameboy_emulator.Cpu.Opcodes.Table.{timing_at}
use gameboy_emulator.Cpu.Registers.{Flags, Registers, two_word_to_dword, get_bc, get_de, get_hl}

unfoldable pub holds : Condition → Flags → Bool
holds always f = true
holds on_z f = f.fz
holds on_c f = f.fc
holds on_nz f = not f.fz
holds on_nc f = not f.fc

-- A case that changes the registers alone.
abbrev map_regs : (Registers → Registers) → Processor → Outcome Processor
map_regs g p = ok (with_regs (g p.regs) p)

-- The `switch`.
unfoldable pub execute : Build → Opcode → Processor → Outcome Processor
execute build undefined p = ok (record p { crashed = true })
execute build nop p = ok p
execute build stop p = ok (record p { halted = true })
execute build halt p = ok (record p { halted = true })
execute build di p = ok (record p { ime = false })
execute build ei p = ok (record p { ime = true })
-- The prefix has no case: the default asserts that it is not reached.
execute build cb p = assert build false >> ok p
execute build rla p = map_regs rotate_rla p
execute build rlca p = map_regs rotate_rlca p
execute build rra p = map_regs rotate_rra p
execute build rrca p = map_regs rotate_rrca p
execute build (inc_pair x) p = map_regs (λ r. set_pair x (u16 (get_pair x r + 1)) r) p
execute build (dec_pair x) p = map_regs (λ r. set_pair x (u16 (get_pair x r + 0xFFFF)) r) p
execute build (add_hl x) p = map_regs (λ r. add_to_hl (get_pair x r) r) p
execute build inc_sp p = ok (with_sp (u16 (p.regs.sp + 1)) p)
execute build dec_sp p = ok (with_sp (u16 (p.regs.sp + 0xFFFF)) p)
execute build add_hl_sp p = map_regs (λ r. add_to_hl r.sp r) p
execute build add_sp_e p = add_to_sp build p
execute build (jr_e c) p = jr build (holds c p.regs.f) p
execute build (ret_if c) p = ret build (holds c p.regs.f) p
execute build (jp_nn c) p = jp_imm build (holds c p.regs.f) p
execute build (call_nn c) p = call_imm build (holds c p.regs.f) p
execute build reti p = do p₁ ← ret build true p; ok (record p₁ { ime = true })
execute build jp_hl p = ok (with_pc (get_hl p.regs) p)
execute build (rst a) p = do
  p₁ ← push_pc_to_stack build p
  ok (with_pc (two_word_to_dword 0x00 a) p₁)
execute build ld_inn_sp p = store_sp build p
execute build ld_hl_spe p = load_hl_sp build p
execute build ld_sp_hl p = ok (with_sp (get_hl p.regs) p)
execute build ld_sp_nn p = load_sp build p
execute build (ld_pair_nn x) p = load_pair build x p
execute build (pop_pair x) p = pop_pair_from_stack build x p
execute build (push_pair x) p = push_pair_to_stack build x p
execute build pop_af p = pop_af_from_stack build p
execute build push_af p = push_af_to_stack build p
execute build (ld_n x) p = load_imm build x p
execute build (ld_ihl_from x) p = set_ihl build (get_reg x p.regs) p
execute build (ld_from_ihl x) p = do v ← get_ihl build p; map_regs (set_reg x v) p
execute build (ld x y) p = map_regs (λ r. set_reg x (get_reg y r) r) p
execute build ld_ihl_n p = do (n, p₁) ← pop_pc build p; set_ihl build n p₁
execute build ld_a_ibc p = load_a build (get_bc p.regs) p
execute build ld_a_ide p = load_a build (get_de p.regs) p
execute build ld_ibc_a p = write_bus build (get_bc p.regs) p.regs.a p
execute build ld_ide_a p = write_bus build (get_de p.regs) p.regs.a p
execute build ld_ihlp_a p = store_and_step build 1 p
execute build ld_ihlm_a p = store_and_step build 0xFFFF p
execute build ld_a_ihlp p = load_and_step build 1 p
execute build ld_a_ihlm p = load_and_step build 0xFFFF p
execute build ldh_in_a p = do
  (n, p₁) ← pop_pc build p
  write_bus build (two_word_to_dword 0xFF n) p₁.regs.a p₁
execute build ldh_a_in p = do (n, p₁) ← pop_pc build p; load_a build (two_word_to_dword 0xFF n) p₁
execute build ldh_ic_a p = write_bus build (two_word_to_dword 0xFF p.regs.c) p.regs.a p
execute build ldh_a_ic p = load_a build (two_word_to_dword 0xFF p.regs.c) p
execute build ld_inn_a p = do (nn, p₁) ← pop_address build p; write_bus build nn p₁.regs.a p₁
execute build ld_a_inn p = do (nn, p₁) ← pop_address build p; load_a build nn p₁
execute build (inc x) p = map_regs (increment x) p
execute build (dec x) p = map_regs (decrement x) p
execute build inc_ihl p = increment_ihl build p
execute build dec_ihl p = decrement_ihl build p
execute build (alu o x) p = map_regs (λ r. operate o (get_reg x r) r) p
execute build (alu_ihl o) p = do v ← get_ihl build p; map_regs (operate o v) p
execute build (alu_n o) p = do (n, p₁) ← pop_pc build p; map_regs (operate o n) p₁
execute build daa p = map_regs decimal_adjust p
execute build scf p = map_regs set_carry p
execute build cpl p = map_regs complement p
execute build ccf p = map_regs complement_carry p

-- `getBusyCycles` and the assertions stand before the `switch`; the time of the number of every
-- instruction but the prefix is initialised.
unfoldable pub execute_opcode : Build → ℕ → Opcode → Processor → Outcome Processor
execute_opcode build number opcode p = do
  busy ← element (timing_at number)
  assert build (not (busy == 0))
  assert build (not (number == 0xCB))
  execute build opcode (record p { busy_cycles = pos busy })
