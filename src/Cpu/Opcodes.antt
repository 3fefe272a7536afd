-- ===== src/Cpu/Opcodes.antt =====
-- `OPCODE` and `CB_OPCODE` of src/types.hpp. The enumerators that a macro of
-- src/CPU/opcodes.hpp makes of a register, a pair or a condition are one constructor here.
pub mod Table
pub mod Loads
pub mod Arithmetic
pub mod Execute
pub mod Prefixed
pub mod Decimal
pub mod Progress
use gameboy_emulator.Base.{ℕ}

pub data Reg : Type 0 where
  reg_a reg_b reg_c reg_d reg_e reg_h reg_l : Reg

pub data Pair : Type 0 where
  pair_bc pair_de pair_hl : Pair

pub data Condition : Type 0 where
  always on_z on_c on_nz on_nc : Condition

-- The operations of eight bits with the accumulator.
pub data Operation : Type 0 where
  op_add op_sub op_and op_or op_adc op_sbc op_xor op_cp : Operation

pub data Opcode : Type 0 where
  undefined nop stop halt di ei cb : Opcode
  rla rlca rra rrca : Opcode
  inc_pair dec_pair add_hl : Pair → Opcode
  inc_sp dec_sp add_hl_sp add_sp_e : Opcode
  jr_e ret_if jp_nn call_nn : Condition → Opcode
  reti jp_hl : Opcode
  rst : ℕ → Opcode
  ld_inn_sp ld_hl_spe ld_sp_hl ld_sp_nn : Opcode
  ld_pair_nn pop_pair push_pair : Pair → Opcode
  pop_af push_af : Opcode
  ld_n ld_ihl_from ld_from_ihl : Reg → Opcode
  ld : Reg → Reg → Opcode
  ld_ihl_n ld_a_ibc ld_a_ide ld_ibc_a ld_ide_a ld_ihlp_a ld_ihlm_a ld_a_ihlp ld_a_ihlm : Opcode
  ldh_in_a ldh_a_in ldh_ic_a ldh_a_ic ld_inn_a ld_a_inn : Opcode
  inc dec : Reg → Opcode
  inc_ihl dec_ihl : Opcode
  alu : Operation → Reg → Opcode
  alu_ihl alu_n : Operation → Opcode
  daa scf cpl ccf : Opcode

-- What a prefixed instruction works on: a register, or the byte at HL.
pub data Target : Type 0 where
  in_reg : Reg → Target
  at_hl : Target

pub data Shift : Type 0 where
  rlc rrc rl rr sla sra srl : Shift

pub data CbOpcode : Type 0 where
  shift : Shift → Target → CbOpcode
  swap : Target → CbOpcode
  bit_n res_n set_n : ℕ → Target → CbOpcode
