-- ===== src/Cpu/Opcodes/Table.antt =====
-- The numbers of the instructions in src/types.hpp, and their times in src/CPU/timings.hpp. The
-- table has a row for each number, in their order; the time of the prefix is not initialised.
use gameboy_emulator.Base.{ℕ, ◌/◌, ◌%◌, List, [], ◌∷◌, Option, get_elem?, ◌==◌, if◌then◌else◌, ltb}
use gameboy_emulator.Cpu.Opcodes.{
  reg_a, reg_b, reg_c, reg_d, reg_e, reg_h, reg_l, pair_bc, pair_de, pair_hl, always, on_z, on_c,
  on_nz, on_nc, op_add, op_sub, op_and, op_or, op_adc, op_sbc, op_xor, op_cp, Opcode, add_hl,
  add_hl_sp, add_sp_e, alu, alu_ihl, alu_n, call_nn, cb, ccf, cpl, daa, dec, dec_ihl, dec_pair,
  dec_sp, di, ei, halt, inc, inc_ihl, inc_pair, inc_sp, jp_hl, jp_nn, jr_e, ld, ld_a_ibc, ld_a_ide,
  ld_a_ihlm, ld_a_ihlp, ld_a_inn, ld_from_ihl, ld_hl_spe, ld_ibc_a, ld_ide_a, ld_ihl_from, ld_ihl_n,
  ld_ihlm_a, ld_ihlp_a, ld_inn_a, ld_inn_sp, ld_n, ld_pair_nn, ld_sp_hl, ld_sp_nn, ldh_a_ic,
  ldh_a_in, ldh_ic_a, ldh_in_a, nop, pop_af, pop_pair, push_af, push_pair, ret_if, reti, rla, rlca,
  rra, rrca, rst, scf, stop, undefined, Target, in_reg, at_hl, rlc, rrc, rl, rr, sla, sra, srl,
  CbOpcode, shift, swap, bit_n, res_n, set_n,
}

-- `std::numeric_limits<int>::max()`.
abbrev pub max_int : ℕ
max_int = 2147483647

first_opcodes : List Opcode
first_opcodes =
    nop
    ∷ ld_pair_nn pair_bc
    ∷ ld_ibc_a
    ∷ inc_pair pair_bc
    ∷ inc reg_b
    ∷ dec reg_b
    ∷ ld_n reg_b
    ∷ rlca
    ∷ ld_inn_sp
    ∷ add_hl pair_bc
    ∷ ld_a_ibc
    ∷ dec_pair pair_bc
    ∷ inc reg_c
    ∷ dec reg_c
    ∷ ld_n reg_c
    ∷ rrca
    ∷ stop
    ∷ ld_pair_nn pair_de
    ∷ ld_ide_a
    ∷ inc_pair pair_de
    ∷ inc reg_d
    ∷ dec reg_d
    ∷ ld_n reg_d
    ∷ rla
    ∷ jr_e always
    ∷ add_hl pair_de
    ∷ ld_a_ide
    ∷ dec_pair pair_de
    ∷ inc reg_e
    ∷ dec reg_e
    ∷ ld_n reg_e
    ∷ rra
    ∷ jr_e on_nz
    ∷ ld_pair_nn pair_hl
    ∷ ld_ihlp_a
    ∷ inc_pair pair_hl
    ∷ inc reg_h
    ∷ dec reg_h
    ∷ ld_n reg_h
    ∷ daa
    ∷ jr_e on_z
    ∷ add_hl pair_hl
    ∷ ld_a_ihlp
    ∷ dec_pair pair_hl
    ∷ inc reg_l
    ∷ dec reg_l
    ∷ ld_n reg_l
    ∷ cpl
    ∷ jr_e on_nc
    ∷ ld_sp_nn
    ∷ ld_ihlm_a
    ∷ inc_sp
    ∷ inc_ihl
    ∷ dec_ihl
    ∷ ld_ihl_n
    ∷ scf
    ∷ jr_e on_c
    ∷ add_hl_sp
    ∷ ld_a_ihlm
    ∷ dec_sp
    ∷ inc reg_a
    ∷ dec reg_a
    ∷ ld_n reg_a
    ∷ ccf
    ∷ []

first_timings : List ℕ
first_timings =
    1 ∷ 3 ∷ 2 ∷ 2 ∷ 1 ∷ 1 ∷ 2 ∷ 1 ∷ 5 ∷ 2 ∷ 2 ∷ 2 ∷ 1 ∷ 1 ∷ 2 ∷ 1 ∷ 1 ∷ 3 ∷ 2 ∷ 2 ∷ 1 ∷ 1 ∷ 2 ∷ 1
    ∷ 3 ∷ 2 ∷ 2 ∷ 2 ∷ 1 ∷ 1 ∷ 2 ∷ 1 ∷ 3 ∷ 3 ∷ 2 ∷ 2 ∷ 1 ∷ 1 ∷ 2 ∷ 1 ∷ 3 ∷ 2 ∷ 2 ∷ 2 ∷ 1 ∷ 1 ∷ 2 ∷ 1
    ∷ 3 ∷ 3 ∷ 2 ∷ 2 ∷ 3 ∷ 3 ∷ 3 ∷ 1 ∷ 3 ∷ 2 ∷ 2 ∷ 2 ∷ 1 ∷ 1 ∷ 2 ∷ 1 ∷ []

second_opcodes : List Opcode
second_opcodes =
    (ld reg_b reg_b)
    ∷ ld reg_b reg_c
    ∷ ld reg_b reg_d
    ∷ ld reg_b reg_e
    ∷ ld reg_b reg_h
    ∷ ld reg_b reg_l
    ∷ ld_from_ihl reg_b
    ∷ ld reg_b reg_a
    ∷ ld reg_c reg_b
    ∷ ld reg_c reg_c
    ∷ ld reg_c reg_d
    ∷ ld reg_c reg_e
    ∷ ld reg_c reg_h
    ∷ ld reg_c reg_l
    ∷ ld_from_ihl reg_c
    ∷ ld reg_c reg_a
    ∷ ld reg_d reg_b
    ∷ ld reg_d reg_c
    ∷ ld reg_d reg_d
    ∷ ld reg_d reg_e
    ∷ ld reg_d reg_h
    ∷ ld reg_d reg_l
    ∷ ld_from_ihl reg_d
    ∷ ld reg_d reg_a
    ∷ ld reg_e reg_b
    ∷ ld reg_e reg_c
    ∷ ld reg_e reg_d
    ∷ ld reg_e reg_e
    ∷ ld reg_e reg_h
    ∷ ld reg_e reg_l
    ∷ ld_from_ihl reg_e
    ∷ ld reg_e reg_a
    ∷ ld reg_h reg_b
    ∷ ld reg_h reg_c
    ∷ ld reg_h reg_d
    ∷ ld reg_h reg_e
    ∷ ld reg_h reg_h
    ∷ ld reg_h reg_l
    ∷ ld_from_ihl reg_h
    ∷ ld reg_h reg_a
    ∷ ld reg_l reg_b
    ∷ ld reg_l reg_c
    ∷ ld reg_l reg_d
    ∷ ld reg_l reg_e
    ∷ ld reg_l reg_h
    ∷ ld reg_l reg_l
    ∷ ld_from_ihl reg_l
    ∷ ld reg_l reg_a
    ∷ ld_ihl_from reg_b
    ∷ ld_ihl_from reg_c
    ∷ ld_ihl_from reg_d
    ∷ ld_ihl_from reg_e
    ∷ ld_ihl_from reg_h
    ∷ ld_ihl_from reg_l
    ∷ halt
    ∷ ld_ihl_from reg_a
    ∷ ld reg_a reg_b
    ∷ ld reg_a reg_c
    ∷ ld reg_a reg_d
    ∷ ld reg_a reg_e
    ∷ ld reg_a reg_h
    ∷ ld reg_a reg_l
    ∷ ld_from_ihl reg_a
    ∷ ld reg_a reg_a
    ∷ []

second_timings : List ℕ
second_timings =
    1 ∷ 1 ∷ 1 ∷ 1 ∷ 1 ∷ 1 ∷ 2 ∷ 1 ∷ 1 ∷ 1 ∷ 1 ∷ 1 ∷ 1 ∷ 1 ∷ 2 ∷ 1 ∷ 1 ∷ 1 ∷ 1 ∷ 1 ∷ 1 ∷ 1 ∷ 2 ∷ 1
    ∷ 1 ∷ 1 ∷ 1 ∷ 1 ∷ 1 ∷ 1 ∷ 2 ∷ 1 ∷ 1 ∷ 1 ∷ 1 ∷ 1 ∷ 1 ∷ 1 ∷ 2 ∷ 1 ∷ 1 ∷ 1 ∷ 1 ∷ 1 ∷ 1 ∷ 1 ∷ 2 ∷ 1
    ∷ 2 ∷ 2 ∷ 2 ∷ 2 ∷ 2 ∷ 2 ∷ 1 ∷ 2 ∷ 1 ∷ 1 ∷ 1 ∷ 1 ∷ 1 ∷ 1 ∷ 2 ∷ 1 ∷ []

third_opcodes : List Opcode
third_opcodes =
    (alu op_add reg_b)
    ∷ alu op_add reg_c
    ∷ alu op_add reg_d
    ∷ alu op_add reg_e
    ∷ alu op_add reg_h
    ∷ alu op_add reg_l
    ∷ alu_ihl op_add
    ∷ alu op_add reg_a
    ∷ alu op_adc reg_b
    ∷ alu op_adc reg_c
    ∷ alu op_adc reg_d
    ∷ alu op_adc reg_e
    ∷ alu op_adc reg_h
    ∷ alu op_adc reg_l
    ∷ alu_ihl op_adc
    ∷ alu op_adc reg_a
    ∷ alu op_sub reg_b
    ∷ alu op_sub reg_c
    ∷ alu op_sub reg_d
    ∷ alu op_sub reg_e
    ∷ alu op_sub reg_h
    ∷ alu op_sub reg_l
    ∷ alu_ihl op_sub
    ∷ alu op_sub reg_a
    ∷ alu op_sbc reg_b
    ∷ alu op_sbc reg_c
    ∷ alu op_sbc reg_d
    ∷ alu op_sbc reg_e
    ∷ alu op_sbc reg_h
    ∷ alu op_sbc reg_l
    ∷ alu_ihl op_sbc
    ∷ alu op_sbc reg_a
    ∷ alu op_and reg_b
    ∷ alu op_and reg_c
    ∷ alu op_and reg_d
    ∷ alu op_and reg_e
    ∷ alu op_and reg_h
    ∷ alu op_and reg_l
    ∷ alu_ihl op_and
    ∷ alu op_and reg_a
    ∷ alu op_xor reg_b
    ∷ alu op_xor reg_c
    ∷ alu op_xor reg_d
    ∷ alu op_xor reg_e
    ∷ alu op_xor reg_h
    ∷ alu op_xor reg_l
    ∷ alu_ihl op_xor
    ∷ alu op_xor reg_a
    ∷ alu op_or reg_b
    ∷ alu op_or reg_c
    ∷ alu op_or reg_d
    ∷ alu op_or reg_e
    ∷ alu op_or reg_h
    ∷ alu op_or reg_l
    ∷ alu_ihl op_or
    ∷ alu op_or reg_a
    ∷ alu op_cp reg_b
    ∷ alu op_cp reg_c
    ∷ alu op_cp reg_d
    ∷ alu op_cp reg_e
    ∷ alu op_cp reg_h
    ∷ alu op_cp reg_l
    ∷ alu_ihl op_cp
    ∷ alu op_cp reg_a
    ∷ []

third_timings : List ℕ
third_timings =
    1 ∷ 1 ∷ 1 ∷ 1 ∷ 1 ∷ 1 ∷ 2 ∷ 1 ∷ 1 ∷ 1 ∷ 1 ∷ 1 ∷ 1 ∷ 1 ∷ 2 ∷ 1 ∷ 1 ∷ 1 ∷ 1 ∷ 1 ∷ 1 ∷ 1 ∷ 2 ∷ 1
    ∷ 1 ∷ 1 ∷ 1 ∷ 1 ∷ 1 ∷ 1 ∷ 2 ∷ 1 ∷ 1 ∷ 1 ∷ 1 ∷ 1 ∷ 1 ∷ 1 ∷ 2 ∷ 1 ∷ 1 ∷ 1 ∷ 1 ∷ 1 ∷ 1 ∷ 1 ∷ 2 ∷ 1
    ∷ 1 ∷ 1 ∷ 1 ∷ 1 ∷ 1 ∷ 1 ∷ 2 ∷ 1 ∷ 1 ∷ 1 ∷ 1 ∷ 1 ∷ 1 ∷ 1 ∷ 2 ∷ 1 ∷ []

fourth_opcodes : List Opcode
fourth_opcodes =
    (ret_if on_nz)
    ∷ pop_pair pair_bc
    ∷ jp_nn on_nz
    ∷ jp_nn always
    ∷ call_nn on_nz
    ∷ push_pair pair_bc
    ∷ alu_n op_add
    ∷ rst 0x00
    ∷ ret_if on_z
    ∷ ret_if always
    ∷ jp_nn on_z
    ∷ cb
    ∷ call_nn on_z
    ∷ call_nn always
    ∷ alu_n op_adc
    ∷ rst 0x08
    ∷ ret_if on_nc
    ∷ pop_pair pair_de
    ∷ jp_nn on_nc
    ∷ undefined
    ∷ call_nn on_nc
    ∷ push_pair pair_de
    ∷ alu_n op_sub
    ∷ rst 0x10
    ∷ ret_if on_c
    ∷ reti
    ∷ jp_nn on_c
    ∷ undefined
    ∷ call_nn on_c
    ∷ undefined
    ∷ alu_n op_sbc
    ∷ rst 0x18
    ∷ ldh_in_a
    ∷ pop_pair pair_hl
    ∷ ldh_ic_a
    ∷ undefined
    ∷ undefined
    ∷ push_pair pair_hl
    ∷ alu_n op_and
    ∷ rst 0x20
    ∷ add_sp_e
    ∷ jp_hl
    ∷ ld_inn_a
    ∷ undefined
    ∷ undefined
    ∷ undefined
    ∷ alu_n op_xor
    ∷ rst 0x28
    ∷ ldh_a_in
    ∷ pop_af
    ∷ ldh_a_ic
    ∷ di
    ∷ undefined
    ∷ push_af
    ∷ alu_n op_or
    ∷ rst 0x30
    ∷ ld_hl_spe
    ∷ ld_sp_hl
    ∷ ld_a_inn
    ∷ ei
    ∷ undefined
    ∷ undefined
    ∷ alu_n op_cp
    ∷ rst 0x38
    ∷ []

fourth_timings : List ℕ
fourth_timings =
    5 ∷ 3 ∷ 4 ∷ 4 ∷ 6 ∷ 4 ∷ 2 ∷ 4 ∷ 5 ∷ 4 ∷ 4 ∷ 0 ∷ 6 ∷ 6 ∷ 2 ∷ 4 ∷ 5 ∷ 3 ∷ 4 ∷ max_int ∷ 6 ∷ 4 ∷ 2
    ∷ 4 ∷ 5 ∷ 4 ∷ 4 ∷ max_int ∷ 6 ∷ max_int ∷ 2 ∷ 4 ∷ 2 ∷ 3 ∷ 2 ∷ max_int ∷ max_int ∷ 4 ∷ 2 ∷ 4 ∷ 4
    ∷ 1 ∷ 4 ∷ max_int ∷ max_int ∷ max_int ∷ 2 ∷ 4 ∷ 2 ∷ 3 ∷ 2 ∷ 1 ∷ max_int ∷ 4 ∷ 2 ∷ 4 ∷ 3 ∷ 2 ∷ 4
    ∷ 1 ∷ max_int ∷ max_int ∷ 2 ∷ 4 ∷ []

-- The opcode with a number.
unfoldable pub opcode_at : ℕ → Option Opcode
unfolding first_opcodes second_opcodes third_opcodes fourth_opcodes
opcode_at n =
    get_elem?
      (if ltb n 64
        then first_opcodes
        else if ltb n 128
        then second_opcodes
        else if ltb n 192
        then third_opcodes
        else fourth_opcodes)
      (n % 64)

-- `INSTRUCTION_TIMINGS`.
unfoldable pub timing_at : ℕ → Option ℕ
unfolding first_timings second_timings third_timings fourth_timings
timing_at n =
    get_elem?
      (if ltb n 64
        then first_timings
        else if ltb n 128
        then second_timings
        else if ltb n 192
        then third_timings
        else fourth_timings)
      (n % 64)

-- The lowest three bits of the number of a prefixed instruction.
unfoldable pub target_of : ℕ → Target
target_of n =
    if n == 0
    then in_reg reg_b
    else if n == 1
    then in_reg reg_c
    else if n == 2
    then in_reg reg_d
    else if n == 3
    then in_reg reg_e
    else if n == 4
    then in_reg reg_h
    else if n == 5
    then in_reg reg_l
    else if n == 6
    then at_hl
    else in_reg reg_a

-- `CB_OPCODE`, whose enumerators are numbered by operation, bit and target.
unfoldable pub cb_opcode_at : ℕ → CbOpcode
unfolding target_of
cb_opcode_at n =
    let target = target_of (n % 8) in
    let row = n / 8 in
    if row == 0
    then shift rlc target
    else if row == 1
    then shift rrc target
    else if row == 2
    then shift rl target
    else if row == 3
    then shift rr target
    else if row == 4
    then shift sla target
    else if row == 5
    then shift sra target
    else if row == 6
    then swap target
    else if row == 7
    then shift srl target
    else if row / 8 == 1
    then bit_n (row % 8) target
    else if row / 8 == 2
    then res_n (row % 8) target
    else set_n (row % 8) target

-- `CB_INSTRUCTION_TIMINGS`: 2 for a register, and for the byte at HL 3 to test a bit and 4 for
-- everything else.
unfoldable pub cb_timing : CbOpcode → ℕ
cb_timing (shift s (in_reg r)) = 2
cb_timing (shift s at_hl) = 4
cb_timing (swap (in_reg r)) = 2
cb_timing (swap at_hl) = 4
cb_timing (bit_n n (in_reg r)) = 2
cb_timing (bit_n n at_hl) = 3
cb_timing (res_n n (in_reg r)) = 2
cb_timing (res_n n at_hl) = 4
cb_timing (set_n n (in_reg r)) = 2
cb_timing (set_n n at_hl) = 4
