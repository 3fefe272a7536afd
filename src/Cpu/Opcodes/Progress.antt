-- ===== src/Cpu/Opcodes/Progress.antt =====
-- Every byte is an instruction: the assertions of src/CPU/opcodes.hpp never fail.
use gameboy_emulator.Base.{
  ℕ, ◌+◌, ◌%◌, ◌/◌, if◌then◌else◌, ◌<◌, ◌≡◌, ◌≢◌, refl, Bool, true, false, none, some, leb, ltb,
  ◌==◌, ◌&&◌, ◌||◌, not, Option, Build, ok, assert-true, arith,
}
use gameboy_emulator.Base.Int.{pos, is_ℕ}
use gameboy_emulator.Base.Words.{all_below, all_below_sound, u16}
use gameboy_emulator.Bus.{read}
use gameboy_emulator.Cpu.Clock.{execute_current_instruction}
use gameboy_emulator.Cpu.Control.{Processor, with_pc, pop_pc}
use gameboy_emulator.Cpu.Opcodes.{Opcode, CbOpcode, shift, swap, bit_n, res_n, set_n, in_reg, at_hl}
use gameboy_emulator.Cpu.Opcodes.Execute.{execute, execute_opcode}
use gameboy_emulator.Cpu.Opcodes.Prefixed.{execute_cb, execute_cb_opcode}
use gameboy_emulator.Cpu.Opcodes.Table.{opcode_at, timing_at, cb_timing, cb_opcode_at, max_int}

-- A time in the table: one to six cycles, or that of the undefined instructions.
abbrev pub IsTime : ℕ → Type 0
IsTime t = (0 < t) × ((leb t 6 || (t == max_int)) ≡ true)

timed : Option ℕ → Bool
timed none = false
timed (some t) = ltb 0 t && (leb t 6 || (t == max_int))

there : Option Opcode → Bool
there none = false
there (some o) = true

abbrev known_test : ℕ → Bool
known_test n = there (opcode_at n) && (n == 0xCB || timed (timing_at n))

known_table : all_below 256 known_test ≡ true
unfolding all_below there timed opcode_at timing_at
known_table = refl

timed_sound : (o : Option ℕ) → timed o ≡ true → (t : ℕ) × (o ≡ some t) × IsTime t
unfolding timed
timed_sound none h = cc
timed_sound (some t) h = (t, refl, (ground arith, ground arith))

there_sound : (o : Option Opcode) → there o ≡ true → (c : Opcode) × (o ≡ some c)
unfolding there
there_sound none h = cc
there_sound (some c) h = (c, refl)

cb_timing-positive : (o : CbOpcode) → 0 < cb_timing o
unfolding cb_timing
cb_timing-positive (shift s (in_reg r)) = omega arith
cb_timing-positive (shift s at_hl) = omega arith
cb_timing-positive (swap (in_reg r)) = omega arith
cb_timing-positive (swap at_hl) = omega arith
cb_timing-positive (bit_n n (in_reg r)) = omega arith
cb_timing-positive (bit_n n at_hl) = omega arith
cb_timing-positive (res_n n (in_reg r)) = omega arith
cb_timing-positive (res_n n at_hl) = omega arith
cb_timing-positive (set_n n (in_reg r)) = omega arith
cb_timing-positive (set_n n at_hl) = omega arith

-- The processor with `step` bytes fetched, and this time to go.
abbrev pub fetched : ℕ → ℕ → Processor → Processor
fetched step t p = record (with_pc (u16 (p.regs.pc + step)) p) { busy_cycles = pos t }

nonzero : (t : ℕ) → 0 < t → not (t == 0) ≡ true
nonzero t h = ground arith

execute_opcode_lem :
    (build : Build) (n t : ℕ) (o : Opcode) (p : Processor)
    → (n == 0xCB) ≡ false
    → timing_at n ≡ some t
    → IsTime t
    → execute_opcode build n o p ≡ execute build o (record p { busy_cycles = pos t })
unfolding execute_opcode
execute_opcode_lem build n t o p plain found time =
    let unprefixed : not (n == 0xCB) ≡ true = ground arith in
    rw found (
      rw (assert-true build (not (t == 0)) (nonzero t time.0))
        (rw (assert-true build (not (n == 0xCB)) unprefixed)))

execute_cb_opcode_lem :
    (build : Build) (o : CbOpcode) (p : Processor)
    → execute_cb_opcode build o p
      ≡ execute_cb build o (record p { busy_cycles = pos (cb_timing o) })
unfolding execute_cb_opcode
execute_cb_opcode_lem build o p =
    rw (assert-true build (not (cb_timing o == 0)) (nonzero (cb_timing o) (cb_timing-positive o)))

again : (n : ℕ) → u16 (u16 (n + 1) + 1) ≡ u16 (n + 2)
again n = omega arith

-- Every byte is an instruction: a processor that is not busy and reads a byte below 256 other than the prefix 0xCB at PC executes the opcode that the table has at that number, with PC behind the byte; the assertions before it hold in either build, and the time it is busy for is one to six cycles, or the largest integer for the undefined instructions.
pub execute_current_instruction-fetch :
    (build : Build) (p : Processor) (n : ℕ)
    → is_ℕ p.busy_cycles 0 ≡ true
    → read build p.bus p.regs.pc ≡ ok n
    → n < 256
    → n ≢ 0xCB
    → (o : Opcode) × (t : ℕ) × (opcode_at n ≡ some o)
      × (timing_at n ≡ some t)
      × IsTime t
      × (execute_current_instruction build p ≡ execute build o (fetched 1 t p))
unfolding execute_current_instruction pop_pc
execute_current_instruction-fetch build p n free byte h plain =
    let known : known_test n ≡ true = all_below_sound 256 known_test n known_table h in
    let unprefixed : (n == 0xCB) ≡ false = ground arith in
    let (o, found) = there_sound (opcode_at n) (ground arith) in
    let (t, time, short) = timed_sound (timing_at n) (ground arith) in
    (
      o,
      t,
      found,
      time,
      short,
      rw (assert-true build (is_ℕ p.busy_cycles 0) free) (
          rw byte
            (rw unprefixed (rw found (execute_opcode_lem build n t o _ unprefixed time short)))),
    )

-- Two cycles for a register; for the byte at HL three to test a bit and four otherwise.
abbrev pub prefixed_time : ℕ → ℕ
prefixed_time m = if m % 8 == 6 then (if m / 64 == 1 then 3 else 4) else 2

abbrev prefixed_test : ℕ → Bool
prefixed_test m = cb_timing (cb_opcode_at m) == prefixed_time m

prefixed_table : all_below 256 prefixed_test ≡ true
unfolding all_below cb_timing cb_opcode_at
prefixed_table = refl

cb_timing-cb_opcode_at : (m : ℕ) → m < 256 → cb_timing (cb_opcode_at m) ≡ prefixed_time m
cb_timing-cb_opcode_at m h =
    let known : prefixed_test m ≡ true = all_below_sound 256 prefixed_test m prefixed_table h in
    ground arith

-- Behind the prefix 0xCB, a processor that is not busy executes the prefixed opcode of the second byte m, which is below 256, with PC behind both bytes; it is busy for two cycles where the three low bits of m name a register, and where they name the byte at HL for three if m is a bit test (64 to 127) and for four otherwise. The assertions before it hold in either build.
pub execute_current_instruction-prefixed :
    (build : Build) (p : Processor) (m : ℕ)
    → is_ℕ p.busy_cycles 0 ≡ true
    → read build p.bus p.regs.pc ≡ ok 0xCB
    → read build p.bus (u16 (p.regs.pc + 1)) ≡ ok m
    → m < 256
    → execute_current_instruction build p
      ≡ execute_cb build (cb_opcode_at m) (fetched 2 (prefixed_time m) p)
unfolding execute_current_instruction pop_pc
execute_current_instruction-prefixed build p m free byte second below =
    let o = cb_opcode_at m in
    rw (assert-true build (is_ℕ p.busy_cycles 0) free) (
      rw byte (
        rw second (
          rw
            (execute_cb_opcode_lem build o
              (with_pc (u16 (u16 (p.regs.pc + 1) + 1)) (with_pc (u16 (p.regs.pc + 1)) p)))
            (rw (again p.regs.pc, cb_timing-cb_opcode_at m below)))))
