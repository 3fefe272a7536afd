-- ===== src/Cpu/Control/Served.antt =====
-- What an interrupt does to the processor of src/CPU/cpu.cpp.
use Prim.Native.Nat.{bit_and}
use gameboy_emulator.Base.{
  ℕ, zero, suc, ◌+◌, ◌-◌, ◌*◌, ◌^◌, ◌≤◌, ◌<◌, ◌≡◌, ◌∙◌, refl, ap, inl, inr, Bool, true, false, ◌==◌,
  ◌&&◌, not, get_elem?, element, Bool-cases, Build, debug, release, ok, ◌>>=◌, assert, arith,
}
use gameboy_emulator.Base.Int.{pos, is_ℕ}
use gameboy_emulator.Base.Words.{bit_and_thirty_one}
use gameboy_emulator.Bus.{Bus, Component, poke}
use gameboy_emulator.Bus.Map.{reg_if, reg_ie}
use gameboy_emulator.Bus.Hardware.{read-register, write-register}
use gameboy_emulator.Cpu.Control.{
  Processor, with_pc, set_pc, ret, interrupt_jump_addresses, trigger_interrupt, has_bit,
  trigger_loop, try_trigger_interrupt,
}
use gameboy_emulator.Cpu.Control.Stack.{pushed, push_pc_to_stack_lem, ret_lem}
use gameboy_emulator.Cpu.Registers.{dword_msb, dword_lsb, two_word-halves}
use gameboy_emulator.Interrupts.{interrupt_enable, interrupt_flags, set_interrupt_flag, set_flag}
use gameboy_emulator.Cpu.Control.Bits.{cleared_bit}

-- An interrupt that is requested and enabled.
unfoldable pub is_pending : Bus → ℕ → Bool
is_pending b i =
    has_bit (bit_and (b.memory reg_if) 31) i && has_bit (bit_and (b.memory reg_ie) 31) i

assert-true : (build : Build) → assert build true ≡ ok tt
assert-true debug = refl
assert-true release = refl

set_interrupt_flag_lem :
    (build : Build) (i : ℕ) (b : Bus)
    → set_interrupt_flag build i false b
      ≡ ok (poke b reg_if (bit_and (bit_and (b.memory reg_if) 31) (31 - 2 ^ i)))
unfolding set_interrupt_flag interrupt_flags set_flag
set_interrupt_flag_lem build i b = rw (read-register build b reg_if (omega arith)) (
    write-register build b reg_if _ Component.cpu (omega arith) (omega arith) (omega arith)
      (omega arith) (omega arith) (omega arith) (cc))

target_lem : (i : ℕ) → i < 5 → element (get_elem? interrupt_jump_addresses i) ≡ ok (0x40 + 8 * i)
target_lem i h = ground arith

-- The processor behind the dispatch of interrupt `i`.
abbrev served : ℕ → Processor → Processor
served i p =
    let cleared = bit_and (bit_and (p.bus.memory reg_if) 31) (31 - 2 ^ i) in
    let off = record p { ime = false; bus = poke p.bus reg_if cleared } in
    record (with_pc (0x40 + 8 * i)
      (pushed (dword_lsb p.regs.pc) (pushed (dword_msb p.regs.pc) off))) { busy_cycles = pos 5 }

trigger_interrupt_lem :
    (build : Build) (i : ℕ) (p : Processor)
    → i < 5
    → p.ime ≡ true
    → p.busy_cycles ≡ pos 0
    → 0xFF82 ≤ p.regs.sp
    → p.regs.sp < 65536
    → trigger_interrupt build i p ≡ ok (served i p)
unfolding trigger_interrupt
trigger_interrupt_lem build i p five on idle low high =
    let free : is_ℕ p.busy_cycles 0 ≡ true = ap (λ z. is_ℕ z 0) idle in
    rw (free, on, assert-true build, set_interrupt_flag_lem build i p.bus)
      (rw (push_pc_to_stack_lem build off low high) (rw (target_lem i five) refl))
  where
    off : Processor
    off = record p {
      ime = false;
      bus = poke p.bus reg_if (bit_and (bit_and (p.bus.memory reg_if) 31) (31 - 2 ^ i));
    }

zero_bit : (i : ℕ) → i < 5 → has_bit 0 i ≡ false
unfolding has_bit
zero_bit i h = ground arith

trigger_loop_lem :
    (build : Build) (left k i enabled requested : ℕ) (p : Processor)
    → k ≤ i
    → i < k + left
    → (has_bit requested i && has_bit enabled i) ≡ true
    → ((j : ℕ) → j < i → (has_bit requested j && has_bit enabled j) ≡ false)
    → trigger_loop build left k enabled requested p
      ≡ trigger_interrupt build i p >>= λ p₁. ok (true, record p₁ { halted = false })
unfolding trigger_loop
trigger_loop_lem build zero k i enabled requested p from to this others = absurd (omega arith)
trigger_loop_lem build (suc left) k i enabled requested p from to this others =
    elim (Bool-cases (k == i)) [
      | inl here ↦ let same : k ≡ i = ground arith in rw same (rw this refl)
      | inr later ↦ rw (others k (ground arith)) (
          trigger_loop_lem build left (k + 1) i enabled requested p (ground arith) (omega arith)
            this others)
    ]

pending-nonzero : (i enabled : ℕ) → i < 5 → has_bit enabled i ≡ true → (enabled == 0) ≡ false
pending-nonzero i enabled five set = elim (Bool-cases (enabled == 0)) [
  | inr no_zero ↦ no_zero
  | inl empty ↦
      let same : enabled ≡ 0 = ground arith in cc (ap (λ n. has_bit n i) same, zero_bit i five, set)
]

try_trigger_interrupt_lem :
    (build : Build) (i : ℕ) (p : Processor)
    → i < 5
    → p.ime ≡ true
    → p.busy_cycles ≡ pos 0
    → 0xFF82 ≤ p.regs.sp
    → p.regs.sp < 65536
    → is_pending p.bus i ≡ true
    → ((j : ℕ) → j < i → is_pending p.bus j ≡ false)
    → try_trigger_interrupt build p ≡ ok (true, record (served i p) { halted = false })
unfolding try_trigger_interrupt is_pending interrupt_enable interrupt_flags
try_trigger_interrupt_lem build i p five on idle low high this others =
    let flags : ℕ = bit_and (p.bus.memory reg_if) 31 in
    let enabled : ℕ = bit_and (p.bus.memory reg_ie) 31 in
    let free : is_ℕ p.busy_cycles 0 ≡ true = ap (λ z. is_ℕ z 0) idle in
    let open_gate : (not p.ime && not p.halted) ≡ false = ap (λ x. not x && not p.halted) on in
    rw
      (
        free,
        open_gate,
        assert-true build,
        read-register build p.bus reg_ie (omega arith),
        pending-nonzero i enabled five (ground arith),
      )
      (rw
        (
          read-register build p.bus reg_if (omega arith),
          pending-nonzero i flags five (ground arith),
        )
        (trigger_loop_lem build 5 0 i enabled flags p (omega arith) (omega arith) this others
          ∙ rw (trigger_interrupt_lem build i p five on idle low high) refl))

module _ (i : ℕ) (p : Processor) (low : 0xFF82 ≤ p.regs.sp) (high : p.regs.sp < 65536) where
  served-if :
      (served i p).bus.memory reg_if ≡ bit_and (bit_and (p.bus.memory reg_if) 31) (31 - 2 ^ i)
  served-if = ground arith

  served-ie : (served i p).bus.memory reg_ie ≡ p.bus.memory reg_ie
  served-ie = ground arith

  served-lsb : (served i p).bus.memory (p.regs.sp - 1 - 1) ≡ dword_lsb p.regs.pc
  served-lsb = ground arith

  served-msb : (served i p).bus.memory (p.regs.sp - 1 - 1 + 1) ≡ dword_msb p.regs.pc
  served-msb = ground arith

  served-ret :
      (build : Build)
      → p.regs.pc < 65536
      → (p' : Processor) × (ret build true (record (served i p) { halted = false }) ≡ ok p')
        × (p'.regs.pc ≡ p.regs.pc)
        × (p'.regs.sp ≡ p.regs.sp)
  unfolding set_pc
  served-ret build pc_high = (
    _,
    ret_lem build (record (served i p) { halted = false }) (omega arith) (omega arith),
    rw (served-lsb, served-msb) (two_word-halves p.regs.pc pc_high),
    omega arith,
  )

and_assoc : (a b c : Bool) → ((a && b) && c) ≡ (a && (b && c))
and_assoc a b c = ground arith

served-is_pending :
    (i j : ℕ) (p : Processor)
    → i < 5
    → j < 5
    → 0xFF82 ≤ p.regs.sp
    → p.regs.sp < 65536
    → p.bus.memory reg_if < 256
    → is_pending (served i p).bus j ≡ (not (j == i) && is_pending p.bus j)
unfolding is_pending
served-is_pending i j p five j_five low high byte =
    let small : bit_and (p.bus.memory reg_if) 31 < 32 =
      omega (arith, bit_and_thirty_one (p.bus.memory reg_if) byte) in
    rw
      (
        served-if i p low high,
        served-ie i p low high,
        cleared_bit (bit_and (p.bus.memory reg_if) 31) i j small five j_five,
      )
      (and_assoc (not (j == i)) _ _)

-- A processor that is not busy, with the master switch on and its stack in the high RAM, serves the
-- first interrupt that is both requested and enabled: it goes on at the address of that interrupt,
-- with the switch off, not halted and busy for 5 cycles; of the interrupts that are requested and
-- enabled that one is gone and the others stay. A return from there restores the program counter and
-- the stack pointer.
pub try_trigger_interrupt-ret :
    (build : Build) (i : ℕ) (p : Processor)
    → i < 5
    → p.ime ≡ true
    → p.busy_cycles ≡ pos 0
    → 0xFF82 ≤ p.regs.sp
    → p.regs.sp < 65536
    → p.regs.pc < 65536
    → p.bus.memory reg_if < 256
    → is_pending p.bus i ≡ true
    → ((j : ℕ) → j < i → is_pending p.bus j ≡ false)
    → (p' : Processor) × (try_trigger_interrupt build p ≡ ok (true, p'))
      × (((p'.regs.pc ≡ 0x40 + 8 * i) × (p'.ime ≡ false))
          × ((p'.halted ≡ false) × (p'.busy_cycles ≡ pos 5)))
      × ((j : ℕ) → j < 5 → is_pending p'.bus j ≡ (not (j == i) && is_pending p.bus j))
      × ((p'' : Processor) × (ret build true p' ≡ ok p'')
          × (p''.regs.pc ≡ p.regs.pc)
          × (p''.regs.sp ≡ p.regs.sp))
try_trigger_interrupt-ret build i p five on idle low high pc_high byte this others = (
  record (served i p) { halted = false },
  try_trigger_interrupt_lem build i p five on idle low high this others,
  ((refl, refl), (refl, refl)),
  (λ j j_five. served-is_pending i j p five j_five low high byte),
  served-ret i p low high build pc_high,
)
