-- ===== src/Interrupts/Laws.antt =====
-- What a request leaves in the interrupt flag register.
use Prim.Native.Nat.{bit_and, bit_or}
use gameboy_emulator.Base.{ℕ, ◌^◌, ◌≡◌, Build, ok, arith}
use gameboy_emulator.Bus.Map.{reg_if}
use gameboy_emulator.Bus.{Bus, poke}
use gameboy_emulator.Bus.Hardware.{read-register, write-register}
use gameboy_emulator.Interrupts.{request_interrupt, set_interrupt_flag}

-- The register after a request: five bits of it are kept, and the one of the interrupt is set.
pub request_interrupt_lem :
    (build : Build) (interrupt : ℕ) (b : Bus)
    → request_interrupt build interrupt b
      ≡ ok (poke b reg_if (bit_or (bit_and (b.memory reg_if) 31) (2 ^ interrupt)))
unfolding request_interrupt set_interrupt_flag
request_interrupt_lem build interrupt b = rw (read-register build b reg_if (omega arith)) (
    write-register build b reg_if _ _ (omega arith) (omega arith) (omega arith) (omega arith)
      (omega arith) (omega arith) (cc))
