-- ===== src/Timer/Laws.antt =====
-- One machine cycle of src/TimerController/timer-controller.cpp as a function of the registers.
use Prim.Native.Nat.{bit_and, bit_or}
use gameboy_emulator.Base.{
  ℕ, zero, suc, ◌+◌, ◌-◌, ◌/◌, ◌%◌, ◌^◌, ◌<◌, ◌≡◌, ◌≢◌, refl, ◌∙◌, ◌==◌, if◌then◌else◌, get_elem?,
  some, Build, ok, arith,
}
use gameboy_emulator.Base.Words.{bit_and_four, bit_and_three}
use gameboy_emulator.Bus.Map.{reg_div, reg_tima, reg_tma, reg_tac, reg_if}
use gameboy_emulator.Bus.{Bus, Component, poke, write}
use gameboy_emulator.Bus.Hardware.{read-register, write-register, write-div}
use gameboy_emulator.Interrupts.Laws.{request_interrupt_lem}
use gameboy_emulator.Timer.{Machine, tima_rates, increment_timer, clock_tima, machine_clock, run}

-- The period of the programmable timer, in machine cycles: 256, 4, 16, 64.
abbrev pub period : ℕ → ℕ
period tac = if tac % 4 == 0 then 256 else 4 ^ (tac % 4)

abbrev pub after_div : ℕ → Bus → Bus
after_div clock b = if clock % 64 == 0 then poke b reg_div ((b.memory reg_div + 1) % 256) else b

-- On overflow the counter restarts from the modulo register, and bit 2 of the flags is set.
abbrev pub tima_step : Bus → Bus
tima_step b =
    if b.memory reg_tima == 255
    then poke (poke b reg_tima (b.memory reg_tma)) reg_if (bit_or (bit_and (b.memory reg_if) 31) 4)
    else poke b reg_tima ((b.memory reg_tima + 1) % 256)

abbrev pub after_tima : ℕ → Bus → Bus
after_tima clock b =
    let tac = b.memory reg_tac in
    if tac / 4 % 2 == 0 then b else if clock % period tac == 0 then tima_step b else b

rate_lookup :
    (s : ℕ)
    → s < 4
    → let rate : ℕ = (if s == 0 then 256 else 4 ^ s) in
      (get_elem? tima_rates s ≡ some rate) × (0 < rate)
rate_lookup zero h = (refl, omega arith)
rate_lookup (suc zero) h = (refl, omega arith)
rate_lookup (suc (suc zero)) h = (refl, omega arith)
rate_lookup (suc (suc (suc zero))) h = (refl, omega arith)
rate_lookup (suc (suc (suc (suc s)))) h = absurd (omega arith)

module _ (build : Build) (b : Bus) where
  increment_div :
      increment_timer build reg_div b ≡ ok (poke b reg_div ((b.memory reg_div + 1) % 256))
  unfolding increment_timer
  increment_div = ground (
    arith,
    read-register build b reg_div (omega arith),
    write-div build b ((b.memory reg_div + 1) % 256),
  )

  store_tima : (value : ℕ) → write build reg_tima value Component.tc b ≡ ok (poke b reg_tima value)
  store_tima value =
      write-register build b reg_tima value Component.tc (omega arith) (omega arith) (omega arith)
        (omega arith) (omega arith) (omega arith) (cc)

  increment_tima : increment_timer build reg_tima b ≡ ok (tima_step b)
  unfolding increment_timer
  increment_tima = ground (
    arith,
    read-register build b reg_tima (omega arith),
    read-register build b reg_tma (omega arith),
    store_tima ((b.memory reg_tima + 1) % 256),
    store_tima (b.memory reg_tma),
    request_interrupt_lem build 2 (poke b reg_tima (b.memory reg_tma)),
  )

  enabled_tima :
      (clock rate : ℕ)
      → 0 < rate
      → get_elem? tima_rates (bit_and (b.memory reg_tac) 3) ≡ some rate
      → clock_tima build clock b
        ≡ ok (
            if bit_and (b.memory reg_tac) 4 == 0
            then b
            else if clock % rate == 0
            then tima_step b
            else b)
  unfolding clock_tima
  enabled_tima clock rate pos found =
      rw (read-register build b reg_tac (omega arith), found, increment_tima) (ground arith)

  clock_tima_lem :
      (clock : ℕ) → b.memory reg_tac < 256 → clock_tima build clock b ≡ ok (after_tima clock b)
  clock_tima_lem clock h =
      let tac = b.memory reg_tac in
      enabled_tima clock (period tac) (rate_lookup (tac % 4) (omega arith)).1
        (rw (bit_and_three tac h) (rate_lookup (tac % 4) (omega arith)).0)
      ∙ rw (bit_and_four tac h) (ground arith)

-- Every machine cycle returns, in either build: the cycle counter advances modulo 2^64; the divider goes up by one, wrapping at 256, exactly when the new count is a multiple of 64; with the timer enabled (bit 2 of TAC) and the new count a multiple of the selected period, the timer counter goes up by one, or from 255 restarts at TMA and requests the timer interrupt; nothing else changes.
pub machine_clock_lem :
    (build : Build) (m : Machine)
    → m.bus.memory reg_tac < 256
    → let clock = (m.clock_count + 1) % 2 ^ 64 in
      machine_clock build m
      ≡ ok (record { clock_count = clock; bus = after_tima clock (after_div clock m.bus) })
unfolding machine_clock
machine_clock_lem build m h =
    let clock = (m.clock_count + 1) % 2 ^ 64 in
    rw (increment_div build m.bus) (
      ground (
        arith,
        clock_tima_lem build m.bus clock h,
        clock_tima_lem build (after_div clock m.bus) clock (ground arith),
      ))

-- The registers that the count of the divider rests on.
pub record IsIdle (m : Machine) : Type 0 where
  pub disabled : m.bus.memory reg_tac / 4 % 2 ≡ 0
  pub tac_fits : m.bus.memory reg_tac < 256
  pub div_fits : m.bus.memory reg_div < 256

-- One idle cycle leaves an idle machine.
abbrev idle_next : Machine → Machine
idle_next m = record { clock_count = m.clock_count + 1; bus = after_div (m.clock_count + 1) m.bus }

idle_cycle :
    (build : Build) (m : Machine)
    → IsIdle m
    → m.clock_count + 1 < 2 ^ 64
    → machine_clock build m ≡ ok (idle_next m)
idle_cycle build m idle h = machine_clock_lem build m idle.tac_fits ∙ ground arith

idle_next-IsIdle : (m : Machine) → IsIdle m → IsIdle (idle_next m)
idle_next-IsIdle m idle = ground arith

abbrev pub div_after : ℕ → Machine → ℕ
div_after n m = (m.bus.memory reg_div + ((m.clock_count + n) / 64 - m.clock_count / 64)) % 256

run_idle :
    (build : Build) (n : ℕ) (m : Machine)
    → IsIdle m
    → m.clock_count + n < 2 ^ 64
    → (m' : Machine) × (run build n m ≡ ok m')
      × (m'.clock_count ≡ m.clock_count + n)
      × (m'.bus.memory reg_div ≡ div_after n m)
      × ((a : ℕ) → a ≢ reg_div → m'.bus.memory a ≡ m.bus.memory a)
unfolding run
run_idle build zero m idle h = (m, refl, omega arith, omega (arith, idle.div_fits), λ a ne. refl)
run_idle build (suc n) m idle h =
    let (m', ran, count, divider, others) =
      run_idle build n (idle_next m) (idle_next-IsIdle m idle) (omega arith) in
    (
      m',
      rw (idle_cycle build m idle (omega arith)) ran,
      omega (arith, count),
      ground (arith, divider),
      λ a ne. ground (arith, others a ne),
    )

-- With the timer disabled, `n` machine cycles return and advance the divider by the number of multiples of 64 that the cycle counter passes, modulo 256, and no other cell changes, as long as the 64-bit cycle counter does not wrap.
pub run-divider :
    (build : Build) (n : ℕ) (m : Machine) (a : ℕ)
    → IsIdle m
    → m.clock_count + n < 2 ^ 64
    → (m' : Machine) × (run build n m ≡ ok m')
      × (m'.clock_count ≡ m.clock_count + n)
      × (m'.bus.memory a ≡ (if a == reg_div then div_after n m else m.bus.memory a))
run-divider build n m a idle h =
    let (m', ran, count, divider, others) = run_idle build n m idle h in
    (m', ran, count, ground (arith, divider, others a))
