-- ===== src/Gameboy/Joypad.antt =====
-- The joypad register behind `Gameboy::setJoypad`.
use Prim.Native.Nat.{bit_and, bit_or}
use gameboy_emulator.Base.{
  ℕ, ◌/◌, ◌^◌, ◌≡◌, ◌≢◌, ◌∙◌, refl, false, ◌==◌, if◌then◌else◌, Build, ok, ◌>>=◌, arith,
}
use gameboy_emulator.Bus.{Bus, Component, poke, read, write, get_joypad}
use gameboy_emulator.Bus.Map.{reg_joip, reg_if}
use gameboy_emulator.Cartridge.Mbc0.{refers_to_cartridge}
use gameboy_emulator.Gameboy.{set_joypad, interrupt_joypad}
use gameboy_emulator.Interrupts.Laws.{request_interrupt_lem}

-- The bus that a change of the inputs leaves.
abbrev pressed : ℕ → Bus → Bus
pressed value b =
    let b₁ = poke (record b { joypad_status = value }) reg_joip value in
    poke b₁ reg_if (bit_or (bit_and (b.memory reg_if) 31) (2 ^ interrupt_joypad))

write-joip :
    (build : Build) (b : Bus) (value : ℕ)
    → write build reg_joip value Component.gb b ≡ ok (poke b reg_joip value)
unfolding write refers_to_cartridge
write-joip build b value = ground arith

set_joypad_lem :
    (build : Build) (value : ℕ) (b : Bus)
    → b.joypad_status ≢ value
    → set_joypad build value b ≡ ok (pressed value b)
unfolding set_joypad
set_joypad_lem build value b changes =
    let different : (b.joypad_status == value) ≡ false = ground arith in
    rw (different, write-joip build (record b { joypad_status = value }) value)
      (request_interrupt_lem build interrupt_joypad _)

read-joip : (build : Build) (b : Bus) → read build b reg_joip ≡ ok (get_joypad b)
unfolding read
read-joip build b = ground arith

-- What the joypad register reads behind a change of the inputs.
read_value : ℕ → ℕ
read_value value =
    if bit_and value 0b100000 == 0
    then bit_or (bit_and value 0b11110000) (value / 2 ^ 4)
    else if bit_and value 0b010000 == 0
    then bit_or (bit_and value 0b11110000) (bit_and value 0b00001111)
    else bit_or value 0b00001111

joypad-pressed : (value : ℕ) (b : Bus) → get_joypad (pressed value b) ≡ read_value value
unfolding get_joypad read_value
joypad-pressed value b = refl

read_behind :
    (build : Build) (value : ℕ) (b : Bus)
    → b.joypad_status ≢ value
    → (set_joypad build value b >>= λ b'. read build b' reg_joip) ≡ ok (read_value value)
read_behind build value b changes =
    rw (set_joypad_lem build value b changes)
      (read-joip build (pressed value b) ∙ rw (joypad-pressed value b) refl)

-- A call that changes the inputs puts them into the joypad register, and so over the two bits by
-- which the game has selected the directions or the buttons: what the register reads then is the
-- same on any two buses, whatever was selected on them.
pub set_joypad-read :
    (build : Build) (value : ℕ) (b₁ b₂ : Bus)
    → b₁.joypad_status ≢ value
    → b₂.joypad_status ≢ value
    → (seen : ℕ) × ((set_joypad build value b₁ >>= λ b. read build b reg_joip) ≡ ok seen)
      × ((set_joypad build value b₂ >>= λ b. read build b reg_joip) ≡ ok seen)
set_joypad-read build value b₁ b₂ first second =
    (read_value value, read_behind build value b₁ first, read_behind build value b₂ second)
