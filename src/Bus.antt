-- ===== src/Bus.antt =====
-- src/AddressBus: the memory map, with the controllers of the cartridge behind it.
-- The bus calls the Gameboy object for the joypad status and the serial buffer; both are fields
-- here. `memory` has a cell for each of the 65536 addresses, so no access to it is out of range.
pub mod Map
pub mod Echo
pub mod Hardware
pub mod Video
use Map.{boot_rom, boot_rom_lock, reg_joip, reg_sb, reg_sc, reg_div, reg_stat, reg_ly, reg_dma}
use Prim.Native.Nat.{bit_and, bit_or}
use gameboy_emulator.Base.{
  ℕ, zero, suc, ◌+◌, ◌-◌, ◌*◌, ◌/◌, ◌^◌, Bool, true, false, List, [], ◌∷◌, ◌++◌, Option, none, some,
  ltb, leb, ◌==◌, if◌then◌else◌, not, ◌&&◌, ◌||◌, get_elem?, element, Build, Outcome, ok, thrown,
  ◌>>=◌, ◌>>◌, assert,
}
use gameboy_emulator.Base.Bytes.{update}
use gameboy_emulator.Cartridge.{Cartridge}
use gameboy_emulator.Cartridge.Mbc0
use gameboy_emulator.Cartridge.Mbc0.{refers_to_cartridge}
use gameboy_emulator.Cartridge.Mbc1
use gameboy_emulator.Cartridge.Mbc1.{Mbc1}
use gameboy_emulator.Cartridge.Mbc3
use gameboy_emulator.Cartridge.Mbc3.{Mbc3}

-- The subclasses of `Cartridge`.
pub data Controller : Type 0 where
  mbc0 : Cartridge → Controller
  mbc1 : Mbc1 → Controller
  mbc3 : Mbc3 → Controller

unfoldable pub cart_read : Build → Controller → ℕ → Outcome ℕ
cart_read build (mbc0 c) address = Mbc0.read build c address
cart_read build (mbc1 c) address = Mbc1.read build c address
cart_read build (mbc3 c) address = Mbc3.read build c address

unfoldable pub cart_write : Build → Controller → ℕ → ℕ → Outcome Controller
cart_write build (mbc0 c) address value = do c' ← Mbc0.write build c address value; ok (mbc0 c')
cart_write build (mbc1 c) address value = do c' ← Mbc1.write build c address value; ok (mbc1 c')
cart_write build (mbc3 c) address value = do c' ← Mbc3.write build c address value; ok (mbc3 c')

-- Who accesses the bus: the processor, the graphics unit, the Gameboy, the timer controller.
pub data Component : Type 0 where
  cpu ppu gb tc : Component

pub record Bus : Type 0 where
  pub memory : ℕ → ℕ
  pub cart : Option Controller
  pub joypad_status : ℕ
  pub serial_buffer : List ℕ

abbrev pub poke : Bus → ℕ → ℕ → Bus
poke b address value = record b { memory = update b.memory address value }

unfoldable pub is_boot_rom_enabled : Bus → Bool
is_boot_rom_enabled b = bit_and (b.memory boot_rom_lock) 1 == 0

unfoldable pub get_joypad : Bus → ℕ
get_joypad b =
    let joip = b.memory reg_joip in
    if bit_and joip 0b100000 == 0
    then bit_or (bit_and joip 0b11110000) (b.joypad_status / 2 ^ 4)
    else if bit_and joip 0b010000 == 0
    then bit_or (bit_and joip 0b11110000) (bit_and b.joypad_status 0b00001111)
    else bit_or joip 0b00001111

read_cart : Build → Option Controller → ℕ → Outcome ℕ
read_cart build none address = ok 0xFF
read_cart build (some c) address = cart_read build c address

unfoldable pub read : Build → Bus → ℕ → Outcome ℕ
unfolding read_cart
read build b address =
    if ltb address 0x100 && is_boot_rom_enabled b
    then element (get_elem? boot_rom address)
    else if address == reg_joip
    then ok (get_joypad b)
    else if not (refers_to_cartridge address)
    then ok (b.memory address)
    else read_cart build b.cart address

pub write_cart : Build → Option Controller → ℕ → ℕ → Outcome (Option Controller)
write_cart build none address value = thrown
write_cart build (some c) address value = do c' ← cart_write build c address value; ok (some c')

-- The transfer loop, with `left` rounds to go from index `i`.
unfoldable pub dma : Build → ℕ → ℕ → ℕ → Bus → Outcome Bus
dma build page zero i b = ok b
dma build page (suc left) i b = do
  byte ← read build b (page * 0x100 + i)
  dma build page left (i + 1) (poke b (0xFE00 + i) byte)

-- What follows the plain store: the mirrors of the work RAM.
unfoldable pub mirror : ℕ → ℕ → Bus → Bus
mirror address value b =
    if leb 0xE000 address && ltb address 0xFE00
    then poke (poke b (address - 0x2000) value) address value
    else if leb 0xC000 address && ltb address 0xDE00
    then poke (poke b (address + 0x2000) value) address value
    else b

-- `~mask`, as a byte, of the two masks.
unfoldable pub write_stat : ℕ → Component → Bus → Bus
write_stat value whois b =
    let mask : ℕ = elim whois [ ppu ↦ 0b00000111 | _ ↦ 0b11111000 ] in
    let cleared = bit_and (b.memory reg_stat) (255 - mask) in
    poke b reg_stat (bit_or cleared (bit_and value mask))

abbrev pub is_ppu : Component → Bool
is_ppu ppu = true
is_ppu _ = false

abbrev pub is_gb : Component → Bool
is_gb gb = true
is_gb _ = false

abbrev pub is_tc : Component → Bool
is_tc tc = true
is_tc _ = false

-- The stores that are not special cases of a register.
unfoldable pub write_memory : Build → ℕ → ℕ → Bus → Outcome Bus
unfolding mirror
write_memory build address value b =
    let b' = poke b address value in
    if address == reg_sc && value == 0x81
    then (do
      byte ← read build b' reg_sb
      ok (record b' { serial_buffer = b'.serial_buffer ++ byte ∷ [] }))
    else if address == reg_dma
    then (if leb 0xE0 value then ok b' else dma build value 0xA0 0 b')
    else ok (mirror address value b')

unfoldable pub write : Build → ℕ → ℕ → Component → Bus → Outcome Bus
unfolding write_cart write_stat
write build address value whois b =
    if is_gb whois
    then (do assert build (not (refers_to_cartridge address)); ok (poke b address value))
    else if refers_to_cartridge address
    then (do cart' ← write_cart build b.cart address value; ok (record b { cart = cart' }))
    else if address == reg_stat
    then ok (write_stat value whois b)
    else if address == reg_ly && not (is_ppu whois)
    then ok b
    else if address == reg_div && not (is_tc whois)
    then ok (poke b address 0)
    else write_memory build address value b
