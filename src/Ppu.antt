-- ===== src/Ppu.antt =====
-- src/PPU: the state of the graphics unit, and the registers that it reads on the bus. The bus and
-- the screen buffer of the Gameboy object are fields here. The line buffers have a size that no
-- index reaches: each index is a loop's, tested or a remainder; the screen's index rests on LY.
pub mod Drawing
pub mod Sprites
pub mod Clock
pub mod Drawn
pub mod Modes
pub mod Lines
pub mod Scan
pub mod Position
pub mod Cycle
pub mod Frame
pub mod Start
use Prim.Native.Nat.{bit_and, bit_or}
use gameboy_emulator.Base.{
  ℕ, ◌+◌, ◌-◌, ◌/◌, ◌%◌, ◌*◌, ◌^◌, Bool, true, false, List, leb, ◌==◌, if◌then◌else◌, Build,
  Outcome, ok, ◌>>=◌,
}
use gameboy_emulator.Base.Bytes.{Binary}
use gameboy_emulator.Bus.{Bus, Component, read, write}
use gameboy_emulator.Bus.Map.{reg_stat, reg_ly}

abbrev pub reg_lcdc : ℕ
reg_lcdc = 0xFF40

abbrev pub reg_scy : ℕ
reg_scy = 0xFF42

abbrev pub reg_scx : ℕ
reg_scx = 0xFF43

abbrev pub reg_lyc : ℕ
reg_lyc = 0xFF45

abbrev pub reg_bgp : ℕ
reg_bgp = 0xFF47

abbrev pub reg_obp0 : ℕ
reg_obp0 = 0xFF48

abbrev pub reg_obp1 : ℕ
reg_obp1 = 0xFF49

abbrev pub reg_wy : ℕ
reg_wy = 0xFF4A

abbrev pub reg_wx : ℕ
reg_wx = 0xFF4B

abbrev pub width : ℕ
width = 160

abbrev pub tilemap_side_size : ℕ
tilemap_side_size = 32

pub record Sprite : Type 0 where
  pub y_pos : ℕ
  pub x_pos : ℕ
  pub tile_number : ℕ
  pub flags : ℕ

pub record Ppu : Type 0 where
  pub bus : Bus
  pub screen : Binary
  pub line_clock : ℕ
  pub stat_requested : Bool
  pub background_lsb : ℕ → ℕ
  pub background_msb : ℕ → ℕ
  pub window_lsb : ℕ → ℕ
  pub window_msb : ℕ → ℕ
  pub background : ℕ → ℕ
  pub window : ℕ → ℕ
  pub oam_line : List Sprite
  pub frame_count : ℕ

-- `reg[flag]` on a `std::bitset<8>`.
abbrev pub bit_at : ℕ → ℕ → Bool
bit_at reg flag = reg / 2 ^ flag % 2 == 1

-- `reg[flag] = value`.
unfoldable pub with_bit : ℕ → Bool → ℕ → ℕ
with_bit flag value reg = if value then bit_or reg (2 ^ flag) else bit_and reg (255 - 2 ^ flag)

unfoldable pub lcdc : Build → Bus → ℕ → Outcome Bool
lcdc build b flag = do reg ← read build b reg_lcdc; ok (bit_at reg flag)

-- The setter, which writes as the processor.
unfoldable pub set_lcdc : Build → ℕ → Bool → Bus → Outcome Bus
unfolding with_bit
set_lcdc build flag value b = do
  reg ← read build b reg_lcdc
  write build reg_lcdc (with_bit flag value reg) Component.cpu b

-- The value of STAT for a flag other than the comparison of LY with LYC, which is not stored.
unfoldable pub stat : Build → Bus → ℕ → Outcome Bool
stat build b flag =
    if flag == 2
    then (do lyc ← read build b reg_lyc; ly ← read build b reg_ly; ok (lyc == ly))
    else (do reg ← read build b reg_stat; ok (bit_at reg flag))

unfoldable pub set_stat : Build → ℕ → Bool → Bus → Outcome Bus
unfolding with_bit
set_stat build flag value b = do
  reg ← read build b reg_stat
  write build reg_stat (with_bit flag value reg) Component.ppu b

unfoldable pub set_ly : Build → ℕ → Bus → Outcome Bus
set_ly build value b = write build reg_ly value Component.ppu b

-- `(read(reg) & (0b11 << shift)) >> shift` of the three palettes.
unfoldable pub apply_palette : Build → Bus → ℕ → ℕ → Outcome ℕ
apply_palette build b reg input = do palette ← read build b reg; ok (palette / 2 ^ (input * 2) % 4)

unfoldable pub get_sprite_height : Build → Bus → Outcome ℕ
get_sprite_height build b = do double ← lcdc build b 2; ok (if double then 16 else 8)

unfoldable pub get_tilemap_base_address : Build → Bus → Bool → Outcome ℕ
get_tilemap_base_address build b drawing_window = do
  second ← (if drawing_window then lcdc build b 6 else lcdc build b 3)
  ok (if second then 0x9C00 else 0x9800)

unfoldable pub get_tiledata_base_address : Build → Bus → Outcome ℕ
get_tiledata_base_address build b = do low ← lcdc build b 4; ok (if low then 0x8000 else 0x9000)

-- The test of `x` against WX, which is 7 too large, is on signed numbers.
unfoldable pub is_position_inside_window : Build → Bus → ℕ → ℕ → Outcome Bool
is_position_inside_window build b x y = do
  enabled ← lcdc build b 5
  if enabled
      then (do
        wy ← read build b reg_wy
        if leb wy y then (do wx ← read build b reg_wx; ok (leb wx (x + 7))) else ok false)
      else ok false
