-- ===== src/Examples.antt =====
-- Runs of the models on concrete inputs, one module for each part.
pub mod Cpu
pub mod Cartridge
pub mod Bus
pub mod Control
pub mod Gameboy
pub mod Checks
pub mod Lint
pub mod Text
pub mod Modules
pub mod Strings
pub mod Nesting
pub mod Ppu
pub mod Opcodes
pub mod Spacing
