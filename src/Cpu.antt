-- ===== src/Cpu.antt =====
-- src/CPU: the register file of the processor, its register pairs and arithmetic helpers, the
-- instructions, and the clock that runs them.
pub mod Opcodes
pub mod Clock
pub mod Registers
pub mod Alu
pub mod Control
