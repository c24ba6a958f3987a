-- ===== src/Cpu/Tests.antt =====
-- The processor's tables and devices on concrete inputs.
pub mod Board
mod Devices
mod Switching
