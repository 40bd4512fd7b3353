-- ===== src/Memory.antt =====
-- Physical memory.
mod Tests
pub mod Pmm
pub mod Vm
