-- ===== src/Console.antt =====
-- The kernel's own log of messages.
mod Tests
pub mod Klog
pub mod Printf
