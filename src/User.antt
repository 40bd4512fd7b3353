-- ===== src/User.antt =====
-- The user programs' library.
pub mod Ulib
pub mod Format
mod Tests
