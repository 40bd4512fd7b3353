-- ===== src/Storage.antt =====
-- The disk side of the kernel: the block cache and the write-ahead log.
pub mod Bio
pub mod Bytes
pub mod Log
pub mod Virtio
mod Tests
