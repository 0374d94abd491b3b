-- ===== src/Stream.antt =====
-- stream/: the push and pull streams and their manager.
pub mod Manager
pub mod Lifetime
pub mod Faults
