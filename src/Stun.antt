-- ===== src/Stun.antt =====
-- ice/stun.h and ice/stun.cpp: STUN messages, their wire format and their two checksums.
pub mod Types
pub mod Message
pub mod Parse
pub mod Checks
pub mod Format
pub mod RoundTrip
pub mod Termination
pub mod Positions
pub mod Fingerprint
pub mod Search
pub mod Integrity
pub mod Sealed
pub mod Overread
