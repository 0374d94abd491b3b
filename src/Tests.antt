-- ===== src/Tests.antt =====
-- Each theorem at a concrete input where its hypotheses hold.
pub mod Plain
mod StunMessages
mod IceChannels
mod Streams
mod Servers
mod Transports
mod Sdps
