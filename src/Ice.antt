-- ===== src/Ice.antt =====
-- ice/: candidates, connections, their controller and the transport channel.
pub mod Defs
pub mod Connection
pub mod Controller
pub mod WriteState
pub mod Ordering
pub mod Rounds
pub mod Channel
pub mod Reports
pub mod Updates
pub mod Port
pub mod Ping
pub mod Reachable
pub mod Requests
pub mod Deletions
pub mod Answers
pub mod Priority
