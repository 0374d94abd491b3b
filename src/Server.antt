-- ===== src/Server.antt =====
-- The signaling server, server/ of cpp/xrtcserver/src: requests from TCP connections, and the
-- messages that they become.
pub mod Xhead
pub mod Messages
pub mod Requests
pub mod Worker
pub mod RequestSteps
pub mod Framing
pub mod Endless
pub mod Replies
pub mod Events
pub mod Table
pub mod SoundIo
pub mod Sound
pub mod SignalingServer
pub mod RtcServer
pub mod RtcWorker
pub mod Routing
pub mod Session
