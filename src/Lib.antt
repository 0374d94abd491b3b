-- ===== src/Lib.antt =====
-- The C++ media server of this repository, cpp/xrtcserver/src, as far as it is modelled.
--
-- A client speaks to the server over TCP (server/). The signaling server deals its connections out to
-- signaling workers, which cut the bytes into requests; a request becomes a message, which the RTC
-- server hands to the RTC worker of the stream's name; the worker calls its stream manager
-- (stream/rtc_stream_manager.cpp), and answers through the signaling worker. The manager holds the
-- streams that are pushed and pulled, and forwards packets from one to the other, told apart by
-- module/rtp_rtcp/rtp_utils.cpp. The threads hand work over by base/lock_free_queue.h.
--
-- A browser's media stream reaches the server over UDP. A UDP port (ice/udp_port.cpp) reads STUN
-- messages (ice/stun.cpp) and makes a connection (ice/ice_connection.cpp) of each remote address. The
-- transport channel (ice/ice_transport_channel.cpp) asks its controller (ice/ice_controller.cpp)
-- which connection to ping and which to use, and reports its state to the DTLS transport
-- (pc/dtls_transport.cpp), which passes on media once it is connected. The transport controller
-- (pc/transport_controller.cpp) folds the states of both into the state of the peer connection, of
-- which the stream manager hears; the peer connection (pc/peer_connection.cpp) reads the answer of
-- the browser.
--
-- Files:
--   Prelude       shared names, tests, lists, digits of numbers, maps by name, objects by address
--   Rtc           the parameter RtcBase: the calls of cpp/rtcbase, with their documented behaviour
--   Server        Xhead (base/xhead.h), Messages (server/xrtcserver_def.h, and the parameter Json),
--                 Requests (the requests of server/signaling_worker.cpp), Worker (its connections and
--                 messages), Events (its runs), SignalingServer (server/signaling_server.cpp),
--                 RtcServer (server/rtc_server.cpp), RtcWorker (server/rtc_worker.cpp);
--                 RequestSteps, Framing, Endless, Replies, Table, SoundIo, Sound, Routing and
--                 Session prove
--   Stun          ice/stun.h and ice/stun.cpp: Types and Message (building, writing, signing), Parse
--                 (`read`), Checks (the two checks on a datagram); Format is the specification of
--                 well-formed messages; the other files prove
--   Ice           Defs (ice/ice_def.cpp, ice/candidate.cpp), Connection (ice/ice_connection.cpp),
--                 Controller (ice/ice_controller.cpp), Channel (ice/ice_transport_channel.cpp), Port
--                 (ice/udp_port.cpp and the messages of the connection), Requests
--                 (ice/stun_request.cpp); WriteState, Ordering, Updates, Deletions, Answers,
--                 Rounds, Reachable, Reports, Priority and Ping prove
--   Pc            TransportController (pc/transport_controller.cpp), DtlsTransport and DtlsEvents
--                 (pc/dtls_transport.cpp), SdpLines and RemoteSdp (pc/peer_connection.cpp,
--                 pc/stream_params.cpp); DtlsRecords, DtlsReports, DtlsReads, DtlsRuns, DtlsGate,
--                 Tracks, VideoTracks and Bundles prove
--   Stream        Manager (stream/rtc_stream_manager.cpp); Lifetime and Faults prove
--   Base          LockFreeQueue (base/lock_free_queue.h)
--   Rtp           module/rtp_rtcp/rtp_utils.cpp
--   Tests         the theorems at concrete inputs, with a plain RtcBase
--
-- State and operations: a class is a record, a method a function of the same name, less the
-- underscore of private methods, from state to state; a pointer to a connection or a stream is its
-- address, and `heap` and `alive` say what stands there. A signal is recorded, or, where the handler
-- is modelled, called: `show` runs the channel's handler at each `signal_state_change`. Strings are
-- lists of bytes. Times and sizes are natural numbers, with the source's wrap-around written out
-- where it can occur: 16-bit lengths of STUN, the 32-bit double of a priority, the `int`s that hold
-- times, the 32-bit length and size of a response. An `int` of a message is its 32-bit word. A
-- round-trip time and a file descriptor are `int`s whose doubles are taken not to overflow. What a
-- socket gives is an argument of the handler that asks it, and may be longer than it asks for; the SSL adapter is a function `react` from its calls so far.
--
-- Fuel: the loop of `read` is given the length of the body, and each round takes four bytes at least;
-- the search for MESSAGE-INTEGRITY is given one more than the length of the datagram; the walk over
-- DTLS records is given the length of the datagram, and each takes 13 bytes at least. The loop over
-- the requests in a buffer does not always end: it is given two rounds, which
-- `process_query_buffer_ends` of Server/Endless shows to be enough where it does. The loops on what a
-- socket gives end with it. The destructor of a request manager is given the number of its
-- requests, and each round takes one off.
--
-- Not modelled: sockets, pipes, threads, the event loop, configuration and logs (input and output);
-- the cryptography, JSON and rtc_base (libraries, taken as parameters); SRTP, the text of the offer,
-- and the interleavings within a call of the queue.

pub mod Prelude
pub mod Rtc
pub mod Server
pub mod Stun
pub mod Base
pub mod Rtp
pub mod Ice
pub mod Pc
pub mod Stream
pub mod Tests
