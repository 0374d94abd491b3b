-- ===== src/Pc.antt =====
-- pc/: the transports of a peer connection.
pub mod TransportController
pub mod DtlsTransport
pub mod DtlsRecords
pub mod DtlsEvents
pub mod DtlsReports
pub mod DtlsReads
pub mod DtlsRuns
pub mod DtlsGate
pub mod SdpLines
pub mod RemoteSdp
pub mod Tracks
pub mod VideoTracks
pub mod Bundles
