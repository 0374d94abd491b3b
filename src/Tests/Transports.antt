-- ===== src/Tests/Transports.antt =====
-- The theorems on DTLS at small inputs.
use web_rtcserver.Prelude.{
  ℕ, ◌≡◌, ◌↔◌, refl, true, false, List, [], ◌∷◌, ◌++◌, replicate, none, some, length,
}
use web_rtcserver.Pc.TransportController.{DtlsState}
use web_rtcserver.Pc.DtlsTransport.{
  AdapterCall, creates, starts, sets_digest, sets_suites, gets_packet, Reaction, DtlsTransport,
  new_dtls_transport, is_dtls_client_hello_packet, is_rtp_datagram, check_records,
  handle_dtls_packet, on_read_packet, dtls_on_writable_state,
}
use web_rtcserver.Pc.DtlsRecords.{AreRecords, handle_dtls_packet_records}
use web_rtcserver.Pc.DtlsEvents.{
  ice_writable_is, ice_reads, gets_certificate, gets_fingerprint, dtls_run,
}
use web_rtcserver.Pc.DtlsReports.{IsReported}
use web_rtcserver.Pc.DtlsRuns.{dtls_run-IsReported}
use web_rtcserver.Pc.DtlsGate.{passed, on_read_packet-passed, early_hello_kept}

-- An adapter whose handshake is complete with the first packet.
abbrev connects : List AdapterCall → Reaction
connects [] = record { succeeds = true; verification_failed = false; events = [] }
connects (creates ∷ rest) = record { succeeds = true; verification_failed = false; events = [] }
connects (starts ∷ rest) = record { succeeds = true; verification_failed = false; events = [] }
connects (sets_digest alg value ∷ rest) = record {
  succeeds = true;
  verification_failed = false;
  events = [];
}
connects (sets_suites ciphers ∷ rest) = record {
  succeeds = true;
  verification_failed = false;
  events = [];
}
connects (gets_packet buf ∷ rest) = record {
  succeeds = true;
  verification_failed = false;
  events = record { se_open = true; se_read = some []; se_close = none } ∷ [];
}

-- A ClientHello: one record of five bytes.
abbrev a_hello : List ℕ
a_hello = 22 ∷ 254 ∷ 253 ∷ replicate 8 0 ++ (0 ∷ 5 ∷ 1 ∷ 0 ∷ 0 ∷ 0 ∷ 0 ∷ [])

-- An RTP packet.
abbrev an_rtp_packet : List ℕ
an_rtp_packet = 128 ∷ 111 ∷ replicate 14 0

abbrev a_waiting_transport : DtlsTransport
a_waiting_transport = record (new_dtls_transport []) { dtls = true; dtls_active = true }

abbrev a_connected_transport : DtlsTransport
a_connected_transport = record a_waiting_transport { dtls_state = DtlsState.connected }

handle_dtls_packet_records_example :
    ((handle_dtls_packet connects a_hello a_waiting_transport).1 ≡ true) ↔ AreRecords a_hello
handle_dtls_packet_records_example = handle_dtls_packet_records connects a_hello a_waiting_transport

dtls_run-IsReported_example : IsReported (
    dtls_run connects
      (gets_certificate (some 1)
        ∷ ice_reads a_hello
        ∷ gets_fingerprint (b's' ∷ []) (1 ∷ 2 ∷ [])
        ∷ ice_writable_is true
        ∷ ice_reads an_rtp_packet
        ∷ [])
      (new_dtls_transport (1 ∷ [])))
dtls_run-IsReported_example =
    dtls_run-IsReported connects
      (gets_certificate (some 1)
        ∷ ice_reads a_hello
        ∷ gets_fingerprint (b's' ∷ []) (1 ∷ 2 ∷ [])
        ∷ ice_writable_is true
        ∷ ice_reads an_rtp_packet
        ∷ [])
      (1 ∷ [])

on_read_packet-passed_example :
    passed (on_read_packet connects an_rtp_packet a_connected_transport).signals
    ≡ an_rtp_packet ∷ []
unfolding is_rtp_datagram new_dtls_transport
on_read_packet-passed_example = on_read_packet-passed connects an_rtp_packet a_connected_transport

is_hello : is_dtls_client_hello_packet a_hello ≡ true
unfolding is_dtls_client_hello_packet
is_hello = refl

hello_fills : check_records (length a_hello) a_hello ≡ true
unfolding check_records
hello_fills = refl

early_hello_kept_example :
    (dtls_on_writable_state connects true
      (on_read_packet connects a_hello a_waiting_transport)).calls
    ≡ gets_packet a_hello ∷ starts ∷ []
unfolding new_dtls_transport
early_hello_kept_example =
    early_hello_kept connects a_hello a_waiting_transport refl refl refl is_hello hello_fills refl
      refl
