-- ===== src/Pc/DtlsEvents.antt =====
-- pc/dtls_transport.cpp: what reaches a DTLS transport, call by call.
use web_rtcserver.Prelude.{ℕ, Bool, List, [], ◌∷◌, Option, if◌then◌else◌}
use web_rtcserver.Pc.DtlsTransport.{
  AdapterCall, Reaction, SslEvent, DtlsTransport, set_dtls_receiving, dtls_on_writable_state,
  on_read_packet, on_dtls_event, set_local_certificate, set_remote_fingerprint,
}

-- The signals of the ICE channel, those of the adapter, which come while it exists, and the two
-- calls of the transport controller.
pub data DtlsCall : Type 0 where
  ice_writable_is ice_receiving_is : Bool → DtlsCall
  ice_reads : List ℕ → DtlsCall
  adapter_signals : SslEvent → DtlsCall
  gets_certificate : Option ℕ → DtlsCall
  gets_fingerprint : List ℕ → List ℕ → DtlsCall

module _ (react : List AdapterCall → Reaction) where
  unfoldable pub dtls_step : DtlsCall → DtlsTransport → DtlsTransport
  unfolding set_dtls_receiving dtls_on_writable_state on_read_packet on_dtls_event
      set_local_certificate set_remote_fingerprint
  dtls_step (ice_writable_is b) d = dtls_on_writable_state react b d
  dtls_step (ice_receiving_is b) d = set_dtls_receiving b d
  dtls_step (ice_reads buf) d = on_read_packet react buf d
  dtls_step (adapter_signals e) d = if d.dtls then on_dtls_event e d else d
  dtls_step (gets_certificate cert) d = (set_local_certificate react cert d).0
  dtls_step (gets_fingerprint alg digest) d = (set_remote_fingerprint react alg digest d).0

  unfoldable pub dtls_run : List DtlsCall → DtlsTransport → DtlsTransport
  unfolding dtls_step
  dtls_run [] d = d
  dtls_run (c ∷ cs) d = dtls_run cs (dtls_step c d)
