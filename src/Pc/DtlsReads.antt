-- ===== src/Pc/DtlsReads.antt =====
-- Of pc/dtls_transport.cpp: what the ICE transport tells, and the setup, keep the reports true.
use web_rtcserver.Prelude.{
  ℕ, ◌≡◌, refl, length, Bool, true, false, not, List, ◌∷◌, arith, ◌||◌, inl, inr, Bool-cases,
  if_intro, ◌&&◌, is_empty, is_some,
}
use web_rtcserver.Pc.TransportController.{DtlsState}
use web_rtcserver.Pc.DtlsTransport.{
  AdapterCall, creates, starts, sets_digest, sets_suites, gets_packet, Reaction, DtlsTransport,
  call, set_dtls_state, check_records, on_received_packet, handle_dtls_packet, handle_cached,
  after_start, maybe_start_dtls, finish_setup, setup_dtls, dtls_on_writable_state, on_cached_hello,
  on_early_packet, is_dtls_client_hello_packet, is_dtls_packet, is_rtp_datagram, on_late_packet,
  on_writable_in, on_read_in, on_read_packet,
}
use web_rtcserver.Pc.DtlsReports.{
  set_writable-IsReported, same-IsReported, set_state-IsLive, same-IsLive, on_dtls_events-IsLive,
  call-IsLive, new_does_not_run, IsLive, IsReported, runs,
}

module _ (react : List AdapterCall → Reaction) where
  handle_dtls_packet-IsLive :
      (buf : List ℕ) (d : DtlsTransport) → IsLive d → IsLive (handle_dtls_packet react buf d).0
  unfolding handle_dtls_packet on_received_packet
  handle_dtls_packet-IsLive buf d h = elim (Bool-cases (check_records (length buf) buf)) [
    | inl t ↦
        simp (handle_dtls_packet, t)
          (on_dtls_events-IsLive (react (gets_packet buf ∷ d.calls)).events
            (call (gets_packet buf) d) (call-IsLive (gets_packet buf) d h))
    | inr t ↦ simp (handle_dtls_packet, t) h
  ]

  handle_cached-IsLive : (d : DtlsTransport) → IsLive d → IsLive (handle_cached react d)
  unfolding handle_cached
  handle_cached-IsLive d h = elim (Bool-cases (is_empty d.cached_client_hello)) [
    | inl t ↦ simp (handle_cached, t) h
    | inr t ↦
        let r = handle_dtls_packet react d.cached_client_hello d in
        let live = handle_dtls_packet-IsLive d.cached_client_hello d h in
        elim (Bool-cases r.1) [
          | inl ok ↦ simp (handle_cached, t, ok) (same-IsLive r.0 _ refl refl refl refl refl live)
          | inr bad ↦
              simp (handle_cached, t, bad)
                (same-IsLive (set_dtls_state DtlsState.failed r.0) _ refl refl refl refl refl
                  (set_state-IsLive DtlsState.failed r.0 live))
        ]
  ]

  after_start-IsLive :
      (reaction : Reaction) (d : DtlsTransport) → IsLive d → IsLive (after_start react reaction d)
  unfolding after_start
  after_start-IsLive reaction d h =
      let started = on_dtls_events-IsLive reaction.events d h in
      elim (Bool-cases reaction.succeeds) [
        | inl t ↦
            simp (after_start, t)
              (handle_cached-IsLive _ (set_state-IsLive DtlsState.connecting _ started))
        | inr t ↦ simp (after_start, t) (set_state-IsLive DtlsState.failed _ started)
      ]

  maybe_start_dtls-IsReported :
      (d : DtlsTransport) → IsReported d → IsReported (maybe_start_dtls react d)
  unfolding maybe_start_dtls
  maybe_start_dtls-IsReported d h = elim (Bool-cases (d.dtls && d.ice_writable)) [
    | inl t ↦
        simp (maybe_start_dtls, t)
          (after_start-IsLive (react (starts ∷ d.calls)) (call starts d)
            (call-IsLive starts d (record { reported = h; alive = ground arith }))).reported
    | inr t ↦ simp (maybe_start_dtls, t) h
  ]

  finish_setup-IsReported : (d : DtlsTransport) → IsReported d → IsReported (finish_setup react d).0
  unfolding finish_setup
  finish_setup-IsReported d h =
      let asked = call (sets_suites d.srtp_ciphers) d in
      let h' = same-IsReported d asked refl refl refl refl refl h in
      elim (Bool-cases (is_empty d.srtp_ciphers)) [
        | inl t ↦ simp (finish_setup, t) (maybe_start_dtls-IsReported d h)
        | inr t ↦ elim (Bool-cases (react asked.calls).succeeds) [
          | inl ok ↦ simp (finish_setup, t, ok) (maybe_start_dtls-IsReported asked h')
          | inr bad ↦ simp (finish_setup, t, bad) h'
        ]
      ]

  -- An adapter is made where none is used.
  with_dtls-IsReported :
      (b : Bool) (d : DtlsTransport)
      → IsReported d
      → runs d.dtls_state ≡ false
      → IsReported (record d { dtls = b; calls = creates ∷ d.calls })
  with_dtls-IsReported b d h idle = record {
    state_shown = h.state_shown;
    writable_shown = h.writable_shown;
    receiving_shown = h.receiving_shown;
    has_adapter = λ k. ground (arith, k, idle);
  }

  pub setup_dtls-IsReported :
      (d : DtlsTransport)
      → IsReported d
      → runs d.dtls_state ≡ false
      → IsReported (setup_dtls react d).0
  unfolding setup_dtls
  setup_dtls-IsReported d h idle = elim (Bool-cases (react (creates ∷ d.calls)).succeeds) [
    | inr t ↦ simp (setup_dtls, t) (with_dtls-IsReported false d h idle)
    | inl t ↦
        let ready = record d { dtls = true; calls = creates ∷ d.calls } in
        let ready_is = with_dtls-IsReported true d h idle in
        let told = call (sets_digest d.remote_fingerprint_alg d.remote_fingerprint_value) ready in
        let told_is = same-IsReported ready told refl refl refl refl refl ready_is in
        elim (Bool-cases (is_empty d.remote_fingerprint_value)) [
          | inl u ↦ simp (setup_dtls, t, u) (finish_setup-IsReported ready ready_is)
          | inr u ↦ elim (Bool-cases (react told.calls).succeeds) [
            | inl v ↦ simp (setup_dtls, t, u, v) (finish_setup-IsReported told told_is)
            | inr v ↦ simp (setup_dtls, t, u, v) told_is
          ]
        ]
  ]

  on_writable_in-IsReported :
      (s : DtlsState) (b : Bool) (d : DtlsTransport)
      → IsReported d
      → IsReported (on_writable_in react s b d)
  unfolding on_writable_in
  on_writable_in-IsReported DtlsState.new b d h = maybe_start_dtls-IsReported d h
  on_writable_in-IsReported DtlsState.connecting b d h = h
  on_writable_in-IsReported DtlsState.connected b d h = set_writable-IsReported b d h
  on_writable_in-IsReported DtlsState.closed b d h = h
  on_writable_in-IsReported DtlsState.failed b d h = h

  pub dtls_on_writable_state-IsReported :
      (b : Bool) (d : DtlsTransport) → IsReported d → IsReported (dtls_on_writable_state react b d)
  unfolding dtls_on_writable_state
  dtls_on_writable_state-IsReported b before h =
      let d = record before { ice_writable = b } in
      let h' = same-IsReported before d refl refl refl refl refl h in
      if_intro IsReported (not d.dtls_active) (λ t. set_writable-IsReported b d h')
        (λ t. on_writable_in-IsReported d.dtls_state b d h')

  on_cached_hello-IsReported :
      (d : DtlsTransport) → IsReported d → IsReported (on_cached_hello react d)
  unfolding on_cached_hello
  on_cached_hello-IsReported d h = elim (Bool-cases (not d.dtls && is_some d.local_certificate)) [
    | inl t ↦
        simp (on_cached_hello, t)
          (setup_dtls-IsReported d h (new_does_not_run d h (ground (arith, t))))
    | inr t ↦ simp (on_cached_hello, t) h
  ]

  on_early_packet-IsReported :
      (buf : List ℕ) (d : DtlsTransport) → IsReported d → IsReported (on_early_packet react buf d)
  unfolding on_early_packet
  on_early_packet-IsReported buf d h = elim (Bool-cases (is_dtls_client_hello_packet buf)) [
    | inl t ↦
        let cached = record d { cached_client_hello = buf } in
        simp (on_early_packet, t)
          (on_cached_hello-IsReported cached (same-IsReported d cached refl refl refl refl refl h))
    | inr t ↦ simp (on_early_packet, t) h
  ]

  on_late_packet-IsReported :
      (connected : Bool) (buf : List ℕ) (d : DtlsTransport)
      → IsLive d
      → IsReported (on_late_packet react connected buf d)
  unfolding on_late_packet
  on_late_packet-IsReported connected buf d h = elim (Bool-cases (is_dtls_packet buf)) [
    | inl t ↦ simp (on_late_packet, t) (handle_dtls_packet-IsLive buf d h).reported
    | inr t ↦ elim (Bool-cases (not connected || not (is_rtp_datagram buf))) [
      | inl u ↦ simp (on_late_packet, t, u) h.reported
      | inr u ↦
          let r = h.reported in
          simp (on_late_packet, t, u)
            (record {
              state_shown = r.state_shown;
              writable_shown = r.writable_shown;
              receiving_shown = r.receiving_shown;
              has_adapter = r.has_adapter;
            })
    ]
  ]

  on_read_in-IsReported :
      (s : DtlsState) (buf : List ℕ) (d : DtlsTransport)
      → IsReported d
      → (runs s ≡ true → d.dtls ≡ true)
      → IsReported (on_read_in react s buf d)
  unfolding on_read_in
  on_read_in-IsReported DtlsState.new buf d h k = on_early_packet-IsReported buf d h
  on_read_in-IsReported DtlsState.connecting buf d h k =
      on_late_packet-IsReported false buf d (record { reported = h; alive = k refl })
  on_read_in-IsReported DtlsState.connected buf d h k =
      on_late_packet-IsReported true buf d (record { reported = h; alive = k refl })
  on_read_in-IsReported DtlsState.closed buf d h k = h
  on_read_in-IsReported DtlsState.failed buf d h k = h

  pub on_read_packet-IsReported :
      (buf : List ℕ) (d : DtlsTransport) → IsReported d → IsReported (on_read_packet react buf d)
  unfolding on_read_packet
  on_read_packet-IsReported buf d h = on_read_in-IsReported d.dtls_state buf d h h.has_adapter
