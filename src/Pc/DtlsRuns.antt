-- ===== src/Pc/DtlsRuns.antt =====
-- Of pc/dtls_transport.cpp: every call keeps the reports true.
use web_rtcserver.Prelude.{
  ℕ, ◌≡◌, refl, ◌∙◌, Bool, false, not, List, [], ◌∷◌, Option, arith, ap, inl, inr, Option-cases,
  Bool-cases, if_intro, ◌==◌, ◌&&◌, is_empty, bytes_eq,
}
use web_rtcserver.Pc.TransportController.{DtlsState, dtls_code}
use web_rtcserver.Pc.DtlsTransport.{
  AdapterCall, sets_digest, Reaction, DtlsTransport, new_dtls_transport, call, set_dtls_state,
  set_writable_state, setup_dtls, set_local_certificate, tell_digest, clear_adapter, end_setup,
  apply_fingerprint, set_remote_fingerprint,
}
use web_rtcserver.Pc.DtlsEvents.{
  DtlsCall, ice_writable_is, ice_receiving_is, ice_reads, adapter_signals, gets_certificate,
  gets_fingerprint, dtls_step, dtls_run,
}
use web_rtcserver.Pc.DtlsReports.{
  set_state-IsReported, set_writable-IsReported, set_receiving-IsReported, same-IsReported,
  on_dtls_event-IsLive, new_does_not_run, code_new, IsReported, IsReported0, runs,
}
use web_rtcserver.Pc.DtlsReads.{
  setup_dtls-IsReported, dtls_on_writable_state-IsReported, on_read_packet-IsReported,
}

module _ (react : List AdapterCall → Reaction) where
  set_local_certificate-IsReported :
      (cert : Option ℕ) (d : DtlsTransport)
      → IsReported d
      → IsReported (set_local_certificate react cert d).0
  unfolding set_local_certificate
  set_local_certificate-IsReported cert d h = elim (Bool-cases d.dtls_active) [
    | inl t ↦ simp (set_local_certificate, t) h
    | inr t ↦ elim (Option-cases cert) [
      | inl e ↦ simp (set_local_certificate, t, e) h
      | inr (at, e) ↦
          simp (set_local_certificate, t, e) (same-IsReported d _ refl refl refl refl refl h)
    ]
  ]

  failed-IsReported :
      (d : DtlsTransport) → IsReported d → IsReported (set_dtls_state DtlsState.failed d)
  failed-IsReported d h = set_state-IsReported DtlsState.failed d h (λ k. ground (arith, k))

  tell_digest-IsReported : (d : DtlsTransport) → IsReported d → IsReported (tell_digest react d).0
  unfolding tell_digest
  tell_digest-IsReported d h = elim (Bool-cases (react d.calls).succeeds) [
    | inl t ↦ simp (tell_digest, t) h
    | inr t ↦ simp (tell_digest, t) (failed-IsReported d h)
  ]

  -- The adapter is deleted, and the state is new again.
  reset-IsReported :
      (d : DtlsTransport)
      → IsReported d
      → IsReported (set_dtls_state DtlsState.new (record d { dtls = false }))
  unfolding set_dtls_state
  reset-IsReported d h = elim (Bool-cases (dtls_code d.dtls_state == dtls_code DtlsState.new)) [
    | inl t ↦
        simp (set_dtls_state, t)
          (record {
            state_shown = h.state_shown;
            writable_shown = h.writable_shown;
            receiving_shown = h.receiving_shown;
            has_adapter = λ k. ground (arith, k, code_new d.dtls_state t);
          })
    | inr t ↦
        simp (set_dtls_state, t)
          (record {
            state_shown = refl;
            writable_shown = h.writable_shown;
            receiving_shown = h.receiving_shown;
            has_adapter = λ k. ground (arith, k);
          })
  ]

  reset-idle : (d : DtlsTransport) → runs (set_dtls_state DtlsState.new d).dtls_state ≡ false
  unfolding set_dtls_state
  reset-idle d = elim (Bool-cases (dtls_code d.dtls_state == dtls_code DtlsState.new)) [
    | inl t ↦ simp (set_dtls_state, t) (code_new d.dtls_state t)
    | inr t ↦ simp (set_dtls_state, t)
  ]

  set_writable-state :
      (b : Bool) (d : DtlsTransport) → (set_writable_state b d).dtls_state ≡ d.dtls_state
  unfolding set_writable_state
  set_writable-state b d = ground arith

  -- The end of `set_remote_fingerprint`.
  ends_setup-IsReported :
      (d : DtlsTransport)
      → IsReported d
      → runs d.dtls_state ≡ false
      → IsReported (end_setup react (setup_dtls react d)).0
  unfolding end_setup
  ends_setup-IsReported d h idle =
      let made = setup_dtls-IsReported react d h idle in
      if_intro IsReported0 (setup_dtls react d).1 (λ t. made) (λ t. failed-IsReported _ made)

  apply_fingerprint-IsReported :
      (changed : Bool) (d : DtlsTransport)
      → IsReported d
      → IsReported (apply_fingerprint react changed d).0
  unfolding apply_fingerprint clear_adapter
  apply_fingerprint-IsReported changed d h =
      let told = call (sets_digest d.remote_fingerprint_alg d.remote_fingerprint_value) d in
      let fresh = set_dtls_state DtlsState.new (record d { dtls = false }) in
      if_intro IsReported0 (d.dtls && not changed)
        (λ t. tell_digest-IsReported told (same-IsReported d told refl refl refl refl refl h))
        (λ t.
          if_intro (λ c. IsReported (end_setup react (setup_dtls react c)).0) (d.dtls && changed)
            (λ u.
              ends_setup-IsReported (set_writable_state false fresh)
                (set_writable-IsReported false fresh (reset-IsReported d h))
                (ap runs (set_writable-state false fresh) ∙ reset-idle (record d { dtls = false })))
            (λ u. ends_setup-IsReported d h (new_does_not_run d h (ground (arith, t, u)))))

  set_remote_fingerprint-IsReported :
      (alg digest : List ℕ) (d : DtlsTransport)
      → IsReported d
      → IsReported (set_remote_fingerprint react alg digest d).0
  unfolding set_remote_fingerprint
  set_remote_fingerprint-IsReported alg digest d h =
      let kept = record d { remote_fingerprint_value = digest; remote_fingerprint_alg = alg } in
      if_intro IsReported0
        (d.dtls_active && (bytes_eq d.remote_fingerprint_value digest && not (is_empty alg)))
        (λ t. h)
        (λ t.
          if_intro IsReported0 (is_empty alg)
            (λ u. same-IsReported d (record d { dtls_active = false }) refl refl refl refl refl h)
            (λ u.
              if_intro IsReported0 (not d.dtls_active) (λ v. h)
                (λ v.
                  apply_fingerprint-IsReported (not (is_empty d.remote_fingerprint_value)) kept
                    (same-IsReported d kept refl refl refl refl refl h))))

  dtls_step-IsReported :
      (c : DtlsCall) (d : DtlsTransport) → IsReported d → IsReported (dtls_step react c d)
  unfolding dtls_step
  dtls_step-IsReported (ice_writable_is b) d h = dtls_on_writable_state-IsReported react b d h
  dtls_step-IsReported (ice_receiving_is b) d h = set_receiving-IsReported b d h
  dtls_step-IsReported (ice_reads buf) d h = on_read_packet-IsReported react buf d h
  dtls_step-IsReported (adapter_signals e) d h = elim (Bool-cases d.dtls) [
    | inl t ↦
        simp (dtls_step, t) (on_dtls_event-IsLive e d (record { reported = h; alive = t })).reported
    | inr t ↦ simp (dtls_step, t) h
  ]
  dtls_step-IsReported (gets_certificate cert) d h = set_local_certificate-IsReported cert d h
  dtls_step-IsReported (gets_fingerprint alg digest) d h =
      set_remote_fingerprint-IsReported alg digest d h

  run-IsReported :
      (cs : List DtlsCall) (d : DtlsTransport) → IsReported d → IsReported (dtls_run react cs d)
  unfolding dtls_run
  run-IsReported [] d h = h
  run-IsReported (c ∷ cs) d h = run-IsReported cs _ (dtls_step-IsReported c d h)

  -- Whatever reaches a new DTLS transport, and however the adapter reacts: its state, its
  -- writability and its receiving are those that it signalled last, and while it is connecting or
  -- connected its adapter exists.
  pub dtls_run-IsReported :
      (cs : List DtlsCall) (ciphers : List ℕ)
      → IsReported (dtls_run react cs (new_dtls_transport ciphers))
  unfolding new_dtls_transport
  dtls_run-IsReported cs ciphers = run-IsReported cs (new_dtls_transport ciphers) (record {
    state_shown = refl;
    writable_shown = refl;
    receiving_shown = refl;
    has_adapter = λ k. ground (arith, k);
  })
