-- ===== src/Pc/DtlsGate.antt =====
-- Of pc/dtls_transport.cpp: which packets pass to the media, and how a ClientHello that comes early is
-- kept.
use web_rtcserver.Prelude.{
  ℕ, ◌≡◌, refl, ap, ◌∙◌, Bool, true, false, not, ◌&&◌, List, [], ◌∷◌, Option, none, some, arith,
  inl, inr, Bool-cases, if_intro, length, ◌==◌, if◌then◌else◌, is_empty, is_some,
}
use web_rtcserver.Prelude.Bits.{bit_and-le}
use web_rtcserver.Pc.TransportController.{DtlsState, dtls_code}
use web_rtcserver.Pc.DtlsTransport.{
  byte_at, is_dtls_packet, is_dtls_client_hello_packet, is_rtp_datagram, AdapterCall, creates,
  starts, sets_digest, sets_suites, gets_packet, ReadResult, sr_success, sr_eos, sr_error, SslEvent,
  Reaction, DtlsSignal, state_signal, writable_signal, receiving_signal, read_signal, closed_signal,
  DtlsTransport, call, set_dtls_state, set_writable_state, signal_closed, read_all, on_open,
  on_read, on_close, on_dtls_event, on_dtls_events, check_records, on_received_packet,
  handle_dtls_packet, handle_cached, after_start, maybe_start_dtls, finish_setup, setup_dtls,
  on_cached_hello, on_early_packet, on_late_packet, on_read_in, on_read_packet, on_writable_in,
  dtls_on_writable_state,
}

-- The packets that were passed on, newest first.
abbrev pub passed : List DtlsSignal → List (List ℕ)
passed [] = []
passed (read_signal buf ∷ rest) = buf ∷ passed rest
passed (state_signal s ∷ rest) = passed rest
passed (writable_signal b ∷ rest) = passed rest
passed (receiving_signal b ∷ rest) = passed rest
passed (closed_signal ∷ rest) = passed rest

abbrev passed_by : DtlsTransport → List (List ℕ)
passed_by d = passed d.signals

state-passed : (s : DtlsState) (d : DtlsTransport) → passed_by (set_dtls_state s d) ≡ passed_by d
unfolding set_dtls_state
state-passed s d = ground arith

writable-passed : (b : Bool) (d : DtlsTransport) → passed_by (set_writable_state b d) ≡ passed_by d
unfolding set_writable_state
writable-passed b d = ground arith

-- What the three changes of an event keep, every event keeps.
module _ {X : Type 0} (view : DtlsTransport → X)
    (state-view : (s : DtlsState) (d : DtlsTransport) → view (set_dtls_state s d) ≡ view d)
    (writable-view : (b : Bool) (d : DtlsTransport) → view (set_writable_state b d) ≡ view d)
    (closed-view : (d : DtlsTransport) → view (signal_closed d) ≡ view d) where
  ends-view :
      (s : DtlsState) (b : Bool) (d : DtlsTransport)
      → view (set_dtls_state s (set_writable_state b d)) ≡ view d
  ends-view s b d = state-view s (set_writable_state b d) ∙ writable-view b d

  read_all-view :
      (results : List ReadResult) (d : DtlsTransport) → view (read_all results d) ≡ view d
  unfolding read_all
  read_all-view [] d = refl
  read_all-view (sr_success ∷ results) d = read_all-view results d
  read_all-view (sr_eos ∷ results) d = closed-view _ ∙ ends-view DtlsState.closed false d
  read_all-view (sr_error ∷ results) d = closed-view _ ∙ ends-view DtlsState.failed false d

  on_open-view : (b : Bool) (d : DtlsTransport) → view (on_open b d) ≡ view d
  unfolding on_open
  on_open-view false d = refl
  on_open-view true d = ends-view DtlsState.connected true d

  on_read-view : (o : Option (List ReadResult)) (d : DtlsTransport) → view (on_read o d) ≡ view d
  unfolding on_read
  on_read-view none d = refl
  on_read-view (some results) d = read_all-view results d

  on_close-view : (o : Option Bool) (d : DtlsTransport) → view (on_close o d) ≡ view d
  unfolding on_close
  on_close-view none d = refl
  on_close-view (some false) d = ends-view DtlsState.closed false d
  on_close-view (some true) d = ends-view DtlsState.failed false d

  on_dtls_events-view :
      (es : List SslEvent) (d : DtlsTransport) → view (on_dtls_events es d) ≡ view d
  unfolding on_dtls_events on_dtls_event
  on_dtls_events-view [] d = refl
  on_dtls_events-view (e ∷ es) d =
      on_dtls_events-view es (on_dtls_event e d)
      ∙ on_close-view e.se_close (on_read e.se_read (on_open e.se_open d))
      ∙ on_read-view e.se_read (on_open e.se_open d)
      ∙ on_open-view e.se_open d

on_dtls_events-passed :
    (es : List SslEvent) (d : DtlsTransport) → passed_by (on_dtls_events es d) ≡ passed_by d
on_dtls_events-passed = on_dtls_events-view passed_by state-passed writable-passed (λ d. refl)

state-calls : (s : DtlsState) (d : DtlsTransport) → (set_dtls_state s d).calls ≡ d.calls
unfolding set_dtls_state
state-calls s d = ground arith

writable-calls : (b : Bool) (d : DtlsTransport) → (set_writable_state b d).calls ≡ d.calls
unfolding set_writable_state
writable-calls b d = ground arith

on_dtls_events-calls :
    (es : List SslEvent) (d : DtlsTransport) → (on_dtls_events es d).calls ≡ d.calls
on_dtls_events-calls = on_dtls_events-view (λ d. d.calls) state-calls writable-calls (λ d. refl)

-- A DTLS packet starts with a byte below 64, an RTP packet with one whose upper two bits are 10.
dtls_is_not_rtp : (buf : List ℕ) → is_dtls_packet buf ≡ true → is_rtp_datagram buf ≡ false
unfolding is_dtls_packet is_rtp_datagram
dtls_is_not_rtp buf h = ground (arith, h, bit_and-le (byte_at buf 0) 192)

-- Passing on no packet.
abbrev Quiet : DtlsTransport → DtlsTransport → Type 0
Quiet d e = passed_by e ≡ passed_by d

abbrev Quiet0 : DtlsTransport → DtlsTransport × Bool → Type 0
Quiet0 d (e, ok) = passed_by e ≡ passed_by d

module _ (react : List AdapterCall → Reaction) where
  handle_dtls_packet-passed :
      (buf : List ℕ) (d : DtlsTransport)
      → passed_by (handle_dtls_packet react buf d).0 ≡ passed_by d
  unfolding handle_dtls_packet on_received_packet
  handle_dtls_packet-passed buf d =
      if_intro (Quiet0 d) (check_records (length buf) buf)
        (λ t.
          on_dtls_events-passed (react (gets_packet buf ∷ d.calls)).events
            (call (gets_packet buf) d))
        (λ t. refl)

  handle_cached-passed : (d : DtlsTransport) → passed_by (handle_cached react d) ≡ passed_by d
  unfolding handle_cached
  handle_cached-passed d =
      let r = handle_dtls_packet react d.cached_client_hello d in
      let quiet = handle_dtls_packet-passed d.cached_client_hello d in
      if_intro (Quiet d) (is_empty d.cached_client_hello) (λ t. refl)
        (λ t.
          if_intro (λ e. Quiet d (record e { cached_client_hello = [] })) r.1 (λ u. quiet)
            (λ u. state-passed DtlsState.failed r.0 ∙ quiet))

  after_start-passed :
      (reaction : Reaction) (d : DtlsTransport)
      → passed_by (after_start react reaction d) ≡ passed_by d
  unfolding after_start
  after_start-passed reaction d =
      let started = on_dtls_events reaction.events d in
      let quiet = on_dtls_events-passed reaction.events d in
      if_intro (Quiet d) reaction.succeeds
        (λ t.
          handle_cached-passed (set_dtls_state DtlsState.connecting started)
          ∙ state-passed DtlsState.connecting started
          ∙ quiet)
        (λ t. state-passed DtlsState.failed started ∙ quiet)

  maybe_start_dtls-passed : (d : DtlsTransport) → passed_by (maybe_start_dtls react d) ≡ passed_by d
  unfolding maybe_start_dtls
  maybe_start_dtls-passed d =
      if_intro (Quiet d) (d.dtls && d.ice_writable)
        (λ t. after_start-passed (react (starts ∷ d.calls)) (call starts d)) (λ t. refl)

  finish_setup-passed : (d : DtlsTransport) → passed_by (finish_setup react d).0 ≡ passed_by d
  unfolding finish_setup
  finish_setup-passed d =
      let asked = call (sets_suites d.srtp_ciphers) d in
      if_intro (Quiet0 d) (is_empty d.srtp_ciphers) (λ t. maybe_start_dtls-passed d)
        (λ t.
          if_intro (Quiet0 d) (react asked.calls).succeeds (λ u. maybe_start_dtls-passed asked)
            (λ u. refl))

  setup_dtls-passed : (d : DtlsTransport) → passed_by (setup_dtls react d).0 ≡ passed_by d
  unfolding setup_dtls
  setup_dtls-passed d =
      let ready = record d { dtls = true; calls = creates ∷ d.calls } in
      let told = call (sets_digest d.remote_fingerprint_alg d.remote_fingerprint_value) ready in
      if_intro (Quiet0 d) (not (react (creates ∷ d.calls)).succeeds) (λ t. refl)
        (λ t.
          if_intro (Quiet0 d) (is_empty d.remote_fingerprint_value) (λ u. finish_setup-passed ready)
            (λ u.
              if_intro (Quiet0 d) (react told.calls).succeeds (λ v. finish_setup-passed told)
                (λ v. refl)))

  on_early_packet-passed :
      (buf : List ℕ) (d : DtlsTransport) → passed_by (on_early_packet react buf d) ≡ passed_by d
  unfolding on_early_packet on_cached_hello
  on_early_packet-passed buf d =
      let cached = record d { cached_client_hello = buf } in
      if_intro (Quiet d) (is_dtls_client_hello_packet buf)
        (λ t.
          if_intro (Quiet d) (not d.dtls && is_some d.local_certificate)
            (λ u. setup_dtls-passed cached) (λ u. refl))
        (λ t. refl)

  -- What a state passes on of a packet.
  abbrev gate : DtlsState → List ℕ → List (List ℕ) → List (List ℕ)
  gate s buf bufs =
      if dtls_code s == dtls_code DtlsState.connected && is_rtp_datagram buf
      then buf ∷ bufs
      else bufs

  on_late_packet-passed :
      (connected : Bool) (buf : List ℕ) (d : DtlsTransport)
      → passed_by (on_late_packet react connected buf d)
        ≡ (if connected && is_rtp_datagram buf then buf ∷ passed_by d else passed_by d)
  unfolding on_late_packet
  on_late_packet-passed connected buf d = elim (Bool-cases (is_dtls_packet buf)) [
    | inl t ↦
        simp (on_late_packet, t, dtls_is_not_rtp buf t)
          (handle_dtls_packet-passed buf d ∙ ground arith)
    | inr t ↦ simp (on_late_packet, t) (ground arith)
  ]

  on_read_in-passed :
      (s : DtlsState) (buf : List ℕ) (d : DtlsTransport)
      → passed_by (on_read_in react s buf d) ≡ gate s buf (passed_by d)
  unfolding on_read_in
  on_read_in-passed DtlsState.new buf d = on_early_packet-passed buf d
  on_read_in-passed DtlsState.connecting buf d = on_late_packet-passed false buf d
  on_read_in-passed DtlsState.connected buf d = on_late_packet-passed true buf d
  on_read_in-passed DtlsState.closed buf d = refl
  on_read_in-passed DtlsState.failed buf d = refl

  -- In every state, and however the adapter reacts: `_on_read_packet` passes a packet on exactly if
  -- DTLS is connected and the packet is RTP or RTCP by its length and its upper two bits; no call of
  -- it passes on anything else.
  pub on_read_packet-passed :
      (buf : List ℕ) (d : DtlsTransport)
      → passed (on_read_packet react buf d).signals ≡ (
          if dtls_code d.dtls_state == dtls_code DtlsState.connected && is_rtp_datagram buf
          then buf ∷ passed d.signals
          else passed d.signals)
  unfolding on_read_packet
  on_read_packet-passed buf d = on_read_in-passed d.dtls_state buf d

  cached_calls :
      (d : DtlsTransport)
      → is_empty d.cached_client_hello ≡ false
      → check_records (length d.cached_client_hello) d.cached_client_hello ≡ true
      → (handle_cached react d).calls ≡ gets_packet d.cached_client_hello ∷ d.calls
  unfolding handle_cached handle_dtls_packet on_received_packet
  cached_calls d t u =
      let buf = d.cached_client_hello in
      simp (handle_cached, t, handle_dtls_packet, u)
        (on_dtls_events-calls (react (gets_packet buf ∷ d.calls)).events (call (gets_packet buf) d))

  state-cached :
      (s : DtlsState) (d : DtlsTransport)
      → (set_dtls_state s d).cached_client_hello ≡ d.cached_client_hello
  unfolding set_dtls_state
  state-cached s d = ground arith

  start_calls :
      (buf : List ℕ) (reaction : Reaction) (d : DtlsTransport)
      → d.cached_client_hello ≡ buf
      → is_empty buf ≡ false
      → check_records (length buf) buf ≡ true
      → reaction.succeeds ≡ true
      → reaction.events ≡ []
      → (after_start react reaction d).calls ≡ gets_packet buf ∷ d.calls
  unfolding after_start on_dtls_events
  start_calls buf reaction d e t u well silent =
      let x = set_dtls_state DtlsState.connecting d in
      let its : x.cached_client_hello ≡ buf = state-cached DtlsState.connecting d ∙ e in
      simp (after_start, well, silent)
        (cached_calls x (ap is_empty its ∙ t) (ap (λ b. check_records (length b) b) its ∙ u)
          ∙ ap (λ b. gets_packet b ∷ x.calls) its
          ∙ ap (λ c. gets_packet buf ∷ c) (state-calls DtlsState.connecting d))

  hello_filled : (buf : List ℕ) → is_dtls_client_hello_packet buf ≡ true → is_empty buf ≡ false
  unfolding is_dtls_client_hello_packet
  hello_filled [] h = ground (arith, h)
  hello_filled (x ∷ xs) h = refl

  caches :
      (buf : List ℕ) (d : DtlsTransport)
      → d.dtls ≡ true
      → is_dtls_client_hello_packet buf ≡ true
      → on_early_packet react buf d ≡ record d { cached_client_hello = buf }
  unfolding on_early_packet on_cached_hello
  caches buf d has hello = simp (on_early_packet, hello, on_cached_hello, has)

  -- A ClientHello that comes before the ICE channel is writable, in a transport with DTLS active that
  -- is new and has its adapter, is not lost: when the channel becomes writable, the adapter is
  -- started, and gets the ClientHello next; where records fill it, and where starting succeeds and
  -- signals nothing at once.
  pub early_hello_kept :
      (buf : List ℕ) (d : DtlsTransport)
      → d.dtls_state ≡ DtlsState.new
      → d.dtls_active ≡ true
      → d.dtls ≡ true
      → is_dtls_client_hello_packet buf ≡ true
      → check_records (length buf) buf ≡ true
      → (react (starts ∷ d.calls)).succeeds ≡ true
      → (react (starts ∷ d.calls)).events ≡ []
      → (dtls_on_writable_state react true (on_read_packet react buf d)).calls
        ≡ gets_packet buf ∷ starts ∷ d.calls
  unfolding on_read_packet dtls_on_writable_state on_writable_in on_read_in maybe_start_dtls
  early_hello_kept buf d is_new active has hello filled starts_well silent =
      let kept = record d { cached_client_hello = buf } in
      let c = record kept { ice_writable = true } in
      let read : on_read_packet react buf d ≡ kept =
        ap (λ s. on_read_in react s buf d) is_new ∙ caches buf d has hello in
      let started : maybe_start_dtls react c
          ≡ after_start react (react (starts ∷ d.calls)) (call starts c) =
        simp (maybe_start_dtls, has) in
      let switched : dtls_on_writable_state react true kept
          ≡ on_writable_in react d.dtls_state true c =
        simp (dtls_on_writable_state, active) in
      let writable_now : dtls_on_writable_state react true kept ≡ maybe_start_dtls react c =
        switched ∙ ap (λ s. on_writable_in react s true c) is_new in
      ap (λ e. (dtls_on_writable_state react true e).calls) read
      ∙ ap (λ e. e.calls) (writable_now ∙ started)
      ∙ start_calls buf (react (starts ∷ d.calls)) (call starts c) refl (hello_filled buf hello)
          filled starts_well silent
