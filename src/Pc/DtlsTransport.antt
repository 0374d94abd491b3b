-- ===== src/Pc/DtlsTransport.antt =====
-- pc/dtls_transport.cpp: the DTLS state machine between an ICE channel and the media. The SSL stream
-- adapter is a library: every call of it is noted, and `react` says, from the calls so far, how the
-- last one ends and what it signals at once.
use web_rtcserver.Prelude.{
  ℕ, zero, suc, ◌+◌, ◌*◌, ◌^◌, Bool, true, false, not, ◌&&◌, ◌||◌, List, [], ◌∷◌, Option, none,
  some, length, drop, ltb, leb, ◌==◌, bytes_eq, is_empty, is_some, if◌then◌else◌, bit_and,
}
use web_rtcserver.Pc.TransportController.{DtlsState, dtls_code}

abbrev pub k_dtls_record_header_len : ℕ
k_dtls_record_header_len = 13

abbrev pub k_min_rtp_packet_len : ℕ
k_min_rtp_packet_len = 12

-- A byte of a packet, where the packet is long enough.
abbrev pub byte_at : List ℕ → ℕ → ℕ
byte_at [] i = 0
byte_at (x ∷ xs) zero = x
byte_at (x ∷ xs) (suc i) = byte_at xs i

unfoldable pub is_dtls_packet : List ℕ → Bool
is_dtls_packet buf =
    leb k_dtls_record_header_len (length buf) && (ltb 19 (byte_at buf 0) && ltb (byte_at buf 0) 64)

unfoldable pub is_dtls_client_hello_packet : List ℕ → Bool
unfolding is_dtls_packet
is_dtls_client_hello_packet buf =
    if not (is_dtls_packet buf)
    then false
    else ltb 17 (length buf) && (byte_at buf 0 == 22 && byte_at buf 13 == 1)

unfoldable pub is_rtp_datagram : List ℕ → Bool
is_rtp_datagram buf = leb k_min_rtp_packet_len (length buf) && bit_and (byte_at buf 0) 192 == 128

-- The calls of the adapter. A certificate is an address.
pub data AdapterCall : Type 0 where
  creates starts : AdapterCall
  sets_digest : List ℕ → List ℕ → AdapterCall
  sets_suites : List ℕ → AdapterCall
  gets_packet : List ℕ → AdapterCall

-- What `Read` gives; a list of these ends where `Read` blocks.
pub data ReadResult : Type 0 where
  sr_success sr_eos sr_error : ReadResult

-- A signal of the adapter: whether it has SE_OPEN; with SE_READ, what `Read` gives then; with
-- SE_CLOSE, whether there was an error.
pub record SslEvent : Type 0 where
  pub se_open : Bool
  pub se_read : Option (List ReadResult)
  pub se_close : Option Bool

pub record Reaction : Type 0 where
  pub succeeds : Bool
  pub verification_failed : Bool
  pub events : List SslEvent

-- What the transport signals.
pub data DtlsSignal : Type 0 where
  state_signal : DtlsState → DtlsSignal
  writable_signal receiving_signal : Bool → DtlsSignal
  read_signal : List ℕ → DtlsSignal
  closed_signal : DtlsSignal

pub record DtlsTransport : Type 0 where
  -- `_ice_channel->writable()`.
  pub ice_writable : Bool
  pub dtls_state : DtlsState
  pub receiving : Bool
  pub writable : Bool
  -- Whether `_dtls`, and with it `_downward`, is there.
  pub dtls : Bool
  pub cached_client_hello : List ℕ
  pub local_certificate : Option ℕ
  pub remote_fingerprint_value : List ℕ
  pub remote_fingerprint_alg : List ℕ
  pub dtls_active : Bool
  pub srtp_ciphers : List ℕ
  -- The calls of the adapter and the signals, newest first.
  pub calls : List AdapterCall
  pub signals : List DtlsSignal

unfoldable pub new_dtls_transport : List ℕ → DtlsTransport
new_dtls_transport ciphers = record {
  ice_writable = false;
  dtls_state = DtlsState.new;
  receiving = false;
  writable = false;
  dtls = false;
  cached_client_hello = [];
  local_certificate = none;
  remote_fingerprint_value = [];
  remote_fingerprint_alg = [];
  dtls_active = false;
  srtp_ciphers = ciphers;
  calls = [];
  signals = [];
}

abbrev pub bool_eq : Bool → Bool → Bool
bool_eq true b = b
bool_eq false b = not b

-- `cert == _local_certificate`, on addresses.
abbrev pub same_certificate : Option ℕ → Option ℕ → Bool
same_certificate none none = true
same_certificate none (some b) = false
same_certificate (some a) none = false
same_certificate (some a) (some b) = a == b

abbrev pub call : AdapterCall → DtlsTransport → DtlsTransport
call c d = record d { calls = c ∷ d.calls }

unfoldable pub set_dtls_receiving : Bool → DtlsTransport → DtlsTransport
set_dtls_receiving b d =
    if bool_eq d.receiving b
    then d
    else record d { receiving = b; signals = receiving_signal b ∷ d.signals }

unfoldable pub set_dtls_state : DtlsState → DtlsTransport → DtlsTransport
set_dtls_state s d =
    if dtls_code d.dtls_state == dtls_code s
    then d
    else record d { dtls_state = s; signals = state_signal s ∷ d.signals }

unfoldable pub set_writable_state : Bool → DtlsTransport → DtlsTransport
set_writable_state b d =
    if bool_eq d.writable b
    then d
    else record d { writable = b; signals = writable_signal b ∷ d.signals }

abbrev pub signal_closed : DtlsTransport → DtlsTransport
signal_closed d = record d { signals = closed_signal ∷ d.signals }

-- `do ... while (ret == rtc::SR_SUCCESS)`.
unfoldable pub read_all : List ReadResult → DtlsTransport → DtlsTransport
unfolding set_writable_state set_dtls_state
read_all [] d = d
read_all (sr_success ∷ results) d = read_all results d
read_all (sr_eos ∷ results) d =
    signal_closed (set_dtls_state DtlsState.closed (set_writable_state false d))
read_all (sr_error ∷ results) d =
    signal_closed (set_dtls_state DtlsState.failed (set_writable_state false d))

-- The three parts of `_on_dtls_event`.
unfoldable pub on_open : Bool → DtlsTransport → DtlsTransport
unfolding set_writable_state set_dtls_state
on_open false d = d
on_open true d = set_dtls_state DtlsState.connected (set_writable_state true d)

unfoldable pub on_read : Option (List ReadResult) → DtlsTransport → DtlsTransport
unfolding read_all
on_read none d = d
on_read (some results) d = read_all results d

unfoldable pub on_close : Option Bool → DtlsTransport → DtlsTransport
unfolding set_writable_state set_dtls_state
on_close none d = d
on_close (some false) d = set_dtls_state DtlsState.closed (set_writable_state false d)
on_close (some true) d = set_dtls_state DtlsState.failed (set_writable_state false d)

unfoldable pub on_dtls_event : SslEvent → DtlsTransport → DtlsTransport
unfolding on_open on_read on_close
on_dtls_event e d = on_close e.se_close (on_read e.se_read (on_open e.se_open d))

unfoldable pub on_dtls_events : List SslEvent → DtlsTransport → DtlsTransport
unfolding on_dtls_event
on_dtls_events [] d = d
on_dtls_events (e ∷ es) d = on_dtls_events es (on_dtls_event e d)

-- The loop of `_handle_dtls_packet`: whether records fill the bytes; each round takes 13 bytes at
-- least, so that the length is fuel enough.
unfoldable pub check_records : ℕ → List ℕ → Bool
check_records zero data' = is_empty data'
check_records (suc n) data' =
    if is_empty data'
    then true
    else if ltb (length data') k_dtls_record_header_len
    then false
    else let record_len = byte_at data' 11 * 2 ^ 8 + byte_at data' 12 in
      let rest = check_records n (drop (k_dtls_record_header_len + record_len) data') in
      if ltb (length data') (record_len + k_dtls_record_header_len) then false else rest

module _ (react : List AdapterCall → Reaction) where
  -- `_downward->on_received_packet`: what the adapter signals at once is handled before it returns.
  unfoldable pub on_received_packet : List ℕ → DtlsTransport → DtlsTransport
  unfolding on_dtls_events
  on_received_packet buf d =
      on_dtls_events (react (gets_packet buf ∷ d.calls)).events (call (gets_packet buf) d)

  unfoldable pub handle_dtls_packet : List ℕ → DtlsTransport → DtlsTransport × Bool
  unfolding check_records on_received_packet
  handle_dtls_packet buf d =
      if check_records (length buf) buf then (on_received_packet buf d, true) else (d, false)

  -- The cached ClientHello, once DTLS has started.
  unfoldable pub handle_cached : DtlsTransport → DtlsTransport
  unfolding handle_dtls_packet set_dtls_state
  handle_cached d =
      if is_empty d.cached_client_hello
      then d
      else let (handled, ok) = handle_dtls_packet d.cached_client_hello d in
        let after = if ok then handled else set_dtls_state DtlsState.failed handled in
        record after { cached_client_hello = [] }

  -- What follows `StartSSL`, which signals first.
  unfoldable pub after_start : Reaction → DtlsTransport → DtlsTransport
  unfolding on_dtls_events handle_cached set_dtls_state
  after_start reaction d =
      let started = on_dtls_events reaction.events d in
      if reaction.succeeds
      then handle_cached (set_dtls_state DtlsState.connecting started)
      else set_dtls_state DtlsState.failed started

  unfoldable pub maybe_start_dtls : DtlsTransport → DtlsTransport
  unfolding after_start
  maybe_start_dtls d =
      if d.dtls && d.ice_writable then after_start (react (starts ∷ d.calls)) (call starts d) else d

  -- The last calls of `_setup_dtls`.
  unfoldable pub finish_setup : DtlsTransport → DtlsTransport × Bool
  unfolding maybe_start_dtls
  finish_setup d =
      if is_empty d.srtp_ciphers
      then (maybe_start_dtls d, true)
      else let asked = call (sets_suites d.srtp_ciphers) d in
        if (react asked.calls).succeeds then (maybe_start_dtls asked, true) else (asked, false)

  unfoldable pub setup_dtls : DtlsTransport → DtlsTransport × Bool
  unfolding finish_setup
  setup_dtls d =
      let made = call creates d in
      if not (react made.calls).succeeds
      then (record made { dtls = false }, false)
      else let ready = record made { dtls = true } in
        if is_empty ready.remote_fingerprint_value
        then finish_setup ready
        else let told =
            call (sets_digest ready.remote_fingerprint_alg ready.remote_fingerprint_value) ready in
          if (react told.calls).succeeds then finish_setup told else (told, false)

  -- The switch on the state in `_on_writable_state`.
  unfoldable pub on_writable_in : DtlsState → Bool → DtlsTransport → DtlsTransport
  unfolding set_writable_state maybe_start_dtls
  on_writable_in DtlsState.new b d = maybe_start_dtls d
  on_writable_in DtlsState.connecting b d = d
  on_writable_in DtlsState.connected b d = set_writable_state b d
  on_writable_in DtlsState.closed b d = d
  on_writable_in DtlsState.failed b d = d

  unfoldable pub dtls_on_writable_state : Bool → DtlsTransport → DtlsTransport
  unfolding set_writable_state on_writable_in
  dtls_on_writable_state b before =
      let d = record before { ice_writable = b } in
      if not d.dtls_active then set_writable_state b d else on_writable_in d.dtls_state b d

  -- A ClientHello was cached: DTLS is set up if it can be.
  unfoldable pub on_cached_hello : DtlsTransport → DtlsTransport
  unfolding setup_dtls
  on_cached_hello d = if not d.dtls && is_some d.local_certificate then (setup_dtls d).0 else d

  -- A packet before DTLS has started.
  unfoldable pub on_early_packet : List ℕ → DtlsTransport → DtlsTransport
  unfolding is_dtls_client_hello_packet on_cached_hello
  on_early_packet buf d =
      if is_dtls_client_hello_packet buf
      then on_cached_hello (record d { cached_client_hello = buf })
      else d

  -- A packet while DTLS runs; `true` once it is connected.
  unfoldable pub on_late_packet : Bool → List ℕ → DtlsTransport → DtlsTransport
  unfolding is_dtls_packet handle_dtls_packet is_rtp_datagram
  on_late_packet connected buf d =
      if is_dtls_packet buf
      then (handle_dtls_packet buf d).0
      else if not connected || not (is_rtp_datagram buf)
      then d
      else record d { signals = read_signal buf ∷ d.signals }

  -- The switch on the state in `_on_read_packet`.
  unfoldable pub on_read_in : DtlsState → List ℕ → DtlsTransport → DtlsTransport
  unfolding on_early_packet on_late_packet
  on_read_in DtlsState.new buf d = on_early_packet buf d
  on_read_in DtlsState.connecting buf d = on_late_packet false buf d
  on_read_in DtlsState.connected buf d = on_late_packet true buf d
  on_read_in DtlsState.closed buf d = d
  on_read_in DtlsState.failed buf d = d

  unfoldable pub on_read_packet : List ℕ → DtlsTransport → DtlsTransport
  unfolding on_read_in
  on_read_packet buf d = on_read_in d.dtls_state buf d

  unfoldable pub set_local_certificate : Option ℕ → DtlsTransport → DtlsTransport × Bool
  set_local_certificate cert d =
      if d.dtls_active then (d, same_certificate cert d.local_certificate) else elim cert [
        | none ↦ (d, true)
        | some at ↦ (record d { local_certificate = some at; dtls_active = true }, true)
      ]

  -- The adapter was told the digest.
  unfoldable pub tell_digest : DtlsTransport → DtlsTransport × Bool
  unfolding set_dtls_state
  tell_digest d =
      let reaction = react d.calls in
      if reaction.succeeds
      then (d, true)
      else (set_dtls_state DtlsState.failed d, reaction.verification_failed)

  -- Where the fingerprint changed, the adapter is deleted, and the state is new again.
  unfoldable pub clear_adapter : Bool → DtlsTransport → DtlsTransport
  unfolding set_writable_state set_dtls_state
  clear_adapter changed d =
      if d.dtls && changed
      then set_writable_state false (set_dtls_state DtlsState.new (record d { dtls = false }))
      else d

  -- What follows `_setup_dtls`.
  unfoldable pub end_setup : DtlsTransport × Bool → DtlsTransport × Bool
  unfolding set_dtls_state
  end_setup (made, ok) = if ok then (made, true) else (set_dtls_state DtlsState.failed made, false)

  -- After the new fingerprint was kept; `changed` if there was one before.
  unfoldable pub apply_fingerprint : Bool → DtlsTransport → DtlsTransport × Bool
  unfolding setup_dtls tell_digest clear_adapter end_setup
  apply_fingerprint changed d =
      if d.dtls && not changed
      then tell_digest (call (sets_digest d.remote_fingerprint_alg d.remote_fingerprint_value) d)
      else end_setup (setup_dtls (clear_adapter changed d))

  unfoldable pub set_remote_fingerprint : List ℕ → List ℕ → DtlsTransport → DtlsTransport × Bool
  unfolding apply_fingerprint
  set_remote_fingerprint alg digest d =
      if d.dtls_active && (bytes_eq d.remote_fingerprint_value digest && not (is_empty alg))
      then (d, true)
      else if is_empty alg
      then (record d { dtls_active = false }, false)
      else if not d.dtls_active
      then (d, false)
      else apply_fingerprint (not (is_empty d.remote_fingerprint_value))
          (record d { remote_fingerprint_value = digest; remote_fingerprint_alg = alg })

  -- The crypto suite that `GetDtlsSrtpCryptoSuite` gives, once connected.
  unfoldable pub get_srtp_crypto_suite : Option ℕ → DtlsTransport → Option ℕ
  get_srtp_crypto_suite negotiated d =
      if dtls_code d.dtls_state == dtls_code DtlsState.connected then negotiated else none
