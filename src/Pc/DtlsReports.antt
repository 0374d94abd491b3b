-- ===== src/Pc/DtlsReports.antt =====
-- Of pc/dtls_transport.cpp: who keeps what was signalled last knows the state of the transport.
use web_rtcserver.Prelude.{
  ◌≡◌, refl, sym, ◌∙◌, Bool, true, false, List, [], ◌∷◌, Option, none, some, arith, inl, inr,
  Bool-cases, ◌==◌,
}
use web_rtcserver.Pc.TransportController.{DtlsState, dtls_code}
use web_rtcserver.Pc.DtlsTransport.{
  AdapterCall, ReadResult, sr_success, sr_eos, sr_error, SslEvent, DtlsSignal, state_signal,
  writable_signal, receiving_signal, read_signal, closed_signal, DtlsTransport, bool_eq, call,
  set_dtls_receiving, set_dtls_state, set_writable_state, signal_closed, read_all, on_open, on_read,
  on_close, on_dtls_event, on_dtls_events,
}

-- The last values that were signalled, newest first; at first nothing was.
abbrev pub shown_state : List DtlsSignal → DtlsState
shown_state [] = DtlsState.new
shown_state (state_signal s ∷ rest) = s
shown_state (writable_signal b ∷ rest) = shown_state rest
shown_state (receiving_signal b ∷ rest) = shown_state rest
shown_state (read_signal buf ∷ rest) = shown_state rest
shown_state (closed_signal ∷ rest) = shown_state rest

abbrev pub shown_writable : List DtlsSignal → Bool
shown_writable [] = false
shown_writable (state_signal s ∷ rest) = shown_writable rest
shown_writable (writable_signal b ∷ rest) = b
shown_writable (receiving_signal b ∷ rest) = shown_writable rest
shown_writable (read_signal buf ∷ rest) = shown_writable rest
shown_writable (closed_signal ∷ rest) = shown_writable rest

abbrev pub shown_receiving : List DtlsSignal → Bool
shown_receiving [] = false
shown_receiving (state_signal s ∷ rest) = shown_receiving rest
shown_receiving (writable_signal b ∷ rest) = shown_receiving rest
shown_receiving (receiving_signal b ∷ rest) = b
shown_receiving (read_signal buf ∷ rest) = shown_receiving rest
shown_receiving (closed_signal ∷ rest) = shown_receiving rest

-- The states in which the adapter is used.
abbrev pub runs : DtlsState → Bool
runs DtlsState.new = false
runs DtlsState.connecting = true
runs DtlsState.connected = true
runs DtlsState.closed = false
runs DtlsState.failed = false

pub record IsReported (d : DtlsTransport) : Type 0 where
  pub state_shown : shown_state d.signals ≡ d.dtls_state
  pub writable_shown : shown_writable d.signals ≡ d.writable
  pub receiving_shown : shown_receiving d.signals ≡ d.receiving
  pub has_adapter : runs d.dtls_state ≡ true → d.dtls ≡ true

pub set_state-IsReported :
    (s : DtlsState) (d : DtlsTransport)
    → IsReported d
    → (runs s ≡ true → d.dtls ≡ true)
    → IsReported (set_dtls_state s d)
unfolding set_dtls_state
set_state-IsReported s d h k = elim (Bool-cases (dtls_code d.dtls_state == dtls_code s)) [
  | inl t ↦ simp (set_dtls_state, t) h
  | inr t ↦
      simp (set_dtls_state, t)
        (record {
          state_shown = refl;
          writable_shown = h.writable_shown;
          receiving_shown = h.receiving_shown;
          has_adapter = k;
        })
]

bool_eq→eq : (a b : Bool) → bool_eq a b ≡ true → a ≡ b
bool_eq→eq true true h = refl
bool_eq→eq true false h = ground (arith, h)
bool_eq→eq false true h = ground (arith, h)
bool_eq→eq false false h = refl

pub set_writable-IsReported :
    (b : Bool) (d : DtlsTransport) → IsReported d → IsReported (set_writable_state b d)
unfolding set_writable_state
set_writable-IsReported b d h = elim (Bool-cases (bool_eq d.writable b)) [
  | inl t ↦ simp (set_writable_state, t) h
  | inr t ↦
      simp (set_writable_state, t)
        (record {
          state_shown = h.state_shown;
          writable_shown = refl;
          receiving_shown = h.receiving_shown;
          has_adapter = h.has_adapter;
        })
]

pub set_receiving-IsReported :
    (b : Bool) (d : DtlsTransport) → IsReported d → IsReported (set_dtls_receiving b d)
unfolding set_dtls_receiving
set_receiving-IsReported b d h = elim (Bool-cases (bool_eq d.receiving b)) [
  | inl t ↦ simp (set_dtls_receiving, t) h
  | inr t ↦
      simp (set_dtls_receiving, t)
        (record {
          state_shown = h.state_shown;
          writable_shown = h.writable_shown;
          receiving_shown = refl;
          has_adapter = h.has_adapter;
        })
]

abbrev pub IsReported0 : DtlsTransport × Bool → Type 0
IsReported0 (d, ok) = IsReported d

-- With its adapter.
pub record IsLive (d : DtlsTransport) : Type 0 where
  pub reported : IsReported d
  pub alive : d.dtls ≡ true

-- A change of what is neither signalled nor the state.
pub same-IsReported :
    (d e : DtlsTransport)
    → d.signals ≡ e.signals
    → d.dtls_state ≡ e.dtls_state
    → d.writable ≡ e.writable
    → d.receiving ≡ e.receiving
    → d.dtls ≡ e.dtls
    → IsReported d
    → IsReported e
same-IsReported d e p q r s t h = record {
  state_shown = ground (arith, h.state_shown, p, q);
  writable_shown = ground (arith, h.writable_shown, p, r);
  receiving_shown = ground (arith, h.receiving_shown, p, s);
  has_adapter = λ k. ground (arith, h.has_adapter, q, t, k);
}

set_state-dtls : (s : DtlsState) (d : DtlsTransport) → (set_dtls_state s d).dtls ≡ d.dtls
unfolding set_dtls_state
set_state-dtls s d = ground arith

set_writable-dtls : (b : Bool) (d : DtlsTransport) → (set_writable_state b d).dtls ≡ d.dtls
unfolding set_writable_state
set_writable-dtls b d = ground arith

pub set_state-IsLive : (s : DtlsState) (d : DtlsTransport) → IsLive d → IsLive (set_dtls_state s d)
set_state-IsLive s d h = record {
  reported = set_state-IsReported s d h.reported (λ k. h.alive);
  alive = set_state-dtls s d ∙ h.alive;
}

set_writable-IsLive : (b : Bool) (d : DtlsTransport) → IsLive d → IsLive (set_writable_state b d)
set_writable-IsLive b d h = record {
  reported = set_writable-IsReported b d h.reported;
  alive = set_writable-dtls b d ∙ h.alive;
}

pub same-IsLive :
    (d e : DtlsTransport)
    → d.signals ≡ e.signals
    → d.dtls_state ≡ e.dtls_state
    → d.writable ≡ e.writable
    → d.receiving ≡ e.receiving
    → d.dtls ≡ e.dtls
    → IsLive d
    → IsLive e
same-IsLive d e p q r s t h = record {
  reported = same-IsReported d e p q r s t h.reported;
  alive = sym t ∙ h.alive;
}

-- The end of the connection, from the remote side or by an error.
ends-IsLive :
    (s : DtlsState) (d : DtlsTransport)
    → IsLive d
    → IsLive (set_dtls_state s (set_writable_state false d))
ends-IsLive s d h = set_state-IsLive s _ (set_writable-IsLive false d h)

closed-IsLive : (d : DtlsTransport) → IsLive d → IsLive (signal_closed d)
closed-IsLive d h = record {
  reported = record {
    state_shown = h.reported.state_shown;
    writable_shown = h.reported.writable_shown;
    receiving_shown = h.reported.receiving_shown;
    has_adapter = h.reported.has_adapter;
  };
  alive = h.alive;
}

read_all-IsLive :
    (results : List ReadResult) (d : DtlsTransport) → IsLive d → IsLive (read_all results d)
unfolding read_all
read_all-IsLive [] d h = h
read_all-IsLive (sr_success ∷ results) d h = read_all-IsLive results d h
read_all-IsLive (sr_eos ∷ results) d h = closed-IsLive _ (ends-IsLive DtlsState.closed d h)
read_all-IsLive (sr_error ∷ results) d h = closed-IsLive _ (ends-IsLive DtlsState.failed d h)

on_open-IsLive : (b : Bool) (d : DtlsTransport) → IsLive d → IsLive (on_open b d)
unfolding on_open
on_open-IsLive false d h = h
on_open-IsLive true d h = set_state-IsLive DtlsState.connected _ (set_writable-IsLive true d h)

on_read-IsLive :
    (o : Option (List ReadResult)) (d : DtlsTransport) → IsLive d → IsLive (on_read o d)
unfolding on_read
on_read-IsLive none d h = h
on_read-IsLive (some results) d h = read_all-IsLive results d h

on_close-IsLive : (o : Option Bool) (d : DtlsTransport) → IsLive d → IsLive (on_close o d)
unfolding on_close
on_close-IsLive none d h = h
on_close-IsLive (some false) d h = ends-IsLive DtlsState.closed d h
on_close-IsLive (some true) d h = ends-IsLive DtlsState.failed d h

pub on_dtls_event-IsLive :
    (e : SslEvent) (d : DtlsTransport) → IsLive d → IsLive (on_dtls_event e d)
unfolding on_dtls_event
on_dtls_event-IsLive e d h =
    on_close-IsLive e.se_close _ (on_read-IsLive e.se_read _ (on_open-IsLive e.se_open d h))

pub on_dtls_events-IsLive :
    (es : List SslEvent) (d : DtlsTransport) → IsLive d → IsLive (on_dtls_events es d)
unfolding on_dtls_events
on_dtls_events-IsLive [] d h = h
on_dtls_events-IsLive (e ∷ es) d h = on_dtls_events-IsLive es _ (on_dtls_event-IsLive e d h)

pub call-IsLive : (c : AdapterCall) (d : DtlsTransport) → IsLive d → IsLive (call c d)
call-IsLive c d h = same-IsLive d (call c d) refl refl refl refl refl h

pub new_does_not_run :
    (d : DtlsTransport) → IsReported d → d.dtls ≡ false → runs d.dtls_state ≡ false
new_does_not_run d h e = elim (Bool-cases (runs d.dtls_state)) [
  | inl t ↦ absurd (ground (arith, h.has_adapter t, e))
  | inr t ↦ t
]

pub code_new : (s : DtlsState) → (dtls_code s == 0) ≡ true → runs s ≡ false
code_new DtlsState.new h = refl
code_new DtlsState.connecting h = ground (arith, h)
code_new DtlsState.connected h = ground (arith, h)
code_new DtlsState.closed h = refl
code_new DtlsState.failed h = refl
