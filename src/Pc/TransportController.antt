-- ===== src/Pc/TransportController.antt =====
-- pc/transport_controller.cpp: `_update_state` folds the states of the ICE channels and of the
-- DTLS transports into the state of the peer connection.
use web_rtcserver.Prelude.{
  ℕ, ◌+◌, ◌*◌, ◌≤◌, ◌≡◌, refl, Bool, true, false, ◌&&◌, ◌||◌, List, [], ◌∷◌, arith, length, ltb,
  ◌==◌, if◌then◌else◌,
}

-- `IceTransportChannelState`.
pub data IceState : Type 0 where
  new checking connected completed failed disconnected closed : IceState

-- `DtlsTransportState`.
pub data DtlsState : Type 0 where
  new connecting connected closed failed : DtlsState

pub data PeerConnectionState : Type 0 where
  new connecting connected disconnected failed closed : PeerConnectionState

-- The numbers of the enumerators, by which the source's maps are keyed.
abbrev pub ice_code : IceState → ℕ
ice_code IceState.new = 0
ice_code IceState.checking = 1
ice_code IceState.connected = 2
ice_code IceState.completed = 3
ice_code IceState.failed = 4
ice_code IceState.disconnected = 5
ice_code IceState.closed = 6

abbrev pub dtls_code : DtlsState → ℕ
dtls_code DtlsState.new = 0
dtls_code DtlsState.connecting = 1
dtls_code DtlsState.connected = 2
dtls_code DtlsState.closed = 3
dtls_code DtlsState.failed = 4

-- A transport by name: its DTLS state and the state of its ICE channel.
pub record Transport : Type 0 where
  pub dtls : DtlsState
  pub ice : IceState

-- `ice_state_counts[s]` and `dtls_state_counts[s]` after the loop.
unfoldable pub ice_state_counts : IceState → List Transport → ℕ
ice_state_counts s [] = 0
ice_state_counts s (t ∷ ts) =
    (if ice_code t.ice == ice_code s then 1 else 0) + ice_state_counts s ts

unfoldable pub dtls_state_counts : DtlsState → List Transport → ℕ
dtls_state_counts s [] = 0
dtls_state_counts s (t ∷ ts) =
    (if dtls_code t.dtls == dtls_code s then 1 else 0) + dtls_state_counts s ts

-- The new state that `_update_state` computes.
unfoldable pub compute_state : List Transport → PeerConnectionState
compute_state ts =
    let total_connected =
      ice_state_counts IceState.connected ts + dtls_state_counts DtlsState.connected ts in
    let total_dtls_connecting = dtls_state_counts DtlsState.connecting ts in
    let total_failed =
      ice_state_counts IceState.failed ts + dtls_state_counts DtlsState.failed ts in
    let total_closed =
      ice_state_counts IceState.closed ts + dtls_state_counts DtlsState.closed ts in
    let total_new = ice_state_counts IceState.new ts + dtls_state_counts DtlsState.new ts in
    let total_ice_checking = ice_state_counts IceState.checking ts in
    let total_ice_disconnected = ice_state_counts IceState.disconnected ts in
    let total_ice_completed = ice_state_counts IceState.completed ts in
    let total_transports = length ts * 2 in
    if ltb 0 total_failed
    then PeerConnectionState.failed
    else if ltb 0 total_ice_disconnected
    then PeerConnectionState.disconnected
    else if total_new + total_closed == total_transports
    then PeerConnectionState.new
    else if ltb 0 (total_ice_checking + total_dtls_connecting + total_new)
    then PeerConnectionState.connecting
    else if total_connected + total_ice_completed + total_closed == total_transports
    then PeerConnectionState.connected
    else PeerConnectionState.new

-- `_pc_state` and the states signalled so far, newest first.
pub record Controller : Type 0 where
  pub pc_state : PeerConnectionState
  pub signalled : List PeerConnectionState

abbrev pub pc_code : PeerConnectionState → ℕ
pc_code PeerConnectionState.new = 0
pc_code PeerConnectionState.connecting = 1
pc_code PeerConnectionState.connected = 2
pc_code PeerConnectionState.disconnected = 3
pc_code PeerConnectionState.failed = 4
pc_code PeerConnectionState.closed = 5

unfoldable pub update_state : List Transport → Controller → Controller
update_state ts c =
    let pc_state = compute_state ts in
    if pc_code c.pc_state == pc_code pc_state
    then c
    else record { pc_state = pc_state; signalled = pc_state ∷ c.signalled }

-- An independent description: the first of these that holds.
abbrev pub any : (Transport → Bool) → List Transport → Bool
any p [] = false
any p (t ∷ ts) = p t || any p ts

abbrev pub all : (Transport → Bool) → List Transport → Bool
all p [] = true
all p (t ∷ ts) = p t && all p ts

abbrev pub has_failed : Transport → Bool
has_failed t = ice_code t.ice == 4 || dtls_code t.dtls == 4

abbrev pub ice_disconnected : Transport → Bool
ice_disconnected t = ice_code t.ice == 5

abbrev pub is_idle : Transport → Bool
is_idle t =
    (ice_code t.ice == 0 || ice_code t.ice == 6) && (dtls_code t.dtls == 0 || dtls_code t.dtls == 3)

abbrev pub is_starting : Transport → Bool
is_starting t =
    (ice_code t.ice == 0 || ice_code t.ice == 1) || (dtls_code t.dtls == 0 || dtls_code t.dtls == 1)

unfoldable pub described : List Transport → PeerConnectionState
described ts =
    if any has_failed ts
    then PeerConnectionState.failed
    else if any ice_disconnected ts
    then PeerConnectionState.disconnected
    else if all is_idle ts
    then PeerConnectionState.new
    else if any is_starting ts
    then PeerConnectionState.connecting
    else PeerConnectionState.connected

any_failed :
    (ts : List Transport)
    → ltb 0 (ice_state_counts IceState.failed ts + dtls_state_counts DtlsState.failed ts)
      ≡ any has_failed ts
unfolding ice_state_counts dtls_state_counts
any_failed [] = refl
any_failed (t ∷ ts) = ground (arith, any_failed ts)

any_disconnected :
    (ts : List Transport)
    → ltb 0 (ice_state_counts IceState.disconnected ts) ≡ any ice_disconnected ts
unfolding ice_state_counts
any_disconnected [] = refl
any_disconnected (t ∷ ts) = ground (arith, any_disconnected ts)

any_starting :
    (ts : List Transport)
    → ltb 0 (
        ice_state_counts IceState.checking ts
        + dtls_state_counts DtlsState.connecting ts
        + (ice_state_counts IceState.new ts + dtls_state_counts DtlsState.new ts))
      ≡ any is_starting ts
unfolding ice_state_counts dtls_state_counts
any_starting [] = refl
any_starting (t ∷ ts) = ground (arith, any_starting ts)

abbrev idle_count : List Transport → ℕ
idle_count ts =
    ice_state_counts IceState.new ts
    + dtls_state_counts DtlsState.new ts
    + (ice_state_counts IceState.closed ts + dtls_state_counts DtlsState.closed ts)

idle_count-le : (ts : List Transport) → idle_count ts ≤ length ts * 2
unfolding ice_state_counts dtls_state_counts
idle_count-le [] = omega arith
idle_count-le (t ∷ ts) = ground (arith, idle_count-le ts)

all_idle : (ts : List Transport) → (idle_count ts == length ts * 2) ≡ all is_idle ts
unfolding ice_state_counts dtls_state_counts
all_idle [] = refl
all_idle (t ∷ ts) = ground (arith, all_idle ts, idle_count-le ts)

all_up :
    (ts : List Transport)
    → any has_failed ts ≡ false
    → any ice_disconnected ts ≡ false
    → any is_starting ts ≡ false
    → ice_state_counts IceState.connected ts
        + dtls_state_counts DtlsState.connected ts
        + ice_state_counts IceState.completed ts
        + (ice_state_counts IceState.closed ts + dtls_state_counts DtlsState.closed ts)
      ≡ length ts * 2
unfolding ice_state_counts dtls_state_counts
all_up [] f d s = refl
all_up (t ∷ ts) f d s = ground (arith, all_up ts)

-- The counting of `_update_state` gives the first of these that holds: failed, if some ICE channel
-- or DTLS transport failed; disconnected, if some ICE channel is; new, if all are new or closed;
-- connecting, if some ICE channel is new or checking or some DTLS transport new or connecting;
-- else connected.
pub compute_state-described : (ts : List Transport) → compute_state ts ≡ described ts
unfolding compute_state described
compute_state-described ts =
    ground (arith, any_failed ts, any_disconnected ts, any_starting ts, all_idle ts, all_up ts)
