-- ===== src/Ice/Channel.antt =====
-- ice/ice_transport_channel.cpp: the connections of a channel, the one in use, and what the channel
-- reports of itself. `heap` says what connection stands at an address; `selected` is the flag that
-- `set_selected` writes there. The clock does not advance within one callback.
use web_rtcserver.Prelude.{
  ℕ, ◌-◌, ◌*◌, Bool, true, false, ◌&&◌, List, [], ◌∷◌, Option, none, some, ◌==◌, if◌then◌else◌,
}
use web_rtcserver.Rtc.{RtcBase}
use web_rtcserver.Pc.TransportController.{IceState, ice_code}
use web_rtcserver.Ice.Defs.{IceParameters, weak_ping_interval}
use web_rtcserver.Ice.Connection.{
  IceConnection, writable, active, received_ping_response, maybe_set_remote_ice_params, same_bool,
  ping, update_state,
}
use web_rtcserver.Ice.Controller.{
  Heap, IceController, any_connection, has_pingable_connection, select_connection_to_ping,
  mark_connection_pinged, add_connection, on_connection_destroyed, ready_to_send,
  sort_and_switch_connection, new_controller,
}

-- The signals of the channel, and what its timer is told.
pub data Signal : Type 0 where
  writable_state receiving_state : Bool → Signal
  ice_state_changed : IceState → Signal
  start_timer : ℕ → Signal
  stop_timer : Signal

pub record Channel : Type 0 where
  pub heap : Heap
  pub selected : ℕ → Bool
  pub controller : IceController
  pub remote_ice_params : IceParameters
  pub selected_connection : Option ℕ
  pub start_pinging : Bool
  pub cur_ping_interval : ℕ
  pub last_ping_sent_ms : ℕ
  pub receiving : Bool
  pub is_writable : Bool
  pub state : IceState
  pub had_connection : Bool
  pub has_been_connection : Bool
  -- Newest first.
  pub signals : List Signal

unfoldable pub store {ℓ} : {A : Type ℓ} → ℕ → A → (ℕ → A) → ℕ → A
store a v heap b = if a == b then v else heap b

unfoldable pub set_writable : Bool → Channel → Channel
set_writable w ch = if same_bool ch.is_writable w then ch else record ch {
  has_been_connection = if w then true else ch.has_been_connection;
  is_writable = w;
  signals = writable_state w ∷ ch.signals;
}

unfoldable pub set_receiving : Bool → Channel → Channel
set_receiving r ch =
    if same_bool ch.receiving r
    then ch
    else record ch { receiving = r; signals = receiving_state r ∷ ch.signals }

unfoldable pub compute_ice_transport_state : Channel → IceState
compute_ice_transport_state ch =
    let has_connection = any_connection (λ x. active (ch.heap x)) ch.controller.connections in
    let not_writable = if ch.is_writable then false else true in
    if ch.had_connection && (if has_connection then false else true)
    then IceState.failed
    else if ch.has_been_connection && not_writable
    then IceState.disconnected
    else if (if ch.had_connection then false else true) && (if has_connection then false else true)
    then IceState.new
    else if has_connection && not_writable
    then IceState.checking
    else IceState.connected

unfoldable pub selected_writable : Channel → Bool
selected_writable ch = elim ch.selected_connection [ none ↦ false | some s ↦ writable (ch.heap s) ]

unfoldable pub any_receiving : Channel → Bool
any_receiving ch = any_connection (λ x. (ch.heap x).receiving) ch.controller.connections

-- The end of `_update_state`.
unfoldable pub set_state : IceState → Channel → Channel
set_state s ch =
    if ice_code s == ice_code ch.state
    then ch
    else record ch { state = s; signals = ice_state_changed s ∷ ch.signals }

unfoldable pub channel_update_state : Channel → Channel
unfolding selected_writable any_receiving set_writable set_receiving compute_ice_transport_state
    set_state
channel_update_state ch =
    let ch1 = set_writable (selected_writable ch) ch in
    let ch2 = set_receiving (any_receiving ch1) ch1 in
    set_state (compute_ice_transport_state ch2) ch2

unfoldable pub deselect : Option ℕ → Channel → Channel
unfolding store
deselect none ch = ch
deselect (some s) ch = record ch { selected = store s false ch.selected }

unfoldable pub switch_selected_connection : Option ℕ → Channel → Channel
unfolding deselect store
switch_selected_connection conn ch =
    let ch1 = deselect ch.selected_connection (record ch { selected_connection = conn }) in
    elim conn [
      | none ↦ ch1
      | some s ↦ record ch1 {
        selected = store s true ch1.selected;
        controller = record ch1.controller { selected_connection = some s };
      }
    ]

unfoldable pub maybe_switch_selected_connection : Option ℕ → Channel → Channel
unfolding switch_selected_connection
maybe_switch_selected_connection none ch = ch
maybe_switch_selected_connection (some s) ch = switch_selected_connection (some s) ch

unfoldable pub maybe_start_pinging : ℕ → Channel → Channel
unfolding has_pingable_connection
maybe_start_pinging now ch =
    if ch.start_pinging
    then ch
    else if has_pingable_connection ch.heap now ch.controller
    then record ch {
      start_pinging = true;
      signals = start_timer (weak_ping_interval * 1000) ∷ ch.signals;
    }
    else ch

unfoldable pub sort_connection_and_update_state : ℕ → Channel → Channel
unfolding sort_and_switch_connection maybe_switch_selected_connection channel_update_state
    maybe_start_pinging
sort_connection_and_update_state now ch =
    let sorted = sort_and_switch_connection ch.heap ch.controller in
    maybe_start_pinging now (
      channel_update_state
        (maybe_switch_selected_connection sorted.0 (record ch { controller = sorted.1 })))

-- The connection at `conn` became what `seen` lists, one after the other, and each time called
-- `_on_connection_state_change`; then it is `last`.
unfoldable pub show : ℕ → ℕ → List IceConnection → IceConnection → Channel → Channel
unfolding store sort_connection_and_update_state
show now conn [] last ch = record ch { heap = store conn last ch.heap }
show now conn (c ∷ cs) last ch =
    show now conn cs last
      (sort_connection_and_update_state now (record ch { heap = store conn c ch.heap }))

unfoldable pub on_ping_response : RtcBase → ℕ → ℕ → ℕ → Channel → Channel
unfolding show received_ping_response
on_ping_response rtc now conn rtt ch =
    let r = received_ping_response rtc now rtt (ch.heap conn) in show now conn r.1 r.0 ch

-- `_on_connection_destroyed`; the connection is freed when it returns.
unfoldable pub channel_on_connection_destroyed : ℕ → ℕ → Channel → Channel
unfolding on_connection_destroyed switch_selected_connection sort_connection_and_update_state
    channel_update_state
channel_on_connection_destroyed now conn ch =
    let ch1 = record ch { controller = on_connection_destroyed conn ch.controller } in
    elim ch.selected_connection [
      | none ↦ channel_update_state ch1
      | some s ↦
          if s == conn
          then sort_connection_and_update_state now (switch_selected_connection none ch1)
          else channel_update_state ch1
    ]

-- `_add_connection`, of a connection made at the address `conn`.
unfoldable pub channel_add_connection : ℕ → IceConnection → Channel → Channel
unfolding store add_connection
channel_add_connection conn c ch = record ch {
  heap = store conn c ch.heap;
  had_connection = true;
  controller = add_connection conn ch.controller;
}

unfoldable pub set_params_all : IceParameters → List ℕ → Heap → Heap
unfolding store maybe_set_remote_ice_params
set_params_all p [] heap = heap
set_params_all p (x ∷ xs) heap =
    set_params_all p xs (store x (maybe_set_remote_ice_params p (heap x)) heap)

unfoldable pub set_remote_ice_params : ℕ → IceParameters → Channel → Channel
unfolding set_params_all sort_connection_and_update_state
set_remote_ice_params now p ch =
    sort_connection_and_update_state now (record ch {
      remote_ice_params = p;
      heap = set_params_all p ch.controller.connections ch.heap;
    })

-- `_update_connection_states`, over the copy of the vector.
unfoldable pub update_connection_states : ℕ → List ℕ → Channel → Channel
unfolding show update_state
update_connection_states now [] ch = ch
update_connection_states now (x ∷ xs) ch =
    let r = update_state now (ch.heap x) in update_connection_states now xs (show now x r.1 r.0 ch)

unfoldable pub ping_connection : List ℕ → ℕ → ℕ → Channel → Channel
unfolding store ping
ping_connection id now conn ch = record ch {
  last_ping_sent_ms = now;
  heap = store conn (ping id now (ch.heap conn)) ch.heap;
}

unfoldable pub set_ping_interval : ℕ → Channel → Channel
set_ping_interval interval ch = if ch.cur_ping_interval == interval then ch else record ch {
  cur_ping_interval = interval;
  signals = start_timer (interval * 1000) ∷ stop_timer ∷ ch.signals;
}

-- `_on_check_and_ping`; `id` is the random id of the request. The source compares the time with
-- `_last_ping_sent_ms - 5`, which is negative only where the test holds either way.
unfoldable pub on_check_and_ping : List ℕ → ℕ → Channel → Channel
unfolding update_connection_states select_connection_to_ping ping_connection mark_connection_pinged
    set_ping_interval
on_check_and_ping id now ch =
    let ch1 = update_connection_states now ch.controller.connections ch in
    let (result, found) =
      select_connection_to_ping ch1.heap now (ch1.last_ping_sent_ms - 5) ch1.controller in
    let ch2 = record ch1 { controller = found } in
    let ch3 : Channel = elim result.conn [
      | none ↦ ch2
      | some x ↦
          let pinged = ping_connection id now x ch2 in
          record pinged { controller = mark_connection_pinged x pinged.controller }
    ] in
    set_ping_interval result.ping_interval ch3

-- `send_packet`: the connection that the packet goes to, or -1.
unfoldable pub send_packet : Channel → Option ℕ
unfolding ready_to_send
send_packet ch =
    if ready_to_send ch.heap ch.selected_connection then ch.selected_connection else none

-- The constructor.
unfoldable pub new_channel : Heap → Channel
new_channel heap = record {
  heap = heap;
  selected = λ x. false;
  controller = new_controller;
  remote_ice_params = record { ice_ufrag = []; ice_pwd = [] };
  selected_connection = none;
  start_pinging = false;
  cur_ping_interval = weak_ping_interval;
  last_ping_sent_ms = 0;
  receiving = false;
  is_writable = false;
  state = IceState.new;
  had_connection = false;
  has_been_connection = false;
  signals = [];
}
