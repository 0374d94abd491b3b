-- ===== src/Tests/IceChannels.antt =====
-- The theorems on the connections and on the channel at small states.
use web_rtcserver.Prelude.{
  ◌+◌, ◌^◌, max, ◌≡◌, refl, true, false, List, [], ◌∷◌, none, some, arith, ltb, if◌then◌else◌, All,
}
use web_rtcserver.Pc.TransportController.{
  IceState, DtlsState, Transport, compute_state, described, compute_state-described,
}
use web_rtcserver.Stun.Types.{ip_v4}
use web_rtcserver.Ice.Defs.{Candidate}
use web_rtcserver.Ice.Connection.{
  state_writable, state_write_timeout, IceConnection, IceCandidatePairState, update_state, priority,
}
use web_rtcserver.Ice.WriteState.{next_write_state, update_state_write_state}
use web_rtcserver.Ice.Controller.{
  Heap, IceController, new_controller, is_pingable, more_pingable, find_conn, find_next_in_round,
  start_round, any_connection, controller_weak, set_union, set_insert, goes_before,
  compare_connections, a_is_better, b_is_better, equally_good, sort, sort_insert, switch_to,
  sort_and_switch_connection, ready_to_send, same_connection, add_connection,
}
use web_rtcserver.Ice.Ordering.{
  connection_key, compare_connections-key, sort_and_switch_connection_best,
  sort_and_switch_connection_keeps,
}
use web_rtcserver.Ice.Rounds.{IsPartition, is_older, find_conn_oldest, find_next_in_round-none}
use web_rtcserver.Ice.Priority.{rfc_priority, priority-rfc_priority}
use web_rtcserver.Ice.Reachable.{
  marked, switched, asked, Reaches, created, adds, pings, sorts, IsKept, Reaches-IsKept,
}
use web_rtcserver.Ice.Channel.{
  Channel, new_channel, channel_update_state, channel_on_connection_destroyed,
}
use web_rtcserver.Ice.Reports.{destroyed_stays_selected}
use web_rtcserver.Ice.Updates.{IsUpdated, channel_update_state_lem}

abbrev a_candidate : Candidate
a_candidate = record {
  component = 1;
  priority = 10;
  address = record { ip = ip_v4 1; port = 9 };
  username = b'u' ∷ [];
  password = b'p' ∷ [];
}

abbrev a_connection : IceConnection
a_connection = record {
  local_candidate = a_candidate;
  remote_candidate = a_candidate;
  write_state = state_writable;
  receiving = true;
  last_ping_sent = 5;
  last_ping_received = 0;
  last_ping_response_received = 6;
  last_data_received = 0;
  num_pings_sent = 1;
  pings_since_last_response = [];
  rtt = 50;
  rtt_samples = 1;
  state = IceCandidatePairState.succeeded;
}

-- At 1 a connection that timed out, elsewhere one that is writable and slower.
abbrev a_heap : Heap
a_heap x =
    if ltb x 2 then record a_connection { write_state = state_write_timeout } else a_connection

abbrev a_controller : IceController
a_controller = record {
  selected_connection = none;
  connections = 1 ∷ 2 ∷ [];
  unpinged_connections = 1 ∷ 2 ∷ [];
  pinged_connections = [];
}

update_state_write_state_example :
    (update_state 99 a_connection).0.write_state ≡ next_write_state 99 a_connection state_writable
update_state_write_state_example = update_state_write_state 99 a_connection

compare_connections-key_example : compare_connections (a_heap 1) (a_heap 2) ≡ (
    if ltb (connection_key (a_heap 2)) (connection_key (a_heap 1))
    then a_is_better
    else if ltb (connection_key (a_heap 1)) (connection_key (a_heap 2))
    then b_is_better
    else equally_good)
compare_connections-key_example = compare_connections-key (a_heap 1) (a_heap 2)

switches : (sort_and_switch_connection a_heap a_controller).0 ≡ some 2
unfolding sort_and_switch_connection sort sort_insert goes_before compare_connections priority
    switch_to ready_to_send
switches = refl

sort_and_switch_connection_best_example :
    (ready_to_send a_heap (some 2) ≡ true)
    × (same_connection none 2 ≡ false)
    × All (λ y. goes_before (a_heap y) (a_heap 2) ≡ false) (1 ∷ 2 ∷ [])
sort_and_switch_connection_best_example =
    sort_and_switch_connection_best a_heap a_controller 2 switches

sort_and_switch_connection_keeps_example :
    (sort_and_switch_connection a_heap (record a_controller { selected_connection = some 1 })).0
    ≡ none
sort_and_switch_connection_keeps_example =
    sort_and_switch_connection_keeps a_heap (record a_controller { selected_connection = some 1 }) 1
      refl (omega arith, (omega arith, tt))

finds : find_conn a_heap a_controller 9 (1 ∷ 2 ∷ []) none ≡ some 1
unfolding find_conn more_pingable is_pingable controller_weak
finds = refl

find_conn_oldest_example : All (λ d. is_older a_heap a_controller 9 1 d ≡ false) (1 ∷ 2 ∷ [])
find_conn_oldest_example = find_conn_oldest a_heap a_controller 9 (1 ∷ 2 ∷ []) 1 finds

-- Two connections, after a ping and a sort.
abbrev two_added : IceController
two_added = add_connection 4 (add_connection 3 new_controller)

abbrev pinged_and_sorted : IceController
pinged_and_sorted =
    switched (sort_and_switch_connection a_heap (marked (asked a_heap 9 0 two_added)))

pinged_and_sorted-Reaches : Reaches pinged_and_sorted
unfolding new_controller add_connection
pinged_and_sorted-Reaches = sorts a_heap (marked (asked a_heap 9 0 two_added)) (
    pings a_heap 9 0 two_added
      (adds 4 (add_connection 3 new_controller) (adds 3 new_controller created refl) refl))

Reaches-IsKept_example : IsKept pinged_and_sorted
Reaches-IsKept_example = Reaches-IsKept pinged_and_sorted pinged_and_sorted-Reaches

-- A peer whose password is not known cannot be pinged.
abbrev mute_heap : Heap
mute_heap x = record a_connection { remote_candidate = record a_candidate { password = [] } }

abbrev a_round : IceController
a_round = record {
  selected_connection = none;
  connections = 4 ∷ [];
  unpinged_connections = [];
  pinged_connections = 4 ∷ [];
}

a_round-IsPartition : IsPartition a_round
a_round-IsPartition x = ground arith

finds_none : (find_next_in_round mute_heap 9 a_round).0 ≡ none
unfolding find_next_in_round start_round any_connection set_union set_insert find_conn is_pingable
finds_none = refl

find_next_in_round-none_example : All (λ d. is_pingable mute_heap a_round d 9 ≡ false) (4 ∷ [])
find_next_in_round-none_example =
    find_next_in_round-none mute_heap 9 a_round a_round-IsPartition finds_none

abbrev a_channel : Channel
a_channel = record (new_channel (λ x. a_connection)) {
  controller = record {
    selected_connection = some 1;
    connections = 1 ∷ [];
    unpinged_connections = 1 ∷ [];
    pinged_connections = [];
  };
  selected_connection = some 1;
  had_connection = true;
}

channel_update_state_lem_example : IsUpdated a_channel (channel_update_state a_channel)
channel_update_state_lem_example = channel_update_state_lem a_channel

destroyed_stays_selected_example :
    let after = channel_on_connection_destroyed 9 1 a_channel in
    (after.selected_connection ≡ none)
    × (after.controller.connections ≡ [])
    × (after.controller.selected_connection ≡ some 1)
destroyed_stays_selected_example = destroyed_stays_selected 9 1 a_channel refl refl refl

abbrev two_transports : List Transport
two_transports =
    record { dtls = DtlsState.connected; ice = IceState.connected }
    ∷ record { dtls = DtlsState.new; ice = IceState.checking }
    ∷ []

compute_state-described_example : compute_state two_transports ≡ described two_transports
compute_state-described_example = compute_state-described two_transports

-- A remote priority that 2 * max does not hold in 32 bits.
abbrev high_connection : IceConnection
high_connection = record a_connection {
  remote_candidate = record a_candidate { priority = 2 ^ 31 };
}

priority-rfc_priority_example :
    rfc_priority 10 (2 ^ 31)
    ≡ priority high_connection + (if ltb (max 10 (2 ^ 31)) (2 ^ 31) then 0 else 2 ^ 32)
priority-rfc_priority_example = priority-rfc_priority high_connection (omega arith) (omega arith)
