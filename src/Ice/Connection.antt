-- ===== src/Ice/Connection.antt =====
-- ice/ice_connection.cpp: what a connection knows of its peer from the pings and their answers.
-- Times are milliseconds of `TimeMillis`, which never goes back below 0; an `int` that a time is
-- cut to keeps its 32 bits. Round-trip times are `int`s whose doubles do not overflow. A change
-- calls `signal_state_change`: each operation gives the connection that it leaves and, in order,
-- what the connection was at each call of the signal.
use web_rtcserver.Prelude.{
  ℕ, ◌+◌, ◌*◌, ◌-◌, ◌%◌, ◌^◌, max, min, Bool, true, false, ◌&&◌, ◌||◌, List, [], ◌∷◌, ◌++◌, none,
  some, ltb, ◌==◌, if◌then◌else◌, length, get_elem?, is_empty, bytes_eq,
}
use web_rtcserver.Rtc.{RtcBase}
use web_rtcserver.Ice.Defs.{
  weak_connection_receive_timeout, connection_write_connect_fails, connection_write_connect_timeout,
  connection_write_timeout, IceParameters, Candidate,
}

-- `WriteState`, in the order of its numbers.
pub data WriteState : Type 0 where
  state_writable state_write_unreliable state_write_init state_write_timeout : WriteState

abbrev pub write_state_code : WriteState → ℕ
write_state_code state_writable = 0
write_state_code state_write_unreliable = 1
write_state_code state_write_init = 2
write_state_code state_write_timeout = 3

-- `IceCandidatePairState`.
pub data IceCandidatePairState : Type 0 where
  waiting in_progress succeeded failed : IceCandidatePairState

pub record SentPing : Type 0 where
  pub id : List ℕ
  pub sent_time : ℕ

pub record IceConnection : Type 0 where
  pub local_candidate : Candidate
  pub remote_candidate : Candidate
  pub write_state : WriteState
  pub receiving : Bool
  pub last_ping_sent : ℕ
  pub last_ping_received : ℕ
  pub last_ping_response_received : ℕ
  pub last_data_received : ℕ
  pub num_pings_sent : ℕ
  pub pings_since_last_response : List SentPing
  pub rtt : ℕ
  pub rtt_samples : ℕ
  pub state : IceCandidatePairState

abbrev rtt_ratio : ℕ
rtt_ratio = 3

abbrev min_rtt : ℕ
min_rtt = 100

abbrev max_rtt : ℕ
max_rtt = 60000

-- The constructor.
unfoldable pub new_connection : Candidate → Candidate → IceConnection
new_connection local remote = record {
  local_candidate = local;
  remote_candidate = remote;
  write_state = state_write_init;
  receiving = false;
  last_ping_sent = 0;
  last_ping_received = 0;
  last_ping_response_received = 0;
  last_data_received = 0;
  num_pings_sent = 0;
  pings_since_last_response = [];
  rtt = 3000;
  rtt_samples = 0;
  state = waiting;
}

abbrev pub writable : IceConnection → Bool
writable c = write_state_code c.write_state == 0

unfoldable pub weak : IceConnection → Bool
weak c = if writable c && c.receiving then false else true

unfoldable pub active : IceConnection → Bool
active c = if write_state_code c.write_state == 3 then false else true

-- The connection and the connections that its signals showed.
abbrev pub Signalled : Type 0
Signalled = IceConnection × List IceConnection

unfoldable pub last_received : IceConnection → ℕ
last_received c = max (max c.last_ping_received c.last_ping_response_received) c.last_data_received

unfoldable pub computed_receiving : ℕ → IceConnection → Bool
unfolding last_received
computed_receiving now c =
    if ltb c.last_ping_sent c.last_ping_response_received
    then true
    else ltb 0 (last_received c) && ltb now (last_received c + weak_connection_receive_timeout)

abbrev pub same_bool : Bool → Bool → Bool
same_bool true b = b
same_bool false true = false
same_bool false false = true

unfoldable pub update_receiving : ℕ → IceConnection → Signalled
unfolding computed_receiving
update_receiving now c =
    let receiving = computed_receiving now c in
    if same_bool c.receiving receiving
    then (c, [])
    else (record c { receiving = receiving }, record c { receiving = receiving } ∷ [])

unfoldable pub set_write_state : WriteState → IceConnection → Signalled
set_write_state s c =
    let moved = record c { write_state = s } in
    if write_state_code c.write_state == write_state_code s
    then (moved, [])
    else (moved, moved ∷ [])

-- One operation and then another.
abbrev pub then_do : Signalled → (IceConnection → Signalled) → Signalled
then_do r f = ((f r.0).0, r.1 ++ (f r.0).1)

-- `received_ping_response`; `now` is the time it reads.
unfoldable pub received_ping_response : RtcBase → ℕ → ℕ → IceConnection → Signalled
unfolding update_receiving set_write_state
received_ping_response rtc now rtt c =
    let averaged =
      if ltb 0 c.rtt_samples then rtc.get_next_moving_average c.rtt rtt rtt_ratio else rtt in
    let noted = record c {
      rtt = averaged;
      rtt_samples = c.rtt_samples + 1;
      last_ping_response_received = now;
      pings_since_last_response = [];
    } in
    let done = then_do (update_receiving now noted) (set_write_state state_writable) in
    (record done.0 { state = succeeded }, done.1)

-- `now > t` for a time that was cut to an `int`: from 2^31 on it is negative.
unfoldable pub past_int : ℕ → ℕ → Bool
past_int now t = if ltb (t % 2 ^ 32) (2 ^ 31) then ltb (t % 2 ^ 32) now else true

unfoldable pub too_many_ping_fails : ℕ → ℕ → ℕ → IceConnection → Bool
unfolding past_int
too_many_ping_fails max_pings rtt now c =
    if ltb (length c.pings_since_last_response) max_pings
    then false
    else elim (get_elem? c.pings_since_last_response (max_pings - 1)) [
      | none ↦ false
      | some p ↦ past_int now (p.sent_time + rtt)
    ]

unfoldable pub too_long_without_response : ℕ → ℕ → IceConnection → Bool
too_long_without_response min_time now c = elim c.pings_since_last_response [
  | [] ↦ false
  | p ∷ ps ↦ ltb (p.sent_time + min_time) now
]

-- Twice the round-trip time, within its bounds.
unfoldable pub clamped_rtt : IceConnection → ℕ
clamped_rtt c =
    if ltb (2 * c.rtt) min_rtt
    then min_rtt
    else if ltb max_rtt (2 * c.rtt)
    then max_rtt
    else 2 * c.rtt

-- The first test of `update_state`.
unfoldable pub mark_unreliable : ℕ → IceConnection → Signalled
unfolding clamped_rtt too_many_ping_fails too_long_without_response set_write_state
mark_unreliable now c =
    if writable c
      && (too_many_ping_fails connection_write_connect_fails (clamped_rtt c) now c
          && too_long_without_response connection_write_connect_timeout now c)
    then set_write_state state_write_unreliable c
    else (c, [])

-- The second one.
unfoldable pub mark_timeout : ℕ → IceConnection → Signalled
unfolding too_long_without_response set_write_state
mark_timeout now c =
    if (write_state_code c.write_state == 1 || write_state_code c.write_state == 2)
      && too_long_without_response connection_write_timeout now c
    then set_write_state state_write_timeout c
    else (c, [])

unfoldable pub update_state : ℕ → IceConnection → Signalled
unfolding mark_unreliable mark_timeout update_receiving
update_state now c =
    then_do (then_do (mark_unreliable now c) (mark_timeout now)) (update_receiving now)

-- `priority` on 64 bits; `2 * max(g, d)` is a product of `uint32_t`.
unfoldable pub priority : IceConnection → ℕ
priority c =
    let g = c.local_candidate.priority in
    let d = c.remote_candidate.priority in
    (min g d * 2 ^ 32 + (2 * max g d) % 2 ^ 32 + (if ltb d g then 1 else 0)) % 2 ^ 64

unfoldable pub maybe_set_remote_ice_params : IceParameters → IceConnection → IceConnection
maybe_set_remote_ice_params p c =
    if bytes_eq c.remote_candidate.username p.ice_ufrag && is_empty c.remote_candidate.password
    then record c { remote_candidate = record c.remote_candidate { password = p.ice_pwd } }
    else c

-- `_miss_response`: `now - sent_time` cut to an `int`.
unfoldable pub miss_response : ℕ → IceConnection → Bool
miss_response now c = elim c.pings_since_last_response [
  | [] ↦ false
  | p ∷ ps ↦
      let waiting = (now + (2 ^ 32 - p.sent_time % 2 ^ 32)) % 2 ^ 32 in
      ltb waiting (2 ^ 31) && ltb (2 * c.rtt) waiting
]

unfoldable pub stable : ℕ → IceConnection → Bool
unfolding miss_response
stable now c = ltb (rtt_ratio + 1) c.rtt_samples && (if miss_response now c then false else true)

-- `ping`, less the request that it sends; `id` is the transaction id of that request.
unfoldable pub ping : List ℕ → ℕ → IceConnection → IceConnection
ping id now c = record c {
  last_ping_sent = now;
  pings_since_last_response =
      c.pings_since_last_response ++ record { id = id; sent_time = now } ∷ [];
  state = in_progress;
  num_pings_sent = c.num_pings_sent + 1;
}
