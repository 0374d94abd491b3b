-- ===== src/Ice/Defs.antt =====
-- ice/ice_def.cpp, ice/ice_credentials.h and ice/candidate.cpp: the constants, the credentials and
-- the candidates.
use web_rtcserver.Prelude.{ℕ, ◌+◌, ◌*◌, ◌-◌, ◌%◌, ◌^◌, List, bit_or}
use web_rtcserver.Stun.Types.{SocketAddress}

abbrev pub weak_ping_interval : ℕ
weak_ping_interval = 48

abbrev pub strong_ping_interval : ℕ
strong_ping_interval = 480

abbrev pub stabling_connection_ping_interval : ℕ
stabling_connection_ping_interval = 900

abbrev pub stable_connection_ping_interval : ℕ
stable_connection_ping_interval = 2500

abbrev pub min_pings_at_weak_ping_interval : ℕ
min_pings_at_weak_ping_interval = 3

abbrev pub weak_connection_receive_timeout : ℕ
weak_connection_receive_timeout = 2500

abbrev pub connection_write_connect_fails : ℕ
connection_write_connect_fails = 5

abbrev pub connection_write_connect_timeout : ℕ
connection_write_connect_timeout = 5000

abbrev pub connection_write_timeout : ℕ
connection_write_timeout = 15000

pub record IceParameters : Type 0 where
  pub ice_ufrag : List ℕ
  pub ice_pwd : List ℕ

-- What the connections use of a `Candidate`.
pub record Candidate : Type 0 where
  pub component : ℕ
  pub priority : ℕ
  pub address : SocketAddress
  pub username : List ℕ
  pub password : List ℕ

-- `get_priority`, on what `IPAddressPrecedence` says of the address.
unfoldable pub get_priority : ℕ → ℕ → ℕ → ℕ → ℕ → ℕ
get_priority addr_ref component type_preference network_adapter_preference relay_preference =
    let local_pref = bit_or (network_adapter_preference * 2 ^ 8) addr_ref + relay_preference in
    bit_or (bit_or (type_preference * 2 ^ 24 % 2 ^ 32) (local_pref * 2 ^ 8)) (256 - component)
