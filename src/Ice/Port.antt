-- ===== src/Ice/Port.antt =====
-- ice/udp_port.cpp and the messages of ice/ice_connection.cpp: the STUN messages that a port
-- accepts, and those that it and its connections send.
use web_rtcserver.Prelude.{
  ℕ, ◌*◌, ◌^◌, Bool, true, false, not, ◌||◌, ◌&&◌, List, [], ◌∷◌, ◌++◌, Option, none, some, ◌==◌,
  if◌then◌else◌, bit_and, bit_or, is_some,
}
use web_rtcserver.Rtc.{RtcBase}
use web_rtcserver.Stun.Types.{
  StunMessage, AttributeValue, byte_string, address, xor_address, uint32, uint64, error_code,
  IntegrityStatus, k_not_set, k_no_integrity, k_integrity_ok, k_integrity_bad, new_message,
  stun_attr_username, stun_attr_message_integrity, stun_attr_ice_controlling,
  stun_attr_use_candidate, stun_attr_priority, stun_attr_xor_mapped_address, stun_binding_request,
  stun_binding_response, stun_binding_error_response, stun_error_bad_request,
  stun_error_unathorized, SocketAddress,
}
use web_rtcserver.Stun.Message.{
  new_byte_string, new_uint32, new_uint64, new_xor_address, new_error_code, add_attribute, write,
  add_message_integrity, add_fingerprint,
}
use web_rtcserver.Stun.Parse.{Parse, parsed, refused, stuck, get_attribute, read}
use web_rtcserver.Stun.Checks.{
  Checked, done, fault, validate_fingerprint, validate_message_integrity,
}
use web_rtcserver.Ice.Defs.{IceParameters}

-- `get_byte_string`: a USERNAME or MESSAGE-INTEGRITY that was read is a byte string.
unfoldable pub bytes_of : AttributeValue → Option (List ℕ)
bytes_of (byte_string s) = some s
bytes_of (address a) = none
bytes_of (xor_address a) = none
bytes_of (uint32 bits) = none
bytes_of (uint64 bits) = none
bytes_of (error_code class number reason) = none

unfoldable pub get_byte_string : ℕ → StunMessage → Option (List ℕ)
unfolding bytes_of
get_byte_string type m = elim (get_attribute type m.attrs) [
  | none ↦ none
  | some a ↦ bytes_of a.value
]

-- `create_stun_username` of the port with the given fragment.
unfoldable pub create_stun_username : List ℕ → List ℕ → List ℕ
create_stun_username ice_ufrag remote_username = remote_username ++ (b':' ∷ ice_ufrag)

-- What `get_stun_message` makes of a datagram: no STUN message (`false`), one that was answered by
-- an error response of a code (`true` with no message), or a message and the remote fragment.
-- `out_of_bounds` is a read beyond the datagram, `out_of_fuel` none of the code's outcomes.
pub data Outcome : Type 0 where
  not_stun out_of_bounds out_of_fuel : Outcome
  answered : ℕ → Outcome
  accepted : StunMessage → List ℕ → Outcome

-- `validate_message_integrity(...) != k_integrity_ok`.
unfoldable pub is_integrity_ok : IntegrityStatus → Bool
is_integrity_ok k_integrity_ok = true
is_integrity_ok k_integrity_bad = false
is_integrity_ok k_no_integrity = false
is_integrity_ok k_not_set = false

-- The `if` on the result of the integrity check.
unfoldable pub accept_checked : List ℕ → Checked StunMessage → Outcome
unfolding is_integrity_ok
accept_checked remote_ufrag (done m) =
    if is_integrity_ok m.integrity then accepted m remote_ufrag else answered stun_error_unathorized
accept_checked remote_ufrag fault = out_of_bounds
accept_checked remote_ufrag Checked.stuck = out_of_fuel

module _ (r : RtcBase) where
  open r use {split}

  -- `_parse_stun_username`: the local and the remote fragment.
  unfoldable pub parse_stun_username : StunMessage → Option (List ℕ × List ℕ)
  parse_stun_username m = elim (get_byte_string stun_attr_username m) [
    | none ↦ none
    | some username ↦ elim (split username b':') [
      | [] ↦ none
      | a ∷ as' ↦ elim as' [ [] ↦ none | b ∷ bs ↦ elim bs [ [] ↦ some (a, b) | c ∷ cs ↦ none ] ]
    ]
  ]

  -- The branch of `get_stun_message` for a binding request.
  unfoldable pub accept_request : IceParameters → StunMessage → Outcome
  accept_request own m =
      if not (is_some (get_byte_string stun_attr_username m))
        || not (is_some (get_byte_string stun_attr_message_integrity m))
      then answered stun_error_bad_request
      else elim (parse_stun_username m) [
        | none ↦ answered stun_error_unathorized
        | some fields ↦ accept_checked fields.1 (validate_message_integrity r own.ice_pwd m)
      ]

  -- After `read`, which leaves no byte where it succeeds, as the source tests once more. An error
  -- response leaves the caller's username empty.
  unfoldable pub accept_read : IceParameters → Parse StunMessage → Outcome
  accept_read own (parsed m) =
      if m.type == stun_binding_request then accept_request own m else accepted m []
  accept_read own refused = not_stun
  accept_read own stuck = out_of_fuel

  unfoldable pub get_stun_message : IceParameters → List ℕ → Outcome
  get_stun_message own bs = elim (validate_fingerprint r bs) [
    | done ok ↦ if ok then accept_read own (read r bs) else not_stun
    | fault ↦ out_of_bounds
    | Checked.stuck ↦ out_of_fuel
  ]

  -- `send_binding_error_response`: the bytes sent, where the response can be written.
  unfoldable pub send_binding_error_response :
      IceParameters → StunMessage → ℕ → List ℕ → Option (List ℕ)
  send_binding_error_response own m err_code reason =
      let response = add_attribute (new_error_code err_code reason) (record new_message {
        type = stun_binding_error_response;
        transaction_id = m.transaction_id;
      }) in
      let signed : StunMessage =
        if not (err_code == stun_error_bad_request) && not (err_code == stun_error_unathorized)
        then (add_message_integrity r own.ice_pwd response).0
        else response in
      write r (add_fingerprint r signed).0

  -- `send_stun_binding_response` of a connection whose port has `own` and whose peer is at `addr`.
  unfoldable pub send_stun_binding_response :
      IceParameters → SocketAddress → StunMessage → Option (List ℕ)
  send_stun_binding_response own addr m = elim (get_byte_string stun_attr_username m) [
    | none ↦ none
    | some username ↦
        let response =
          add_attribute (new_xor_address stun_attr_xor_mapped_address addr) (record new_message {
            type = stun_binding_response;
            transaction_id = m.transaction_id;
          }) in
        write r (add_fingerprint r (add_message_integrity r own.ice_pwd response).0).0
  ]

  -- The attributes that `ConnectionRequest::prepare` adds first; 110 is ICE_TYPE_PREFERENCE_PRFLX.
  unfoldable pub request_body : IceParameters → List ℕ → ℕ → List ℕ → StunMessage
  request_body own remote_username local_priority id =
      add_attribute
        (new_uint32 stun_attr_priority (bit_or (110 * 2 ^ 24) (bit_and local_priority 0x00FFFFFF)))
        (add_attribute (new_byte_string stun_attr_use_candidate []) (
          add_attribute (new_uint64 stun_attr_ice_controlling 0) (
            add_attribute
              (new_byte_string stun_attr_username
                (create_stun_username own.ice_ufrag remote_username))
              (record new_message { type = stun_binding_request; transaction_id = id }))))

  -- `prepare`, for a peer with the given username and password.
  unfoldable pub prepare : IceParameters → IceParameters → ℕ → List ℕ → StunMessage
  prepare own remote local_priority id =
      (add_fingerprint r
        (add_message_integrity r remote.ice_pwd
          (request_body own remote.ice_ufrag local_priority id)).0).0
