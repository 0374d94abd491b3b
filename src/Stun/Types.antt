-- ===== src/Stun/Types.antt =====
-- ice/stun.h: the constants, attributes and messages. A string is the list of its bytes.
use web_rtcserver.Prelude.{ℕ, ◌∷◌, Bool, List, [], ◌==◌, if◌then◌else◌, bit_and, bit_or}
use web_rtcserver.Prelude.{Option, none, some}

abbrev pub k_stun_header_size : ℕ
k_stun_header_size = 20

abbrev pub k_stun_attribute_header_size : ℕ
k_stun_attribute_header_size = 4

abbrev pub k_stun_transaction_id_offset : ℕ
k_stun_transaction_id_offset = 8

abbrev pub k_stun_transaction_id_length : ℕ
k_stun_transaction_id_length = 12

abbrev pub k_stun_magic_cookie : ℕ
k_stun_magic_cookie = 0x2112A442

abbrev pub k_stun_magic_cookie_length : ℕ
k_stun_magic_cookie_length = 4

abbrev pub k_stun_message_integrity_size : ℕ
k_stun_message_integrity_size = 20

abbrev pub k_stun_type_mask : ℕ
k_stun_type_mask = 0x0110

abbrev pub stun_fingerprint_xor_value : ℕ
stun_fingerprint_xor_value = 0x5354554e

-- `StunMessageType`.
abbrev pub stun_binding_request : ℕ
stun_binding_request = 0x0001

abbrev pub stun_binding_response : ℕ
stun_binding_response = 0x0101

abbrev pub stun_binding_error_response : ℕ
stun_binding_error_response = 0x0111

-- `StunAttributeType`.
abbrev pub stun_attr_username : ℕ
stun_attr_username = 0x0006

abbrev pub stun_attr_message_integrity : ℕ
stun_attr_message_integrity = 0x0008

abbrev pub stun_attr_error_code : ℕ
stun_attr_error_code = 0x0009

abbrev pub stun_attr_xor_mapped_address : ℕ
stun_attr_xor_mapped_address = 0x0020

abbrev pub stun_attr_priority : ℕ
stun_attr_priority = 0x0024

abbrev pub stun_attr_use_candidate : ℕ
stun_attr_use_candidate = 0x0025

abbrev pub stun_attr_fingerprint : ℕ
stun_attr_fingerprint = 0x8028

abbrev pub stun_attr_ice_controlling : ℕ
stun_attr_ice_controlling = 0x802A

pub data StunAttributeValueType : Type 0 where
  stun_value_unknown stun_value_uint32 stun_value_byte_string : StunAttributeValueType

-- `StunErrorCode`.
abbrev pub stun_error_bad_request : ℕ
stun_error_bad_request = 400

abbrev pub stun_error_unathorized : ℕ
stun_error_unathorized = 401

abbrev pub stun_error_unknown_attribute : ℕ
stun_error_unknown_attribute = 420

abbrev pub stun_error_server_error : ℕ
stun_error_server_error = 500

abbrev pub stun_error_global_fail : ℕ
stun_error_global_fail = 600

-- `StunAddressFamily`, with its numbers.
pub data StunAddressFamily : Type 0 where
  stun_address_undef stun_address_ipv4 stun_address_ipv6 : StunAddressFamily

abbrev pub family_code : StunAddressFamily → ℕ
family_code stun_address_undef = 0
family_code stun_address_ipv4 = 1
family_code stun_address_ipv6 = 2

-- `rtc::IPAddress` and `rtc::SocketAddress` as far as they are read here: an IPv4 address is the
-- number in host order, an IPv6 address its sixteen bytes.
pub data IpAddress : Type 0 where
  ip_unspec : IpAddress
  ip_v4 : ℕ → IpAddress
  ip_v6 : List ℕ → IpAddress

pub record SocketAddress : Type 0 where
  pub ip : IpAddress
  pub port : ℕ

-- The subclasses of `StunAttribute`, each with its own fields.
pub data AttributeValue : Type 0 where
  address : SocketAddress → AttributeValue
  xor_address : SocketAddress → AttributeValue
  uint32 : ℕ → AttributeValue
  uint64 : ℕ → AttributeValue
  byte_string : List ℕ → AttributeValue
  error_code : ℕ → ℕ → List ℕ → AttributeValue

pub record StunAttribute : Type 0 where
  pub type : ℕ
  pub len : ℕ
  pub value : AttributeValue

pub data IntegrityStatus : Type 0 where
  k_not_set k_no_integrity k_integrity_ok k_integrity_bad : IntegrityStatus

pub record StunMessage : Type 0 where
  pub type : ℕ
  pub len : ℕ
  pub transaction_id : List ℕ
  pub attrs : List StunAttribute
  pub integrity : IntegrityStatus
  pub password : List ℕ
  pub buffer : List ℕ

-- The default constructor; the transaction id is twelve times '0'.
abbrev pub new_message : StunMessage
new_message = record {
  type = 0;
  len = 0;
  transaction_id =
      b'0' ∷ b'0' ∷ b'0' ∷ b'0' ∷ b'0' ∷ b'0' ∷ b'0' ∷ b'0' ∷ b'0' ∷ b'0' ∷ b'0' ∷ b'0' ∷ [];
  attrs = [];
  integrity = k_not_set;
  password = [];
  buffer = [];
}

-- `is_stun_request_type`, `get_stun_success_response`, `get_stun_error_response`; `none` is -1.
unfoldable pub is_stun_request_type : ℕ → Bool
is_stun_request_type req_type = bit_and req_type k_stun_type_mask == 0

unfoldable pub get_stun_success_response : ℕ → Option ℕ
unfolding is_stun_request_type
get_stun_success_response req_type =
    if is_stun_request_type req_type then some (bit_or req_type 0x100) else none

unfoldable pub get_stun_error_response : ℕ → Option ℕ
unfolding is_stun_request_type
get_stun_error_response req_type =
    if is_stun_request_type req_type then some (bit_or req_type 0x110) else none

-- `get_attribute_value_type`.
unfoldable pub get_attribute_value_type : ℕ → StunAttributeValueType
get_attribute_value_type type =
    if type == stun_attr_username
    then stun_value_byte_string
    else if type == stun_attr_message_integrity
    then stun_value_byte_string
    else if type == stun_attr_priority
    then stun_value_uint32
    else stun_value_unknown
