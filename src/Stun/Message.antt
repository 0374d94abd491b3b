-- ===== src/Stun/Message.antt =====
-- ice/stun.cpp: the attributes, `add_attribute`, `write`, `add_message_integrity` and
-- `add_fingerprint`. A failed `write` (`false` in the source) is `none`.
use web_rtcserver.Prelude.{
  ℕ, ◌+◌, ◌-◌, ◌*◌, ◌/◌, ◌%◌, ◌^◌, Bool, true, false, List, [], ◌∷◌, ◌++◌, Option, none, some,
  length, take, replicate, update_last, ◌==◌, ltb, if◌then◌else◌, bit_or, bit_xor,
}
use web_rtcserver.Rtc.{RtcBase}
use web_rtcserver.Stun.Types.{
  StunAttribute, AttributeValue, address, xor_address, uint32, uint64, byte_string, error_code,
  StunMessage, k_integrity_ok, SocketAddress, IpAddress, ip_unspec, ip_v4, ip_v6, StunAddressFamily,
  stun_address_undef, stun_address_ipv4, stun_address_ipv6, family_code, k_stun_magic_cookie,
  k_stun_attribute_header_size, k_stun_message_integrity_size, stun_attr_message_integrity,
  stun_attr_error_code, stun_attr_fingerprint, stun_fingerprint_xor_value,
}

-- A length rounded up to four bytes, as the loops of the source write it out.
unfoldable pub padded : ℕ → ℕ
padded n = if n % 4 == 0 then n else n + (4 - n % 4)

-- `write_padding`: up to three zero bytes.
unfoldable pub write_padding : ℕ → List ℕ
write_padding n = let remain = n % 4 in if ltb 0 remain then replicate (4 - remain) 0 else []

-- `family()`.
unfoldable pub family : SocketAddress → StunAddressFamily
family addr = elim addr.ip [
  | ip_unspec ↦ stun_address_undef
  | ip_v4 a ↦ stun_address_ipv4
  | ip_v6 bs ↦ stun_address_ipv6
]

-- The length that `set_address` sets.
unfoldable pub address_length : SocketAddress → ℕ
address_length addr = elim (family addr) [
  | stun_address_undef ↦ 0
  | stun_address_ipv4 ↦ 8
  | stun_address_ipv6 ↦ 20
]

unfoldable pub new_xor_address : ℕ → SocketAddress → StunAttribute
new_xor_address type addr = record {
  type = type;
  len = address_length addr;
  value = xor_address addr;
}

unfoldable pub new_uint32 : ℕ → ℕ → StunAttribute
new_uint32 type bits = record { type = type; len = 4; value = uint32 bits }

unfoldable pub new_uint64 : ℕ → ℕ → StunAttribute
new_uint64 type bits = record { type = type; len = 8; value = uint64 bits }

-- The constructor over a string; `set_length` takes a uint16_t.
unfoldable pub new_byte_string : ℕ → List ℕ → StunAttribute
new_byte_string type str = record {
  type = type;
  len = length str % 2 ^ 16;
  value = byte_string str;
}

-- `copy_bytes` on an attribute.
unfoldable pub copy_bytes : List ℕ → StunAttribute → StunAttribute
copy_bytes bytes a = record a { len = length bytes % 2 ^ 16; value = byte_string bytes }

-- `set_value` of a uint32 attribute.
unfoldable pub set_value : ℕ → StunAttribute → StunAttribute
set_value v a = record a { value = uint32 v }

-- `create_error_code`, then `set_code` and `set_reason`.
unfoldable pub new_error_code : ℕ → List ℕ → StunAttribute
new_error_code code reason = record {
  type = stun_attr_error_code;
  len = (4 + length reason) % 2 ^ 16;
  value = error_code (code / 100 % 256) (code % 100 % 256) reason;
}

-- `StunErrorCodeAttribute::code`.
unfoldable pub code_of : AttributeValue → Option ℕ
code_of (error_code class number reason) = some (class * 100 + number)
code_of (address addr) = none
code_of (xor_address addr) = none
code_of (uint32 v) = none
code_of (uint64 v) = none
code_of (byte_string s) = none

-- `add_attribute`: the padded length and the header join the 16-bit message length.
unfoldable pub add_attribute : StunAttribute → StunMessage → StunMessage
add_attribute a m = record m {
  len = (m.len + (padded a.len + k_stun_attribute_header_size)) % 2 ^ 16;
  attrs = m.attrs ++ a ∷ [];
}

-- `_get_xored_ip`: IPv6 is not implemented and gives the unspecified address.
unfoldable pub get_xored_ip : SocketAddress → IpAddress
get_xored_ip addr = elim addr.ip [
  | ip_unspec ↦ ip_unspec
  | ip_v4 a ↦ ip_v4 (bit_xor a k_stun_magic_cookie)
  | ip_v6 bs ↦ ip_unspec
]

module _ (r : RtcBase) where
  open r use {set_be16, set_be32, set_be64, compute_crc32, compute_hmac}

  -- The end of both address writers, at the address to be written: reserved byte, family, port.
  unfoldable pub write_address : StunAddressFamily → ℕ → IpAddress → Option (List ℕ)
  write_address family port (ip_v4 a) =
      some (0 ∷ family_code family ∷ (set_be16 port ++ set_be32 a))
  write_address family port (ip_v6 bs) = some (0 ∷ family_code family ∷ (set_be16 port ++ bs))
  write_address family port ip_unspec = none

  -- The `write` of each subclass; `len` is `length()`.
  unfoldable pub write_value : ℕ → AttributeValue → Option (List ℕ)
  write_value len (address addr) = write_address (family addr) addr.port addr.ip
  write_value len (xor_address addr) =
      write_address (family addr) (bit_xor addr.port (k_stun_magic_cookie / 2 ^ 16))
        (get_xored_ip addr)
  write_value len (uint32 bits) = some (set_be32 bits)
  write_value len (uint64 bits) = some (set_be64 bits)
  write_value len (byte_string bytes) = some (take len bytes ++ write_padding len)
  write_value len (error_code class number reason) =
      some (set_be32 (bit_or (class * 2 ^ 8) number) ++ (reason ++ write_padding len))

  -- The loop of `write`: each attribute's header and value.
  unfoldable pub write_attrs : List StunAttribute → Option (List ℕ)
  write_attrs [] = some []
  write_attrs (a ∷ as') = elim (write_value a.len a.value) [
    | none ↦ none
    | some body ↦ elim (write_attrs as') [
      | none ↦ none
      | some rest ↦ some (set_be16 a.type ++ (set_be16 a.len ++ (body ++ rest)))
    ]
  ]

  -- The header that `write` begins with.
  unfoldable pub write_header : StunMessage → List ℕ
  write_header m =
      set_be16 m.type ++ (set_be16 m.len ++ (set_be32 k_stun_magic_cookie ++ m.transaction_id))

  -- `StunMessage::write`.
  unfoldable pub write : StunMessage → Option (List ℕ)
  write m = elim (write_attrs m.attrs) [ none ↦ none | some body ↦ some (write_header m ++ body) ]

  -- `add_message_integrity`: a placeholder goes in, the HMAC of all before it replaces its bytes.
  -- On failure the placeholder stays, as in the source.
  unfoldable pub add_message_integrity : List ℕ → StunMessage → StunMessage × Bool
  add_message_integrity key m =
      let placeholder =
        new_byte_string stun_attr_message_integrity
          (replicate k_stun_message_integrity_size b'0') in
      let m' = add_attribute placeholder m in
      elim (write m') [
        | none ↦ (m', false)
        | some buf ↦
            let hmac =
              compute_hmac key
                (take (length buf - k_stun_attribute_header_size - placeholder.len) buf) in
            if length hmac == k_stun_message_integrity_size
            then (
              record m' {
                attrs = update_last (copy_bytes hmac) m'.attrs;
                password = key;
                integrity = k_integrity_ok;
              },
              true,
            )
            else (m', false)
      ]

  -- `add_fingerprint`: the CRC-32 of all before the attribute, masked.
  unfoldable pub add_fingerprint : StunMessage → StunMessage × Bool
  add_fingerprint m =
      let m' = add_attribute (new_uint32 stun_attr_fingerprint 0) m in
      elim (write m') [
        | none ↦ (m', false)
        | some buf ↦
            let c = compute_crc32 (take (length buf - k_stun_attribute_header_size - 4) buf) in
            (
              record m' {
                attrs = update_last (set_value (bit_xor c stun_fingerprint_xor_value)) m'.attrs;
              },
              true,
            )
      ]
