-- ===== src/Ice/Ping.antt =====
-- A connectivity check between two ports that run ice/udp_port.cpp: what one prepares, the other
-- accepts.
use web_rtcserver.Prelude.{
  ℕ, ◌+◌, ◌*◌, ◌%◌, ◌^◌, ◌<◌, ◌≡◌, ◌≢◌, refl, ap, ◌∙◌, true, List, [], ◌∷◌, ◌++◌, some, arith,
  length, All, bit_and, bit_or, ◌==◌,
}
use web_rtcserver.Prelude.Bits.{bit_or-lt, bit_and-lt}
use web_rtcserver.Rtc.{RtcBase}
use web_rtcserver.Stun.Types.{
  StunMessage, StunAttribute, byte_string, uint32, uint64, stun_attr_username,
  stun_attr_message_integrity, stun_binding_request, k_integrity_ok, get_attribute_value_type,
}
use web_rtcserver.Stun.Message.{
  padded, new_byte_string, new_uint32, new_uint64, add_attribute, write,
}
use web_rtcserver.Stun.Parse.{parsed, get_attribute, read}
use web_rtcserver.Stun.Checks.{done, validate_fingerprint, validate_message_integrity}
use web_rtcserver.Stun.Format.{IsSound, IsWellFormed, body_length, padded_bounds}
use web_rtcserver.Stun.RoundTrip.{received, known_attrs}
use web_rtcserver.Stun.Search.{Lacks}
use web_rtcserver.Stun.Sealed.{seal, validate-seal, seal-attrs}
use web_rtcserver.Stun.Integrity.{integrity_attr}
use web_rtcserver.Stun.Fingerprint.{fingerprint_attr}
use web_rtcserver.Ice.Defs.{IceParameters}
use web_rtcserver.Ice.Port.{
  bytes_of, get_byte_string, create_stun_username, accepted, is_integrity_ok, accept_checked,
  parse_stun_username, accept_request, accept_read, get_stun_message, request_body, prepare,
}

abbrev username_attr : List ℕ → StunAttribute
username_attr s = record { type = 6; len = length s % 2 ^ 16; value = byte_string s }

abbrev request_attrs : List ℕ → ℕ → List StunAttribute
request_attrs username bits =
    username_attr username
    ∷ record { type = 0x802A; len = 8; value = uint64 0 }
    ∷ record { type = 0x25; len = 0; value = byte_string [] }
    ∷ record { type = 0x24; len = 4; value = uint32 bits }
    ∷ []

-- The priority that a request carries is a 32-bit number.
abbrev request_priority : ℕ → ℕ
request_priority local_priority = bit_or (110 * 2 ^ 24) (bit_and local_priority 0x00FFFFFF)

request_priority-lt : (p : ℕ) → p < 2 ^ 32 → request_priority p < 2 ^ 32
request_priority-lt p h =
    bit_or-lt 32 (110 * 2 ^ 24) (bit_and p 0x00FFFFFF) (omega arith)
      (bit_and-lt 32 p 0x00FFFFFF h (omega arith))

request_attrs-IsSound :
    (username : List ℕ) (bits : ℕ)
    → length username < 2 ^ 15
    → bits < 2 ^ 32
    → All IsSound (request_attrs username bits)
unfolding get_attribute_value_type
request_attrs-IsSound username bits h k = (
  record {
    type_fits = omega arith;
    len_fits = omega arith;
    shape = omega arith;
    kind = (username, refl);
  },
  (
    record { type_fits = omega arith; len_fits = omega arith; shape = refl; kind = tt },
    (
      record { type_fits = omega arith; len_fits = omega arith; shape = refl; kind = tt },
      (
        record {
          type_fits = omega arith;
          len_fits = omega arith;
          shape = (refl, k);
          kind = (bits, refl);
        },
        tt,
      ),
    ),
  ),
)

request_attrs-Lacks :
    (username : List ℕ) (bits : ℕ) → Lacks stun_attr_message_integrity (request_attrs username bits)
request_attrs-Lacks username bits =
    (λ e. ground arith, (λ e. ground arith, (λ e. ground arith, (λ e. ground arith, tt))))

sizes : (padded 0 ≡ 0) × (padded 4 ≡ 4) × (padded 8 ≡ 8)
unfolding padded
sizes = (refl, refl, refl)

module _ (r : RtcBase) (own peer : IceParameters) (local_priority : ℕ) (id : List ℕ) where
  open r use {split, split_two}

  abbrev username : List ℕ
  username = create_stun_username own.ice_ufrag peer.ice_ufrag

  request_type : (request_body r own peer.ice_ufrag local_priority id).type ≡ stun_binding_request
  unfolding request_body add_attribute
  request_type = refl

  request_body_attrs :
      (request_body r own peer.ice_ufrag local_priority id).attrs
      ≡ request_attrs username (request_priority local_priority)
  unfolding request_body add_attribute new_byte_string new_uint32 new_uint64
  request_body_attrs = refl

  request_body-IsWellFormed :
      length id ≡ 12
      → length username < 2 ^ 15
      → local_priority < 2 ^ 32
      → IsWellFormed (request_body r own peer.ice_ufrag local_priority id)
  unfolding request_body add_attribute new_byte_string new_uint32 new_uint64
  request_body-IsWellFormed n h k = record {
    type_fits = omega arith;
    not_rtp = refl;
    id_length = n;
    sound =
        request_attrs-IsSound username (request_priority local_priority) h
          (request_priority-lt local_priority k);
    len_counts = omega (arith, sizes.0, sizes.1, sizes.2, padded_bounds (length username % 2 ^ 16));
    len_fits = omega (arith, sizes.0, sizes.1, sizes.2, padded_bounds (length username % 2 ^ 16));
  }

  -- The names that the receiver finds in the message.
  found_username :
      (more : List StunAttribute)
      → get_attribute stun_attr_username
          (known_attrs (request_attrs username (request_priority local_priority) ++ more))
        ≡ some (username_attr username)
  unfolding get_attribute get_attribute_value_type
  found_username more = refl

  parsed_username :
      (m : StunMessage)
      → get_attribute stun_attr_username m.attrs ≡ some (username_attr username)
      → All (λ x. x ≢ b':') own.ice_ufrag
      → All (λ x. x ≢ b':') peer.ice_ufrag
      → (get_byte_string stun_attr_username m ≡ some username)
        × (parse_stun_username r m ≡ some (peer.ice_ufrag, own.ice_ufrag))
  unfolding parse_stun_username get_byte_string bytes_of create_stun_username
  parsed_username m e p q = (
    rw (get_byte_string, e) refl,
    rw (parse_stun_username, get_byte_string, e, split_two peer.ice_ufrag own.ice_ufrag b':' q p)
        refl,
  )

  -- The receiver takes the branch of a request whose checks all pass.
  accepts :
      (m : StunMessage) (bs : List ℕ) (mi : StunAttribute) (s : List ℕ)
      → m.type ≡ stun_binding_request
      → get_attribute stun_attr_message_integrity m.attrs ≡ some mi
      → mi.value ≡ byte_string s
      → get_attribute stun_attr_username m.attrs ≡ some (username_attr username)
      → All (λ x. x ≢ b':') own.ice_ufrag
      → All (λ x. x ≢ b':') peer.ice_ufrag
      → validate_fingerprint r bs ≡ done true
      → read r bs ≡ parsed m
      → validate_message_integrity r peer.ice_pwd m
        ≡ done (record m { password = peer.ice_pwd; integrity = k_integrity_ok })
      → get_stun_message r peer bs
        ≡ accepted (record m { password = peer.ice_pwd; integrity = k_integrity_ok }) own.ice_ufrag
  unfolding get_stun_message accept_read accept_request accept_checked is_integrity_ok bytes_of
      get_byte_string
  accepts m bs mi s t e v u p q f g h =
      let (name, fields) = parsed_username m u p q in
      let signed : get_byte_string stun_attr_message_integrity m ≡ some s =
        rw (get_byte_string, e, bytes_of, v) refl in
      let request : (m.type == stun_binding_request) ≡ true = ground arith in
      rw (get_stun_message, f, g, accept_read, request, accept_request, name, signed, fields, h)
        refl

  -- What the receiver keeps of a sealed request.
  kept :
      (as' : List StunAttribute) (mac : List ℕ) (v : ℕ)
      → as'
        ≡ (request_attrs username (request_priority local_priority) ++ integrity_attr mac ∷ [])
          ++ fingerprint_attr v ∷ []
      → (get_attribute stun_attr_username (known_attrs as') ≡ some (username_attr username))
        × (get_attribute stun_attr_message_integrity (known_attrs as') ≡ some (integrity_attr mac))
  unfolding get_attribute get_attribute_value_type
  kept as' mac v e = rw e (refl, refl)

  -- A connectivity check that `prepare` makes for a peer is written, and the peer's port, whose
  -- password signed it, accepts the bytes as a message with the sender's user name fragment; where
  -- neither fragment has a colon, the user name made of the two is shorter than 2^15 bytes, the
  -- transaction id has 12 bytes, and the local priority is below 2^32.
  pub get_stun_message-prepare :
      length id ≡ 12
      → length username < 2 ^ 15
      → local_priority < 2 ^ 32
      → All (λ x. x ≢ b':') own.ice_ufrag
      → All (λ x. x ≢ b':') peer.ice_ufrag
      → (bs : List ℕ) × (m : StunMessage) × (write r (prepare r own peer local_priority id)
          ≡ some bs)
        × (get_stun_message r peer bs ≡ accepted m own.ice_ufrag)
  unfolding prepare
  get_stun_message-prepare n h k p q =
      let req = request_body r own peer.ice_ufrag local_priority id in
      let w = request_body-IsWellFormed n h k in
      let room : body_length req.attrs + 32 < 2 ^ 16 =
        rw request_body_attrs
          (omega (arith, sizes.0, sizes.1, sizes.2, padded_bounds (length username % 2 ^ 16))) in
      let (bs, written, good, reads, whole) =
        validate-seal r peer.ice_pwd req w
          (rw request_body_attrs (request_attrs-Lacks username (request_priority local_priority)))
          room in
      let (mac, v, attrs, type) = seal-attrs r peer.ice_pwd req w room in
      let (named, signed) = kept _ mac v (
        attrs
        ∙ ap (λ x. (x ++ integrity_attr mac ∷ []) ++ fingerprint_attr v ∷ []) request_body_attrs) in
      (
        bs,
        _,
        written,
        accepts (received (seal r peer.ice_pwd req) bs) bs (integrity_attr mac) mac
            (type ∙ request_type) signed refl named p q good reads whole,
      )
