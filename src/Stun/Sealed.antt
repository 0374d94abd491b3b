-- ===== src/Stun/Sealed.antt =====
-- A message that is signed and fingerprinted, sent, and read by its receiver.
use web_rtcserver.Prelude.{
  ℕ, ◌+◌, ◌%◌, ◌^◌, ◌<◌, ◌≡◌, ◌≢◌, refl, sym, ap, ◌∙◌, List, [], ◌∷◌, ◌++◌, some, arith, length,
  take, take_all, append-nil, append_assoc, true,
}
use web_rtcserver.Rtc.{RtcBase}
use web_rtcserver.Stun.Types.{
  StunAttribute, byte_string, StunMessage, StunAttributeValueType, stun_value_unknown,
  stun_value_uint32, stun_value_byte_string, get_attribute_value_type, k_integrity_ok,
  stun_attr_message_integrity,
}
use web_rtcserver.Stun.Message.{
  padded, write_padding, write_value, write_attrs, write_header, write, add_attribute,
  add_message_integrity, add_fingerprint,
}
use web_rtcserver.Stun.Parse.{parsed, get_attribute, read}
use web_rtcserver.Stun.Checks.{
  done, validate_fingerprint, validate_message_integrity_of_type, validate_message_integrity,
}
use web_rtcserver.Stun.Format.{
  IsWellFormed, body_length, body_length-mod, body_length-append, attrs_bytes, write_attrs_shape,
  write_attrs-append, write_attrs-cons,
}
use web_rtcserver.Stun.RoundTrip.{keep, known_attrs, received, read-write}
use web_rtcserver.Stun.Positions.{length-attrs_bytes, add_attribute-IsWellFormed}
use web_rtcserver.Stun.Fingerprint.{
  covered, fingerprint_attr, fingerprint_of, add_fingerprint_lem, write-add_fingerprint,
  validate_fingerprint-add_fingerprint,
}
use web_rtcserver.Stun.Search.{Lacks, header_of}
use web_rtcserver.Stun.Integrity.{
  integrity_attr, integrity_attr-IsSound, signed, validate_signed, add_message_integrity_lem,
}

-- What `ConnectionRequest::prepare` and the responders do last.
abbrev pub seal : RtcBase → List ℕ → StunMessage → StunMessage
seal r key m = (add_fingerprint r (add_message_integrity r key m).0).0

get_attribute-keep :
    (mi : ℕ) (t : StunAttributeValueType) (a : StunAttribute) (as' : List StunAttribute)
    → a.type ≢ mi
    → get_attribute mi (keep t a ++ as') ≡ get_attribute mi as'
unfolding get_attribute
get_attribute-keep mi stun_value_unknown a as' h = refl
get_attribute-keep mi stun_value_uint32 a as' h = ground arith
get_attribute-keep mi stun_value_byte_string a as' h = ground arith

padded_20 : padded 20 ≡ 20
unfolding padded
padded_20 = refl

-- The receiver finds the signature among the attributes that it keeps.
pub get_attribute-known_attrs :
    (mi : StunAttribute)
    → mi.type ≡ stun_attr_message_integrity
    → (as' more : List StunAttribute) → Lacks stun_attr_message_integrity as'
    → get_attribute stun_attr_message_integrity (known_attrs ((as' ++ mi ∷ []) ++ more)) ≡ some mi
unfolding get_attribute get_attribute_value_type
get_attribute-known_attrs mi e [] more l = ground arith
get_attribute-known_attrs mi e (a ∷ as') more l =
    get_attribute-keep stun_attr_message_integrity (get_attribute_value_type a.type) a
      (known_attrs ((as' ++ mi ∷ []) ++ more)) l.0
    ∙ get_attribute-known_attrs mi e as' more l.1

-- The status that the check leaves, where the attribute is there and its bytes are right.
validate_message_integrity_ok :
    (r : RtcBase) (key : List ℕ) (m : StunMessage) (a : StunAttribute)
    → get_attribute stun_attr_message_integrity m.attrs ≡ some a
    → validate_message_integrity_of_type r m.buffer key ≡ done true
    → validate_message_integrity r key m
      ≡ done (record m { password = key; integrity = k_integrity_ok })
unfolding validate_message_integrity
validate_message_integrity_ok r key m a e v = rw (validate_message_integrity, e, v)

module _ (r : RtcBase) where
  open r use {compute_hmac, length-compute_hmac, set_be32, length-set_be32}

  -- The signed message before its fingerprint.
  abbrev signed_message : List ℕ → List ℕ → StunMessage → StunMessage
  signed_message key mac m = record (add_attribute (integrity_attr mac) m) {
    integrity = k_integrity_ok;
    password = key;
  }

  signed_message-IsWellFormed :
      (key mac : List ℕ) (m : StunMessage)
      → IsWellFormed m
      → length mac ≡ 20
      → body_length m.attrs + 24 < 2 ^ 16
      → IsWellFormed (signed_message key mac m)
  signed_message-IsWellFormed key mac m w h room =
      let v =
        add_attribute-IsWellFormed m (integrity_attr mac) w (integrity_attr-IsSound mac h)
          (unfold padded in omega arith) in
      record {
        type_fits = v.type_fits;
        not_rtp = v.not_rtp;
        id_length = v.id_length;
        sound = v.sound;
        len_counts = v.len_counts;
        len_fits = v.len_fits;
      }

  -- The bytes of a signed message with its fingerprint pass the integrity check.
  sealed_integrity :
      (key : List ℕ) (m : StunMessage) (body : List ℕ) (v : ℕ)
      → IsWellFormed m
      → Lacks stun_attr_message_integrity m.attrs
      → body_length m.attrs + 32 < 2 ^ 16
      → write_attrs r m.attrs ≡ some body
      → length body ≡ body_length m.attrs
      → let mac = compute_hmac key (signed r m body) in
        validate_message_integrity_of_type r
          (covered r (signed_message key mac m) (body ++ attrs_bytes r (integrity_attr mac) mac [])
            ++ attrs_bytes r (fingerprint_attr v) (set_be32 v) [])
          key
        ≡ done true
  unfolding write_header add_attribute padded
  sealed_integrity key m body v w l room e n =
      let mac = compute_hmac key (signed r m body) in
      let macs = length-compute_hmac key (signed r m body) in
      let rest = attrs_bytes r (fingerprint_attr v) (set_be32 v) [] in
      let len = ((m.len + 24) % 2 ^ 16 + 8) % 2 ^ 16 in
      let split : covered r (signed_message key mac m)
              (body ++ attrs_bytes r (integrity_attr mac) mac [])
            ++ rest
          ≡ (header_of r m.type len m.transaction_id ++ body)
            ++ attrs_bytes r (integrity_attr mac) mac rest =
        simp append_assoc in
      let size : length rest ≡ 8 =
        length-attrs_bytes r (fingerprint_attr v) (set_be32 v) []
        ∙ omega (arith, length-set_be32 v) in
      let counts : len ≡ length body + 24 + length rest = omega (arith, w.len_counts) in
      ap (λ bs. validate_message_integrity_of_type r bs key) split
      ∙ validate_signed r m m.attrs body rest key len w.sound l e w.id_length counts
          (omega (arith, body_length-mod m.attrs)) (omega arith)

  signed_body :
      (key mac : List ℕ) (m : StunMessage) (body : List ℕ)
      → write_attrs r m.attrs ≡ some body
      → length mac ≡ 20
      → write_attrs r (signed_message key mac m).attrs
        ≡ some (body ++ attrs_bytes r (integrity_attr mac) mac [])
  unfolding add_attribute
  signed_body key mac m body e h =
      let value : write_value r 20 (byte_string mac) ≡ some mac =
        unfold write_value write_padding in
        ap some (append-nil (take 20 mac) ∙ take_all mac 20 (sym h)) in
      write_attrs-append r m.attrs (integrity_attr mac ∷ []) body _ e (
        write_attrs-cons r (integrity_attr mac) [] mac [] value (unfold write_attrs in refl)
        ∙ simp append-nil)

  -- What the receiver computes from the bytes of a signed and fingerprinted message.
  receive_sealed :
      (key : List ℕ) (m : StunMessage) (body : List ℕ)
      → IsWellFormed m
      → Lacks stun_attr_message_integrity m.attrs
      → body_length m.attrs + 32 < 2 ^ 16
      → write_attrs r m.attrs ≡ some body
      → length body ≡ body_length m.attrs
      → let s = (add_fingerprint r (signed_message key (compute_hmac key (signed r m body)) m)).0 in
        (bs : List ℕ) × (write r s ≡ some bs)
        × (validate_fingerprint r bs ≡ done true)
        × (read r bs ≡ parsed (received s bs))
        × (validate_message_integrity r key (received s bs)
            ≡ done (record (received s bs) { password = key; integrity = k_integrity_ok }))
  receive_sealed key m body w l room e n =
      let mac = compute_hmac key (signed r m body) in
      let macs = length-compute_hmac key (signed r m body) in
      let m' = signed_message key mac m in
      let w' = signed_message-IsWellFormed key mac m w macs (omega arith) in
      let body' = body ++ attrs_bytes r (integrity_attr mac) mac [] in
      let e' = signed_body key mac m body e macs in
      let room' : body_length m'.attrs + 8 < 2 ^ 16 =
        unfold add_attribute in
        omega (arith, body_length-append m.attrs (integrity_attr mac ∷ []), padded_20) in
      let (ok, well, bs, written, good) = validate_fingerprint-add_fingerprint r m' w' room' in
      let (bs', written', reads) = read-write r (add_fingerprint r m').0 well in
      let v = fingerprint_of r m' body' in
      let same : bs ≡ covered r m' body' ++ attrs_bytes r (fingerprint_attr v) (set_be32 v) [] =
        cc (written, write-add_fingerprint r m' body' e') in
      let same' : bs' ≡ bs = cc in
      let found : get_attribute stun_attr_message_integrity
            (received (add_fingerprint r m').0 bs).attrs
          ≡ some (integrity_attr mac) =
        rw (add_fingerprint_lem r m' body' e') (
          unfold add_attribute in
          get_attribute-known_attrs (integrity_attr mac) refl m.attrs (fingerprint_attr v ∷ [])
            l) in
      (
        bs,
        written,
        good,
        rw same' at reads,
        validate_message_integrity_ok r key (received (add_fingerprint r m').0 bs)
            (integrity_attr mac) found
            (ap (λ x. validate_message_integrity_of_type r x key) same
              ∙ sealed_integrity key m body v w l room e n),
      )

  -- A well-formed message with no MESSAGE-INTEGRITY yet, and with room for 32 bytes more: sealed,
  -- it is written, its bytes pass the fingerprint check, they are read, and the receiver that
  -- holds the same key finds the integrity good.
  pub validate-seal :
      (key : List ℕ) (m : StunMessage)
      → IsWellFormed m
      → Lacks stun_attr_message_integrity m.attrs
      → body_length m.attrs + 32 < 2 ^ 16
      → (bs : List ℕ) × (write r (seal r key m) ≡ some bs)
        × (validate_fingerprint r bs ≡ done true)
        × (read r bs ≡ parsed (received (seal r key m) bs))
        × (validate_message_integrity r key (received (seal r key m) bs)
            ≡ done (record (received (seal r key m) bs) {
              password = key;
              integrity = k_integrity_ok;
            }))
  validate-seal key m w l room =
      let (body, e, n) = write_attrs_shape r m.attrs w.sound in
      rw (seal, add_message_integrity_lem r m body key w (omega arith) e n)
        (receive_sealed key m body w l room e n)

  -- What a sealed message carries.
  pub seal-attrs :
      (key : List ℕ) (m : StunMessage)
      → IsWellFormed m
      → body_length m.attrs + 32 < 2 ^ 16
      → (mac : List ℕ) × (v : ℕ) × ((seal r key m).attrs
          ≡ (m.attrs ++ integrity_attr mac ∷ []) ++ fingerprint_attr v ∷ [])
        × ((seal r key m).type ≡ m.type)
  unfolding add_attribute
  seal-attrs key m w room =
      let (body, e, n) = write_attrs_shape r m.attrs w.sound in
      let mac = compute_hmac key (signed r m body) in
      let m' = signed_message key mac m in
      let body' = body ++ attrs_bytes r (integrity_attr mac) mac [] in
      let e' = signed_body key mac m body e (length-compute_hmac key (signed r m body)) in
      let shape : seal r key m ≡ add_attribute (fingerprint_attr (fingerprint_of r m' body')) m' =
        rw
          (
            seal,
            add_message_integrity_lem r m body key w (omega arith) e n,
            add_fingerprint_lem r m' body' e',
          )
          refl in
      (mac, fingerprint_of r m' body', ap (λ x. x.attrs) shape, ap (λ x. x.type) shape)
