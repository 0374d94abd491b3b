-- ===== src/Stun/Integrity.antt =====
-- `add_message_integrity` and `validate_message_integrity` agree, also when a fingerprint follows.
use web_rtcserver.Prelude.{
  ℕ, suc, ◌+◌, ◌-◌, ◌%◌, ◌^◌, ◌<◌, ◌≡◌, refl, sym, ap, ◌∙◌, List, [], ◌∷◌, ◌++◌, some, arith,
  length, take, take-append, length-append, append_assoc, All, true, update_last,
  update_last-append, replicate,
}
use web_rtcserver.Rtc.{RtcBase}
use web_rtcserver.Stun.Types.{
  k_stun_magic_cookie, StunAttribute, StunMessage, byte_string, k_integrity_ok,
  stun_attr_message_integrity, get_attribute_value_type,
}
use web_rtcserver.Stun.Message.{
  padded, write_padding, new_byte_string, copy_bytes, write_value, write_attrs, write_header, write,
  add_attribute, add_message_integrity,
}
use web_rtcserver.Stun.Checks.{
  done, be16_at, memcmp_at, find_attribute, hmac_input, validate_message_integrity_of_type,
}
use web_rtcserver.Stun.Format.{IsSound, IsWellFormed, body_length, attrs_bytes}
use web_rtcserver.Stun.Positions.{be16_at-set_be16, memcmp_at_same, length-attrs_bytes, write_push}
use web_rtcserver.Stun.Search.{
  length-header_of, Lacks, find_attribute-write_attrs, header_of, hmac_input_lem,
}

-- The attribute with its final bytes.
abbrev pub integrity_attr : List ℕ → StunAttribute
integrity_attr mac = record {
  type = stun_attr_message_integrity;
  len = 20;
  value = byte_string mac;
}

pub integrity_attr-IsSound : (mac : List ℕ) → length mac ≡ 20 → IsSound (integrity_attr mac)
unfolding get_attribute_value_type
integrity_attr-IsSound mac h = record {
  type_fits = omega arith;
  len_fits = omega arith;
  shape = sym h;
  kind = (mac, refl);
}

module _ (r : RtcBase) where
  open r use {
    set_be16, set_be32, length-set_be16, length-set_be32, compute_hmac, length-compute_hmac,
  }

  -- The bytes that the HMAC covers: all before the attribute, the length field counting it.
  abbrev pub signed : StunMessage → List ℕ → List ℕ
  signed m body = header_of r m.type (length body + 24) m.transaction_id ++ body

  -- The fields that the check reads, where the search has found the attribute.
  validate_fields :
      (bs key mac : List ℕ) (len pos : ℕ)
      → length bs % 4 ≡ 0
      → be16_at r bs 2 ≡ done len
      → len + 20 ≡ length bs
      → find_attribute r (suc (length bs)) stun_attr_message_integrity bs 20 ≡ done (some pos)
      → compute_hmac key (hmac_input r bs pos) ≡ mac
      → memcmp_at bs (pos + 4) mac ≡ done true
      → length mac ≡ 20
      → validate_message_integrity_of_type r bs key ≡ done true
  unfolding validate_message_integrity_of_type
  validate_fields bs key mac len pos m e n f h c s = ground arith

  -- A datagram passes the integrity check if it holds, behind sound attributes of other types, the
  -- HMAC of what comes before it, whatever follows; where its transaction id has 12 bytes, and its
  -- length field is below 2^16, a multiple of 4 and the number of bytes after the header.
  pub validate_signed :
      (m : StunMessage) (as' : List StunAttribute) (body rest key : List ℕ) (len : ℕ)
      → All IsSound as'
      → Lacks stun_attr_message_integrity as'
      → write_attrs r as' ≡ some body
      → length m.transaction_id ≡ 12
      → len ≡ length body + 24 + length rest
      → len % 4 ≡ 0
      → len < 2 ^ 16
      → let mac = compute_hmac key (signed m body) in
        validate_message_integrity_of_type r
          ((header_of r m.type len m.transaction_id ++ body)
            ++ attrs_bytes r (integrity_attr mac) mac rest)
          key
        ≡ done true
  validate_signed m as' body rest key len s l e hid hl h4 fits =
      let mac = compute_hmac key (signed m body) in
      let macs = length-compute_hmac key (signed m body) in
      let header = header_of r m.type len m.transaction_id in
      let mi = set_be16 stun_attr_message_integrity ++ (set_be16 20 ++ mac) in
      let last = attrs_bytes r (integrity_attr mac) mac rest in
      let bs = (header ++ body) ++ last in
      let sizes : length header ≡ 20 =
        length-header_of r m.type len m.transaction_id ∙ omega arith in
      let size : length bs ≡ 20 + len =
        rw (length-append (header ++ body) last, length-append header body)
          (omega (arith, length-attrs_bytes r (integrity_attr mac) mac rest)) in
      let whole : bs ≡ (header ++ body) ++ (mi ++ rest) = simp append_assoc in
      let mis : length mi ≡ 24 =
        rw
          (
            length-append (set_be16 stun_attr_message_integrity) (set_be16 20 ++ mac),
            length-append (set_be16 20) mac,
          )
          (omega (arith, length-set_be16 stun_attr_message_integrity, length-set_be16 20)) in
      validate_fields bs key mac len (20 + length body) (omega arith)
        (be16_at-set_be16 r (set_be16 m.type) len
          (((set_be32 k_stun_magic_cookie ++ m.transaction_id) ++ body) ++ last) bs 2
          (simp append_assoc) (sym (length-set_be16 m.type)) fits)
        (omega arith)
        (find_attribute-write_attrs r stun_attr_message_integrity as' header body bs (mac ++ rest)
          20 (suc (length bs)) 20 s l e (append_assoc header body last) (sym sizes) (omega arith)
          (omega arith) (omega arith))
        (ap (λ x. compute_hmac key (hmac_input r x (20 + length body))) whole
          ∙ ap (compute_hmac key)
              (hmac_input_lem r m.type len m.transaction_id body mi rest mis hid hl fits))
        (memcmp_at_same r
          ((header ++ body) ++ (set_be16 stun_attr_message_integrity ++ set_be16 20)) mac rest bs _
          (simp append_assoc)
          (rw
            (
              length-append (header ++ body) (set_be16 stun_attr_message_integrity ++ set_be16 20),
              length-append header body,
              length-append (set_be16 stun_attr_message_integrity) (set_be16 20),
            )
            (omega (arith, length-set_be16 stun_attr_message_integrity, length-set_be16 20))))
        macs

  header_added :
      (m : StunMessage) (size : ℕ) (a : StunAttribute)
      → a.len ≡ 20
      → m.len ≡ body_length m.attrs
      → size ≡ body_length m.attrs
      → body_length m.attrs + 24 < 2 ^ 16
      → write_header r (add_attribute a m) ≡ header_of r m.type (size + 24) m.transaction_id
  unfolding write_header add_attribute padded
  header_added m size a ha hl hs room =
      let n : (m.len + (padded a.len + 4)) % 2 ^ 16 ≡ size + 24 = rw ha (omega arith) in
      ap (λ len. header_of r m.type len m.transaction_id) n

  -- `add_message_integrity` succeeds and appends the HMAC.
  pub add_message_integrity_lem :
      (m : StunMessage) (body key : List ℕ)
      → IsWellFormed m
      → body_length m.attrs + 24 < 2 ^ 16
      → write_attrs r m.attrs ≡ some body
      → length body ≡ body_length m.attrs
      → add_message_integrity r key m ≡ (
        record (add_attribute (integrity_attr (compute_hmac key (signed m body))) m) {
          integrity = k_integrity_ok;
          password = key;
        },
        true,
      )
  unfolding add_message_integrity add_attribute new_byte_string copy_bytes
  add_message_integrity_lem m body key w room e n =
      let mac = compute_hmac key (signed m body) in
      let macs = length-compute_hmac key (signed m body) in
      let zeros : List ℕ = replicate 20 b'0' in
      let m' = add_attribute (integrity_attr zeros) m in
      let tail = attrs_bytes r (integrity_attr zeros) zeros [] in
      let header : write_header r m' ≡ header_of r m.type (length body + 24) m.transaction_id =
        header_added m (length body) (integrity_attr zeros) refl w.len_counts n room in
      let written : write r m' ≡ some (signed m body ++ tail) = rw header at (
        write_push r m' m.attrs (integrity_attr zeros) body zeros refl e
          (unfold write_value write_padding in refl)) in
      let size : length (signed m body ++ tail) ≡ length (signed m body) + 24 =
        length-append (signed m body) tail
        ∙ omega (arith, length-attrs_bytes r (integrity_attr zeros) zeros []) in
      let front : take (length (signed m body ++ tail) - 4 - 20) (signed m body ++ tail)
          ≡ signed m body =
        take-append (signed m body) tail _ (omega arith) in
      let last : update_last (copy_bytes mac) (m.attrs ++ integrity_attr zeros ∷ [])
          ≡ m.attrs ++ integrity_attr mac ∷ [] =
        update_last-append (copy_bytes mac) m.attrs (integrity_attr zeros) ∙ rw macs in
      rw (add_message_integrity, written, front, macs, last)
