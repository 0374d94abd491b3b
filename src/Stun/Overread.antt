-- ===== src/Stun/Overread.antt =====
-- A datagram with an empty MESSAGE-INTEGRITY, which needs no key to make.
use web_rtcserver.Prelude.{
  ℕ, suc, ◌+◌, ◌%◌, ◌^◌, ◌<◌, ◌≡◌, refl, sym, ap, ◌∙◌, List, [], ◌∷◌, ◌++◌, some, arith, true,
  length, append_assoc, append-nil, length-append,
}
use web_rtcserver.Rtc.{RtcBase}
use web_rtcserver.Stun.Types.{
  k_stun_magic_cookie, StunAttribute, StunMessage, byte_string, get_attribute_value_type,
  stun_attr_message_integrity,
}
use web_rtcserver.Stun.Message.{
  padded, write_padding, write_value, write_attrs, write_header, write, add_attribute,
  add_fingerprint,
}
use web_rtcserver.Stun.Parse.{parsed, get_attribute, read}
use web_rtcserver.Stun.Checks.{
  done, fault, be16_at, memcmp_at, find_attribute, hmac_input, validate_fingerprint,
  validate_message_integrity_of_type, validate_message_integrity,
}
use web_rtcserver.Stun.Format.{
  IsSound, IsWellFormed, body_length, body_length-mod, body_length-append, attrs_bytes,
  write_attrs_shape, write_attrs-append, write_attrs-cons,
}
use web_rtcserver.Stun.RoundTrip.{received, read-write}
use web_rtcserver.Stun.Positions.{be16_at-set_be16, length-attrs_bytes, add_attribute-IsWellFormed}
use web_rtcserver.Stun.Fingerprint.{
  covered, fingerprint_attr, fingerprint_of, add_fingerprint_lem, write-add_fingerprint,
  validate_fingerprint-add_fingerprint,
}
use web_rtcserver.Stun.Search.{Lacks, find_attribute-write_attrs, header_of, length-header_of}
use web_rtcserver.Stun.Sealed.{get_attribute-known_attrs}

-- `StunByteStringAttribute(STUN_ATTR_MESSAGE_INTEGRITY, "")`.
abbrev pub empty_integrity : StunAttribute
empty_integrity = record { type = stun_attr_message_integrity; len = 0; value = byte_string [] }

empty_integrity-IsSound : IsSound empty_integrity
unfolding get_attribute_value_type
empty_integrity-IsSound = record {
  type_fits = omega arith;
  len_fits = omega arith;
  shape = refl;
  kind = ([], refl);
}

padded_zero : padded 0 ≡ 0
unfolding padded
padded_zero = refl

module _ (r : RtcBase) where
  open r use {
    compute_hmac, length-compute_hmac, set_be16, set_be32, length-set_be16, length-set_be32,
  }

  -- Where the attribute lies too near the end, the comparison leaves the datagram.
  validate_overreads :
      (bs key : List ℕ) (len pos : ℕ)
      → length bs % 4 ≡ 0
      → be16_at r bs 2 ≡ done len
      → len + 20 ≡ length bs
      → find_attribute r (suc (length bs)) stun_attr_message_integrity bs 20 ≡ done (some pos)
      → length (compute_hmac key (hmac_input r bs pos)) ≡ 20
      → length bs < pos + 24
      → validate_message_integrity_of_type r bs key ≡ fault
  unfolding validate_message_integrity_of_type memcmp_at
  validate_overreads bs key len pos m e n f s h = ground arith

  empty_integrity_overreads :
      (m : StunMessage) (body key : List ℕ) (v : ℕ)
      → IsWellFormed m
      → Lacks stun_attr_message_integrity m.attrs
      → body_length m.attrs + 12 < 2 ^ 16
      → write_attrs r m.attrs ≡ some body
      → length body ≡ body_length m.attrs
      → validate_message_integrity_of_type r
          (covered r (add_attribute empty_integrity m) (body ++ attrs_bytes r empty_integrity [] [])
            ++ attrs_bytes r (fingerprint_attr v) (set_be32 v) [])
          key
        ≡ fault
  unfolding write_header add_attribute padded
  empty_integrity_overreads m body key v w l room e n =
      let rest = attrs_bytes r (fingerprint_attr v) (set_be32 v) [] in
      let len = ((m.len + 4) % 2 ^ 16 + 8) % 2 ^ 16 in
      let header = header_of r m.type len m.transaction_id in
      let last = attrs_bytes r empty_integrity [] rest in
      let bs = (header ++ body) ++ last in
      let split : covered r (add_attribute empty_integrity m)
              (body ++ attrs_bytes r empty_integrity [] [])
            ++ rest
          ≡ bs =
        simp (append_assoc, append-nil) in
      let sizes : length header ≡ 20 =
        length-header_of r m.type len m.transaction_id ∙ omega (arith, w.id_length) in
      let counts : len ≡ length body + 12 = omega (arith, w.len_counts) in
      let size : length bs ≡ 20 + len =
        rw (length-append (header ++ body) last, length-append header body)
          (omega (
            arith,
            length-attrs_bytes r empty_integrity [] rest,
            length-attrs_bytes r (fingerprint_attr v) (set_be32 v) [],
            length-set_be32 v,
          )) in
      ap (λ x. validate_message_integrity_of_type r x key) split
      ∙ validate_overreads bs key len (20 + length body) (omega (arith, body_length-mod m.attrs))
          (be16_at-set_be16 r (set_be16 m.type) len
            (((set_be32 k_stun_magic_cookie ++ m.transaction_id) ++ body) ++ last) bs 2
            (simp append_assoc) (sym (length-set_be16 m.type)) (omega arith))
          (omega arith)
          (find_attribute-write_attrs r stun_attr_message_integrity m.attrs header body bs rest 0
            (suc (length bs)) 20 w.sound l e (append_assoc header body last) (sym sizes)
            (omega arith) (omega arith) (omega arith))
          (length-compute_hmac key _) (omega arith)

  empty_body :
      (m : StunMessage) (body : List ℕ)
      → write_attrs r m.attrs ≡ some body
      → write_attrs r (add_attribute empty_integrity m).attrs
        ≡ some (body ++ attrs_bytes r empty_integrity [] [])
  unfolding add_attribute
  empty_body m body e = write_attrs-append r m.attrs (empty_integrity ∷ []) body _ e (
      write_attrs-cons r empty_integrity [] [] [] (unfold write_value write_padding in refl)
        (unfold write_attrs in refl))

  validate_message_integrity_fault :
      (key : List ℕ) (m : StunMessage) (a : StunAttribute)
      → get_attribute stun_attr_message_integrity m.attrs ≡ some a
      → validate_message_integrity_of_type r m.buffer key ≡ fault
      → validate_message_integrity r key m ≡ fault
  unfolding validate_message_integrity
  validate_message_integrity_fault key m a e v = rw (validate_message_integrity, e, v)

  -- Whoever appends an empty MESSAGE-INTEGRITY and a fingerprint to a well-formed message that has
  -- no MESSAGE-INTEGRITY, and has room for 12 bytes more, makes a datagram that passes the
  -- fingerprint check and is read, and on which the integrity check, under every key, compares
  -- bytes beyond the end of the datagram.
  pub validate_message_integrity_overread :
      (m : StunMessage) (key : List ℕ)
      → IsWellFormed m
      → Lacks stun_attr_message_integrity m.attrs
      → body_length m.attrs + 12 < 2 ^ 16
      → let s = (add_fingerprint r (add_attribute empty_integrity m)).0 in
        (bs : List ℕ) × (write r s ≡ some bs)
        × (validate_fingerprint r bs ≡ done true)
        × (read r bs ≡ parsed (received s bs))
        × (validate_message_integrity r key (received s bs) ≡ fault)
  validate_message_integrity_overread m key w l room =
      let (body, e, n) = write_attrs_shape r m.attrs w.sound in
      let m' = add_attribute empty_integrity m in
      let w' =
        add_attribute-IsWellFormed m empty_integrity w empty_integrity-IsSound
          (omega (arith, padded_zero)) in
      let body' = body ++ attrs_bytes r empty_integrity [] [] in
      let e' = empty_body m body e in
      let room' : body_length m'.attrs + 8 < 2 ^ 16 =
        unfold add_attribute in
        omega (arith, body_length-append m.attrs (empty_integrity ∷ []), padded_zero) in
      let (ok, well, bs, written, good) = validate_fingerprint-add_fingerprint r m' w' room' in
      let (bs', written', reads) = read-write r (add_fingerprint r m').0 well in
      let v = fingerprint_of r m' body' in
      let same : bs ≡ covered r m' body' ++ attrs_bytes r (fingerprint_attr v) (set_be32 v) [] =
        cc (written, write-add_fingerprint r m' body' e') in
      let same' : bs' ≡ bs = cc in
      let found : get_attribute stun_attr_message_integrity
            (received (add_fingerprint r m').0 bs).attrs
          ≡ some empty_integrity =
        rw (add_fingerprint_lem r m' body' e') (
          unfold add_attribute in
          get_attribute-known_attrs empty_integrity refl m.attrs (fingerprint_attr v ∷ []) l) in
      (
        bs,
        written,
        good,
        rw same' at reads,
        validate_message_integrity_fault key (received (add_fingerprint r m').0 bs) empty_integrity
            found
            (ap (λ x. validate_message_integrity_of_type r x key) same
              ∙ empty_integrity_overreads m body key v w l room e n),
      )
