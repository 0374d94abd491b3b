-- ===== src/Stun/Fingerprint.antt =====
-- `add_fingerprint` and `validate_fingerprint` agree.
use web_rtcserver.Prelude.{
  ℕ, ◌+◌, ◌-◌, ◌%◌, ◌^◌, ◌≤◌, ◌<◌, ◌≡◌, refl, ap, ◌∙◌, List, [], ◌++◌, some, arith, length, take,
  take-append, length-append, append_assoc, bit_xor, true, update_last-append,
}
use web_rtcserver.Prelude.Bits.{bit_xor-lt, bit_xor-bit_xor}
use web_rtcserver.Rtc.{RtcBase}
use web_rtcserver.Stun.Types.{
  get_attribute_value_type, StunAttribute, StunMessage, uint32, k_stun_magic_cookie,
  stun_attr_fingerprint, stun_fingerprint_xor_value,
}
use web_rtcserver.Stun.Message.{
  padded, new_uint32, set_value, write_value, write_attrs, write_header, write, add_attribute,
  add_fingerprint,
}
use web_rtcserver.Stun.Checks.{done, be16_at, be32_at, validate_fingerprint}
use web_rtcserver.Stun.Format.{
  IsSound, IsWellFormed, body_length, body_length-mod, attrs_bytes, write_attrs_shape,
}
use web_rtcserver.Stun.Positions.{
  be16_at-set_be16, be32_at-set_be32, length-write_header, length-attrs_bytes, write_push,
  add_attribute-IsWellFormed,
}

-- The attribute with its final value.
abbrev pub fingerprint_attr : ℕ → StunAttribute
fingerprint_attr v = record { type = stun_attr_fingerprint; len = 4; value = uint32 v }

fingerprint_attr-IsSound : (v : ℕ) → v < 2 ^ 32 → IsSound (fingerprint_attr v)
unfolding get_attribute_value_type
fingerprint_attr-IsSound v h = record {
  type_fits = omega arith;
  len_fits = omega arith;
  shape = (refl, h);
  kind = tt;
}

module _ (r : RtcBase) where
  open r use {set_be16, set_be32, length-set_be16, length-set_be32, compute_crc32, compute_crc32-lt}

  covered_id :
      (m : StunMessage)
      → length (add_attribute (fingerprint_attr 0) m).transaction_id ≡ length m.transaction_id
  unfolding add_attribute
  covered_id m = refl

  -- The bytes that the checksum covers: all before the attribute, under the final length field.
  abbrev pub covered : StunMessage → List ℕ → List ℕ
  covered m body = write_header r (add_attribute (fingerprint_attr 0) m) ++ body

  abbrev pub fingerprint_of : StunMessage → List ℕ → ℕ
  fingerprint_of m body = bit_xor (compute_crc32 (covered m body)) stun_fingerprint_xor_value

  pub fingerprint_of-lt : (m : StunMessage) (body : List ℕ) → fingerprint_of m body < 2 ^ 32
  fingerprint_of-lt m body =
      bit_xor-lt 32 _ stun_fingerprint_xor_value (compute_crc32-lt _) (omega arith)

  -- `add_fingerprint` succeeds and appends the checksum.
  pub add_fingerprint_lem :
      (m : StunMessage) (body : List ℕ)
      → write_attrs r m.attrs ≡ some body
      → add_fingerprint r m ≡ (add_attribute (fingerprint_attr (fingerprint_of m body)) m, true)
  unfolding add_fingerprint add_attribute new_uint32 set_value
  add_fingerprint_lem m body e =
      let m' = add_attribute (fingerprint_attr 0) m in
      let tail = attrs_bytes r (fingerprint_attr 0) (set_be32 0) [] in
      let written : write r m' ≡ some (covered m body ++ tail) =
        write_push r m' m.attrs (fingerprint_attr 0) body (set_be32 0) refl e
          (unfold write_value in refl) in
      let size : length (covered m body ++ tail) ≡ length (covered m body) + 8 = rw length-append (
        omega
          (arith, length-attrs_bytes r (fingerprint_attr 0) (set_be32 0) [], length-set_be32 0)) in
      let front : take (length (covered m body ++ tail) - 4 - 4) (covered m body ++ tail)
          ≡ covered m body =
        take-append (covered m body) tail _ (omega arith) in
      rw (
        add_fingerprint,
        written,
        front,
        update_last-append (set_value (fingerprint_of m body)) m.attrs (fingerprint_attr 0),
      )

  -- The bytes of the message with its fingerprint.
  pub write-add_fingerprint :
      (m : StunMessage) (body : List ℕ)
      → write_attrs r m.attrs ≡ some body
      → write r (add_fingerprint r m).0
        ≡ some (
            covered m body
            ++ attrs_bytes r
                (fingerprint_attr (fingerprint_of m body))
                (set_be32 (fingerprint_of m body))
                [])
  write-add_fingerprint m body e =
      let v = fingerprint_of m body in
      rw (add_fingerprint_lem m body e) (
        write_push r (add_attribute (fingerprint_attr v) m) m.attrs (fingerprint_attr v) body
          (set_be32 v) (unfold add_attribute in refl) e (unfold write_value in refl)
        ∙ ap (λ h. some ((h ++ body) ++ attrs_bytes r (fingerprint_attr v) (set_be32 v) []))
            (unfold write_header add_attribute in refl))

  -- The fields that the check reads, and the checksum at the end.
  validate_fingerprint_fields :
      (bs : List ℕ) (v : ℕ)
      → length bs % 4 ≡ 0
      → 28 ≤ length bs
      → be32_at r bs 4 ≡ done k_stun_magic_cookie
      → be16_at r bs (length bs - 8) ≡ done stun_attr_fingerprint
      → be16_at r bs (length bs - 8 + 2) ≡ done 4
      → be32_at r bs (length bs - 8 + 4) ≡ done v
      → bit_xor v stun_fingerprint_xor_value ≡ compute_crc32 (take (length bs - 8) bs)
      → validate_fingerprint r bs ≡ done true
  unfolding validate_fingerprint
  validate_fingerprint_fields bs v m h cookie type len value crc = ground arith

  -- Any datagram that ends in the fingerprint of what comes before it passes the check.
  validate_fingerprint_passes :
      (front rest : List ℕ) (type len v : ℕ)
      → front ≡ set_be16 type ++ (set_be16 len ++ (set_be32 k_stun_magic_cookie ++ rest))
      → length front % 4 ≡ 0
      → 20 ≤ length front
      → v ≡ bit_xor (compute_crc32 front) stun_fingerprint_xor_value
      → validate_fingerprint r (front ++ attrs_bytes r (fingerprint_attr v) (set_be32 v) [])
        ≡ done true
  validate_fingerprint_passes front rest type len v e m h ev =
      let last = set_be16 stun_attr_fingerprint in
      let tail = attrs_bytes r (fingerprint_attr v) (set_be32 v) [] in
      let bs = front ++ tail in
      let size : length bs ≡ length front + 8 = rw length-append (
        omega
          (arith, length-attrs_bytes r (fingerprint_attr v) (set_be32 v) [], length-set_be32 v)) in
      let small : v < 2 ^ 32 =
        rw ev (bit_xor-lt 32 _ stun_fingerprint_xor_value (compute_crc32-lt front) (omega arith)) in
      validate_fingerprint_fields bs v (omega arith) (omega arith)
        (be32_at-set_be32 r (set_be16 type ++ set_be16 len) k_stun_magic_cookie (rest ++ tail) bs 4
          (rw e (simp append_assoc))
          (rw length-append (omega (arith, length-set_be16 type, length-set_be16 len)))
          (omega arith))
        (be16_at-set_be16 r front stun_attr_fingerprint (set_be16 4 ++ (set_be32 v ++ [])) bs _ refl
          (omega arith) (omega arith))
        (be16_at-set_be16 r (front ++ last) 4 (set_be32 v ++ []) bs _ (simp append_assoc)
          (rw (length-append front last) (omega (arith, length-set_be16 stun_attr_fingerprint)))
          (omega arith))
        (be32_at-set_be32 r (front ++ (last ++ set_be16 4)) v [] bs _ (simp append_assoc)
          (rw (length-append front (last ++ set_be16 4), length-append last (set_be16 4))
            (omega (arith, length-set_be16 stun_attr_fingerprint, length-set_be16 4)))
          small)
        (rw (take-append front tail (length bs - 8) (omega arith), ev)
          (bit_xor-bit_xor 32 _ stun_fingerprint_xor_value (compute_crc32-lt front) (omega arith)))

  -- A well-formed message with room for the attribute: `add_fingerprint` succeeds, the result is
  -- well formed and is written, and the bytes pass `validate_fingerprint`.
  pub validate_fingerprint-add_fingerprint :
      (m : StunMessage)
      → IsWellFormed m
      → body_length m.attrs + 8 < 2 ^ 16
      → ((add_fingerprint r m).1 ≡ true)
        × IsWellFormed (add_fingerprint r m).0
        × (bs : List ℕ) × (write r (add_fingerprint r m).0 ≡ some bs)
        × (validate_fingerprint r bs ≡ done true)
  validate_fingerprint-add_fingerprint m w room =
      let (body, e, n) = write_attrs_shape r m.attrs w.sound in
      let added = add_fingerprint_lem m body e in
      let v = fingerprint_of m body in
      let well : IsWellFormed (add_attribute (fingerprint_attr v) m) =
        add_attribute-IsWellFormed m (fingerprint_attr v) w
          (fingerprint_attr-IsSound v (fingerprint_of-lt m body)) (unfold padded in omega arith) in
      let size : length (covered m body) ≡ 20 + body_length m.attrs = rw length-append (
        omega (
          arith,
          length-write_header r (add_attribute (fingerprint_attr 0) m),
          covered_id m,
          w.id_length,
        )) in
      (
        ap (λ p. p.1) added,
        rw added well,
        _,
        write-add_fingerprint m body e,
        validate_fingerprint_passes (covered m body) (m.transaction_id ++ body) m.type
            (add_attribute (fingerprint_attr 0) m).len v
            (unfold write_header add_attribute in simp append_assoc)
            (omega (arith, body_length-mod m.attrs)) (omega arith) refl,
      )
