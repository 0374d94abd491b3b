-- ===== src/Stun/RoundTrip.antt =====
-- `read` after `write`: what a peer that runs this code sees of a message that this code sent.
use web_rtcserver.Prelude.{
  ==_refl, ℕ, zero, suc, ◌+◌, ◌-◌, ◌%◌, ◌^◌, ◌≤◌, ◌<◌, ◌≡◌, refl, sym, ap, ◌∙◌, List, [], ◌∷◌, ◌++◌,
  some, arith, length, take_all, All, length-append, append-nil, append_assoc, length-replicate,
  replicate,
}
use web_rtcserver.Rtc.{RtcBase}
use web_rtcserver.Stun.Types.{
  StunAttribute, AttributeValue, uint32, byte_string, StunMessage, StunAttributeValueType,
  stun_value_unknown, stun_value_uint32, stun_value_byte_string, get_attribute_value_type,
  k_stun_magic_cookie, new_message,
}
use web_rtcserver.Stun.Message.{
  padded, write_padding, write_value, write_attrs, write_header, write,
}
use web_rtcserver.Stun.Parse.{
  parsed, padded_uint16, consume_padding, read_value, read_attribute, read_loop, read_header, read,
}
use web_rtcserver.Stun.Format.{
  HasShape, HasKind, IsSound, IsWellFormed, body_length, attrs_bytes, write_value_shape,
  write_attrs_shape, write_attrs-eq-some,
}

-- Of the attributes written, the reader keeps those of a type that it knows.
abbrev pub keep : StunAttributeValueType → StunAttribute → List StunAttribute
keep stun_value_unknown a = []
keep stun_value_uint32 a = a ∷ []
keep stun_value_byte_string a = a ∷ []

abbrev pub known_attrs : List StunAttribute → List StunAttribute
known_attrs [] = []
known_attrs (a ∷ as') = keep (get_attribute_value_type a.type) a ++ known_attrs as'

-- The message that the reader makes of the datagram `bs` in which `m` was written.
abbrev pub received : StunMessage → List ℕ → StunMessage
received m bs = record new_message {
  type = m.type;
  len = m.len;
  transaction_id = m.transaction_id;
  attrs = known_attrs m.attrs;
  buffer = bs;
}

padded_uint16_eq : (n : ℕ) → n < 2 ^ 16 - 3 → padded_uint16 n ≡ padded n
unfolding padded_uint16 padded
padded_uint16_eq n h = ground arith

module _ (r : RtcBase) where
  open r use {
    set_be16, set_be32, length-set_be16, length-set_be32, get_be32-set_be32, read_uint16-set_be16,
    get_be32, read_uint32-set_be32, read_bytes-append, consume-append,
  }

  consume_padding-write_padding :
      (len : ℕ) (rest : List ℕ) → consume_padding r len (write_padding len ++ rest) ≡ rest
  unfolding consume_padding write_padding
  consume_padding-write_padding len rest = ground (
    arith,
    consume-append (replicate (4 - len % 4) 0) rest (4 - len % 4)
        (sym (length-replicate (4 - len % 4) 0)),
  )

  -- Reading one value back, for each kind of attribute that the reader makes.
  read_value-write_value :
      (t : StunAttributeValueType) (type len : ℕ) (value : AttributeValue) (body rest : List ℕ)
      → len < 2 ^ 16 - 3
      → HasKind t value
      → HasShape len value
      → write_value r len value ≡ some body
      → length body ≡ padded len
      → read_value r t type len (body ++ rest)
        ≡ parsed (keep t (record { type = type; len = len; value = value }), rest)
  unfolding read_value write_value
  read_value-write_value stun_value_unknown type len value body rest fits k s e n =
      rw (padded_uint16_eq len fits, consume-append body rest (padded len) (sym n))
  read_value-write_value stun_value_uint32 type len (uint32 bits) body rest fits k (s, b) e n =
      ground (arith, read_uint32-set_be32 bits rest b)
  read_value-write_value stun_value_uint32 type len _ body rest fits (bits, k) s e n = cc
  read_value-write_value stun_value_byte_string type len (byte_string bytes) body rest fits k s e
        n =
      let body_lem : bytes ++ write_padding len ≡ body = ground (arith, take_all bytes len s) in
      rw (
        ← body_lem,
        append_assoc bytes (write_padding len) rest,
        read_bytes-append bytes (write_padding len ++ rest) len s,
        consume_padding-write_padding len rest,
      )
  read_value-write_value stun_value_byte_string type len _ body rest fits (bits, k) s e n = cc

  read_attribute-write :
      (a : StunAttribute) (body rest : List ℕ)
      → IsSound a
      → write_value r a.len a.value ≡ some body
      → length body ≡ padded a.len
      → read_attribute r (attrs_bytes r a body rest)
        ≡ parsed (keep (get_attribute_value_type a.type) a, rest)
  unfolding read_attribute
  read_attribute-write a body rest h e n =
      let fits : a.len < 2 ^ 16 = omega (arith, h.len_fits) in
      rw
        (
          read_uint16-set_be16 a.type (set_be16 a.len ++ (body ++ rest)) h.type_fits,
          read_uint16-set_be16 a.len (body ++ rest) fits,
        )
        (read_value-write_value _ a.type a.len a.value body rest h.len_fits h.kind h.shape e n)

  read_loop_nil : (fuel : ℕ) (attrs : List StunAttribute) → read_loop r fuel [] attrs ≡ parsed attrs
  unfolding read_loop
  read_loop_nil zero attrs = refl
  read_loop_nil (suc fuel) attrs = refl

  write_value-length :
      (len : ℕ) (value : AttributeValue) (body : List ℕ)
      → HasShape len value
      → write_value r len value ≡ some body
      → length body ≡ padded len
  write_value-length len value body s e =
      let (b, eb, n) = write_value_shape r len value s in ground arith

  read_loop_step :
      (fuel : ℕ) (bs rest : List ℕ) (attrs new : List StunAttribute)
      → 0 < length bs
      → read_attribute r bs ≡ parsed (new, rest)
      → read_loop r (suc fuel) bs attrs ≡ read_loop r fuel rest (attrs ++ new)
  unfolding read_loop
  read_loop_step fuel [] rest attrs new h e = absurd (omega arith)
  read_loop_step fuel (b ∷ bs) rest attrs new h e = rw e

  attrs_bytes-nonempty :
      (a : StunAttribute) (body rest : List ℕ)
      → length rest + 4 ≤ length (attrs_bytes r a body rest)
  attrs_bytes-nonempty a body rest =
      rw (length-append (set_be16 a.type), length-append (set_be16 a.len), length-append body)
        (omega (arith, length-set_be16 a.type, length-set_be16 a.len))

  -- The loop of the reader on the attributes that the writer's loop wrote.
  read_loop-write_attrs :
      (as' attrs : List StunAttribute) (bs : List ℕ) (fuel : ℕ)
      → All IsSound as'
      → write_attrs r as' ≡ some bs
      → length bs ≤ fuel
      → read_loop r fuel bs attrs ≡ parsed (attrs ++ known_attrs as')
  read_loop-write_attrs [] attrs bs fuel h e f =
      let e' : bs ≡ [] = unfold write_attrs in cc in
      rw (e', append-nil attrs) (read_loop_nil fuel attrs)
  read_loop-write_attrs (a ∷ as') attrs bs zero (h, hs) e f =
      let (body, rest, eb, er, eo) = write_attrs-eq-some r a as' bs e in
      absurd (omega (arith, ap length eo, attrs_bytes-nonempty a body rest))
  read_loop-write_attrs (a ∷ as') attrs bs (suc fuel) (h, hs) e f =
      let (body, rest, eb, er, eo) = write_attrs-eq-some r a as' bs e in
      let new = keep (get_attribute_value_type a.type) a in
      let long = attrs_bytes-nonempty a body rest in
      let n : length bs ≡ length (attrs_bytes r a body rest) = ap length eo in
      let step = read_loop_step fuel (attrs_bytes r a body rest) rest attrs new (omega arith) (
        read_attribute-write a body rest h eb (write_value-length a.len a.value body h.shape eb)) in
      rw eo step
      ∙ read_loop-write_attrs as' (attrs ++ new) rest fuel hs er (omega arith)
      ∙ ap parsed (append_assoc attrs new (known_attrs as'))

  -- The header comes back, and the body is left to read.
  read_header-write_header :
      (m : StunMessage) (body : List ℕ)
      → IsWellFormed m
      → length body ≡ body_length m.attrs
      → read_header r (write_header r m ++ body)
        ≡ parsed (
          record new_message {
            type = m.type;
            len = m.len;
            transaction_id = m.transaction_id;
            buffer = write_header r m ++ body;
          },
          body,
        )
  unfolding read_header write_header
  read_header-write_header m body w n =
      let fits : m.len < 2 ^ 16 = omega (arith, w.len_counts, w.len_fits) in
      let cookie : get_be32 (set_be32 k_stun_magic_cookie) ≡ k_stun_magic_cookie =
        rw (append-nil (set_be32 k_stun_magic_cookie)) at
          (get_be32-set_be32 k_stun_magic_cookie [] (omega arith)) in
      let counts : length body ≡ m.len = n ∙ sym w.len_counts in
      simp append_assoc (
        rw (
          read_uint16-set_be16 m.type _ w.type_fits,
          w.not_rtp,
          read_uint16-set_be16 m.len _ fits,
          read_bytes-append (set_be32 k_stun_magic_cookie) (m.transaction_id ++ body) 4
              (sym (length-set_be32 k_stun_magic_cookie)),
          read_bytes-append m.transaction_id body 12 (sym w.id_length),
          cookie,
          counts,
          ==_refl m.len,
        ))

  -- A well-formed message is written, and reading the bytes back gives its type, length and
  -- transaction id, and its attributes of a known type in their order; the others are skipped.
  pub read-write :
      (m : StunMessage)
      → IsWellFormed m
      → (bs : List ℕ) × (write r m ≡ some bs) × (read r bs ≡ parsed (received m bs))
  unfolding write read
  read-write m w =
      let (body, e, n) = write_attrs_shape r m.attrs w.sound in
      (
        write_header r m ++ body,
        rw (write, e),
        rw (
          read_header-write_header m body w n,
          read_loop-write_attrs m.attrs [] body (length body) w.sound e (omega arith),
        ),
      )
