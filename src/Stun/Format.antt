-- ===== src/Stun/Format.antt =====
-- The wire format as a specification: which attributes and messages are well formed, how long
-- they are when written, and that writing them succeeds.
use web_rtcserver.Prelude.{
  ◌∙◌, Option-cases, inl, inr, append_assoc, ℕ, ◌+◌, ◌-◌, ◌%◌, ◌^◌, ◌≤◌, ◌<◌, ◌≡◌, refl, List, [],
  ◌∷◌, ◌++◌, some, arith, length, take_all, bit_or, bit_xor, ◌*◌, All, length-append,
  length-replicate, bit_and,
}
use web_rtcserver.Rtc.{RtcBase}
use web_rtcserver.Stun.Types.{
  StunAttribute, AttributeValue, address, xor_address, uint32, uint64, byte_string, error_code,
  StunMessage, SocketAddress, IpAddress, ip_v4, StunAttributeValueType, stun_value_unknown,
  stun_value_uint32, stun_value_byte_string, get_attribute_value_type, StunAddressFamily,
  k_stun_magic_cookie, family_code,
}
use web_rtcserver.Stun.Message.{
  padded, write_padding, write_value, write_attrs, write_address, family, get_xored_ip,
}

-- The length field agrees with the value, and an address is IPv4.
abbrev pub HasShape : ℕ → AttributeValue → Type 0
HasShape len (address addr) = (len ≡ 8) × (a : ℕ) × (addr.ip ≡ ip_v4 a)
HasShape len (xor_address addr) = (len ≡ 8) × (a : ℕ) × (addr.ip ≡ ip_v4 a)
HasShape len (uint32 bits) = (len ≡ 4) × (bits < 2 ^ 32)
HasShape len (uint64 bits) = len ≡ 8
HasShape len (byte_string s) = len ≡ length s
HasShape len (error_code class number reason) = len ≡ 4 + length reason

-- A type that the reader knows carries a value of the kind that it creates.
abbrev pub HasKind : StunAttributeValueType → AttributeValue → Type 0
HasKind stun_value_unknown value = Unit
HasKind stun_value_uint32 value = (bits : ℕ) × (value ≡ uint32 bits)
HasKind stun_value_byte_string value = (s : List ℕ) × (value ≡ byte_string s)

-- The bound on the length keeps the padded length within 16 bits.
pub record IsSound (a : StunAttribute) : Type 0 where
  pub type_fits : a.type < 2 ^ 16
  pub len_fits : a.len < 2 ^ 16 - 3
  pub shape : HasShape a.len a.value
  pub kind : HasKind (get_attribute_value_type a.type) a.value

abbrev pub body_length : List StunAttribute → ℕ
body_length [] = 0
body_length (a ∷ as') = 4 + padded a.len + body_length as'

pub record IsWellFormed (m : StunMessage) : Type 0 where
  pub type_fits : m.type < 2 ^ 16
  pub not_rtp : bit_and m.type 0x0800 ≡ 0
  pub id_length : length m.transaction_id ≡ 12
  pub sound : All IsSound m.attrs
  pub len_counts : m.len ≡ body_length m.attrs
  pub len_fits : body_length m.attrs < 2 ^ 16

pub padded_bounds : (n : ℕ) → (padded n % 4 ≡ 0) × (n ≤ padded n) × (padded n < n + 4)
unfolding padded
padded_bounds n = ground arith

pub length-write_padding : (n : ℕ) → n + length (write_padding n) ≡ padded n
unfolding padded write_padding
length-write_padding n = ground (arith, length-replicate {A = ℕ} (4 - n % 4) 0)

pub body_length-append :
    (xs ys : List StunAttribute) → body_length (xs ++ ys) ≡ body_length xs + body_length ys
body_length-append [] ys = omega arith
body_length-append (x ∷ xs) ys = omega (arith, body_length-append xs ys)

pub body_length-mod : (xs : List StunAttribute) → body_length xs % 4 ≡ 0
body_length-mod [] = omega arith
body_length-mod (x ∷ xs) = omega (arith, body_length-mod xs, padded_bounds x.len)

get_xored_ip_v4 :
    (addr : SocketAddress) (a : ℕ)
    → addr.ip ≡ ip_v4 a
    → get_xored_ip addr ≡ ip_v4 (bit_xor a k_stun_magic_cookie)
unfolding get_xored_ip
get_xored_ip_v4 addr a e = ground arith

module _ (r : RtcBase) where
  open r use {length-set_be16, length-set_be32, length-set_be64, set_be16, set_be32}

  write_address_v4 :
      (f : StunAddressFamily) (port a len : ℕ) (ip : IpAddress)
      → ip ≡ ip_v4 a
      → len ≡ 8
      → (body : List ℕ) × (write_address r f port ip ≡ some body) × (length body ≡ padded len)
  unfolding write_address padded
  write_address_v4 f port a len ip e h = (
    0 ∷ family_code f ∷ (set_be16 port ++ set_be32 a),
    ground arith,
    ground (
      arith,
      length-append (set_be16 port) (set_be32 a),
      length-set_be16 port,
      length-set_be32 a,
    ),
  )

  -- A value of the right shape is written, in as many bytes as its padded length.
  pub write_value_shape :
      (len : ℕ) (value : AttributeValue)
      → HasShape len value
      → (body : List ℕ) × (write_value r len value ≡ some body) × (length body ≡ padded len)
  unfolding write_value padded
  write_value_shape len (address addr) (h, a, e) =
      write_address_v4 (family addr) addr.port a len addr.ip e h
  write_value_shape len (xor_address addr) (h, a, e) =
      write_address_v4 (family addr) _ (bit_xor a k_stun_magic_cookie) len _
        (get_xored_ip_v4 addr a e) h
  write_value_shape len (uint32 bits) (h, fits) = (_, refl, ground (arith, length-set_be32 bits))
  write_value_shape len (uint64 bits) h = (_, refl, ground (arith, length-set_be64 bits))
  write_value_shape len (byte_string s) h = (
    _,
    refl,
    rw (take_all s len h, length-append s (write_padding len))
        (omega (arith, length-write_padding len)),
  )
  write_value_shape len (error_code class number reason) h = (
    _,
    refl,
    rw (length-append (set_be32 (bit_or (class * 2 ^ 8) number)), length-append reason)
        (omega (arith, length-write_padding len, length-set_be32 (bit_or (class * 2 ^ 8) number))),
  )

  pub write_attrs-cons :
      (a : StunAttribute) (as' : List StunAttribute) (body rest : List ℕ)
      → write_value r a.len a.value ≡ some body
      → write_attrs r as' ≡ some rest
      → write_attrs r (a ∷ as') ≡ some (set_be16 a.type ++ (set_be16 a.len ++ (body ++ rest)))
  unfolding write_attrs
  write_attrs-cons a as' body rest e e' = ground arith

  -- Sound attributes are written, in as many bytes as `body_length` counts.
  pub write_attrs_shape :
      (as' : List StunAttribute)
      → All IsSound as'
      → (body : List ℕ) × (write_attrs r as' ≡ some body) × (length body ≡ body_length as')
  unfolding write_attrs
  write_attrs_shape [] h = ([], refl, refl)
  write_attrs_shape (a ∷ as') (h, hs) =
      let (body, e, n) = write_value_shape a.len a.value h.shape in
      let (rest, e', n') = write_attrs_shape as' hs in
      (
        _,
        write_attrs-cons a as' body rest e e',
        rw (length-append (set_be16 a.type), length-append (set_be16 a.len), length-append body)
            (omega (arith, length-set_be16 a.type, length-set_be16 a.len)),
      )

  abbrev pub attrs_bytes : StunAttribute → List ℕ → List ℕ → List ℕ
  attrs_bytes a body rest = set_be16 a.type ++ (set_be16 a.len ++ (body ++ rest))

  -- What a successful write of a run of attributes is made of.
  pub write_attrs-eq-some :
      (a : StunAttribute) (as' : List StunAttribute) (out : List ℕ)
      → write_attrs r (a ∷ as') ≡ some out
      → (body rest : List ℕ) × (write_value r a.len a.value ≡ some body)
        × (write_attrs r as' ≡ some rest)
        × (out ≡ attrs_bytes a body rest)
  unfolding write_attrs
  write_attrs-eq-some a as' out e = elim (Option-cases (write_value r a.len a.value)) [
    | inl n ↦ absurd (ground arith)
    | inr (b, eb) ↦ elim (Option-cases (write_attrs r as')) [
      | inl n ↦ absurd (ground arith)
      | inr (c, ec) ↦ (b, c, eb, ec, ground arith)
    ]
  ]

  attrs_bytes-append :
      (a : StunAttribute) (body rest more : List ℕ)
      → attrs_bytes a body rest ++ more ≡ attrs_bytes a body (rest ++ more)
  attrs_bytes-append a body rest more = simp append_assoc

  -- Writing two runs of attributes one after the other.
  pub write_attrs-append :
      (xs ys : List StunAttribute) (body rest : List ℕ)
      → write_attrs r xs ≡ some body
      → write_attrs r ys ≡ some rest
      → write_attrs r (xs ++ ys) ≡ some (body ++ rest)
  write_attrs-append [] ys body rest e e' = unfold write_attrs in ground arith
  write_attrs-append (x ∷ xs) ys out rest e e' =
      let (b, c, eb, ec, eo) = write_attrs-eq-some x xs out e in
      write_attrs-cons x (xs ++ ys) b (c ++ rest) eb (write_attrs-append xs ys c rest ec e')
      ∙ rw (eo, attrs_bytes-append x b c rest)
