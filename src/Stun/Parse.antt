-- ===== src/Stun/Parse.antt =====
-- ice/stun.cpp: `StunMessage::read` and the lookups on a message that was read.
use web_rtcserver.Prelude.{
  ℕ, zero, suc, ◌+◌, ◌-◌, ◌%◌, ◌^◌, List, [], ◌∷◌, ◌++◌, Option, none, some, length, ◌==◌, ltb,
  if◌then◌else◌, bit_and,
}
use web_rtcserver.Rtc.{RtcBase}
use web_rtcserver.Stun.Types.{
  StunAttribute, uint32, byte_string, StunMessage, StunAttributeValueType, stun_value_unknown,
  stun_value_uint32, stun_value_byte_string, get_attribute_value_type, new_message,
  k_stun_magic_cookie, k_stun_magic_cookie_length, k_stun_transaction_id_length,
  stun_error_global_fail, stun_attr_error_code,
}
use web_rtcserver.Stun.Message.{code_of}

-- `refused` is `return false`. `stuck` is no result of the source: the loop ran out of fuel.
pub data Parse {ℓ} (A : Type ℓ) : Type ℓ where
  parsed : A → Parse A
  refused : Parse A
  stuck : Parse A

infixl 5 ◌>>=◌
abbrev pub ◌>>=◌ {ℓ κ} : {A : Type ℓ} {B : Type κ} → Parse A → (A → Parse B) → Parse B
parsed a >>= f = f a
refused >>= f = refused
stuck >>= f = stuck

abbrev pub or_refuse {ℓ} : {A : Type ℓ} → Option A → Parse A
or_refuse none = refused
or_refuse (some a) = parsed a

-- `attr_length += 4 - attr_length % 4` on a uint16_t, which wraps to 0 near the top.
unfoldable pub padded_uint16 : ℕ → ℕ
padded_uint16 n = if n % 4 == 0 then n else (n + (4 - n % 4)) % 2 ^ 16

-- `_get_attribute`: the first attribute of a type.
unfoldable pub get_attribute : ℕ → List StunAttribute → Option StunAttribute
get_attribute type [] = none
get_attribute type (a ∷ as') = if a.type == type then some a else get_attribute type as'

-- `get_error_code_value`.
unfoldable pub get_error_code_value : StunMessage → ℕ
get_error_code_value m = elim (get_attribute stun_attr_error_code m.attrs) [
  | none ↦ stun_error_global_fail
  | some a ↦ elim (code_of a.value) [ none ↦ stun_error_global_fail | some c ↦ c ]
]

module _ (r : RtcBase) where
  open r use {read_uint16, read_uint32, read_bytes, consume, get_be32}

  -- `consume_padding`; that the padding may be missing is not an error.
  unfoldable pub consume_padding : ℕ → List ℕ → List ℕ
  consume_padding len bs =
      let remain = len % 4 in
      if ltb 0 remain then elim (consume (4 - remain) bs) [ none ↦ bs | some rest ↦ rest ] else bs

  -- `_create_attribute` and the `read` of the subclass that it makes. A uint32 attribute is made
  -- with its own length, 4, so its test of the length always passes.
  unfoldable pub read_value :
      StunAttributeValueType → ℕ → ℕ → List ℕ → Parse (List StunAttribute × List ℕ)
  read_value stun_value_unknown type len bs = do
    rest ← or_refuse (consume (padded_uint16 len) bs)
    parsed ([], rest)
  read_value stun_value_uint32 type len bs = do
    (bits, rest) ← or_refuse (read_uint32 bs)
    parsed (record { type = type; len = 4; value = uint32 bits } ∷ [], rest)
  read_value stun_value_byte_string type len bs = do
    (s, rest) ← or_refuse (read_bytes len bs)
    parsed (record { type = type; len = len; value = byte_string s } ∷ [], consume_padding len rest)

  -- One round of the loop: at most one attribute, and the bytes left.
  unfoldable pub read_attribute : List ℕ → Parse (List StunAttribute × List ℕ)
  read_attribute bs = do
    (type, after_type) ← or_refuse (read_uint16 bs)
    (len, after_len) ← or_refuse (read_uint16 after_type)
    read_value (get_attribute_value_type type) type len after_len

  -- `while (buf->Length() > 0)`; `attrs` are those pushed so far.
  unfoldable pub read_loop : ℕ → List ℕ → List StunAttribute → Parse (List StunAttribute)
  read_loop fuel [] attrs = parsed attrs
  read_loop zero (b ∷ bs) attrs = stuck
  read_loop (suc fuel) (b ∷ bs) attrs = do
    (new, rest) ← read_attribute (b ∷ bs)
    read_loop fuel rest (attrs ++ new)

  -- The header part of `read`: type, length, transaction id, and the bytes after them.
  unfoldable pub read_header : List ℕ → Parse (StunMessage × List ℕ)
  read_header bs = do
    (type, after_type) ← or_refuse (read_uint16 bs)
    after_test ← if bit_and type 0x0800 == 0 then parsed after_type else refused
    (len, after_len) ← or_refuse (read_uint16 after_test)
    (cookie, after_cookie) ← or_refuse (read_bytes k_stun_magic_cookie_length after_len)
    (id, body) ← or_refuse (read_bytes k_stun_transaction_id_length after_cookie)
    let full_id = if get_be32 cookie == k_stun_magic_cookie then id else cookie ++ id
    if length body == len
        then parsed (
          record new_message { type = type; len = len; transaction_id = full_id; buffer = bs },
          body,
        )
        else refused

  -- `StunMessage::read` on a new message. Each round takes four bytes at least, so the length of
  -- the body is enough fuel.
  unfoldable pub read : List ℕ → Parse StunMessage
  read bs = do
    (m, body) ← read_header bs
    attrs ← read_loop (length body) body []
    parsed (record m { attrs = attrs })
