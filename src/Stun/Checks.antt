-- ===== src/Stun/Checks.antt =====
-- ice/stun.cpp: `validate_fingerprint` and `validate_message_integrity`, which read a datagram by
-- position. A read beyond the end of the datagram is `fault`.
use web_rtcserver.Prelude.{
  ℕ, zero, suc, ◌+◌, ◌-◌, ◌%◌, ◌^◌, Bool, true, false, not, ◌||◌, List, ◌++◌, Option, none, some,
  length, take, drop, ◌==◌, ltb, leb, if◌then◌else◌, bit_xor, bytes_eq,
}
use web_rtcserver.Rtc.{RtcBase}
use web_rtcserver.Stun.Types.{
  StunMessage, k_no_integrity, k_integrity_ok, k_integrity_bad, k_stun_header_size,
  k_stun_attribute_header_size, k_stun_transaction_id_offset, k_stun_magic_cookie,
  k_stun_magic_cookie_length, k_stun_message_integrity_size, stun_attr_message_integrity,
  stun_attr_fingerprint, stun_fingerprint_xor_value,
}
use web_rtcserver.Stun.Parse.{get_attribute}

-- `fault`: memory outside the datagram was read. `stuck`: the search ran out of fuel.
pub data Checked {ℓ} (A : Type ℓ) : Type ℓ where
  done : A → Checked A
  fault : Checked A
  stuck : Checked A

infixl 5 ◌>>=◌
abbrev pub ◌>>=◌ {ℓ κ} : {A : Type ℓ} {B : Type κ} → Checked A → (A → Checked B) → Checked B
done a >>= f = f a
fault >>= f = fault
stuck >>= f = stuck

-- `memcmp(data + pos, block, length block) == 0`.
unfoldable pub memcmp_at : List ℕ → ℕ → List ℕ → Checked Bool
memcmp_at bs pos block =
    if leb (pos + length block) (length bs)
    then done (bytes_eq (take (length block) (drop pos bs)) block)
    else fault

module _ (r : RtcBase) where
  open r use {get_be16, get_be32, set_be16, compute_crc32, compute_hmac}

  unfoldable pub be16_at : List ℕ → ℕ → Checked ℕ
  be16_at bs pos = if leb (pos + 2) (length bs) then done (get_be16 (drop pos bs)) else fault

  unfoldable pub be32_at : List ℕ → ℕ → Checked ℕ
  be32_at bs pos = if leb (pos + 4) (length bs) then done (get_be32 (drop pos bs)) else fault

  -- `StunMessage::validate_fingerprint`; the attribute is the last eight bytes.
  unfoldable pub validate_fingerprint : List ℕ → Checked Bool
  validate_fingerprint bs =
      let size = length bs in
      if not (size % 4 == 0) || ltb size (k_stun_header_size + 8) then done false else do
        cookie ← be32_at bs (k_stun_transaction_id_offset - k_stun_magic_cookie_length)
        if not (cookie == k_stun_magic_cookie) then done false else do
          type ← be16_at bs (size - 8)
          if not (type == stun_attr_fingerprint) then done false else do
            len ← be16_at bs (size - 8 + 2)
            if not (len == 4) then done false else do
              fingerprint ← be32_at bs (size - 8 + k_stun_attribute_header_size)
              done (
                  bit_xor fingerprint stun_fingerprint_xor_value
                  == compute_crc32 (take (size - 8) bs))

  -- The search for the attribute in `_validate_message_integrity_of_type`, from `current_pos` on.
  unfoldable pub find_attribute : ℕ → ℕ → List ℕ → ℕ → Checked (Option ℕ)
  find_attribute zero mi_type bs pos = stuck
  find_attribute (suc fuel) mi_type bs pos = elim (leb (pos + 4) (length bs)) [
    | false ↦ done none
    | true ↦ do
      type ← be16_at bs pos
      len ← be16_at bs (pos + 2)
      elim (type == mi_type) [
        | true ↦ done (some pos)
        | false ↦
            let next = pos + (k_stun_attribute_header_size + len) in
            find_attribute fuel mi_type bs (if len % 4 == 0 then next else next + (4 - len % 4))
      ]
  ]

  -- `temp_data`: the bytes before the attribute. Where more follows it, the length field is set
  -- to end with the attribute.
  unfoldable pub hmac_input : List ℕ → ℕ → List ℕ
  hmac_input bs mi_pos =
      let temp = take mi_pos bs in
      let extra_pos = mi_pos + k_stun_attribute_header_size + k_stun_message_integrity_size in
      if ltb extra_pos (length bs)
      then (let extra_size = length bs - extra_pos in
          take 2 temp
          ++ (set_be16 ((length bs - extra_size - k_stun_header_size) % 2 ^ 16) ++ drop 4 temp))
      else temp

  -- `_validate_message_integrity_of_type` at the type and size of MESSAGE-INTEGRITY.
  unfoldable pub validate_message_integrity_of_type : List ℕ → List ℕ → Checked Bool
  validate_message_integrity_of_type bs password =
      let size = length bs in
      if not (size % 4 == 0) || ltb size k_stun_header_size then done false else do
        len ← be16_at bs 2
        if not (len + k_stun_header_size == size) then done false else do
          found ← find_attribute (suc size) stun_attr_message_integrity bs k_stun_header_size
          elim found [
            | none ↦ done false
            | some mi_pos ↦
                let hmac = compute_hmac password (hmac_input bs mi_pos) in
                if not (length hmac == k_stun_message_integrity_size)
                then done false
                else memcmp_at bs (mi_pos + k_stun_attribute_header_size) hmac
          ]

  -- `validate_message_integrity`: the new status stands in the message too.
  unfoldable pub validate_message_integrity : List ℕ → StunMessage → Checked StunMessage
  validate_message_integrity password m = elim (get_attribute stun_attr_message_integrity m.attrs) [
    | none ↦ done (record m { password = password; integrity = k_no_integrity })
    | some a ↦ do
      ok ← validate_message_integrity_of_type m.buffer password
      done (record m {
        password = password;
        integrity = if ok then k_integrity_ok else k_integrity_bad;
      })
  ]
