-- ===== src/Stun/Positions.antt =====
-- Reading fields of a written message by position, and writing a message with one more attribute.
use web_rtcserver.Prelude.{
  ℕ, ◌+◌, ◌^◌, ◌≤◌, ◌<◌, ◌≡◌, refl, ap, ◌∙◌, List, [], ◌∷◌, ◌++◌, some, arith, length, drop-append,
  take-append, All-append, length-append, append_assoc, le→leb, bytes_eq_refl, true,
}
use web_rtcserver.Rtc.{RtcBase}
use web_rtcserver.Stun.Types.{StunAttribute, StunMessage, k_stun_magic_cookie}
use web_rtcserver.Stun.Message.{
  padded, write_value, write_attrs, write_header, write, add_attribute,
}
use web_rtcserver.Stun.Checks.{done, be16_at, be32_at, memcmp_at}
use web_rtcserver.Stun.Format.{
  IsSound, IsWellFormed, body_length, attrs_bytes, body_length-append, write_attrs-append,
}

module _ (r : RtcBase) where
  open r use {
    set_be16, set_be32, length-set_be16, length-set_be32, get_be16-set_be16, get_be32-set_be32,
  }

  pub be16_at-set_be16 :
      (front : List ℕ) (v : ℕ) (rest bs : List ℕ) (pos : ℕ)
      → bs ≡ front ++ (set_be16 v ++ rest)
      → pos ≡ length front
      → v < 2 ^ 16
      → be16_at r bs pos ≡ done v
  unfolding be16_at
  be16_at-set_be16 front v rest bs pos e p h =
      let size : pos + 2 ≤ length (front ++ (set_be16 v ++ rest)) =
        rw (length-append front, length-append (set_be16 v)) (omega (arith, length-set_be16 v)) in
      rw (
        e,
        le→leb _ _ size,
        drop-append front (set_be16 v ++ rest) pos p,
        get_be16-set_be16 v rest h,
      )

  pub be32_at-set_be32 :
      (front : List ℕ) (v : ℕ) (rest bs : List ℕ) (pos : ℕ)
      → bs ≡ front ++ (set_be32 v ++ rest)
      → pos ≡ length front
      → v < 2 ^ 32
      → be32_at r bs pos ≡ done v
  unfolding be32_at
  be32_at-set_be32 front v rest bs pos e p h =
      let size : pos + 4 ≤ length (front ++ (set_be32 v ++ rest)) =
        rw (length-append front, length-append (set_be32 v)) (omega (arith, length-set_be32 v)) in
      rw (
        e,
        le→leb _ _ size,
        drop-append front (set_be32 v ++ rest) pos p,
        get_be32-set_be32 v rest h,
      )

  pub memcmp_at_same :
      (front block rest bs : List ℕ) (pos : ℕ)
      → bs ≡ front ++ (block ++ rest)
      → pos ≡ length front
      → memcmp_at bs pos block ≡ done true
  unfolding memcmp_at
  memcmp_at_same front block rest bs pos e p =
      let size : pos + length block ≤ length (front ++ (block ++ rest)) =
        rw (length-append front, length-append block) (omega arith) in
      rw (
        e,
        le→leb _ _ size,
        drop-append front (block ++ rest) pos p,
        take-append block rest (length block) refl,
        bytes_eq_refl block,
      )

  pub length-write_header :
      (m : StunMessage) → length (write_header r m) ≡ 8 + length m.transaction_id
  unfolding write_header
  length-write_header m =
      rw
        (
          length-append (set_be16 m.type),
          length-append (set_be16 m.len),
          length-append (set_be32 k_stun_magic_cookie),
        )
        (omega (
          arith,
          length-set_be16 m.type,
          length-set_be16 m.len,
          length-set_be32 k_stun_magic_cookie,
        ))

  pub length-attrs_bytes :
      (a : StunAttribute) (body rest : List ℕ)
      → length (attrs_bytes r a body rest) ≡ 4 + length body + length rest
  length-attrs_bytes a body rest =
      rw (length-append (set_be16 a.type), length-append (set_be16 a.len), length-append body)
        (omega (arith, length-set_be16 a.type, length-set_be16 a.len))

  -- A message whose attributes are a run that is written as `body` and one more.
  pub write_push :
      (m : StunMessage) (as' : List StunAttribute) (a : StunAttribute) (body b : List ℕ)
      → m.attrs ≡ as' ++ a ∷ []
      → write_attrs r as' ≡ some body
      → write_value r a.len a.value ≡ some b
      → write r m ≡ some ((write_header r m ++ body) ++ attrs_bytes r a b [])
  unfolding write
  write_push m as' a body b e eb ev =
      let one : write_attrs r (a ∷ []) ≡ some (attrs_bytes r a b []) =
        unfold write_attrs in ground arith in
      let all : write_attrs r m.attrs ≡ some (body ++ attrs_bytes r a b []) =
        ap (write_attrs r) e ∙ write_attrs-append r as' (a ∷ []) body _ eb one in
      rw (write, all, append_assoc (write_header r m) body (attrs_bytes r a b []))

-- One more sound attribute that fits keeps a message well formed.
pub add_attribute-IsWellFormed :
    (m : StunMessage) (a : StunAttribute)
    → IsWellFormed m
    → IsSound a
    → body_length m.attrs + (4 + padded a.len) < 2 ^ 16
    → IsWellFormed (add_attribute a m)
unfolding add_attribute
add_attribute-IsWellFormed m a w s h = record {
  type_fits = w.type_fits;
  not_rtp = w.not_rtp;
  id_length = w.id_length;
  sound = All-append IsSound m.attrs (a ∷ []) w.sound (s, tt);
  len_counts = omega (arith, w.len_counts, body_length-append m.attrs (a ∷ []));
  len_fits = omega (arith, body_length-append m.attrs (a ∷ []));
}
