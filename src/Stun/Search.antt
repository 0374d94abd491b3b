-- ===== src/Stun/Search.antt =====
-- The search for MESSAGE-INTEGRITY in a written message, and the bytes that the HMAC is taken of.
use web_rtcserver.Prelude.{
  ℕ, zero, suc, ◌+◌, ◌-◌, ◌%◌, ◌^◌, ◌≤◌, ◌<◌, ◌≡◌, ◌≢◌, sym, ap, ◌∙◌, List, [], ◌∷◌, ◌++◌, some,
  arith, length, take, drop, take-append, drop-append, length-append, append_assoc, All, ltb→ge,
  Bool-cases, inl, inr, ltb, true, false,
}
use web_rtcserver.Rtc.{RtcBase}
use web_rtcserver.Stun.Types.{StunAttribute, k_stun_magic_cookie}
use web_rtcserver.Stun.Message.{padded, write_attrs}
use web_rtcserver.Stun.Checks.{done, be16_at, find_attribute, hmac_input}
use web_rtcserver.Stun.Format.{IsSound, write_value_shape, write_attrs-eq-some}
use web_rtcserver.Stun.Positions.{be16_at-set_be16, length-attrs_bytes}

-- No attribute of the type that is searched for.
abbrev pub Lacks : ℕ → List StunAttribute → Type 0
Lacks mi = All λ a. a.type ≢ mi

module _ (r : RtcBase) where
  open r use {set_be16, set_be32, length-set_be16, length-set_be32, compute_hmac}

  find_attribute_hit :
      (fuel mi pos len : ℕ) (bs : List ℕ)
      → pos + 4 ≤ length bs
      → be16_at r bs pos ≡ done mi
      → be16_at r bs (pos + 2) ≡ done len
      → find_attribute r (suc fuel) mi bs pos ≡ done (some pos)
  unfolding find_attribute
  find_attribute_hit fuel mi pos len bs h e e' = ground arith

  find_attribute_next :
      (fuel mi pos type len : ℕ) (bs : List ℕ)
      → pos + 4 ≤ length bs
      → be16_at r bs pos ≡ done type
      → be16_at r bs (pos + 2) ≡ done len
      → type ≢ mi
      → find_attribute r (suc fuel) mi bs pos ≡ find_attribute r fuel mi bs (pos + (4 + padded len))
  unfolding find_attribute padded
  find_attribute_next fuel mi pos type len bs h e e' n = ground arith

  -- The search passes over the attributes written before, and stops at the first of the type.
  pub find_attribute-write_attrs :
      (mi : ℕ) (as' : List StunAttribute) (front body bs rest : List ℕ) (len fuel pos : ℕ)
      → All IsSound as'
      → Lacks mi as'
      → write_attrs r as' ≡ some body
      → bs ≡ front ++ (body ++ (set_be16 mi ++ (set_be16 len ++ rest)))
      → pos ≡ length front
      → mi < 2 ^ 16
      → len < 2 ^ 16
      → length body < fuel
      → find_attribute r fuel mi bs pos ≡ done (some (pos + length body))
  find_attribute-write_attrs mi as' front body bs rest len zero pos s l e eb p hm hl f =
      absurd (omega arith)
  find_attribute-write_attrs mi [] front body bs rest len (suc fuel) pos s l e eb p hm hl f =
      let empty : body ≡ [] = unfold write_attrs in cc in
      let eb' : bs ≡ front ++ (set_be16 mi ++ (set_be16 len ++ rest)) = rw empty at eb in
      let room : pos + 4 ≤ length bs =
        rw (eb', length-append front, length-append (set_be16 mi), length-append (set_be16 len))
          (omega (arith, length-set_be16 mi, length-set_be16 len)) in
      find_attribute_hit fuel mi pos len bs room
        (be16_at-set_be16 r front mi (set_be16 len ++ rest) bs pos eb' p hm)
        (be16_at-set_be16 r (front ++ set_be16 mi) len rest bs (pos + 2) (eb' ∙ simp append_assoc)
          (rw length-append (omega (arith, length-set_be16 mi))) hl)
      ∙ ap (λ n. done (some n)) (rw empty (omega arith))
  find_attribute-write_attrs mi (a ∷ as') front body bs rest len (suc fuel) pos s l e eb p hm hl f =
      let (b, c, ev, ec, eo) = write_attrs-eq-some r a as' body e in
      let (b', ev', n') = write_value_shape r a.len a.value s.0.shape in
      let n : length b ≡ padded a.len = ground arith in
      let more = set_be16 mi ++ (set_be16 len ++ rest) in
      let eb' : bs ≡ front ++ (set_be16 a.type ++ (set_be16 a.len ++ (b ++ (c ++ more)))) =
        rw eo at eb ∙ simp append_assoc in
      let long : length body ≡ 4 + length b + length c =
        ap length eo ∙ length-attrs_bytes r a b c in
      let room : pos + 4 ≤ length bs =
        rw
          (
            eb',
            length-append front,
            length-append (set_be16 a.type),
            length-append (set_be16 a.len),
          )
          (omega (arith, length-set_be16 a.type, length-set_be16 a.len)) in
      let fits : a.len < 2 ^ 16 = omega (arith, s.0.len_fits) in
      let front' = front ++ (set_be16 a.type ++ (set_be16 a.len ++ b)) in
      let size : pos + (4 + padded a.len) ≡ length front' =
        rw
          (
            length-append front (set_be16 a.type ++ (set_be16 a.len ++ b)),
            length-append (set_be16 a.type) (set_be16 a.len ++ b),
            length-append (set_be16 a.len) b,
          )
          (omega (arith, length-set_be16 a.type, length-set_be16 a.len)) in
      find_attribute_next fuel mi pos a.type a.len bs room
        (be16_at-set_be16 r front a.type _ bs pos eb' p s.0.type_fits)
        (be16_at-set_be16 r (front ++ set_be16 a.type) a.len (b ++ (c ++ more)) bs (pos + 2)
          (eb' ∙ simp append_assoc) (rw length-append (omega (arith, length-set_be16 a.type))) fits)
        l.0
      ∙ find_attribute-write_attrs mi as' front' c bs rest len fuel (pos + (4 + padded a.len)) s.1
          l.1 ec (eb' ∙ simp append_assoc) size hm hl (omega arith)
      ∙ ap (λ n. done (some n)) (omega arith)

  abbrev pub header_of : ℕ → ℕ → List ℕ → List ℕ
  header_of type len id = set_be16 type ++ (set_be16 len ++ (set_be32 k_stun_magic_cookie ++ id))

  pub length-header_of :
      (type len : ℕ) (id : List ℕ) → length (header_of type len id) ≡ 8 + length id
  length-header_of type len id =
      rw
        (
          length-append (set_be16 type) (set_be16 len ++ (set_be32 k_stun_magic_cookie ++ id)),
          length-append (set_be16 len) (set_be32 k_stun_magic_cookie ++ id),
          length-append (set_be32 k_stun_magic_cookie) id,
        )
        (omega
          (arith, length-set_be16 type, length-set_be16 len, length-set_be32 k_stun_magic_cookie))

  front_split :
      (type len : ℕ) (id body : List ℕ)
      → header_of type len id ++ body
        ≡ set_be16 type ++ (set_be16 len ++ (set_be32 k_stun_magic_cookie ++ (id ++ body)))
  front_split type len id body = simp append_assoc

  hmac_input_less :
      (bs : List ℕ) (pos : ℕ) (front : List ℕ)
      → take pos bs ≡ front
      → ltb (pos + 4 + 20) (length bs) ≡ false
      → hmac_input r bs pos ≡ front
  unfolding hmac_input
  hmac_input_less bs pos front e h = ground arith

  hmac_input_more :
      (bs : List ℕ) (pos : ℕ) (front : List ℕ) (n : ℕ)
      → take pos bs ≡ front
      → ltb (pos + 4 + 20) (length bs) ≡ true
      → (length bs - (length bs - (pos + 4 + 20)) - 20) % 2 ^ 16 ≡ n
      → hmac_input r bs pos ≡ take 2 front ++ (set_be16 n ++ drop 4 front)
  unfolding hmac_input
  hmac_input_more bs pos front n e h en = rw (hmac_input, e, h, en)

  -- The input of the HMAC is the message up to the attribute, its length field set to end there.
  pub hmac_input_lem :
      (type len : ℕ) (id body mi rest : List ℕ)
      → length mi ≡ 24
      → length id ≡ 12
      → len ≡ length body + 24 + length rest
      → len < 2 ^ 16
      → hmac_input r ((header_of type len id ++ body) ++ (mi ++ rest)) (20 + length body)
        ≡ header_of type (length body + 24) id ++ body
  hmac_input_lem type len id body mi rest hm hi hl fits =
      let front = header_of type len id ++ body in
      let bs = front ++ (mi ++ rest) in
      let size : length front ≡ 20 + length body =
        length-append (header_of type len id) body ∙ omega (arith, length-header_of type len id) in
      let total : length bs ≡ 44 + length body + length rest =
        rw (length-append front (mi ++ rest), length-append mi rest) (omega arith) in
      let cut : take (20 + length body) bs ≡ front =
        take-append front (mi ++ rest) (20 + length body) (sym size) in
      let tail = set_be32 k_stun_magic_cookie ++ (id ++ body) in
      let two : take 2 front ≡ set_be16 type =
        ap (take 2) (front_split type len id body)
        ∙ take-append (set_be16 type) (set_be16 len ++ tail) 2 (sym (length-set_be16 type)) in
      let four : drop 4 front ≡ tail =
        ap (drop 4)
          (front_split type len id body ∙ sym (append_assoc (set_be16 type) (set_be16 len) tail))
        ∙ drop-append (set_be16 type ++ set_be16 len) tail 4
            (rw length-append (omega (arith, length-set_be16 type, length-set_be16 len))) in
      elim (Bool-cases (ltb (20 + length body + 4 + 20) (length bs))) [
        | inl more ↦
            hmac_input_more bs (20 + length body) front (length body + 24) cut more (omega arith)
            ∙ rw (two, four) (simp append_assoc)
        | inr less ↦
            hmac_input_less bs (20 + length body) front cut less
            ∙ ap (λ n. header_of type n id ++ body) (omega (arith, ltb→ge))
      ]
