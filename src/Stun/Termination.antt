-- ===== src/Stun/Termination.antt =====
-- The loops of `read` and of the MESSAGE-INTEGRITY search end on every input.
use web_rtcserver.Prelude.{
  ℕ, zero, suc, ◌+◌, ◌-◌, ◌%◌, ◌≤◌, ◌≢◌, refl, List, [], ◌∷◌, ◌++◌, arith, length, inl, inr,
  Option-cases,
}
use web_rtcserver.Rtc.{RtcBase}
use web_rtcserver.Rtc.Slices.{read_bytes_takes, consume_takes}
use web_rtcserver.Stun.Types.{
  StunAttribute, StunAttributeValueType, stun_value_unknown, stun_value_uint32,
  stun_value_byte_string, get_attribute_value_type,
}
use web_rtcserver.Stun.Parse.{
  Parse, parsed, refused, or_refuse, padded_uint16, consume_padding, read_value, read_attribute,
  read_loop, read_header, read,
}
use web_rtcserver.Stun.Parse

-- A step that is not stuck, and leaves no more bytes than it was given less `n`.
abbrev Shrinks : ℕ → ℕ → Parse (List StunAttribute × List ℕ) → Type 0
Shrinks n size (parsed (new, rest)) = length rest + n ≤ size
Shrinks n size refused = Unit
Shrinks n size Parse.stuck = ⊥

-- What is chained of steps that do not get stuck does not.
bind-ne-stuck {ℓ κ} :
    {A : Type ℓ} {B : Type κ} (p : Parse A) (f : A → Parse B)
    → p ≢ Parse.stuck
    → ((a : A) → f a ≢ Parse.stuck)
    → Parse.◌>>=◌ p f ≢ Parse.stuck
bind-ne-stuck (parsed a) f h k = k a
bind-ne-stuck refused f h k = λ e. cc
bind-ne-stuck Parse.stuck f h k = absurd (h refl)

module _ (r : RtcBase) where
  open r use {read_uint16, read_uint32, read_uint16_takes, read_uint32_takes, read_bytes, consume}

  consume_padding-le : (len : ℕ) (bs : List ℕ) → length (consume_padding r len bs) ≤ length bs
  unfolding consume_padding
  consume_padding-le len bs = elim (Option-cases (consume (4 - len % 4) bs)) [
    | inl e ↦ ground arith
    | inr (rest, e) ↦ ground (arith, consume_takes r (4 - len % 4) bs rest e)
  ]

  read_value-Shrinks :
      (t : StunAttributeValueType) (type len : ℕ) (bs : List ℕ)
      → Shrinks 0 (length bs) (read_value r t type len bs)
  unfolding read_value
  read_value-Shrinks stun_value_unknown type len bs =
      elim (Option-cases (consume (padded_uint16 len) bs)) [
        | inl e ↦ rw e tt
        | inr (rest, e) ↦ rw e (omega (arith, consume_takes r (padded_uint16 len) bs rest e))
      ]
  read_value-Shrinks stun_value_uint32 type len bs = elim (Option-cases (read_uint32 bs)) [
    | inl e ↦ rw e tt
    | inr ((bits, rest), e) ↦ rw e (omega (arith, read_uint32_takes bs bits rest e))
  ]
  read_value-Shrinks stun_value_byte_string type len bs = elim (Option-cases (read_bytes len bs)) [
    | inl e ↦ rw e tt
    | inr ((s, rest), e) ↦
        rw e (omega (arith, read_bytes_takes r len bs s rest e, consume_padding-le len rest))
  ]

  Shrinks-weaken :
      (n size size' : ℕ) (p : Parse (List StunAttribute × List ℕ))
      → size + n ≤ size'
      → Shrinks 0 size p
      → Shrinks n size' p
  Shrinks-weaken n size size' (parsed (new, rest)) h s = omega arith
  Shrinks-weaken n size size' refused h s = tt
  Shrinks-weaken n size size' Parse.stuck h s = elim s [ ]

  -- Each round of the loop takes at least the four bytes of an attribute's header.
  pub read_attribute-Shrinks : (bs : List ℕ) → Shrinks 4 (length bs) (read_attribute r bs)
  unfolding read_attribute
  read_attribute-Shrinks bs = elim (Option-cases (read_uint16 bs)) [
    | inl e ↦ rw e tt
    | inr ((type, rest), e) ↦ elim (Option-cases (read_uint16 rest)) [
      | inl e' ↦ rw (e, e') tt
      | inr ((len, rest'), e') ↦
          rw (e, e')
            (Shrinks-weaken 4 (length rest') (length bs) _
              (omega (arith, read_uint16_takes bs type rest e, read_uint16_takes rest len rest' e'))
              (read_value-Shrinks (get_attribute_value_type type) type len rest'))
    ]
  ]

  read_loop_after :
      (fuel size : ℕ) (attrs : List StunAttribute) (p : Parse (List StunAttribute × List ℕ))
      → size ≤ suc fuel
      → Shrinks 4 size p
      → ((rest : List ℕ) (new : List StunAttribute)
          → length rest ≤ fuel
          → read_loop r fuel rest (attrs ++ new) ≢ Parse.stuck)
      → Parse.◌>>=◌ p (λ q. read_loop r fuel q.1 (attrs ++ q.0)) ≢ Parse.stuck
  read_loop_after fuel size attrs (parsed (new, rest)) f s ih = ih rest new (omega arith)
  read_loop_after fuel size attrs refused f s ih = λ e. cc
  read_loop_after fuel size attrs Parse.stuck f s ih = elim s [ ]

  read_loop-ne-stuck :
      (fuel : ℕ) (bs : List ℕ) (attrs : List StunAttribute)
      → length bs ≤ fuel
      → read_loop r fuel bs attrs ≢ Parse.stuck
  unfolding read_loop
  read_loop-ne-stuck zero [] attrs h = λ e. cc
  read_loop-ne-stuck (suc fuel) [] attrs h = λ e. cc
  read_loop-ne-stuck zero (b ∷ bs) attrs h = absurd (omega arith)
  read_loop-ne-stuck (suc fuel) (b ∷ bs) attrs h =
      read_loop_after fuel (length (b ∷ bs)) attrs (read_attribute r (b ∷ bs)) h
        (read_attribute-Shrinks (b ∷ bs))
        (λ rest new f. read_loop-ne-stuck fuel rest (attrs ++ new) f)

  read_header-ne-stuck : (bs : List ℕ) → read_header r bs ≢ Parse.stuck
  unfolding read_header
  read_header-ne-stuck bs e = ground arith

  -- `read` ends on every input: its loop never runs out of the fuel that it is given.
  pub read-ne-stuck : (bs : List ℕ) → read r bs ≢ Parse.stuck
  unfolding read
  read-ne-stuck bs = bind-ne-stuck (read_header r bs) _ (read_header-ne-stuck bs) λ p.
      bind-ne-stuck (read_loop r (length p.1) p.1 []) _
        (read_loop-ne-stuck (length p.1) p.1 [] (omega arith)) λ attrs e. cc
