-- ===== src/Tests/StunMessages.antt =====
-- The theorems on STUN at one small message, with the plain rtc_base.
use web_rtcserver.Prelude.{
  ap, ◌⊎◌, Option, Bool, Bool-cases, inl, inr, bytes_eq, bytes_eq→eq, ℕ, ◌≡◌, ◌≢◌, ◌<◌, ◌+◌, ◌^◌,
  refl, true, false, none, List, [], ◌∷◌, ◌++◌, some, arith,
}
use web_rtcserver.Tests.Plain.{plain}
use web_rtcserver.Stun.Types.{
  StunMessage, StunAttribute, byte_string, new_message, stun_attr_message_integrity, k_integrity_ok,
  get_attribute_value_type,
}
use web_rtcserver.Stun.Message.{
  padded, write, write_attrs, write_value, write_padding, add_fingerprint, add_attribute,
}
use web_rtcserver.Stun.Parse.{Parse, parsed, read}
use web_rtcserver.Stun.Checks.{
  done, fault, validate_fingerprint, validate_message_integrity_of_type, validate_message_integrity,
}
use web_rtcserver.Stun.Format.{IsSound, IsWellFormed, body_length, attrs_bytes}
use web_rtcserver.Stun.RoundTrip.{received, read-write}
use web_rtcserver.Stun.Termination.{read-ne-stuck}
use web_rtcserver.Stun.Fingerprint.{validate_fingerprint-add_fingerprint}
use web_rtcserver.Stun.Search.{Lacks, header_of}
use web_rtcserver.Stun.Integrity.{integrity_attr, signed, validate_signed}
use web_rtcserver.Stun.Sealed.{seal, validate-seal}
use web_rtcserver.Stun.Overread.{empty_integrity, validate_message_integrity_overread}
use web_rtcserver.Ice.Defs.{IceParameters}
use web_rtcserver.Ice.Port.{get_stun_message, accepted, prepare, create_stun_username}
use web_rtcserver.Prelude.Maps.{lookup}
use web_rtcserver.Prelude.Heap.{object_at}
use web_rtcserver.Ice.Requests.{StunRequestManager, Handler, faults, returns, check_response}
use web_rtcserver.Ice.Deletions.{IsWaiting}
use web_rtcserver.Ice.Answers.{IsFatal, check_response_once}
use web_rtcserver.Ice.Ping.{get_stun_message-prepare}

abbrev name_attr : StunAttribute
name_attr = record { type = 6; len = 3; value = byte_string (b'a' ∷ b':' ∷ b'b' ∷ []) }

abbrev a_message : StunMessage
a_message = record new_message { type = 1; len = 8; attrs = name_attr ∷ [] }

abbrev a_key : List ℕ
a_key = b'k' ∷ b'e' ∷ b'y' ∷ []

name_attr-IsSound : IsSound name_attr
unfolding get_attribute_value_type
name_attr-IsSound = record {
  type_fits = omega arith;
  len_fits = omega arith;
  shape = refl;
  kind = (_, refl);
}

a_message-IsWellFormed : IsWellFormed a_message
unfolding padded
a_message-IsWellFormed = record {
  type_fits = omega arith;
  not_rtp = refl;
  id_length = refl;
  sound = (name_attr-IsSound, tt);
  len_counts = refl;
  len_fits = omega arith;
}

a_message-Lacks : Lacks stun_attr_message_integrity a_message.attrs
a_message-Lacks = (λ e. ground arith, tt)

room : (n : ℕ) → n < 2 ^ 15 → body_length a_message.attrs + n < 2 ^ 16
unfolding padded
room n h = omega arith

validate-seal_example :
    (bs : List ℕ) × (write plain (seal plain a_key a_message) ≡ some bs)
    × (validate_fingerprint plain bs ≡ done true)
    × (read plain bs ≡ parsed (received (seal plain a_key a_message) bs))
    × (validate_message_integrity plain a_key (received (seal plain a_key a_message) bs)
        ≡ done (record (received (seal plain a_key a_message) bs) {
          password = a_key;
          integrity = k_integrity_ok;
        }))
validate-seal_example =
    validate-seal plain a_key a_message a_message-IsWellFormed a_message-Lacks
      (room 32 (omega arith))

read-write_example :
    (bs : List ℕ) × (write plain a_message ≡ some bs)
    × (read plain bs ≡ parsed (received a_message bs))
read-write_example = read-write plain a_message a_message-IsWellFormed

validate_fingerprint-add_fingerprint_example :
    ((add_fingerprint plain a_message).1 ≡ true)
    × IsWellFormed (add_fingerprint plain a_message).0
    × (bs : List ℕ) × (write plain (add_fingerprint plain a_message).0 ≡ some bs)
    × (validate_fingerprint plain bs ≡ done true)
validate_fingerprint-add_fingerprint_example =
    validate_fingerprint-add_fingerprint plain a_message a_message-IsWellFormed
      (room 8 (omega arith))

read-ne-stuck_example : read plain (0 ∷ 1 ∷ 2 ∷ []) ≢ Parse.stuck
read-ne-stuck_example = read-ne-stuck plain (0 ∷ 1 ∷ 2 ∷ [])

validate_message_integrity_overread_example :
    let s = (add_fingerprint plain (add_attribute empty_integrity a_message)).0 in
    (bs : List ℕ) × (write plain s ≡ some bs)
    × (validate_fingerprint plain bs ≡ done true)
    × (read plain bs ≡ parsed (received s bs))
    × (validate_message_integrity plain a_key (received s bs) ≡ fault)
validate_message_integrity_overread_example =
    validate_message_integrity_overread plain a_message a_key a_message-IsWellFormed a_message-Lacks
      (room 12 (omega arith))

abbrev name_bytes : List ℕ
name_bytes = 0 ∷ 6 ∷ 0 ∷ 3 ∷ b'a' ∷ b':' ∷ b'b' ∷ 0 ∷ []

name_bytes-written : write_attrs plain a_message.attrs ≡ some name_bytes
unfolding write_attrs write_value write_padding
name_bytes-written = refl

validate_signed_example :
    let mac = plain.compute_hmac a_key (signed plain a_message name_bytes) in
    validate_message_integrity_of_type plain
      ((header_of plain 1 36 a_message.transaction_id ++ name_bytes)
        ++ attrs_bytes plain (integrity_attr mac) mac (1 ∷ 2 ∷ 3 ∷ 4 ∷ []))
      a_key
    ≡ done true
validate_signed_example =
    validate_signed plain a_message a_message.attrs name_bytes (1 ∷ 2 ∷ 3 ∷ 4 ∷ []) a_key 36
      (name_attr-IsSound, tt) a_message-Lacks name_bytes-written refl refl refl (omega arith)

abbrev alice : IceParameters
alice = record { ice_ufrag = b'a' ∷ b'l' ∷ []; ice_pwd = b'p' ∷ [] }

abbrev bob : IceParameters
bob = record { ice_ufrag = b'b' ∷ b'o' ∷ []; ice_pwd = b'q' ∷ b'r' ∷ [] }

get_stun_message-prepare_example :
    (bs : List ℕ) × (m : StunMessage) × (write plain
        (prepare plain alice bob 7 new_message.transaction_id)
      ≡ some bs)
    × (get_stun_message plain bob bs ≡ accepted m alice.ice_ufrag)
unfolding create_stun_username
get_stun_message-prepare_example =
    get_stun_message-prepare plain alice bob 7 new_message.transaction_id refl (omega arith)
      (omega arith) (λ e. ground arith, (λ e. ground arith, tt))
      (λ e. ground arith, (λ e. ground arith, tt))

abbrev a_response : StunMessage
a_response = record new_message { type = 0x101 }

abbrev an_error : StunMessage
an_error = record new_message { type = 0x111 }

abbrev some_requests : StunRequestManager
some_requests = record {
  requests = (new_message.transaction_id, 7) ∷ [];
  heap = (7, record { id = new_message.transaction_id; type = 1; ts = 5 }) ∷ [];
}

some_requests-IsWaiting : IsWaiting some_requests
unfolding lookup
some_requests-IsWaiting = record {
  alive = λ id at e. elim (Bool-cases (bytes_eq new_message.transaction_id id)) [
    | inl t ↦
        let is_at : at ≡ 7 = ground (arith, rw t at e) in
        (
          record { id = new_message.transaction_id; type = 1; ts = 5 },
          ap (λ a. object_at a some_requests.heap) is_at,
          bytes_eq→eq new_message.transaction_id id t,
        )
    | inr t ↦ absurd (ground (arith, rw t at e))
  ];
}

-- An error response without a code, and after it a success response.
check_response_once_example :
    (IsFatal an_error some_requests × (check_response an_error some_requests ≡ faults))
    ⊎ ((¬ IsFatal an_error some_requests)
        × (after : StunRequestManager) × (handler : Option Handler) × (ok : Bool) × (check_response
              an_error some_requests
            ≡ returns after handler ok)
        × IsWaiting after
        × (check_response a_response after ≡ returns after none false))
check_response_once_example =
    check_response_once an_error a_response some_requests some_requests-IsWaiting refl
