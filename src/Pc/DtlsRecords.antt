-- ===== src/Pc/DtlsRecords.antt =====
-- Of pc/dtls_transport.cpp: `_handle_dtls_packet` takes exactly the datagrams that DTLS records fill.
use web_rtcserver.Prelude.{
  ℕ, zero, suc, ◌+◌, ◌*◌, ◌^◌, ◌≤◌, ◌<◌, ◌≡◌, ◌↔◌, refl, sym, ap, ◌∙◌, true, false, List, [], ◌∷◌,
  ◌++◌, arith, inl, inr, Bool-cases, All, length, length-append, length-drop, take, drop,
  drop-append, drop-drop, take-append-drop, length-take_of_le, ltb, append_assoc, is_empty,
}
use mathlib.Core.Path.{subst}
use web_rtcserver.Pc.DtlsTransport.{
  k_dtls_record_header_len, byte_at, check_records, DtlsTransport, AdapterCall, Reaction,
  handle_dtls_packet,
}

-- A record is a header of 13 bytes, the last two of which give the length of what follows.
pub record IsRecord (r : List ℕ × List ℕ) : Type 0 where
  pub header_len : length r.0 ≡ k_dtls_record_header_len
  pub body_len : length r.1 ≡ byte_at r.0 11 * 2 ^ 8 + byte_at r.0 12

abbrev pub print_records : List (List ℕ × List ℕ) → List ℕ
print_records [] = []
print_records ((header, body) ∷ rs) = header ++ body ++ print_records rs

abbrev pub AreRecords : List ℕ → Type 0
AreRecords bytes = (rs : List (List ℕ × List ℕ)) × All IsRecord rs × (bytes ≡ print_records rs)

byte_at-append : (xs ys : List ℕ) (i : ℕ) → i < length xs → byte_at (xs ++ ys) i ≡ byte_at xs i
byte_at-append [] ys i h = absurd (omega arith)
byte_at-append (x ∷ xs) ys zero h = refl
byte_at-append (x ∷ xs) ys (suc i) h = byte_at-append xs ys i (omega arith)

byte_at-take : (n i : ℕ) (xs : List ℕ) → i < n → byte_at (take n xs) i ≡ byte_at xs i
byte_at-take zero i xs h = absurd (omega arith)
byte_at-take (suc n) i [] h = refl
byte_at-take (suc n) zero (x ∷ xs) h = refl
byte_at-take (suc n) (suc i) (x ∷ xs) h = byte_at-take n i xs (omega arith)

abbrev len_of : List ℕ → ℕ
len_of bytes = byte_at bytes 11 * 2 ^ 8 + byte_at bytes 12

-- The first record of some bytes that are long enough for it.
first_record :
    (bytes : List ℕ)
    → len_of bytes + k_dtls_record_header_len ≤ length bytes
    → AreRecords (drop (k_dtls_record_header_len + len_of bytes) bytes)
    → AreRecords bytes
first_record bytes h (rs, all, e) =
    let header = take k_dtls_record_header_len bytes in
    let tail = drop k_dtls_record_header_len bytes in
    let body = take (len_of bytes) tail in
    let same : len_of header ≡ len_of bytes =
      omega
        (arith, byte_at-take 13 11 bytes (omega arith), byte_at-take 13 12 bytes (omega arith)) in
    let swap : len_of bytes + k_dtls_record_header_len ≡ k_dtls_record_header_len + len_of bytes =
      omega arith in
    (
      (header, body) ∷ rs,
      (
        record {
          header_len = length-take_of_le 13 bytes (omega arith);
          body_len =
              length-take_of_le (len_of bytes) tail (omega (arith, length-drop 13 bytes))
              ∙ sym same;
        },
        all,
      ),
      sym (take-append-drop 13 bytes)
          ∙ ap (λ t. header ++ t)
              (sym (take-append-drop (len_of bytes) tail)
                ∙ ap (λ t. body ++ t)
                    (drop-drop (len_of bytes) 13 bytes ∙ ap (λ n. drop n bytes) swap ∙ e))
          ∙ sym (append_assoc header body (print_records rs)),
    )

check_records_sound : (n : ℕ) (bytes : List ℕ) → check_records n bytes ≡ true → AreRecords bytes
unfolding check_records
check_records_sound n [] h = ([], tt, refl)
check_records_sound zero (x ∷ xs) h = ground (arith, h)
check_records_sound (suc n) (x ∷ xs) h =
    let bytes = x ∷ xs in
    elim (Bool-cases (ltb (length bytes) k_dtls_record_header_len)) [
      | inl short ↦ absurd (ground (arith, simp (check_records, short) at h))
      | inr enough ↦
          elim (Bool-cases (ltb (length bytes) (len_of bytes + k_dtls_record_header_len))) [
            | inl short ↦ absurd (ground (arith, simp (check_records, enough, short) at h))
            | inr full ↦
                first_record bytes (ground arith)
                  (check_records_sound n _ (simp (check_records, enough, full) at h))
          ]
    ]

not_empty : (xs : List ℕ) → 0 < length xs → is_empty xs ≡ false
not_empty [] h = absurd (omega arith)
not_empty (x ∷ xs) h = refl

check_records_complete :
    (n : ℕ) (rs : List (List ℕ × List ℕ))
    → All IsRecord rs
    → length (print_records rs) ≤ n
    → check_records n (print_records rs) ≡ true
unfolding check_records
check_records_complete zero [] all h = refl
check_records_complete (suc n) [] all h = refl
check_records_complete n ((header, body) ∷ rs) (r, all) h =
    let rest = print_records rs in
    let bytes = header ++ body ++ rest in
    let header_len = r.header_len in
    let body_len = r.body_len in
    let total : length bytes ≡ 13 + len_of header + length rest =
      omega (arith, length-append (header ++ body) rest, length-append header body) in
    let front : (i : ℕ) → i < 13 → byte_at bytes i ≡ byte_at header i = λ i k.
      ap (λ b. byte_at b i) (append_assoc header body rest)
      ∙ byte_at-append header (body ++ rest) i (omega arith) in
    let len : len_of bytes ≡ len_of header =
      omega (arith, front 11 (omega arith), front 12 (omega arith)) in
    let behind : drop (k_dtls_record_header_len + len_of bytes) bytes ≡ rest =
      drop-append (header ++ body) rest _ (omega (arith, length-append header body)) in
    elim n as (λ n. length bytes ≤ n → check_records n bytes ≡ true) [
      | zero ↦ λ k. absurd (omega arith)
      | suc m ↦ λ k.
          let a = not_empty bytes (omega arith) in
          let b : ltb (length bytes) k_dtls_record_header_len ≡ false = ground arith in
          let c : ltb (length bytes) (len_of bytes + k_dtls_record_header_len) ≡ false =
            ground arith in
          simp (check_records, a, b, c, behind) (check_records_complete m rs all (omega arith))
    ]
      h

-- `_handle_dtls_packet` takes a datagram exactly if DTLS records fill it to the end, each a header of
-- 13 bytes and as many bytes as the last two of these say; no record at all counts too.
pub handle_dtls_packet_records :
    (react : List AdapterCall → Reaction) (buf : List ℕ) (d : DtlsTransport)
    → ((handle_dtls_packet react buf d).1 ≡ true) ↔ AreRecords buf
unfolding handle_dtls_packet
handle_dtls_packet_records react buf d = elim (Bool-cases (check_records (length buf) buf)) [
  | inl t ↦ simp (handle_dtls_packet, t) (λ h. check_records_sound (length buf) buf t, λ h. refl)
  | inr t ↦
      simp (handle_dtls_packet, t)
        (λ h. ground (arith, h), λ (rs, all, e). ground (arith, t, complete rs all e))
]
  where
    complete :
        (rs : List (List ℕ × List ℕ))
        → All IsRecord rs
        → buf ≡ print_records rs
        → check_records (length buf) buf ≡ true
    complete rs all e =
        subst (λ b. check_records (length buf) b ≡ true) (sym e)
          (check_records_complete (length buf) rs all (omega (arith, ap length e)))
