-- ===== src/Rtp.antt =====
-- module/rtp_rtcp/rtp_utils.cpp: what kind of packet came in, and the fields of its header.
use web_rtcserver.Prelude.{
  ℕ, zero, suc, ◌-◌, ◌⊎◌, ◌/◌, ◌^◌, ◌≤◌, ◌<◌, ◌≡◌, refl, Bool, true, false, not, ◌&&◌, List, [],
  ◌∷◌, Option, none, some, arith, length, drop, ltb, leb, ◌==◌, if◌then◌else◌, bit_and, ◌↔◌,
}
use web_rtcserver.Rtc.{RtcBase}

abbrev pub k_rtp_version : ℕ
k_rtp_version = 2

abbrev pub k_min_rtp_packet_len : ℕ
k_min_rtp_packet_len = 12

abbrev pub k_min_rtcp_packet_len : ℕ
k_min_rtcp_packet_len = 4

pub data RtpPacketType : Type 0 where
  k_rtp k_rtcp k_unknown : RtpPacketType

-- `packet[i]`; read only below the packet's size.
unfoldable pub byte_at : List ℕ → ℕ → ℕ
byte_at [] i = 0
byte_at (x ∷ xs) zero = x
byte_at (x ∷ xs) (suc i) = byte_at xs i

unfoldable pub has_correct_rtp_version : List ℕ → Bool
has_correct_rtp_version packet = byte_at packet 0 / 2 ^ 6 == k_rtp_version

unfoldable pub payload_type_is_reserved_for_rtcp : ℕ → Bool
payload_type_is_reserved_for_rtcp payload_type = leb 64 payload_type && ltb payload_type 96

unfoldable pub is_rtp_packet : List ℕ → Bool
is_rtp_packet packet =
    leb k_min_rtp_packet_len (length packet)
    && (has_correct_rtp_version packet
        && not (payload_type_is_reserved_for_rtcp (bit_and (byte_at packet 1) 0x7F)))

unfoldable pub is_rtcp_packet : List ℕ → Bool
is_rtcp_packet packet =
    leb k_min_rtcp_packet_len (length packet)
    && (has_correct_rtp_version packet
        && payload_type_is_reserved_for_rtcp (bit_and (byte_at packet 1) 0x7F))

unfoldable pub infer_rtp_packet_type : List ℕ → RtpPacketType
infer_rtp_packet_type packet =
    if is_rtp_packet packet then k_rtp else if is_rtcp_packet packet then k_rtcp else k_unknown

unfoldable pub parse_rtp_sequence_number : RtcBase → List ℕ → ℕ
parse_rtp_sequence_number r packet = r.get_be16 (drop 2 packet)

unfoldable pub parse_rtp_ssrc : RtcBase → List ℕ → ℕ
parse_rtp_ssrc r packet = r.get_be32 (drop 8 packet)

-- `get_rtcp_type` on a buffer; `none` is `false`.
unfoldable pub get_rtcp_type : List ℕ → Option ℕ
get_rtcp_type bs = if ltb (length bs) k_min_rtcp_packet_len then none else some (byte_at bs 1)

-- The payload type of a byte with its marker bit taken off, for every byte.
agree_below : ℕ → Bool
agree_below zero = true
agree_below (suc n) =
    let rest = agree_below n in
    if bit_and n 0x7F == (if ltb n 128 then n else n - 128) then rest else false

agree_below_sound :
    (n : ℕ)
    → agree_below n ≡ true
    → (i : ℕ) → i < n
    → bit_and i 0x7F ≡ (if ltb i 128 then i else i - 128)
unfolding agree_below
agree_below_sound zero e i h = absurd (omega arith)
agree_below_sound (suc n) e i h = ground (arith, agree_below_sound n (ground arith) i)

low_seven_bits : (b : ℕ) → b < 256 → bit_and b 0x7F ≡ (if ltb b 128 then b else b - 128)
unfolding agree_below
low_seven_bits = agree_below_sound 256 refl

-- The second byte of an RTCP packet: 64 to 95, or with the top bit, 192 to 223.
abbrev pub IsRtcpByte : ℕ → Type 0
IsRtcpByte b = ((64 ≤ b) × (b < 96)) ⊎ ((192 ≤ b) × (b < 224))

-- A packet of two bytes at least is taken for RTCP exactly when it has four bytes at least, the
-- first is 128 to 191, and the second is 64 to 95 or 192 to 223; where these two are below 256.
pub infer_rtp_packet_type_rtcp :
    (b0 b1 : ℕ) (rest : List ℕ)
    → b0 < 256
    → b1 < 256
    → (infer_rtp_packet_type (b0 ∷ b1 ∷ rest) ≡ k_rtcp)
      ↔ ((2 ≤ length rest) × (128 ≤ b0) × (b0 < 192) × IsRtcpByte b1)
unfolding infer_rtp_packet_type is_rtp_packet is_rtcp_packet has_correct_rtp_version
    payload_type_is_reserved_for_rtcp byte_at
infer_rtp_packet_type_rtcp b0 b1 rest h0 h1 =
    (λ e. ground (arith, low_seven_bits b1 h1), λ h. ground (arith, low_seven_bits b1 h1))
