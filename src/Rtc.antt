-- ===== src/Rtc.antt =====
-- What the server relies on of rtc_base (cpp/rtcbase, a copy of WebRTC's base library): byte order,
-- byte buffers, CRC-32, HMAC-SHA1, string splitting and the moving average. It is a parameter of
-- the development; the laws are the documented behaviour of those calls.
pub mod Slices
use web_rtcserver.Prelude.{
  ℕ, ◌+◌, ◌*◌, ◌^◌, ◌≤◌, ◌<◌, ◌≡◌, ◌≢◌, List, [], ◌∷◌, ◌++◌, Option, none, some, length, All, max,
  min,
}

pub record RtcBase : Type 0 where
  -- byte_order.h: `SetBE*` and `GetBE*`; the `Write` calls of `ByteBufferWriter` append `set_be*`.
  pub set_be16 : ℕ → List ℕ
  pub set_be32 : ℕ → List ℕ
  pub set_be64 : ℕ → List ℕ
  pub get_be16 : List ℕ → ℕ
  pub get_be32 : List ℕ → ℕ
  -- byte_buffer.h: what `ByteBufferReader` reads from the front, and the bytes left.
  pub read_uint16 : List ℕ → Option (ℕ × List ℕ)
  pub read_uint32 : List ℕ → Option (ℕ × List ℕ)
  pub read_bytes : ℕ → List ℕ → Option (List ℕ × List ℕ)
  pub consume : ℕ → List ℕ → Option (List ℕ)
  -- crc32.h, message_digest.h (`DIGEST_SHA_1`, key first), string_encode.h, helpers.h.
  pub compute_crc32 : List ℕ → ℕ
  pub compute_hmac : List ℕ → List ℕ → List ℕ
  pub split : List ℕ → ℕ → List (List ℕ)
  pub get_next_moving_average : ℕ → ℕ → ℕ → ℕ
  pub length-set_be16 : (v : ℕ) → length (set_be16 v) ≡ 2
  pub length-set_be32 : (v : ℕ) → length (set_be32 v) ≡ 4
  pub length-set_be64 : (v : ℕ) → length (set_be64 v) ≡ 8
  pub get_be16-set_be16 : (v : ℕ) (rest : List ℕ) → v < 2 ^ 16 → get_be16 (set_be16 v ++ rest) ≡ v
  pub get_be32-set_be32 : (v : ℕ) (rest : List ℕ) → v < 2 ^ 32 → get_be32 (set_be32 v ++ rest) ≡ v
  pub get_be16-lt : (bs : List ℕ) → get_be16 bs < 2 ^ 16
  pub read_uint16-set_be16 :
      (v : ℕ) (rest : List ℕ) → v < 2 ^ 16 → read_uint16 (set_be16 v ++ rest) ≡ some (v, rest)
  pub read_uint32-set_be32 :
      (v : ℕ) (rest : List ℕ) → v < 2 ^ 32 → read_uint32 (set_be32 v ++ rest) ≡ some (v, rest)
  pub read_uint16_takes :
      (bs : List ℕ) (v : ℕ) (rest : List ℕ)
      → read_uint16 bs ≡ some (v, rest)
      → (length bs ≡ length rest + 2) × (v < 2 ^ 16)
  pub read_uint32_takes :
      (bs : List ℕ) (v : ℕ) (rest : List ℕ)
      → read_uint32 bs ≡ some (v, rest)
      → (length bs ≡ length rest + 4) × (v < 2 ^ 32)
  pub read_bytes-append :
      (s rest : List ℕ) (n : ℕ) → n ≡ length s → read_bytes n (s ++ rest) ≡ some (s, rest)
  pub read_bytes_short : (n : ℕ) (bs : List ℕ) → length bs < n → read_bytes n bs ≡ none
  pub consume-append : (s rest : List ℕ) (n : ℕ) → n ≡ length s → consume n (s ++ rest) ≡ some rest
  pub consume_short : (n : ℕ) (bs : List ℕ) → length bs < n → consume n bs ≡ none
  pub compute_crc32-lt : (bs : List ℕ) → compute_crc32 bs < 2 ^ 32
  pub length-compute_hmac : (key bs : List ℕ) → length (compute_hmac key bs) ≡ 20
  pub split_two :
      (a b : List ℕ) (c : ℕ)
      → All (λ x. x ≢ c) a
      → All (λ x. x ≢ c) b
      → split (a ++ c ∷ b) c ≡ a ∷ b ∷ []
  pub get_next_moving_average_between :
      (prev cur ratio : ℕ)
      → (min prev cur ≤ get_next_moving_average prev cur ratio)
        × (get_next_moving_average prev cur ratio ≤ max prev cur)
