-- ===== src/Tests/Plain.antt =====
-- A plain rtc_base that has all the laws of the parameter: bytes in big-endian order, a sum for the
-- CRC-32, a short code for the HMAC.
use web_rtcserver.Prelude.{
  ℕ, ◌+◌, ◌*◌, ◌/◌, ◌%◌, ◌^◌, ◌<◌, ◌≡◌, ◌≢◌, refl, ap, true, List, [], ◌∷◌, ◌++◌, Option, none,
  some, arith, length, take, drop, replicate, length-append, take-append, drop-append, leb, ◌==◌,
  if◌then◌else◌, All,
}
use web_rtcserver.Rtc.{RtcBase}

abbrev be16 : ℕ → List ℕ
be16 v = v / 2 ^ 8 % 256 ∷ v % 256 ∷ []

abbrev be32 : ℕ → List ℕ
be32 v = v / 2 ^ 24 % 256 ∷ v / 2 ^ 16 % 256 ∷ v / 2 ^ 8 % 256 ∷ v % 256 ∷ []

abbrev be64 : ℕ → List ℕ
be64 v = be32 (v / 2 ^ 32) ++ be32 v

abbrev from_be16 : ℕ → ℕ → ℕ
from_be16 a b = (a * 2 ^ 8 + b) % 2 ^ 16

abbrev from_be32 : ℕ → ℕ → ℕ → ℕ → ℕ
from_be32 a b c d = (a * 2 ^ 24 + b * 2 ^ 16 + c * 2 ^ 8 + d) % 2 ^ 32

abbrev get16 : List ℕ → ℕ
get16 [] = 0
get16 (a ∷ []) = 0
get16 (a ∷ b ∷ rest) = from_be16 a b

abbrev get32 : List ℕ → ℕ
get32 [] = 0
get32 (a ∷ []) = 0
get32 (a ∷ b ∷ []) = 0
get32 (a ∷ b ∷ c ∷ []) = 0
get32 (a ∷ b ∷ c ∷ d ∷ rest) = from_be32 a b c d

abbrev read16 : List ℕ → Option (ℕ × List ℕ)
read16 [] = none
read16 (a ∷ []) = none
read16 (a ∷ b ∷ rest) = some (from_be16 a b, rest)

abbrev read32 : List ℕ → Option (ℕ × List ℕ)
read32 [] = none
read32 (a ∷ []) = none
read32 (a ∷ b ∷ []) = none
read32 (a ∷ b ∷ c ∷ []) = none
read32 (a ∷ b ∷ c ∷ d ∷ rest) = some (from_be32 a b c d, rest)

abbrev read_front : ℕ → List ℕ → Option (List ℕ × List ℕ)
read_front n bs = if leb n (length bs) then some (take n bs, drop n bs) else none

abbrev drop_front : ℕ → List ℕ → Option (List ℕ)
drop_front n bs = if leb n (length bs) then some (drop n bs) else none

abbrev checksum : List ℕ → ℕ
checksum [] = 0
checksum (b ∷ bs) = (b + 31 * checksum bs) % 2 ^ 32

abbrev code : List ℕ → List ℕ → List ℕ
code key bs = be32 (checksum (key ++ bs)) ++ replicate 16 7

abbrev prepend : ℕ → List (List ℕ) → List (List ℕ)
prepend x [] = (x ∷ []) ∷ []
prepend x (f ∷ fs) = (x ∷ f) ∷ fs

abbrev split_at : List ℕ → ℕ → List (List ℕ)
split_at [] c = [] ∷ []
split_at (x ∷ xs) c = if x == c then [] ∷ split_at xs c else prepend x (split_at xs c)

pub from_be16_lem : (v : ℕ) → v < 2 ^ 16 → from_be16 (v / 2 ^ 8 % 256) (v % 256) ≡ v
from_be16_lem v h = omega arith

pub from_be32_lem :
    (v : ℕ)
    → v < 2 ^ 32
    → from_be32 (v / 2 ^ 24 % 256) (v / 2 ^ 16 % 256) (v / 2 ^ 8 % 256) (v % 256) ≡ v
from_be32_lem v h = omega arith

pub get16-lt : (bs : List ℕ) → get16 bs < 2 ^ 16
get16-lt [] = omega arith
get16-lt (a ∷ []) = omega arith
get16-lt (a ∷ b ∷ rest) = omega arith

pub read16_takes :
    (bs : List ℕ) (v : ℕ) (rest : List ℕ)
    → read16 bs ≡ some (v, rest)
    → (length bs ≡ length rest + 2) × (v < 2 ^ 16)
read16_takes [] v rest e = ground arith
read16_takes (a ∷ []) v rest e = ground arith
read16_takes (a ∷ b ∷ bs) v rest e = ground arith

pub read32_takes :
    (bs : List ℕ) (v : ℕ) (rest : List ℕ)
    → read32 bs ≡ some (v, rest)
    → (length bs ≡ length rest + 4) × (v < 2 ^ 32)
read32_takes [] v rest e = ground arith
read32_takes (a ∷ []) v rest e = ground arith
read32_takes (a ∷ b ∷ []) v rest e = ground arith
read32_takes (a ∷ b ∷ c ∷ []) v rest e = ground arith
read32_takes (a ∷ b ∷ c ∷ d ∷ bs) v rest e = ground arith

fits : (s rest : List ℕ) (n : ℕ) → n ≡ length s → leb n (length (s ++ rest)) ≡ true
fits s rest n h = ground (arith, length-append s rest)

pub read_front-append :
    (s rest : List ℕ) (n : ℕ) → n ≡ length s → read_front n (s ++ rest) ≡ some (s, rest)
read_front-append s rest n h =
    rw (fits s rest n h, take-append s rest n h, drop-append s rest n h) refl

pub drop_front-append :
    (s rest : List ℕ) (n : ℕ) → n ≡ length s → drop_front n (s ++ rest) ≡ some rest
drop_front-append s rest n h = rw (fits s rest n h, drop-append s rest n h) refl

pub read_front_short : (n : ℕ) (bs : List ℕ) → length bs < n → read_front n bs ≡ none
read_front_short n bs h = ground arith

pub drop_front_short : (n : ℕ) (bs : List ℕ) → length bs < n → drop_front n bs ≡ none
drop_front_short n bs h = ground arith

pub checksum-lt : (bs : List ℕ) → checksum bs < 2 ^ 32
checksum-lt [] = omega arith
checksum-lt (b ∷ bs) = omega arith

split_none : (b : List ℕ) (c : ℕ) → All (λ x. x ≢ c) b → split_at b c ≡ b ∷ []
split_none [] c h = refl
split_none (x ∷ b) c h = ground (arith, split_none b c h.1, h.0)

pub split_at_two :
    (a b : List ℕ) (c : ℕ)
    → All (λ x. x ≢ c) a
    → All (λ x. x ≢ c) b
    → split_at (a ++ c ∷ b) c ≡ a ∷ b ∷ []
split_at_two [] b c h k = ground (arith, split_none b c k)
split_at_two (x ∷ a) b c h k = ground (arith, split_at_two a b c h.1 k, h.0)

abbrev pub plain : RtcBase
plain = record {
  set_be16 = be16;
  set_be32 = be32;
  set_be64 = be64;
  get_be16 = get16;
  get_be32 = get32;
  read_uint16 = read16;
  read_uint32 = read32;
  read_bytes = read_front;
  consume = drop_front;
  compute_crc32 = checksum;
  compute_hmac = code;
  split = split_at;
  get_next_moving_average = λ prev cur ratio. (3 * prev + cur) / 4;
  length-set_be16 = λ v. refl;
  length-set_be32 = λ v. refl;
  length-set_be64 = λ v. refl;
  get_be16-set_be16 = λ v rest h. from_be16_lem v h;
  get_be32-set_be32 = λ v rest h. from_be32_lem v h;
  get_be16-lt = get16-lt;
  read_uint16-set_be16 = λ v rest h. ap (λ x. some (x, rest)) (from_be16_lem v h);
  read_uint32-set_be32 = λ v rest h. ap (λ x. some (x, rest)) (from_be32_lem v h);
  read_uint16_takes = read16_takes;
  read_uint32_takes = read32_takes;
  read_bytes-append = read_front-append;
  read_bytes_short = read_front_short;
  consume-append = drop_front-append;
  consume_short = drop_front_short;
  compute_crc32-lt = checksum-lt;
  length-compute_hmac = λ key bs. refl;
  split_two = split_at_two;
  get_next_moving_average_between = λ prev cur ratio. (omega arith, omega arith);
}
