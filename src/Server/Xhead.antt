-- ===== src/Server/Xhead.antt =====
-- base/xhead.h: the header of a request, read in place, so in the order of a little-endian host.
use web_rtcserver.Prelude.{
  ℕ, ◌+◌, ◌*◌, ◌/◌, ◌%◌, ◌^◌, ◌≤◌, ◌≡◌, refl, List, [], ◌∷◌, ◌++◌, arith, length, take, drop,
  length-drop, drop-append_le,
}

abbrev pub xhead_size : ℕ
xhead_size = 36

abbrev pub xhead_magic_num : ℕ
xhead_magic_num = 4213187847

-- A 32-bit word at the front of some bytes; what is not there counts as 0, and is never read where
-- the header is complete.
unfoldable pub get_le32 : List ℕ → ℕ
get_le32 (a ∷ b ∷ c ∷ d ∷ rest) = a + b * 2 ^ 8 + c * 2 ^ 16 + d * 2 ^ 24
get_le32 [] = 0
get_le32 (a ∷ []) = 0
get_le32 (a ∷ b ∷ []) = 0
get_le32 (a ∷ b ∷ c ∷ []) = 0

unfoldable pub set_le32 : ℕ → List ℕ
set_le32 n = n % 256 ∷ n / 2 ^ 8 % 256 ∷ n / 2 ^ 16 % 256 ∷ n / 2 ^ 24 % 256 ∷ []

-- The fields of `xhead_t`: id and version (2 bytes each), log_id (4), provider (16), magic_num,
-- reserved and body_len (4 each).
unfoldable pub log_id : List ℕ → ℕ
unfolding get_le32
log_id head = get_le32 (drop 4 head)

unfoldable pub magic_num : List ℕ → ℕ
unfolding get_le32
magic_num head = get_le32 (drop 24 head)

unfoldable pub body_len : List ℕ → ℕ
unfolding get_le32
body_len head = get_le32 (drop 32 head)

-- `res_xh->body_len = n`, on a copy of the header.
unfoldable pub set_body_len : ℕ → List ℕ → List ℕ
unfolding set_le32
set_body_len n head = take 32 head ++ set_le32 n

get_le32-append : (xs ys : List ℕ) → 4 ≤ length xs → get_le32 (xs ++ ys) ≡ get_le32 xs
unfolding get_le32
get_le32-append [] ys h = absurd (omega arith)
get_le32-append (a ∷ []) ys h = absurd (omega arith)
get_le32-append (a ∷ b ∷ []) ys h = absurd (omega arith)
get_le32-append (a ∷ b ∷ c ∷ []) ys h = absurd (omega arith)
get_le32-append (a ∷ b ∷ c ∷ d ∷ rest) ys h = refl

-- The fields of a complete header do not change with what arrives behind it.
pub magic_num-append :
    (xs ys : List ℕ) → xhead_size ≤ length xs → magic_num (xs ++ ys) ≡ magic_num xs
unfolding magic_num
magic_num-append xs ys h =
    rw (drop-append_le 24 xs ys (omega arith))
      (get_le32-append (drop 24 xs) ys (omega (arith, length-drop 24 xs)))

pub body_len-append : (xs ys : List ℕ) → xhead_size ≤ length xs → body_len (xs ++ ys) ≡ body_len xs
unfolding body_len
body_len-append xs ys h =
    rw (drop-append_le 32 xs ys (omega arith))
      (get_le32-append (drop 32 xs) ys (omega (arith, length-drop 32 xs)))
