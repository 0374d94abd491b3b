-- ===== src/Rtc/Slices.antt =====
-- Lemmas on the buffer calls of rtc_base, from their laws.
use web_rtcserver.Prelude.{
  ℕ, ◌+◌, ◌≤◌, ◌≡◌, sym, List, some, arith, length, take, drop, length-drop, length-take_of_le,
  take-append-drop,
}
use native.Mathlib.Decide.{dec_lt}
use web_rtcserver.Rtc.{RtcBase}

module _ (r : RtcBase) where
  open r use {
    read_bytes, consume, read_bytes-append, read_bytes_short, consume-append, consume_short,
  }

  pub read_bytes_take :
      (n : ℕ) (bs : List ℕ) → n ≤ length bs → read_bytes n bs ≡ some (take n bs, drop n bs)
  read_bytes_take n bs h =
      rw (take-append-drop n bs) at
        (read_bytes-append (take n bs) (drop n bs) n (sym (length-take_of_le n bs h)))

  pub consume_drop : (n : ℕ) (bs : List ℕ) → n ≤ length bs → consume n bs ≡ some (drop n bs)
  consume_drop n bs h =
      rw (take-append-drop n bs) at
        (consume-append (take n bs) (drop n bs) n (sym (length-take_of_le n bs h)))

  -- What a successful read leaves is shorter by what it took.
  pub read_bytes_takes :
      (n : ℕ) (bs s rest : List ℕ)
      → read_bytes n bs ≡ some (s, rest)
      → (length s ≡ n) × (length bs ≡ length rest + n)
  read_bytes_takes n bs s rest e = elim (dec_lt (length bs) n) [
    | yes short ↦ cc (e, read_bytes_short n bs short)
    | no fits ↦ ground (
      arith,
      read_bytes_take n bs (omega arith),
      length-take_of_le n bs (omega arith),
      length-drop n bs,
    )
  ]

  pub consume_takes :
      (n : ℕ) (bs rest : List ℕ) → consume n bs ≡ some rest → length bs ≡ length rest + n
  consume_takes n bs rest e = elim (dec_lt (length bs) n) [
    | yes short ↦ cc (e, consume_short n bs short)
    | no fits ↦ ground (arith, consume_drop n bs (omega arith), length-drop n bs)
  ]
