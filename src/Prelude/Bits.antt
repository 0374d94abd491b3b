-- ===== src/Prelude/Bits.antt =====
-- Facts about `bit_xor` at variables: it stays within a width, and undoes itself.
use Prim.Native.Nat.{
  ℕ, zero, suc, ◌+◌, ◌*◌, ◌/◌, ◌%◌, ◌^◌, ◌≤◌, ◌<◌, bit_xor, digits, differ, bit_xor-bitwise, bit_or,
  bit_or-bitwise, bit_and, bit_and-bitwise, min, max,
}
use mathlib.Core.Path.{◌≡◌, refl}
use native.Mathlib.Nat.{pow-suc}
use native.Mathlib.Omega.{arith}

abbrev xor_digits : ℕ → ℕ → ℕ → ℕ
xor_digits n a b = digits (λ b. b) differ n a b

xor_digits_fuel : (n m a b : ℕ) → a ≤ n → a ≤ m → xor_digits n a b ≡ xor_digits m a b
xor_digits_fuel zero zero a b p q = refl
xor_digits_fuel zero (suc m) zero b p q = refl
xor_digits_fuel zero (suc m) (suc a) b p q = absurd (omega arith)
xor_digits_fuel (suc n) zero zero b p q = refl
xor_digits_fuel (suc n) zero (suc a) b p q = absurd (omega arith)
xor_digits_fuel (suc n) (suc m) zero b p q = refl
xor_digits_fuel (suc n) (suc m) (suc a) b p q =
    omega (arith, xor_digits_fuel n m (suc a / 2) (b / 2) (omega arith) (omega arith))

zero-bit_xor : (b : ℕ) → bit_xor 0 b ≡ b
zero-bit_xor b = bit_xor-bitwise 0 b

-- The lowest digit of an exclusive or.
pub bit_xor_step : (a b : ℕ) → bit_xor a b ≡ bit_xor (a / 2) (b / 2) * 2 + differ (a % 2) (b % 2)
bit_xor_step zero b = omega (arith, zero-bit_xor b, zero-bit_xor (b / 2))
bit_xor_step (suc a) b = omega (
  arith,
  bit_xor-bitwise (suc a) b,
  bit_xor-bitwise (suc a / 2) (b / 2),
  xor_digits_fuel a (suc a / 2) (suc a / 2) (b / 2) (omega arith) (omega arith),
)

-- Exclusive or of two digits.
differ_bits : (a b : ℕ) → a < 2 → b < 2 → (differ a b < 2) × (differ (differ a b) b ≡ a)
differ_bits zero zero p q = (omega arith, refl)
differ_bits zero (suc zero) p q = (omega arith, refl)
differ_bits zero (suc (suc b)) p q = absurd (omega arith)
differ_bits (suc zero) zero p q = (omega arith, refl)
differ_bits (suc zero) (suc zero) p q = (omega arith, refl)
differ_bits (suc zero) (suc (suc b)) p q = absurd (omega arith)
differ_bits (suc (suc a)) b p q = absurd (omega arith)

halves : (x d : ℕ) → d < 2 → ((x * 2 + d) / 2 ≡ x) × ((x * 2 + d) % 2 ≡ d)
halves x d h = omega arith

-- An exclusive or of two w-bit words is a w-bit word.
pub bit_xor-lt : (w a b : ℕ) → a < 2 ^ w → b < 2 ^ w → bit_xor a b < 2 ^ w
bit_xor-lt zero zero zero p q = omega arith
bit_xor-lt zero zero (suc b) p q = absurd (omega arith)
bit_xor-lt zero (suc a) b p q = absurd (omega arith)
bit_xor-lt (suc w) a b p q = omega (
  arith,
  pow-suc 2 w,
  bit_xor_step a b,
  (differ_bits (a % 2) (b % 2) (omega arith) (omega arith)).0,
  bit_xor-lt w (a / 2) (b / 2) (omega (arith, pow-suc 2 w)) (omega (arith, pow-suc 2 w)),
)

-- The same mask twice gives the word back.
pub bit_xor-bit_xor : (w a b : ℕ) → a < 2 ^ w → b < 2 ^ w → bit_xor (bit_xor a b) b ≡ a
bit_xor-bit_xor zero zero zero p q = refl
bit_xor-bit_xor zero zero (suc b) p q = absurd (omega arith)
bit_xor-bit_xor zero (suc a) b p q = absurd (omega arith)
bit_xor-bit_xor (suc w) a b p q =
    let (small, back) = differ_bits (a % 2) (b % 2) (omega arith) (omega arith) in
    let (high, low) = halves (bit_xor (a / 2) (b / 2)) (differ (a % 2) (b % 2)) small in
    let ih =
      bit_xor-bit_xor w (a / 2) (b / 2) (omega (arith, pow-suc 2 w)) (omega (arith, pow-suc 2 w)) in
    rw (bit_xor_step a b, bit_xor_step _ b, high, low, ih, back) (omega arith)

-- The other two operations stay within a width too.
module _ (z : ℕ → ℕ) (f : ℕ → ℕ → ℕ) (z-lt : (w b : ℕ) → b < 2 ^ w → z b < 2 ^ w)
    (f-lt : (a b : ℕ) → a < 2 → b < 2 → f a b < 2) where
  digits-lt : (n w a b : ℕ) → a < 2 ^ w → b < 2 ^ w → digits z f n a b < 2 ^ w
  digits-lt zero w a b p q = z-lt w b q
  digits-lt (suc n) w zero b p q = z-lt w b q
  digits-lt (suc n) zero (suc a) b p q = absurd (omega arith)
  digits-lt (suc n) (suc w) (suc a) b p q = omega (
    arith,
    pow-suc 2 w,
    digits-lt n w (suc a / 2) (b / 2) (omega (arith, pow-suc 2 w)) (omega (arith, pow-suc 2 w)),
    f-lt (suc a % 2) (b % 2) (omega arith) (omega arith),
  )

pub bit_or-lt : (w a b : ℕ) → a < 2 ^ w → b < 2 ^ w → bit_or a b < 2 ^ w
bit_or-lt w a b p q =
    rw (bit_or-bitwise a b)
      (digits-lt (λ y. y) max (λ w b h. h) (λ x y h k. omega arith) a w a b p q)

pub bit_and-lt : (w a b : ℕ) → a < 2 ^ w → b < 2 ^ w → bit_and a b < 2 ^ w
bit_and-lt w a b p q =
    rw (bit_and-bitwise a b)
      (digits-lt (λ y. 0) min (λ w b h. omega arith) (λ x y h k. omega arith) a w a b p q)

-- A conjunction keeps no digit that is not there.
and_digits-le : (n a b : ℕ) → digits (λ y. 0) min n a b ≤ a
and_digits-le zero a b = omega arith
and_digits-le (suc n) zero b = omega arith
and_digits-le (suc n) (suc a) b = omega (arith, and_digits-le n (suc a / 2) (b / 2))

pub bit_and-le : (a b : ℕ) → bit_and a b ≤ a
bit_and-le a b = rw (bit_and-bitwise a b) (and_digits-le a a b)
