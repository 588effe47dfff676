-- ===== src/Base/Bits.antt =====
-- Single bits of a number, and how the bitwise operations of C act on each of them.
use Prim.Native.Nat.{
  ℕ, zero, suc, ◌+◌, ◌-◌, ◌*◌, ◌/◌, ◌%◌, ◌^◌, ◌≤◌, ◌<◌, min, max, bit_and, bit_or,
}
use Prim.Native.Nat.{digits, bit_and-bitwise, bit_or-bitwise}
use mathlib.Core.Path.{◌≡◌, refl, sym, subst}
use native.Mathlib.Omega.{arith}

-- How many digits are asked for does not matter, once there are enough.
digits_enough :
    (z : ℕ → ℕ) (f : ℕ → ℕ → ℕ) (n m a b : ℕ) → a ≤ n → a ≤ m → digits z f n a b ≡ digits z f m a b
digits_enough z f zero zero a b p q = refl
digits_enough z f zero (suc m) zero b p q = refl
digits_enough z f zero (suc m) (suc a) b p q = absurd (omega arith)
digits_enough z f (suc n) zero zero b p q = refl
digits_enough z f (suc n) zero (suc a) b p q = absurd (omega arith)
digits_enough z f (suc n) (suc m) zero b p q = refl
digits_enough z f (suc n) (suc m) (suc a) b p q =
    rw (digits_enough z f n m (suc a / 2) (b / 2) (omega arith) (omega arith))

-- One digit of each operation.
pub bit_and-div : (a b : ℕ) → bit_and a b ≡ bit_and (a / 2) (b / 2) * 2 + min (a % 2) (b % 2)
bit_and-div zero b = simp bit_and-bitwise (omega arith)
bit_and-div (suc a) b = simp bit_and-bitwise (
    omega (
      arith,
      digits_enough (λ y. 0) min a (suc a / 2) (suc a / 2) (b / 2) (omega arith) (omega arith),
    ))

pub bit_or-div : (a b : ℕ) → bit_or a b ≡ bit_or (a / 2) (b / 2) * 2 + max (a % 2) (b % 2)
bit_or-div zero b = simp bit_or-bitwise (omega arith)
bit_or-div (suc a) b = simp bit_or-bitwise (
    omega (
      arith,
      digits_enough (λ y. y) max a (suc a / 2) (suc a / 2) (b / 2) (omega arith) (omega arith),
    ))

-- `x >> k & 1`
unfoldable pub bit_at : ℕ → ℕ → ℕ
bit_at x zero = x % 2
bit_at x (suc k) = bit_at (x / 2) k

pub bit_at-le-one : (x k : ℕ) → bit_at x k ≤ 1
unfolding bit_at
bit_at-le-one x zero = omega arith
bit_at-le-one x (suc k) = bit_at-le-one (x / 2) k

pub bit_at-bit_and : (a b k : ℕ) → bit_at (bit_and a b) k ≡ min (bit_at a k) (bit_at b k)
unfolding bit_at
bit_at-bit_and a b zero = omega (arith, bit_and-div a b)
bit_at-bit_and a b (suc k) = rw half (bit_at-bit_and (a / 2) (b / 2) k)
  where
    half : bit_and a b / 2 ≡ bit_and (a / 2) (b / 2)
    half = omega (arith, bit_and-div a b)

pub bit_at-bit_or : (a b k : ℕ) → bit_at (bit_or a b) k ≡ max (bit_at a k) (bit_at b k)
unfolding bit_at
bit_at-bit_or a b zero = omega (arith, bit_or-div a b)
bit_at-bit_or a b (suc k) = rw half (bit_at-bit_or (a / 2) (b / 2) k)
  where
    half : bit_or a b / 2 ≡ bit_or (a / 2) (b / 2)
    half = omega (arith, bit_or-div a b)

-- A cast to 8 bits keeps the low 8 bits.
pub bit_at_low : (x k : ℕ) → k < 8 → bit_at (x % 2 ^ 8) k ≡ bit_at x k
unfolding bit_at
bit_at_low x zero h = omega arith
bit_at_low x (suc zero) h = omega arith
bit_at_low x (suc (suc zero)) h = omega arith
bit_at_low x (suc (suc (suc zero))) h = omega arith
bit_at_low x (suc (suc (suc (suc zero)))) h = omega arith
bit_at_low x (suc (suc (suc (suc (suc zero))))) h = omega arith
bit_at_low x (suc (suc (suc (suc (suc (suc zero)))))) h = omega arith
bit_at_low x (suc (suc (suc (suc (suc (suc (suc zero))))))) h = omega arith
bit_at_low x (suc (suc (suc (suc (suc (suc (suc (suc k)))))))) h = absurd (omega arith)

-- `x & (1 << k)` picks out bit `k`, for the masks that the program tests.
bit_and-zero : (n a : ℕ) → a ≤ n → bit_and a 0 ≡ 0
bit_and-zero n zero h = refl
bit_and-zero zero (suc a) h = absurd (omega arith)
bit_and-zero (suc n) (suc a) h =
    omega (arith, bit_and-div (suc a) 0, bit_and-zero n (suc a / 2) (omega arith))

pub bit_and_lowest : (x : ℕ) → bit_and x 0x01 ≡ bit_at x 0
unfolding bit_at
bit_and_lowest x = omega (arith, bit_and-div x 1, bit_and-zero (x / 2) (x / 2) (omega arith))

pub bit_and_middle : (x : ℕ) → bit_and x 0x06 ≡ 2 * bit_at x 1 + 4 * bit_at x 2
unfolding bit_at
bit_and_middle x = omega (
  arith,
  bit_and-div x 6,
  bit_and-div (x / 2) 3,
  bit_and-div (x / 2 / 2) 1,
  bit_and-zero (x / 2 / 2 / 2) (x / 2 / 2 / 2) (omega arith),
)

pub bit_and_fourth : (x : ℕ) → bit_and x 0x08 ≡ 8 * bit_at x 3
unfolding bit_at
bit_and_fourth x = omega (
  arith,
  bit_and-div x 8,
  bit_and-div (x / 2) 4,
  bit_and-div (x / 2 / 2) 2,
  bit_and-div (x / 2 / 2 / 2) 1,
  bit_and-zero (x / 2 / 2 / 2 / 2) (x / 2 / 2 / 2 / 2) (omega arith),
)

pub ruleset bit_laws = (bit_at-bit_and, bit_at-bit_or)

bit_or-zero : (n a : ℕ) → a ≤ n → bit_or a 0 ≡ a
bit_or-zero n zero h = refl
bit_or-zero zero (suc a) h = absurd (omega arith)
bit_or-zero (suc n) (suc a) h =
    omega (arith, bit_or-div (suc a) 0, bit_or-zero n (suc a / 2) (omega arith))

abbrev IsField : ℕ → Type 0
IsField m = (q r : ℕ) → r < m → bit_or (q * m) r ≡ q * m + r

IsField-double : (m : ℕ) → IsField m → IsField (2 * m)
IsField-double m field q r h = rw (bit_or-div (q * (2 * m)) r) (
    let half : q * (2 * m) / 2 ≡ q * m = omega arith in
    rw (half, field q (r / 2) (omega arith)) (omega arith))

IsField-one : IsField 1
IsField-one q r h =
    let none' : r ≡ 0 = omega arith in
    let once : q * 1 ≡ q = omega arith in
    rw (none', once, bit_or-zero q q (omega arith)) (omega arith)

-- `(q << 8) | r` is a sum when `r` is a byte.
pub bit_or_fields8 : (q r : ℕ) → r < 256 → bit_or (q * 2 ^ 8) r ≡ q * 2 ^ 8 + r
bit_or_fields8 = IsField-double 128 (
    IsField-double 64 (
      IsField-double 32 (
        IsField-double 16
          (IsField-double 8 (IsField-double 4 (IsField-double 2 (IsField-double 1 IsField-one)))))))

-- The same with the byte first.
abbrev IsFieldLeft : ℕ → Type 0
IsFieldLeft m = (q r : ℕ) → r < m → bit_or r (q * m) ≡ q * m + r

IsFieldLeft-double : (m : ℕ) → IsFieldLeft m → IsFieldLeft (2 * m)
IsFieldLeft-double m field q r h = rw (bit_or-div r (q * (2 * m))) (
    let half : q * (2 * m) / 2 ≡ q * m = omega arith in
    rw (half, field q (r / 2) (omega arith)) (omega arith))

IsFieldLeft-one : IsFieldLeft 1
IsFieldLeft-one q r h =
    let none' : r ≡ 0 = omega arith in
    let once : q * 1 ≡ q = omega arith in rw (none', once, bit_or-bitwise 0 q) (omega arith)

pub bit_or_fields8_left : (q r : ℕ) → r < 256 → bit_or r (q * 2 ^ 8) ≡ q * 2 ^ 8 + r
bit_or_fields8_left = IsFieldLeft-double 128 (
    IsFieldLeft-double 64 (
      IsFieldLeft-double 32 (
        IsFieldLeft-double 16 (
          IsFieldLeft-double 8
            (IsFieldLeft-double 4 (IsFieldLeft-double 2 (IsFieldLeft-double 1 IsFieldLeft-one)))))))

-- A mask of ones keeps the low bits.
abbrev IsLow : ℕ → Type 0
IsLow m = (q r : ℕ) → r < m → bit_and (q * m + r) (m - 1) ≡ r

IsLow-double : (m : ℕ) → IsLow m → IsLow (2 * m)
IsLow-double m low q r h = rw (bit_and-div (q * (2 * m) + r) (2 * m - 1)) (
    let half : (q * (2 * m) + r) / 2 ≡ q * m + r / 2 = omega arith in
    let mask : (2 * m - 1) / 2 ≡ m - 1 = omega arith in
    rw (half, mask, low q (r / 2) (omega arith)) (omega arith))

IsLow-one : IsLow 1
IsLow-one q r h = rw (bit_and-zero (q * 1 + r) (q * 1 + r) (omega arith)) (omega arith)

IsLow-byte : (m : ℕ) → IsLow m → IsLow (256 * m)
IsLow-byte m low = subst IsLow (omega arith) (
    IsLow-double _ (
      IsLow-double _ (
        IsLow-double _ (
          IsLow-double _ (IsLow-double _ (IsLow-double _ (IsLow-double _ (IsLow-double m low))))))))

-- `x & 0xffff`
pub bit_and_low16 : (x : ℕ) → bit_and x 0xffff ≡ x % 2 ^ 16
bit_and_low16 x =
    let whole : x ≡ x / 65536 * 65536 + x % 65536 = omega arith in
    subst (λ y. bit_and y 0xffff ≡ x % 2 ^ 16) (sym whole)
      (IsLow-byte 256 (IsLow-byte 1 IsLow-one) (x / 65536) (x % 65536) (omega arith))
