-- ===== src/Base/Mask.antt =====
-- `r |= m` and `r &= ~m` on a 32-bit register, bit by bit, for a mask given by its table of bits.
use Prim.Native.Nat.{ℕ, ◌-◌, ◌*◌, ◌^◌, ◌<◌}
use mathlib.Core.Path.{◌≡◌}
use mathlib.Core.Bool.{Bool, true, not, ◌&&◌}
use native.Mathlib.Omega.{arith}
use cloud_system.Base.Tests.{◌==◌, ==_iff, if◌then◌else◌, holds_below, holds_below_sound}
use cloud_system.Base.Bits.{bit_at, bit_at-le-one, bit_at-bit_and, bit_at-bit_or}
use cloud_system.Base.Word.{set_bits, clear_bits}

infixl 70 ◌<<◌
abbrev pub ◌<<◌ : ℕ → ℕ → ℕ
x << k = x * 2 ^ k

abbrev pub bit_if : Bool → ℕ
bit_if b = if b then 1 else 0

-- The bits of the mask are those that `sel` picks, and those of its complement the others.
abbrev pub is_mask : ℕ → (ℕ → Bool) → Bool
is_mask m sel =
    holds_below 32
      λ k. (bit_at m k == bit_if (sel k)) && (bit_at (2 ^ 32 - 1 - m) k == bit_if (not (sel k)))

module _ (m : ℕ) (sel : ℕ → Bool) (mask : is_mask m sel ≡ true) (r k : ℕ) (lt : k < 32) where
  mask_bits : (bit_at m k ≡ bit_if (sel k)) × (bit_at (2 ^ 32 - 1 - m) k ≡ bit_if (not (sel k)))
  mask_bits =
      let both = holds_below_sound 32 _ mask k lt in
      ((==_iff _ _).0 (ground arith), (==_iff _ _).0 (ground arith))

  pub bit_at-set_bits : bit_at (set_bits r m) k ≡ (if sel k then 1 else bit_at r k)
  bit_at-set_bits = ground (arith, bit_at-bit_or r m k, mask_bits, bit_at-le-one r k)

  pub bit_at-clear_bits : bit_at (clear_bits r m) k ≡ (if sel k then 0 else bit_at r k)
  bit_at-clear_bits =
      ground (arith, bit_at-bit_and r (2 ^ 32 - 1 - m) k, mask_bits, bit_at-le-one r k)
