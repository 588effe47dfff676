-- ===== src/Base/Word.antt =====
-- Machine words as native numbers: casts, complements, and setting or clearing the bits of a mask.
use Prim.Native.Nat.{ℕ, ◌-◌, ◌%◌, ◌^◌, bit_and, bit_or}

-- `(uint8_t)x`, `(uint16_t)x` and `(uint32_t)x`
abbrev pub u8 : ℕ → ℕ
u8 x = x % 2 ^ 8

abbrev pub u16 : ℕ → ℕ
u16 x = x % 2 ^ 16

abbrev pub u32 : ℕ → ℕ
u32 x = x % 2 ^ 32

-- `r |= m` and `r &= ~m` on a 32-bit register, for a mask `m` below 2 ^ 32.
abbrev pub set_bits : ℕ → ℕ → ℕ
set_bits r m = bit_or r m

abbrev pub clear_bits : ℕ → ℕ → ℕ
clear_bits r m = bit_and r (2 ^ 32 - 1 - m)

-- The same on an 8-bit variable; the store cuts the promoted `int` back to a byte.
abbrev pub set_bits8 : ℕ → ℕ → ℕ
set_bits8 c m = u8 (bit_or c m)

abbrev pub clear_bits8 : ℕ → ℕ → ℕ
clear_bits8 c m = u8 (bit_and c (2 ^ 32 - 1 - m))
