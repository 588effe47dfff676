-- ===== src/Driver/Light.antt =====
-- mydev/Ambient-light/ap3216.c: the light sensor AP3216, on an I2C bus.
pub mod Reading
use cloud_system.Base.{
  ℕ, ◌-◌, ◌+◌, ◌*◌, ◌^◌, Bool, true, false, not, Option, none, some, List, [], ◌∷◌, ◌++◌, ◌==◌,
  if◌then◌else◌, ltb, u8, u16, bit_or, ◌<<◌, ℤ, pos, negsuc, is_neg,
}
use cloud_system.Driver.Chardev.{Held, nothing, eagain}

-- The bus: the byte that a register reads as, or a transfer that fails; and whether a write succeeds.
pub record Bus : Type 0 where
  pub reads : ℕ → Option ℕ
  pub writes : ℕ → ℕ → Bool

-- `i2c_write_reg`, which asks the bus for one transfer of two bytes.
unfoldable pub i2c_write_reg : Bus → ℕ → ℕ → ℤ
i2c_write_reg bus reg byte = if bus.writes reg byte then pos 0 else eagain

-- `i2c_read_reg`: the byte, or -EAGAIN.
unfoldable pub i2c_read_reg : Bus → ℕ → ℤ
i2c_read_reg bus reg = elim (bus.reads reg) [ none ↦ eagain | some d ↦ pos (u8 d) ]

-- `(u8)n` of an `int`.
abbrev pub byte_of : ℤ → ℕ
byte_of (pos n) = u8 n
byte_of (negsuc n) = u8 (2 ^ 32 - 1 - n)

-- `als_data` of `ap3216_read`: the registers 0x0C and 0x0D, low byte first.
unfoldable pub als_data : Bus → ℕ
unfolding i2c_read_reg
als_data bus = u16 (bit_or (byte_of (i2c_read_reg bus 0x0D) << 8) (byte_of (i2c_read_reg bus 0x0C)))

-- `ap3216_read`: the value of which the caller gets the first `size` bytes, and the result.
unfoldable pub ap3216_read : Bus → (copy_ok : Bool) → ℕ → ℕ × ℤ
ap3216_read bus copy_ok size =
    let n = if ltb 2 size then 2 else size in
    if copy_ok then (als_data bus, pos n) else (als_data bus, eagain)

-- `ap3216_probe`: the registers that it writes, in order, whether or not the writes succeed, what
-- it holds then, and its result. The arguments are what the kernel answers to `register_chrdev`,
-- `class_create` and `device_create`.
abbrev pub setup : List (ℕ × ℕ)
setup = (0x00, 0x04) ∷ (0x00, 0x03) ∷ (0x10, 0x11) ∷ []

unfoldable pub ap3216_probe :
    ℤ → Option ℤ → Option ℤ → Held → record { written : List (ℕ × ℕ); held : Held; result : ℤ }
ap3216_probe major class device h =
    if is_neg major then record { written = setup; held = h; result = eagain } else (elim class [
      | some e ↦ record { written = setup; held = record h { chrdev = true }; result = e }
      | none ↦ (elim device [
        | some e ↦ record {
          written = setup;
          held = record h { chrdev = true; class = true };
          result = e;
        }
        | none ↦ record {
          written = setup;
          held = record h { chrdev = true; class = true; device = true };
          result = pos 0;
        }
      ])
    ])

-- `ap3216_remove`: what it holds then, and the register that it writes.
unfoldable pub ap3216_remove : Held → Held × (ℕ × ℕ)
ap3216_remove h = (record h { chrdev = false; class = false; device = false }, (0x00, 0x0))
