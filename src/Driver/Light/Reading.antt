-- ===== src/Driver/Light/Reading.antt =====
-- What a reading of the light sensor is worth, and what a failed probe holds.
use cloud_system.Base.{
  ℕ, ◌+◌, ◌*◌, ◌^◌, ◌≡◌, ◌<◌, Bool, Option, none, some, arith, ltb, if◌then◌else◌, u8,
  bit_or_fields8, pos,
}
use cloud_system.Driver.Chardev.{eagain}
use cloud_system.Driver.Light.{Bus, i2c_read_reg, byte_of, als_data, ap3216_read}

-- The byte of a register as the driver takes it: 245 for a failed transfer.
abbrev pub taken : Option ℕ → ℕ
taken none = 245
taken (some d) = u8 d

taken-lt : (o : Option ℕ) → taken o < 256
taken-lt none = omega arith
taken-lt (some d) = omega arith

taken_lem : (bus : Bus) (r : ℕ) → byte_of (i2c_read_reg bus r) ≡ taken (bus.reads r)
unfolding i2c_read_reg
taken_lem bus r = ground arith

als_data_lem : (bus : Bus) → als_data bus ≡ taken (bus.reads 0x0D) * 256 + taken (bus.reads 0x0C)
unfolding als_data
als_data_lem bus =
    rw (taken_lem bus 0x0D, taken_lem bus 0x0C)
      (omega (
        arith,
        bit_or_fields8 (taken (bus.reads 0x0D)) (taken (bus.reads 0x0C))
            (taken-lt (bus.reads 0x0C)),
        taken-lt (bus.reads 0x0D),
        taken-lt (bus.reads 0x0C),
      ))

-- A reading is the high byte times 256 plus the low byte, below 2 ^ 16; a transfer that failed
-- counts as the byte 245, and no error is reported: the result is the number of bytes copied, at
-- most 2, unless the copy to the caller fails.
pub ap3216_read_lem :
    (bus : Bus) (copy_ok : Bool) (size : ℕ)
    → let (value, result) = ap3216_read bus copy_ok size in
      (value ≡ taken (bus.reads 0x0D) * 256 + taken (bus.reads 0x0C))
      × (value < 2 ^ 16)
      × (result ≡ (if copy_ok then pos (if ltb 2 size then 2 else size) else eagain))
unfolding ap3216_read
ap3216_read_lem bus copy_ok size = (
  ground (arith, als_data_lem bus),
  ground (arith, als_data_lem bus, taken-lt (bus.reads 0x0D), taken-lt (bus.reads 0x0C)),
  ground arith,
)
