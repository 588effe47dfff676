-- ===== src/Driver/Climate.antt =====
-- mydev/temp-hume/si7006.c and si7006.h: the sensor of temperature and humidity SI7006, on an I2C
-- bus.
pub mod Reading
use cloud_system.Base.{
  ℕ, ◌-◌, ◌+◌, Bool, true, false, Option, none, some, List, if◌then◌else◌, u16, u8, ◌^◌, bit_or,
  bit_and, ◌<<◌, ◌/◌, ℤ, pos, negsuc, is_neg,
}
use cloud_system.Driver.Chardev.{Held, eagain, einval}

-- -EFAULT
abbrev pub efault : ℤ
efault = negsuc 13

-- The two bytes that a measurement gives, in the order of the bus, or a transfer that fails.
abbrev pub Bus : Type 0
Bus = ℕ → Option (ℕ × ℕ)

-- `i2c_read_tmp_hum`. `data` is a little-endian `u16`, so the first byte is its low one; the shifts
-- are made in `int`.
unfoldable pub i2c_read_tmp_hum : Bus → ℕ → ℤ
i2c_read_tmp_hum bus reg = elim (bus reg) [
  | none ↦ eagain
  | some (first, second) ↦
      let word = u16 (bit_or (u8 second << 8) (u8 first)) in pos (bit_or (word / 2 ^ 8) (word << 8))
]

pub data Command : Type 0 where
  get_tmp get_hum other : Command

-- `TMP_ADDR` and `HUM_ADDR`
abbrev pub tmp_addr : ℕ
tmp_addr = 0xe3

abbrev pub hum_addr : ℕ
hum_addr = 0xe5

-- One measurement: what is copied to the caller, if anything, and the result.
unfoldable pub measure : (copy_ok : Bool) → ℤ → Option ℕ × ℤ
measure copy_ok (negsuc n) = (none, eagain)
measure copy_ok (pos v) = if copy_ok then (some (bit_and v 0xffff), pos 0) else (none, efault)

unfoldable pub si7006_ioctl : Bus → Command → (copy_ok : Bool) → Option ℕ × ℤ
unfolding measure
si7006_ioctl bus Command.get_tmp copy_ok = measure copy_ok (i2c_read_tmp_hum bus tmp_addr)
si7006_ioctl bus Command.get_hum copy_ok = measure copy_ok (i2c_read_tmp_hum bus hum_addr)
si7006_ioctl bus Command.other copy_ok = (none, pos 0)

-- `si7006_probe`, with what the kernel answers to `register_chrdev`, `class_create` and
-- `device_create`.
unfoldable pub si7006_probe : ℤ → Option ℤ → Option ℤ → Held → Held × ℤ
si7006_probe major class device h = if is_neg major then (h, einval) else (elim class [
  | some e ↦ (record h { chrdev = true }, e)
  | none ↦ (elim device [
    | some e ↦ (record h { chrdev = true; class = true }, e)
    | none ↦ (record h { chrdev = true; class = true; device = true }, pos 0)
  ])
])

unfoldable pub si7006_remove : Held → Held
si7006_remove h = record h { chrdev = false; class = false; device = false }
