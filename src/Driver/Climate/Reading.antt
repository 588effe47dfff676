-- ===== src/Driver/Climate/Reading.antt =====
-- What a measurement gives the caller.
use cloud_system.Base.{
  ℕ, ◌+◌, ◌*◌, ◌/◌, ◌^◌, ◌≡◌, ◌≢◌, ◌<◌, refl, Bool, Option, none, some, arith, if◌then◌else◌, u16,
  bit_or, bit_and, bit_and_low16, bit_or_fields8, bit_or_fields8_left, ◌<<◌, ℤ, pos,
}
use cloud_system.Driver.Chardev.{eagain}
use cloud_system.Driver.Climate.{
  Bus, Command, efault, tmp_addr, hum_addr, i2c_read_tmp_hum, measure, si7006_ioctl,
}

-- The register that a command reads.
abbrev pub register : Command → ℕ
register Command.get_tmp = tmp_addr
register Command.get_hum = hum_addr
register Command.other = 0

swapped :
    (first second : ℕ)
    → first < 256
    → second < 256
    → let word = u16 (bit_or (second << 8) first) in
      bit_and (bit_or (word / 2 ^ 8) (word << 8)) 0xffff ≡ first * 256 + second
swapped first second f s =
    let fields : u16 (bit_or (second << 8) first) ≡ second * 256 + first =
      omega (arith, bit_or_fields8 second first f) in
    let high : (second * 256 + first) / 2 ^ 8 ≡ second = omega arith in
    rw (fields, high, bit_or_fields8_left (second * 256 + first) second s, bit_and_low16)
      (omega arith)

-- What the bus gives are bytes.
abbrev pub AreBytes : Option (ℕ × ℕ) → Type 0
AreBytes none = Unit
AreBytes (some (first, second)) = (first < 256) × (second < 256)

abbrev pub outcome : Bool → Option (ℕ × ℕ) → Option ℕ × ℤ
outcome copy_ok none = (none, eagain)
outcome copy_ok (some (first, second)) =
    if copy_ok then (some (first * 256 + second), pos 0) else (none, efault)

module _ (copy_ok : Bool) where
  measured :
      (bus : Bus) (r : ℕ)
      → AreBytes (bus r)
      → measure copy_ok (i2c_read_tmp_hum bus r) ≡ outcome copy_ok (bus r)
  unfolding i2c_read_tmp_hum measure
  measured bus r = from (bus r)
    where
      from :
          (answer : Option (ℕ × ℕ))
          → AreBytes answer
          → measure copy_ok (i2c_read_tmp_hum (λ _. answer) r) ≡ outcome copy_ok answer
      from none b = refl
      from (some (first, second)) (f, s) = ground (arith, swapped first second f s)

  -- A measurement gives the first byte of the bus times 256 plus the second; a transfer that fails
  -- gives -EAGAIN and a copy that fails -EFAULT, and then the caller's variable is not written.
  pub si7006_ioctl_lem :
      (bus : Bus) (c : Command)
      → c ≢ Command.other
      → AreBytes (bus (register c))
      → si7006_ioctl bus c copy_ok ≡ outcome copy_ok (bus (register c))
  unfolding si7006_ioctl
  si7006_ioctl_lem bus Command.get_tmp ne b = measured bus tmp_addr b
  si7006_ioctl_lem bus Command.get_hum ne b = measured bus hum_addr b
  si7006_ioctl_lem bus Command.other ne b = absurd (ne refl)
