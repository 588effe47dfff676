-- ===== src/Client/Control.antt =====
-- `ctrldev_thread` of src/client.c: it carries out a command that sets the devices.
pub mod Status
use cloud_system.Base.{
  ℕ, suc, ◌+◌, Bool, true, false, List, [], ◌∷◌, ◌++◌, not, ◌==◌, if◌then◌else◌, bit_and, set_bits8,
  clear_bits8,
}
use cloud_system.Message.{Msg, with_flags}
use cloud_system.Client.{Globals, Request, Ran, finished, aborted, all_leds, sprintf_digit}

-- The bit of the lamps, from `devctrl`, into `contdevstatus`.
unfoldable pub light_status : ℕ → ℕ → ℕ
light_status devctrl status =
    if bit_and devctrl 0x01 == 0 then clear_bits8 status 0x01 else set_bits8 status 0x01

-- The motor's.
unfoldable pub motor_status : ℕ → ℕ → ℕ
motor_status devctrl status =
    if bit_and devctrl 0x08 == 0x08 then set_bits8 status 0x08 else clear_bits8 status 0x08

unfoldable pub motor_cycle : ℕ → ℕ
motor_cycle devctrl = if bit_and devctrl 0x08 == 0x08 then 1 else 0

-- The fan's two bits.
unfoldable pub fan_status : ℕ → ℕ → ℕ
fan_status devctrl status =
    if bit_and devctrl 0x06 == 0x02
    then set_bits8 (clear_bits8 status 0x06) 0x02
    else if bit_and devctrl 0x06 == 0x04
    then set_bits8 (clear_bits8 status 0x06) 0x04
    else if bit_and devctrl 0x06 == 0x06
    then set_bits8 (clear_bits8 status 0x06) 0x06
    else clear_bits8 status 0x06

unfoldable pub fan_cycle : ℕ → ℕ
fan_cycle devctrl =
    if bit_and devctrl 0x06 == 0x02
    then 1
    else if bit_and devctrl 0x06 == 0x04
    then 2
    else if bit_and devctrl 0x06 == 0x06
    then 3
    else 0

-- `contdevstatus` after the thread.
unfoldable pub control_status : ℕ → ℕ → ℕ
control_status devctrl status =
    fan_status devctrl (motor_status devctrl (light_status devctrl status))

module _ {F : Type 0} where
  -- The globals after the thread has set the devices.
  unfoldable pub controlled : Msg F → Globals F → Globals F
  unfolding fan_cycle motor_cycle
  controlled buf g = record g {
    setflags = 0;
    fan_duty_cycle = fan_cycle buf.devctrl;
    motor_duty_cycle = motor_cycle buf.devctrl;
    fanbuf = sprintf_digit (fan_cycle buf.devctrl) g.fanbuf;
    motorbuf = sprintf_digit (motor_cycle buf.devctrl) g.motorbuf;
    contdevstatus = control_status buf.devctrl g.contdevstatus;
  }

  -- The thread, by whether the writes to the fan and the motor and the `send` succeed.
  unfoldable pub ctrldev_thread : (fan_ok motor_ok send_ok : Bool) → Msg F → Globals F → Ran F
  ctrldev_thread fan_ok motor_ok send_ok buf g =
      let g' = controlled buf g in
      let lamps = all_leds (not (bit_and buf.devctrl 0x01 == 0)) in
      let written = lamps ++ Request.fan g'.fanbuf ∷ [] in
      let driven = written ++ Request.motor g'.motorbuf ∷ [] in
      if not fan_ok
      then aborted written
      else if not motor_ok
      then aborted driven
      else if not send_ok
      then aborted (driven ++ Request.reply (with_flags 1 buf) ∷ [])
      else finished g' (driven ++ Request.reply (with_flags 1 buf) ∷ [])
