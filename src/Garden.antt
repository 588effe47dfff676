-- ===== src/Garden.antt =====
-- The hardware of the device: what becomes of the calls of src/client.c in the drivers of mydev/. The
-- kernel copies every buffer that it is given; its `kstrtoint` is an argument.
pub mod Outputs
pub mod Control
pub mod Rounds
pub mod Sensing
pub mod Hold
pub mod Lasting
pub mod Shutdown
pub mod Truth
pub mod Web
pub mod Programs
pub mod Stale
pub mod Recovery
pub mod Failure
mod Samples
mod Tests
use cloud_system.Base.{
  ℕ, Bool, true, false, not, List, [], ◌∷◌, ◌++◌, length, is_neg, if◌then◌else◌,
}
use cloud_system.Client.{Request, led, fan, motor, reply, save}
use cloud_system.Driver.Fan
use cloud_system.Driver.Fan.{Fan, Parsed}
use cloud_system.Driver.Led.{Wiring, Board, Command, myleds_ioctl}
use cloud_system.Driver.Motor
use cloud_system.Driver.Motor.{Motor}

pub record Hardware : Type 0 where
  pub wiring : Wiring
  pub board : Board
  pub fan : Fan
  pub motor : Motor

module _ (kstrtoint : List ℕ → Parsed) where
  -- One call: an `ioctl` on the lamps, or a `write` of the whole text.
  unfoldable pub carry_out : {F : Type 0} → Request F → Hardware → Hardware
  carry_out (led n on) h = record h {
    board =
        (myleds_ioctl h.wiring (if on then Command.led_on else Command.led_off) true n h.board).0;
  }
  carry_out (fan text) h = record h {
    fan = (Fan.motor_write kstrtoint true [] text (length text) h.fan).0;
  }
  carry_out (motor text) h = record h {
    motor = (Motor.motor_write true [] text (length text) h.motor).0;
  }
  carry_out (reply m) h = h
  carry_out (save text) h = h

  unfoldable pub carry_out_all : {F : Type 0} → List (Request F) → Hardware → Hardware
  carry_out_all [] h = h
  carry_out_all (r ∷ rs) h = carry_out_all rs (carry_out r h)

  -- What the client sees of a `write`: whether its result is not negative.
  unfoldable pub fan_accepts : List ℕ → Hardware → Bool
  fan_accepts text h = not (is_neg (Fan.motor_write kstrtoint true [] text (length text) h.fan).1)

unfoldable pub motor_accepts : List ℕ → Hardware → Bool
motor_accepts text h = not (is_neg (Motor.motor_write true [] text (length text) h.motor).1)
