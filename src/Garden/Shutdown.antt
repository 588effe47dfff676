-- ===== src/Garden/Shutdown.antt =====
-- What `close_device` of src/client.c leaves of the hardware.
use cloud_system.Base.{ℕ, ◌≡◌, refl, true, false, some, List, [], arith, pos}
use cloud_system.Floats.{Floats}
use cloud_system.Client.{Globals}
use cloud_system.Client.Shutdown.{close_device, Ended}
use cloud_system.Driver.Fan
use cloud_system.Driver.Fan.{Parsed, Fan, duty_of}
use cloud_system.Driver.Fan.Level.{ReadsDigit}
use cloud_system.Driver.Led.{myleds_ioctl}
use cloud_system.Driver.Motor
use cloud_system.Driver.Motor.{motor_stop}
use cloud_system.Garden.{
  Hardware, carry_out_all, carry_out, fan_accepts, motor_accepts, myleds_ioctl,
}
use cloud_system.Garden.Rounds.{goes, Turn, farewell, off_byte, perform_all}
use cloud_system.Garden.Lasting.{IsEnded, AreSound, AreAnswered, perform_all-Goes}
use cloud_system.Garden.Outputs.{AllLines, lamps-AllLines}

-- The shutdown returns at its first call, with the lamps, the fan and the motor off.
pub record IsSafe (F : Type 0) (kstrtoint : List ℕ → Parsed) (h : Hardware) : Type 0 where
  pub ends :
      close_device 1 (λ _. fan_accepts kstrtoint off_byte h) (λ _. motor_accepts off_byte h) 0
      ≡ some Ended.returns
  pub lamps : AllLines h.wiring (carry_out_all kstrtoint {F = F} farewell h).board 0
  pub fan : (carry_out_all kstrtoint {F = F} farewell h).fan.regs ≡ record (h.fan.regs) { ccr1 = 0 }
  pub motor : (carry_out_all kstrtoint {F = F} farewell h).motor.regs ≡ motor_stop h.motor.regs

module _ (kstrtoint : List ℕ → Parsed) (reads : ReadsDigit kstrtoint) where
  fan_off :
      (d : Fan)
      → IsEnded d.kbuf
      → let (d', result) = Fan.motor_write kstrtoint true [] off_byte 1 d in
        (d'.regs ≡ record (d.regs) { ccr1 = 0 }) × (result ≡ pos 1)
  unfolding Fan.motor_write duty_of
  fan_off d (c, rest, is) = rw (is, reads 0 rest (omega arith)) (refl, refl)

  ended-IsSafe : (F : Type 0) (h : Hardware) → IsEnded h.fan.kbuf → IsSafe F kstrtoint h
  unfolding carry_out carry_out_all fan_accepts motor_accepts close_device Motor.motor_write
      myleds_ioctl
  ended-IsSafe F h ended =
      let (regs, result) = fan_off h.fan ended in
      record {
        ends = rw (result, close_device) refl;
        lamps = lamps-AllLines h.wiring false h.board;
        fan = regs;
        motor = refl;
      }

  module _ (fl : Floats) (ts : List (Turn fl.Float)) (g : Globals fl.Float) (h : Hardware) where
    -- Whenever the device is shut down, the garden is left safe: when `kstrtoint` reads a digit in front
    -- of a NUL, the buffers of the two outputs have their ten bytes and the second byte of the fan
    -- driver's buffer is a NUL, then after any order of rounds, ends of the long pause and commands, in
    -- which the climate sensor always answers with bytes, the process still runs, and `close_device`
    -- returns at its first call with the six lamps off, the duty cycle 0 and the motor stopped.
    pub perform_all-IsSafe :
        AreAnswered ts
        → AreSound g h
        → (g' : Globals fl.Float) × (h' : Hardware) × (perform_all fl kstrtoint ts g h
            ≡ goes (g', h'))
          × IsSafe fl.Float kstrtoint h'
    perform_all-IsSafe answered sound =
        let (g', h', ran, (buffers, ended)) =
          perform_all-Goes fl kstrtoint reads ts g h answered sound in
        (g', h', ran, ended-IsSafe fl.Float h' ended)
