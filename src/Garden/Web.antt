-- ===== src/Garden/Web.antt =====
-- From the control page on the web to the registers of the hardware.
use cloud_system.Base.{ℕ, ◌≡◌, refl, true, some, List, [], ◌∷◌, ◌++◌, codes, str_eq}
use cloud_system.Floats.{Floats}
use cloud_system.Message.{Msg}
use cloud_system.Server.World.{World}
use cloud_system.Server.Handler.{Thread}
use cloud_system.Control.{level}
use cloud_system.Cgi.{Form}
use cloud_system.Cgi.Dev.{fill, on, first_char}
use cloud_system.Cgi.Session.{device_name, request}
use cloud_system.Client.{Request}
use cloud_system.Client.Control.{controlled, ctrldev_thread}
use cloud_system.Client.Main.{Device, IsIdle, body, dispatch, receive, perform, perform_all}
use cloud_system.Driver.Fan.{Parsed}
use cloud_system.Driver.Fan.Level.{ReadsDigit}
use cloud_system.Exchange.{IsReady}
use cloud_system.Exchange.Control.{IsObeyed, control-IsObeyed, command, done, device_after, orders}
use cloud_system.Garden.{Hardware, carry_out_all, fan_accepts, motor_accepts}
use cloud_system.Garden.Control.{AreBuffers, IsCarriedOut, ctrldev_thread-IsCarriedOut}
use cloud_system.Garden.Outputs.{IsDriven}

-- The form has been sent by the page, passed on by the server and carried out by the device.
pub record IsSwitched (fl : Floats) (kstrtoint : List ℕ → Parsed) (w : World fl.Float)
    (t : Thread fl.Float) (cookie : List ℕ) (form : Form) (buf : Msg fl.Float) (d : Device fl.Float)
    (h : Hardware) : Type 0 where
  pub obeyed : IsObeyed fl w t cookie form buf d
  -- The drivers accept the two writes of the device.
  pub accepted :
      (fan_accepts kstrtoint (device_after fl form buf d).globals.fanbuf h ≡ true)
      × (motor_accepts (device_after fl form buf d).globals.motorbuf h ≡ true)
  -- What the device then has asked for beyond what it had, carried out.
  pub outputs :
      IsDriven h
        (carry_out_all kstrtoint (orders fl form buf d ++ Request.reply (done fl.zero form) ∷ []) h)
        (str_eq on (form (codes "LED") 10))
        (level (first_char (form (codes "FAN") 2)))
        (str_eq on (form (codes "BEEP") 10))
  pub buffers : AreBuffers (device_after fl form buf d).globals

globals-controlled :
    (fl : Floats) (form : Form) (buf : Msg fl.Float) (d : Device fl.Float)
    → IsIdle d
    → (device_after fl form buf d).globals ≡ controlled (command fl.zero form) d.globals
unfolding request receive dispatch perform body perform_all ctrldev_thread controlled fill
globals-controlled fl form buf d idle = rw (idle.0, idle.1) refl

-- From the page to the registers: with the cookie of the device "admin", whose thread is ready, with
-- the client running and no thread of it under way and ten bytes in each of its two buffers, and when
-- `kstrtoint` reads a digit in front of a NUL, the command of the control page is relayed, obeyed and
-- accepted as `IsObeyed` says; both drivers accept what the device writes; and its requests leave the
-- six lamps on where the form says ON and off otherwise, the duty cycle of the fan at that of the
-- form's level, and the motor started where the form says ON and stopped otherwise.
pub control-IsSwitched :
    (fl : Floats) (kstrtoint : List ℕ → Parsed) (w : World fl.Float) (t : Thread fl.Float) (n : ℕ)
    (cookie : List ℕ) (form : Form) (buf : Msg fl.Float) (d : Device fl.Float) (h : Hardware)
    → ReadsDigit kstrtoint
    → IsReady w t n
    → device_name cookie ≡ some (codes "admin")
    → IsIdle d
    → AreBuffers d.globals
    → IsSwitched fl kstrtoint w t cookie form buf d h
control-IsSwitched fl kstrtoint w t n cookie form buf d h reads ready named idle buffers =
    let after_is = globals-controlled fl form buf d idle in
    let carried : IsCarriedOut kstrtoint form (command fl.zero form) d.globals h =
      ctrldev_thread-IsCarriedOut kstrtoint form (command fl.zero form) d.globals h reads buffers
        (unfold request in unfold fill in refl) in
    record {
      obeyed = control-IsObeyed fl w t n cookie form buf d ready named idle;
      accepted = rw after_is (carried.accepted);
      outputs = carried.outputs;
      buffers = rw after_is (carried.buffers);
    }
