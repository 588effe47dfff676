-- ===== src/Client.antt =====
-- src/client.c: the device that holds the garden's climate. Its globals are a record, what it asks
-- of its drivers, its files and its socket is a list of requests, and each thread's body is a
-- function on them; a call that fails ends the process by `PRINT_ERR`.
pub mod Control
pub mod Env
pub mod Config
pub mod Shutdown
pub mod Main
pub mod Start
use cloud_system.Base.{ℕ, suc, ◌+◌, Bool, true, false, List, [], ◌∷◌, ◌++◌}
use cloud_system.Message.{Msg, Limitset}

-- The globals of include/myhead.h that the client's threads share. `limits` is the six variables
-- `settempup` to `setluxdown`.
pub record Globals (F : Type 0) : Type 0 where
  pub setflags : ℕ
  pub fan_duty_cycle : ℕ
  pub motor_duty_cycle : ℕ
  pub fanbuf : List ℕ
  pub motorbuf : List ℕ
  pub conttemp : F
  pub conthume : F
  pub contlux : F
  pub contdevstatus : ℕ
  pub limits : Limitset F

-- `ioctl` on the lamps, `write` to the fan and to the motor, `send` to the server, and the text
-- written to init.txt.
pub data Request (F : Type 0) : Type 0 where
  led : ℕ → Bool → Request F
  fan : List ℕ → Request F
  motor : List ℕ → Request F
  reply : Msg F → Request F
  save : List ℕ → Request F

-- How a thread's body ends: it returns, or a call failed and the process shuts down.
pub data Ran (F : Type 0) : Type 0 where
  finished : Globals F → List (Request F) → Ran F
  aborted : List (Request F) → Ran F

module _ {F : Type 0} where
  -- `for (led_num = 1; led_num <= 6; led_num++) ioctl(led_fd, LED_ON or LED_OFF, &led_num);`
  abbrev pub all_leds : Bool → List (Request F)
  all_leds on = led 1 on ∷ led 2 on ∷ led 3 on ∷ led 4 on ∷ led 5 on ∷ led 6 on ∷ []

-- `sprintf(buf, "%d", n)` for a number of one digit: the digit and the NUL; the other bytes stay.
abbrev pub sprintf_digit : ℕ → List ℕ → List ℕ
sprintf_digit n (x ∷ y ∷ rest) = (b'0' + n) ∷ 0 ∷ rest
sprintf_digit n buf = buf
