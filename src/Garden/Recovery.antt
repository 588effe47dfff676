-- ===== src/Garden/Recovery.antt =====
-- The client after other programs have used the drivers.
use cloud_system.Base.{ℕ, zero, suc, ◌≡◌, ◌≢◌, refl, ◌∙◌, List, [], ◌∷◌, arith}
use cloud_system.Floats.{Floats}
use cloud_system.Client.{Globals}
use cloud_system.Client.Env.{regulated}
use cloud_system.Driver.Fan.{Parsed}
use cloud_system.Driver.Fan.Level.{ReadsDigit}
use cloud_system.Garden.{Hardware}
use cloud_system.Garden.Control.{AreBuffers}
use cloud_system.Garden.Rounds.{Buses, round}
use cloud_system.Garden.Sensing.{Answers}
use cloud_system.Garden.Hold.{seen, next, hold_lem}
use cloud_system.Garden.Truth.{Keeps, regulated-cells, driven-IsAsShown, carry_out_all-wiring}
use cloud_system.Garden.Programs.{fan_test, motor_test, led_test, led_blink}

-- A run of one of the programs that switch the hardware.
pub data Program : Type 0 where
  fan : ℕ → List ℕ → Program
  motor : Program
  leds : ℕ → Program

led_test-wiring : (n : ℕ) (h : Hardware) → (led_test n h).wiring ≡ h.wiring
unfolding led_test led_blink
led_test-wiring zero h = refl
led_test-wiring (suc n) h = led_test-wiring n _

motor_test-wiring : (h : Hardware) → (motor_test h).0.wiring ≡ h.wiring
unfolding motor_test
motor_test-wiring h = ground arith

module _ (kstrtoint : List ℕ → Parsed) where
  unfoldable pub run : List Program → Hardware → Hardware
  run [] h = h
  run (fan n buf ∷ ps) h = run ps (fan_test kstrtoint n buf h).0
  run (motor ∷ ps) h = run ps (motor_test h).0
  run (leds n ∷ ps) h = run ps (led_test n h)

  run-wiring : (ps : List Program) (h : Hardware) → (run ps h).wiring ≡ h.wiring
  unfolding run fan_test
  run-wiring [] h = refl
  run-wiring (fan n buf ∷ ps) h = run-wiring ps _
  run-wiring (motor ∷ ps) h = run-wiring ps (motor_test h).0 ∙ motor_test-wiring h
  run-wiring (leds n ∷ ps) h = run-wiring ps (led_test n h) ∙ led_test-wiring n h

-- Whatever the programs of mydev/ for the fan, the motor and the lamps have done, one round mends it:
-- when `kstrtoint` reads a digit in front of a NUL, the climate sensor answers with bytes, the buffers
-- of the device have their ten bytes and `setflags` is on, the round goes through, and the lamps, the
-- fan and the motor are then as the view page shows them.
pub run-Keeps :
    (fl : Floats) (kstrtoint : List ℕ → Parsed) (ps : List Program) (b : Buses)
    (g : Globals fl.Float) (h : Hardware)
    → ReadsDigit kstrtoint
    → Answers b
    → AreBuffers g
    → g.setflags ≢ 0
    → Keeps fl h.wiring (round fl kstrtoint b g (run kstrtoint ps h))
run-Keeps fl kstrtoint ps b g h reads answers buffers on =
    let left = run kstrtoint ps h in
    let (ran, held) = hold_lem fl kstrtoint reads b g left answers buffers on in
    (
      regulated fl (seen fl kstrtoint b g),
      next fl kstrtoint b g left,
      ran,
      (
        rw (regulated-cells fl (seen fl kstrtoint b g)) (
            driven-IsAsShown h.wiring left (next fl kstrtoint b g left) _ _ _
              (run-wiring kstrtoint ps h) (carry_out_all-wiring kstrtoint _ left) held.outputs),
        held.buffers,
      ),
    )
