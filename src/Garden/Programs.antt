-- ===== src/Garden/Programs.antt =====
-- The programs test.c of mydev/, which use the drivers by hand, on the same hardware as the client.
use cloud_system.Base.{
  none, some, false, Bool, zero, suc, ℕ, ◌+◌, ◌/◌, ◌%◌, true, List, [], ◌∷◌, ltb, if◌then◌else◌,
  length, is_neg, suc, Bool,
}
use cloud_system.Client.{sprintf_digit}
use cloud_system.Floats.{Floats}
use cloud_system.Client.Env.{temp_of, hume_of}
use cloud_system.Driver.Climate
use cloud_system.Driver.Light
use cloud_system.Driver.Light.{ap3216_read}
use cloud_system.Driver.Led
use cloud_system.Driver.Led.{myleds_ioctl}
use cloud_system.Driver.Motor
use cloud_system.Garden.Rounds.{ask}
use cloud_system.Driver.Fan.{Parsed}
use cloud_system.Driver.Fan
use cloud_system.Garden.{Hardware}

-- `sprintf(buf, "%d", n)` for a number below 100.
unfoldable pub sprintf_digits : ℕ → List ℕ → List ℕ
sprintf_digits n (x ∷ y ∷ z ∷ rest) =
    if ltb n 10
    then sprintf_digit n (x ∷ y ∷ z ∷ rest)
    else (b'0' + n / 10) ∷ (b'0' + n % 10) ∷ 0 ∷ rest
sprintf_digits n buf = buf

module _ (kstrtoint : List ℕ → Parsed) where
  -- `main` of the fan's program for the number that it reads, and the buffer of ten bytes that it prints
  -- to: the hardware then, and the status that it returns.
  unfoldable pub fan_test : ℕ → List ℕ → Hardware → Hardware × ℕ
  fan_test duty_cycle buf h =
      let text = sprintf_digits duty_cycle buf in
      let (d, result) = Fan.motor_write kstrtoint true [] text (length text) h.fan in
      (record h { fan = d }, if is_neg result then 1 else 0)

-- `main` of the motor's program, whose device is open.
unfoldable pub motor_test : Hardware → Hardware × ℕ
motor_test h =
    let (d, result) = Motor.motor_write true [] (b'1' ∷ []) 1 h.motor in
    let (d', result') = Motor.motor_write true [] (b'0' ∷ []) 1 d in
    if is_neg result
    then (record h { motor = d }, 1)
    else (record h { motor = d' }, if is_neg result' then 1 else 0)

-- `led_blink`, and `main` of the lamps' program for a number of rounds.
unfoldable pub led_blink : ℕ → Hardware → Hardware
led_blink which h =
    let lit = (myleds_ioctl h.wiring Led.Command.led_on true which h.board).0 in
    record h { board = (myleds_ioctl h.wiring Led.Command.led_off true which lit).0 }

unfoldable pub led_test : ℕ → Hardware → Hardware
unfolding led_blink
led_test zero h = h
led_test (suc n) h =
    led_test n (led_blink 6 (led_blink 5 (led_blink 4 (led_blink 3 (led_blink 2 (led_blink 1 h))))))

-- `main` of the climate sensor's program for the buses that its rounds find: what it prints, and
-- whether it still runs.
module _ (fl : Floats) where
  unfoldable pub climate_test : List Climate.Bus → List (fl.Float × fl.Float) × Bool
  climate_test [] = ([], true)
  climate_test (b ∷ bs) =
      let (printed, runs) = climate_test bs in
      elim (ask b Climate.Command.get_tmp) [
        | none ↦ ([], false)
        | some tmp ↦ (elim (ask b Climate.Command.get_hum) [
          | none ↦ ([], false)
          | some hum ↦ ((temp_of fl tmp, hume_of fl hum) ∷ printed, runs)
        ])
      ]

-- `main` of the light sensor's program: the values of `als_data`, which it prints times 0.0049. The
-- result of `read` is not looked at, so a read that fails leaves the value before.
unfoldable pub light_test : ℕ → List (Light.Bus × Bool) → List ℕ
light_test before [] = []
light_test before ((b, copy_ok) ∷ bs) =
    let (value, result) = ap3216_read b copy_ok 2 in
    let als_data = if is_neg result then before else value in als_data ∷ light_test als_data bs
