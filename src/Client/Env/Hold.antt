-- ===== src/Client/Env/Hold.antt =====
-- What a round of `hold_envthread` does to the devices, and when it leaves them alone.
use cloud_system.Base.{
  ℕ, ◌<◌, ◌≡◌, refl, Bool, not, ◌||◌, some, [], arith, ◌==◌, if◌then◌else◌, bit_at, bit_at-le-one,
}
use cloud_system.Floats.{Floats}
use cloud_system.Message.{Msg}
use cloud_system.Client.{Globals, finished}
use cloud_system.Client.Control.{controlled, control_status, fan_cycle, motor_cycle}
use cloud_system.Client.Control.Status.{
  bit_if, light-Mask, motor-Mask, fan-Mask, bit_at-set_bits8, bit_at-clear_bits8,
}
use cloud_system.Client.Env.{
  temp_status, hume_status, lux_status, temp_ok, hume_ok, lux_ok, measured, regulated, hold_round,
  hold_pause, Sensors,
}

temp_bit :
    (ok : Bool) (s k : ℕ)
    → k < 8
    → bit_at (temp_status ok s) k ≡ (if (k == 1) || (k == 2) then bit_if (not ok) else bit_at s k)
unfolding temp_status
temp_bit ok s k h =
    ground
      (arith, bit_at-le-one s k, bit_at-set_bits8 s 6 k h, bit_at-clear_bits8 s 6 k h, fan-Mask k h)

hume_bit :
    (ok : Bool) (s k : ℕ)
    → k < 8
    → bit_at (hume_status ok s) k ≡ (if k == 3 then bit_if (not ok) else bit_at s k)
unfolding hume_status
hume_bit ok s k h =
    ground (
      arith,
      bit_at-le-one s k,
      bit_at-set_bits8 s 8 k h,
      bit_at-clear_bits8 s 8 k h,
      motor-Mask k h,
    )

lux_bit :
    (ok : Bool) (s k : ℕ)
    → k < 8
    → bit_at (lux_status ok s) k ≡ (if k == 0 then bit_if (not ok) else bit_at s k)
unfolding lux_status
lux_bit ok s k h =
    ground (
      arith,
      bit_at-le-one s k,
      bit_at-set_bits8 s 1 k h,
      bit_at-clear_bits8 s 1 k h,
      light-Mask k h,
    )

module _ (fl : Floats) (g : Globals fl.Float) where
  -- The bits of the status after the tests of the limits.
  pub regulated_bit :
      (k : ℕ)
      → k < 8
      → bit_at (regulated fl g).contdevstatus k ≡ (
          if k == 0
          then bit_if (not (lux_ok fl g))
          else if k == 3
          then bit_if (not (hume_ok fl g))
          else if (k == 1) || (k == 2)
          then bit_if (not (temp_ok fl g))
          else bit_at g.contdevstatus k)
  unfolding regulated
  regulated_bit k h =
      let temp = temp_status (temp_ok fl g) g.contdevstatus in
      ground (
        arith,
        temp_bit (temp_ok fl g) g.contdevstatus k h,
        hume_bit (hume_ok fl g) temp k h,
        lux_bit (lux_ok fl g) (hume_status (hume_ok fl g) temp) k h,
      )

module _ (fl : Floats) (g : Globals fl.Float) (tmp hum als_data : ℕ) where
  abbrev pub answers : Sensors
  answers = record { tmp = some tmp; hum = some hum; als_data = some als_data }

  -- What the round has measured.
  abbrev pub now : Globals fl.Float
  now = measured fl tmp hum als_data g

  -- A round that comes after a control command asks nothing of the devices and leaves the status and
  -- the levels as the command has set them, and the pause behind it is 120 seconds, after which the
  -- limits count again.
  hold_round-manual :
      (buf : Msg fl.Float) (fan_ok motor_ok : Bool)
      → (h : Globals fl.Float) × (hold_round fl answers fan_ok motor_ok (controlled buf g)
          ≡ finished h [])
        × (h.contdevstatus ≡ control_status buf.devctrl g.contdevstatus)
        × (h.fan_duty_cycle ≡ fan_cycle buf.devctrl)
        × (h.motor_duty_cycle ≡ motor_cycle buf.devctrl)
        × (hold_pause fl h ≡ (120, record h { setflags = 1 }))
  unfolding hold_round measured controlled hold_pause
  hold_round-manual buf fan_ok motor_ok =
      (measured fl tmp hum als_data (controlled buf g), refl, refl, refl, refl, refl)
