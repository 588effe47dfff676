-- ===== src/Client/Env.antt =====
-- `hold_envthread` and `getenv_thpread` of src/client.c: the thread that holds the climate within its
-- limits, and the one that reports it. The numbers with a fraction are those of Floats.
pub mod Hold
pub mod Report
use cloud_system.Base.{
  ℕ, Bool, true, false, not, ◌&&◌, Option, none, some, List, [], ◌∷◌, ◌++◌, ◌==◌, if◌then◌else◌,
  set_bits8, clear_bits8,
}
use cloud_system.Floats.{Floats}
use cloud_system.Message.{Msg, User, Env}
use cloud_system.Client.{Globals, Request, Ran, finished, aborted, all_leds, sprintf_digit}

-- What the sensors answer: the two `ioctl` calls and the `read`, `none` for -1.
pub record Sensors : Type 0 where
  pub tmp : Option ℕ
  pub hum : Option ℕ
  pub als_data : Option ℕ

-- The bits of `contdevstatus` that each limit decides; `ok` says that the value is within it.
unfoldable pub temp_status : Bool → ℕ → ℕ
temp_status ok s = if ok then clear_bits8 s 0x06 else set_bits8 s 0x06

unfoldable pub hume_status : Bool → ℕ → ℕ
hume_status ok s = if ok then clear_bits8 s 0x08 else set_bits8 s 0x08

unfoldable pub lux_status : Bool → ℕ → ℕ
lux_status ok s = if ok then clear_bits8 s 0x01 else set_bits8 s 0x01

module _ (fl : Floats) where
  -- `125.0 * hum / 65536 - 6`
  abbrev pub hume_of : ℕ → fl.Float
  hume_of hum =
      fl.round (
        fl.sub (fl.div (fl.mul (fl.literal 1250 1) (fl.of_int hum)) (fl.of_int 65536))
          (fl.of_int 6))

  -- `175.72 * tmp / 65536 - 46.85`
  abbrev pub temp_of : ℕ → fl.Float
  temp_of tmp = fl.round (
      fl.sub (fl.div (fl.mul (fl.literal 17572 2) (fl.of_int tmp)) (fl.of_int 65536))
        (fl.literal 4685 2))

  -- `als_data * 0.0049`
  abbrev pub lux_of : ℕ → fl.Float
  lux_of als_data = fl.round (fl.mul (fl.of_int als_data) (fl.literal 49 4))

  -- `x < up && x > down`
  abbrev pub within : fl.Float → fl.Float → fl.Float → Bool
  within x up down = fl.lt x up && fl.lt down x

  unfoldable pub measured : ℕ → ℕ → ℕ → Globals fl.Float → Globals fl.Float
  measured tmp hum als_data g = record g {
    conthume = hume_of hum;
    conttemp = temp_of tmp;
    contlux = lux_of als_data;
  }

  abbrev pub temp_ok : Globals fl.Float → Bool
  temp_ok g = within g.conttemp g.limits.tempup g.limits.tempdown

  abbrev pub hume_ok : Globals fl.Float → Bool
  hume_ok g = within g.conthume g.limits.humeup g.limits.humedown

  abbrev pub lux_ok : Globals fl.Float → Bool
  lux_ok g = within g.contlux g.limits.luxup g.limits.luxdown

  -- The globals after the tests of the limits and the two `sprintf`.
  unfoldable pub regulated : Globals fl.Float → Globals fl.Float
  unfolding temp_status hume_status lux_status
  regulated g =
      let fan = if temp_ok g then 0 else 3 in
      let motor = if hume_ok g then 0 else 1 in
      record g {
        fan_duty_cycle = fan;
        motor_duty_cycle = motor;
        contdevstatus =
            lux_status (lux_ok g)
              (hume_status (hume_ok g) (temp_status (temp_ok g) g.contdevstatus));
        fanbuf = sprintf_digit fan g.fanbuf;
        motorbuf = sprintf_digit motor g.motorbuf;
      }

  -- The drivers' part of a round, by whether the writes to the fan and the motor succeed.
  unfoldable pub driven : (fan_ok motor_ok : Bool) → Globals fl.Float → Ran fl.Float
  unfolding regulated
  driven fan_ok motor_ok g =
      let g' = regulated g in
      let written = all_leds (not (lux_ok g)) ++ Request.fan g'.fanbuf ∷ [] in
      let moved = written ++ Request.motor g'.motorbuf ∷ [] in
      if not fan_ok
      then aborted written
      else if not motor_ok
      then aborted moved
      else finished g' moved

  -- A round of the loop up to the pause.
  unfoldable pub hold_round : Sensors → (fan_ok motor_ok : Bool) → Globals fl.Float → Ran fl.Float
  unfolding measured driven
  hold_round s fan_ok motor_ok g = elim (s.tmp) [
    | none ↦ aborted []
    | some tmp ↦ (elim (s.hum) [
      | none ↦ aborted []
      | some hum ↦ (elim (s.als_data) [
        | none ↦ aborted []
        | some als_data ↦
            let g' = measured tmp hum als_data g in
            if g'.setflags == 0 then finished g' [] else driven fan_ok motor_ok g'
      ])
    ])
  ]

  -- The pause: the seconds of sleep, and the globals behind it. Another thread may have run before.
  unfoldable pub hold_pause : Globals fl.Float → ℕ × Globals fl.Float
  hold_pause g = if g.setflags == 0 then (120, record g { setflags = 1 }) else (3, g)

  -- What the thread does before its loop.
  unfoldable pub hold_start : Globals fl.Float → Globals fl.Float
  hold_start g = record g { contdevstatus = 0; setflags = 1 }

  -- The answer of `getenv_thpread`; `buf` is its variable, which has no value yet.
  unfoldable pub reported : Msg fl.Float → Globals fl.Float → Msg fl.Float
  reported buf g = record buf {
    envdata = record {
      temp = g.conttemp;
      hume = g.conthume;
      lux = g.contlux;
      devstatus = g.contdevstatus;
    };
    limitset = g.limits;
    user = record (buf.user) { flags = 1 };
  }

  unfoldable pub getenv_thpread : (send_ok : Bool) → Msg fl.Float → Globals fl.Float → Ran fl.Float
  unfolding reported
  getenv_thpread send_ok buf g =
      if send_ok
      then finished g (Request.reply (reported buf g) ∷ [])
      else aborted (Request.reply (reported buf g) ∷ [])
