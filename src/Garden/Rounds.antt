-- ===== src/Garden/Rounds.antt =====
-- The rounds of `hold_envthread` of src/client.c on the hardware: the sensors are asked over their
-- buses, through mydev/temp-hume/si7006.c and mydev/Ambient-light/ap3216.c, and what the round asks of
-- the outputs is carried out.
use cloud_system.Base.{
  ℕ, true, Option, none, some, List, [], ◌∷◌, ◌++◌, is_neg, if◌then◌else◌, false,
}
use cloud_system.Floats.{Floats}
use cloud_system.Client.{Globals, Request, Ran, finished, aborted, all_leds}
use cloud_system.Client.Env.{Sensors, hold_round, hold_pause, measured, regulated}
use cloud_system.Client.Control.{controlled, ctrldev_thread}
use cloud_system.Message.{Msg}
use cloud_system.Driver.Climate
use cloud_system.Driver.Climate.{si7006_ioctl}
use cloud_system.Driver.Light
use cloud_system.Driver.Light.{ap3216_read}
use cloud_system.Driver.Fan.{Parsed}
use cloud_system.Garden.{Hardware, carry_out_all, fan_accepts, motor_accepts}

-- The two buses as a round finds them.
pub record Buses : Type 0 where
  pub climate : Climate.Bus
  pub light : Light.Bus

-- `ioctl(si7006_fd, GET_TMP or GET_HUM, &…)`: the library gives -1 for every negative result.
unfoldable pub ask : Climate.Bus → Climate.Command → Option ℕ
ask bus c = let (value, result) = si7006_ioctl bus c true in if is_neg result then none else value

-- `read(ap3216_fd, &als_data, sizeof(als_data))`, of two bytes.
unfoldable pub read_light : Light.Bus → Option ℕ
read_light bus =
    let (value, result) = ap3216_read bus true 2 in if is_neg result then none else some value

unfoldable pub sensed : Buses → Sensors
unfolding ask read_light
sensed b = record {
  tmp = ask b.climate Climate.Command.get_tmp;
  hum = ask b.climate Climate.Command.get_hum;
  als_data = read_light b.light;
}

-- What `close_device` asks of the outputs: the lamps off, and one byte each to the fan and the motor.
abbrev pub off_byte : List ℕ
off_byte = b'0' ∷ []

abbrev pub farewell : {F : Type 0} → List (Request F)
farewell = all_leds false ++ Request.fan off_byte ∷ Request.motor off_byte ∷ []

pub data Turn (F : Type 0) : Type 0 where
  measuring : Buses → Turn F
  waking : Turn F
  commanded : Msg F → Turn F

-- What a turn comes to: the process goes on, or it ends and leaves the hardware so.
pub data Outcome (F : Type 0) : Type 0 where
  goes : Globals F × Hardware → Outcome F
  ends : Hardware → Outcome F

module _ (fl : Floats) (kstrtoint : List ℕ → Parsed) where
  -- What a thread comes to, with all that it has asked for carried out, also when the process shuts
  -- down.
  abbrev pub settle : Hardware → Ran fl.Float → Outcome fl.Float
  settle h (finished g rs) = goes (g, carry_out_all kstrtoint rs h)
  settle h (aborted rs) = ends (carry_out_all kstrtoint rs h)

  -- The globals with the texts that a round writes, when it comes to that.
  abbrev pub written : Sensors → Globals fl.Float → Globals fl.Float
  written s g = elim (s.tmp) [
    | none ↦ g
    | some tmp ↦ (elim (s.hum) [
      | none ↦ g
      | some hum ↦ (elim (s.als_data) [
        | none ↦ g
        | some als ↦ regulated fl (measured fl tmp hum als g)
      ])
    ])
  ]

  -- A round up to the pause; the drivers answer the two writes.
  unfoldable pub round : Buses → Globals fl.Float → Hardware → Outcome fl.Float
  unfolding sensed
  round b g h =
      let s = sensed b in
      let g' = written s g in
      settle h (hold_round fl s (fan_accepts kstrtoint g'.fanbuf h) (motor_accepts g'.motorbuf h) g)

  -- Rounds with their pauses, while no command comes.
  unfoldable pub hold_all : List Buses → Globals fl.Float → Hardware → Outcome fl.Float
  unfolding round
  hold_all [] g h = goes (g, h)
  hold_all (b ∷ bs) g h = elim (round b g h) [
    | ends left ↦ ends left
    | goes (g', h') ↦ hold_all bs (hold_pause fl g').1 h'
  ]

  -- `ctrldev_thread` on the hardware; its answer reaches the server.
  unfoldable pub command : Msg fl.Float → Globals fl.Float → Hardware → Outcome fl.Float
  command m g h =
      let g' = controlled m g in
      settle h
        (ctrldev_thread (fan_accepts kstrtoint g'.fanbuf h) (motor_accepts g'.motorbuf h) true m g)

  -- The threads' turns at the hardware: a round, the end of the long pause, a command.
  unfoldable pub perform : Turn fl.Float → Globals fl.Float → Hardware → Outcome fl.Float
  unfolding round command
  perform (Turn.measuring b) g h = round b g h
  perform Turn.waking g h = goes (record g { setflags = 1 }, h)
  perform (Turn.commanded m) g h = command m g h

  unfoldable pub perform_all : List (Turn fl.Float) → Globals fl.Float → Hardware → Outcome fl.Float
  unfolding perform
  perform_all [] g h = goes (g, h)
  perform_all (t ∷ ts) g h = elim (perform t g h) [
    | ends left ↦ ends left
    | goes (g', h') ↦ perform_all ts g' h'
  ]
