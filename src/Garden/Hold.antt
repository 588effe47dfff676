-- ===== src/Garden/Hold.antt =====
-- What the rounds of `hold_envthread` do to the hardware.
use cloud_system.Base.{
  ℕ, ◌<◌, ◌≡◌, ◌≢◌, refl, true, false, not, List, [], ◌∷◌, ◌++◌, arith, ◌==◌, if◌then◌else◌, length,
  Bool,
}
use cloud_system.Floats.{Floats}
use cloud_system.Client.{Globals, sprintf_digit}
use cloud_system.Client.Env.{measured, regulated, driven, hold_round, temp_ok, hume_ok, lux_ok}
use cloud_system.Driver.Climate
use cloud_system.Driver.Climate.{tmp_addr, hum_addr}
use cloud_system.Driver.Light.Reading.{taken}
use cloud_system.Driver.Fan.{Parsed}
use cloud_system.Driver.Fan.Level.{ReadsDigit}
use cloud_system.Garden.{Hardware, carry_out_all, fan_accepts, motor_accepts}
use cloud_system.Garden.Control.{AreBuffers}
use cloud_system.Garden.Rounds.{goes, Buses, sensed, round, hold_all}
use cloud_system.Garden.Outputs.{
  IsDriven, orders-IsDriven, orders-accepted, length-sprintf_digit, orders,
}
use cloud_system.Garden.Sensing.{Answers, word, light, ask_lem, read_light_lem}

-- The orders of a round: the motor runs when the humidity is not within its limits.
module _ (kstrtoint : List ℕ → Parsed) (reads : ReadsDigit kstrtoint) (light_on : Bool) (level : ℕ)
    (fan_buf motor_buf : List ℕ) (h : Hardware) (F : Type 0) where
  abbrev pub texts : Bool → List ℕ × List ℕ
  texts hume_is_ok =
      (sprintf_digit level fan_buf, sprintf_digit (if hume_is_ok then 0 else 1) motor_buf)

  abbrev RoundRuns : Bool → Type 0
  RoundRuns hume_is_ok =
      let (fan_text, motor_text) = texts hume_is_ok in
      IsDriven h (carry_out_all kstrtoint {F = F} (orders light_on fan_text motor_text) h) light_on
        level (not hume_is_ok)
      × ((fan_accepts kstrtoint fan_text h ≡ true) × (motor_accepts motor_text h ≡ true))

  round_runs :
      (hume_is_ok : Bool)
      → level < 4
      → length fan_buf ≡ 10
      → length motor_buf ≡ 10
      → RoundRuns hume_is_ok
  round_runs true small ten ten' = (
    orders-IsDriven kstrtoint reads light_on false level fan_buf motor_buf h F small ten ten',
    orders-accepted kstrtoint reads light_on false level fan_buf motor_buf h small ten ten',
  )
  round_runs false small ten ten' = (
    orders-IsDriven kstrtoint reads light_on true level fan_buf motor_buf h F small ten ten',
    orders-accepted kstrtoint reads light_on true level fan_buf motor_buf h small ten ten',
  )

module _ (fl : Floats) (kstrtoint : List ℕ → Parsed) where
  -- What a round measures.
  abbrev pub seen : Buses → Globals fl.Float → Globals fl.Float
  seen b g = measured fl (word (b.climate tmp_addr)) (word (b.climate hum_addr)) (light b) g

  -- The round has measured, the outputs follow from the measure and the limits, and the limits, the
  -- setting and the buffers are as before.
  pub record IsHeld (b : Buses) (g g' : Globals fl.Float) (h h' : Hardware) : Type 0 where
    pub now : g' ≡ regulated fl (seen b g)
    pub outputs :
        IsDriven h h'
          (not (lux_ok fl (seen b g)))
          (if temp_ok fl (seen b g) then 0 else 3)
          (not (hume_ok fl (seen b g)))
    pub kept : (g'.limits ≡ g.limits) × (g'.setflags ≡ g.setflags)
    pub buffers : AreBuffers g'

  -- Rounds have been run, and one more, on the buses b: it finds the hardware h₀ and leaves g' and h'.
  pub record IsRegulated (bs : List Buses) (b : Buses) (g g' : Globals fl.Float)
      (h h₀ h' : Hardware) : Type 0 where
    pub before : Globals fl.Float
    pub found : hold_all fl kstrtoint bs g h ≡ goes (before, h₀)
    pub leaves : hold_all fl kstrtoint (bs ++ b ∷ []) g h ≡ goes (g', h')
    pub outputs :
        IsDriven h₀ h'
          (not (lux_ok fl (seen b g)))
          (if temp_ok fl (seen b g) then 0 else 3)
          (not (hume_ok fl (seen b g)))
    pub levels :
        (g'.fan_duty_cycle ≡ (if temp_ok fl (seen b g) then 0 else 3))
        × (g'.motor_duty_cycle ≡ (if hume_ok fl (seen b g) then 0 else 1))
        × (g'.limits ≡ g.limits)

  module _ (b : Buses) (g : Globals fl.Float) (h : Hardware) where
    abbrev pub light_on : Bool
    light_on = not (lux_ok fl (seen b g))

    abbrev pub blowing : ℕ
    blowing = if temp_ok fl (seen b g) then 0 else 3

    abbrev pub hume_is_ok : Bool
    hume_is_ok = hume_ok fl (seen b g)

    abbrev pub next : Hardware
    next =
        carry_out_all kstrtoint {F = fl.Float}
          (orders light_on (sprintf_digit blowing g.fanbuf)
            (sprintf_digit (if hume_is_ok then 0 else 1) g.motorbuf))
          h

module _ (fl : Floats) (kstrtoint : List ℕ → Parsed) (reads : ReadsDigit kstrtoint) where
  module _ (b : Buses) (g : Globals fl.Float) (h : Hardware) where
    -- A round after a command measures, and leaves the hardware alone.
    pub round_idle :
        Answers b
        → (g.setflags == 0) ≡ true
        → round fl kstrtoint b g h ≡ goes (seen fl kstrtoint b g, h)
    unfolding round sensed hold_round measured carry_out_all
    round_idle (t, hu) idle =
        let tmp = ask_lem b.climate Climate.Command.get_tmp (λ e. cc) t in
        let hum = ask_lem b.climate Climate.Command.get_hum (λ e. cc) hu in
        rw (tmp, hum, read_light_lem b, idle) refl

    pub hold_lem :
        Answers b
        → AreBuffers g
        → g.setflags ≢ 0
        → (round fl kstrtoint b g h
            ≡ goes (regulated fl (seen fl kstrtoint b g), next fl kstrtoint b g h))
          × IsHeld fl kstrtoint b g
              (regulated fl (seen fl kstrtoint b g))
              h
              (next fl kstrtoint b g h)
    unfolding round sensed hold_round driven regulated measured
    hold_lem (t, hu) (ten, ten') on =
        let tmp = ask_lem b.climate Climate.Command.get_tmp (λ e. cc) t in
        let hum = ask_lem b.climate Climate.Command.get_hum (λ e. cc) hu in
        let off : (g.setflags == 0) ≡ false = ground (arith, on) in
        let (outputs, (taken, taken')) =
          round_runs kstrtoint reads (light_on fl kstrtoint b g h) (blowing fl kstrtoint b g h)
            g.fanbuf g.motorbuf h fl.Float (hume_is_ok fl kstrtoint b g h) (ground arith) ten
            ten' in
        rw (tmp, hum, read_light_lem b, off, taken, taken')
          (
            refl,
            record {
              now = refl;
              outputs = outputs;
              kept = (refl, refl);
              buffers = (
                length-sprintf_digit (blowing fl kstrtoint b g h) g.fanbuf ten,
                length-sprintf_digit (if (hume_is_ok fl kstrtoint b g h) then 0 else 1) g.motorbuf
                    ten',
              );
            },
          )
