-- ===== src/Garden/Truth.antt =====
-- What the view page shows of the device, and what the hardware does.
use cloud_system.Base.{
  ℕ, ◌≡◌, refl, ◌∙◌, Bool, not, some, Bool-cases, inl, inr, List, [], ◌∷◌, arith, ◌==◌,
  if◌then◌else◌, bit_and, bit_and_lowest, bit_and_middle, bit_and_fourth, bit_at-le-one,
}
use cloud_system.Floats.{Floats}
use cloud_system.Control.{cells_of_bits}
use cloud_system.Cgi.View.{Shown, status_cells}
use cloud_system.Client.{Globals, Request}
use cloud_system.Client.Control.{control_status, fan_cycle, controlled}
use cloud_system.Client.Control.Status.{control_status_bit}
use cloud_system.Client.Env.{regulated, measured, temp_ok, hume_ok, lux_ok}
use cloud_system.Client.Env.Hold.{regulated_bit}
use cloud_system.Driver.Fan.{Parsed}
use cloud_system.Driver.Fan.Level.{duty, ReadsDigit}
use cloud_system.Driver.Led.{Wiring}
use cloud_system.Driver.Motor.{motor_start, motor_stop}
use cloud_system.Garden.{Hardware, carry_out_all, carry_out}
use cloud_system.Garden.Outputs.{AllLines, IsDriven, answered-IsDriven}
use cloud_system.Garden.Control.{AreBuffers}
use cloud_system.Garden.Rounds.{Outcome, goes, Buses, Turn, round, command, perform, perform_all}
use cloud_system.Garden.Sensing.{Answers}
use cloud_system.Garden.Hold.{seen, next, hold_lem, round_idle}
use cloud_system.Garden.Lasting.{
  AreAnswered, commanded, command_runs, commanded-AreSound, fan_cycle-lt,
}
use cloud_system.Message.{Msg, with_flags}

pub regulated-cells :
    (fl : Floats) (g : Globals fl.Float)
    → status_cells (regulated fl g).contdevstatus ≡ record {
      light = not (lux_ok fl g);
      fan = some (if temp_ok fl g then 0 else 3);
      pump = not (hume_ok fl g);
    }
unfolding status_cells
regulated-cells fl g =
    let s = (regulated fl g).contdevstatus in
    ground (
      arith,
      regulated_bit fl g 0 (omega arith),
      regulated_bit fl g 1 (omega arith),
      regulated_bit fl g 2 (omega arith),
      regulated_bit fl g 3 (omega arith),
      bit_and_lowest s,
      bit_and_middle s,
      bit_and_fourth s,
    )

control-cells :
    (devctrl status : ℕ)
    → status_cells (control_status devctrl status) ≡ record {
      light = not (bit_and devctrl 0x01 == 0);
      fan = some (fan_cycle devctrl);
      pump = bit_and devctrl 0x08 == 0x08;
    }
unfolding status_cells fan_cycle
control-cells devctrl status =
    cells_of_bits _ devctrl (λ k h. ground (arith, control_status_bit devctrl status k))
    ∙ ground (
      arith,
      bit_and_lowest devctrl,
      bit_and_middle devctrl,
      bit_and_fourth devctrl,
      bit_at-le-one devctrl 0,
      bit_at-le-one devctrl 1,
      bit_at-le-one devctrl 2,
      bit_at-le-one devctrl 3,
    )

-- The lamps, the duty cycle and the motor are as the table shows them.
pub record IsAsShown (w : Wiring) (shown : Shown) (h : Hardware) : Type 0 where
  pub wiring : h.wiring ≡ w
  pub lamps : AllLines w h.board (if shown.light then 1 else 0)
  pub level : ℕ
  pub fan : (shown.fan ≡ some level) × (h.fan.regs.ccr1 ≡ duty level)
  pub motor : h.motor.regs.ccr1 ≡ (if shown.pump then 700 else 0)

pub carry_out_all-wiring :
    {F : Type 0} (kstrtoint : List ℕ → Parsed) (rs : List (Request F)) (h : Hardware)
    → (carry_out_all kstrtoint rs h).wiring ≡ h.wiring
unfolding carry_out_all carry_out
carry_out_all-wiring kstrtoint [] h = refl
carry_out_all-wiring kstrtoint (Request.led n on ∷ rs) h = carry_out_all-wiring kstrtoint rs _
carry_out_all-wiring kstrtoint (Request.fan text ∷ rs) h = carry_out_all-wiring kstrtoint rs _
carry_out_all-wiring kstrtoint (Request.motor text ∷ rs) h = carry_out_all-wiring kstrtoint rs _
carry_out_all-wiring kstrtoint (Request.reply m ∷ rs) h = carry_out_all-wiring kstrtoint rs h
carry_out_all-wiring kstrtoint (Request.save text ∷ rs) h = carry_out_all-wiring kstrtoint rs h

pub driven-IsAsShown :
    (w : Wiring) (h h' : Hardware) (on : Bool) (level : ℕ) (running : Bool)
    → h.wiring ≡ w
    → h'.wiring ≡ h.wiring
    → IsDriven h h' on level running
    → IsAsShown w (record { light = on; fan = some level; pump = running }) h'
unfolding motor_start motor_stop
driven-IsAsShown w h h' on level running at same driven = record {
  wiring = same ∙ at;
  lamps = rw (← at) (driven.lamps);
  level = level;
  fan = (refl, rw (driven.fan) refl);
  motor = rw (driven.motor) (ground arith);
}

module _ (fl : Floats) (w : Wiring) where
  abbrev pub Shows : Globals fl.Float → Hardware → Type 0
  Shows g h = IsAsShown w (status_cells g.contdevstatus) h × AreBuffers g

  abbrev pub Keeps : Outcome fl.Float → Type 0
  Keeps r = (g : Globals fl.Float) × (h : Hardware) × (r ≡ goes (g, h)) × Shows g h

module _ (fl : Floats) (kstrtoint : List ℕ → Parsed) (reads : ReadsDigit kstrtoint)
    (w : Wiring) where
  command-Keeps :
      (m : Msg fl.Float) (g : Globals fl.Float) (h : Hardware)
      → Shows fl w g h
      → Keeps fl w (command fl kstrtoint m g h)
  command-Keeps m g h (shown, (ten, ten')) =
      let cells : status_cells (controlled m g).contdevstatus ≡ record {
        light = not (bit_and m.devctrl 0x01 == 0);
        fan = some (fan_cycle m.devctrl);
        pump = bit_and m.devctrl 0x08 == 0x08;
      } =
        unfold controlled in control-cells m.devctrl g.contdevstatus in
      (
        controlled m g,
        commanded fl kstrtoint reads m g h,
        command_runs fl kstrtoint reads m g h (ten, ten'),
        (
          rw cells (
              driven-IsAsShown w h (commanded fl kstrtoint reads m g h) _ _ _ shown.wiring
                (carry_out_all-wiring kstrtoint _ h)
                (answered-IsDriven kstrtoint _ _ (fan_cycle m.devctrl) g.fanbuf g.motorbuf h
                  (with_flags 1 m) reads (fan_cycle-lt m.devctrl) ten ten')),
          (commanded-AreSound fl kstrtoint reads m g h (ten, ten')).0,
        ),
      )

  round-Keeps :
      (b : Buses) (g : Globals fl.Float) (h : Hardware)
      → Answers b
      → Shows fl w g h
      → Keeps fl w (round fl kstrtoint b g h)
  round-Keeps b g h answers (shown, buffers) = elim (Bool-cases (g.setflags == 0)) [
    | inl idle ↦ (
      seen fl kstrtoint b g,
      h,
      round_idle fl kstrtoint reads b g h answers idle,
      (unfold measured in shown, unfold measured in buffers),
    )
    | inr off ↦
        let (ran, held) = hold_lem fl kstrtoint reads b g h answers buffers (λ e. ground arith) in
        (
          regulated fl (seen fl kstrtoint b g),
          next fl kstrtoint b g h,
          ran,
          (
            rw (regulated-cells fl (seen fl kstrtoint b g)) (
                driven-IsAsShown w h (next fl kstrtoint b g h) _ _ _ shown.wiring
                  (carry_out_all-wiring kstrtoint _ h) held.outputs),
            held.buffers,
          ),
        )
  ]

  -- What the view page shows is what the hardware does: when `kstrtoint` reads a digit in front of a
  -- NUL, and at first each buffer of the device has ten bytes and the lamps, the duty cycle of the fan
  -- and that of the motor are as the page would show them, they still are, and the process still runs,
  -- after any order of rounds, ends of the long pause and commands in which the climate sensor always
  -- answers with bytes.
  pub perform_all-Keeps :
      (ts : List (Turn fl.Float)) (g : Globals fl.Float) (h : Hardware)
      → AreAnswered ts
      → Shows fl w g h
      → Keeps fl w (perform_all fl kstrtoint ts g h)
  unfolding perform_all perform
  perform_all-Keeps [] g h answered shows = (g, h, refl, shows)
  perform_all-Keeps (Turn.measuring b ∷ ts) g h (answers, answered) shows =
      let (g', h', ran, shows') = round-Keeps b g h answers shows in
      rw (ran, perform_all) (perform_all-Keeps ts g' h' answered shows')
  perform_all-Keeps (Turn.waking ∷ ts) g h answered shows =
      perform_all-Keeps ts (record g { setflags = 1 }) h answered shows
  perform_all-Keeps (Turn.commanded m ∷ ts) g h answered shows =
      let (g', h', ran, shows') = command-Keeps m g h shows in
      rw (ran, perform_all) (perform_all-Keeps ts g' h' answered shows')
