-- ===== src/Garden/Outputs.antt =====
-- What the orders to the lamps, the fan and the motor do to the hardware.
use cloud_system.Base.{
  ℕ, suc, ◌+◌, ◌≤◌, ◌<◌, ◌≡◌, refl, Bool, true, false, List, [], ◌∷◌, ◌++◌, arith, if◌then◌else◌,
  length, int_eq_iff, is_neg,
}
use cloud_system.Message.{Msg}
use cloud_system.Client.{Request, fan, motor, reply, all_leds, sprintf_digit}
use cloud_system.Driver.Fan
use cloud_system.Driver.Fan.{Parsed, Fan}
use cloud_system.Driver.Fan.Level.{ReadsDigit, duty, motor_write-level, clipped_small}
use cloud_system.Driver.Led.{Wiring, Board, myleds_ioctl, led_set_value}
use cloud_system.Driver.Motor
use cloud_system.Driver.Motor.{Motor, motor_start, motor_stop}
use cloud_system.Garden.{Hardware, carry_out, carry_out_all, fan_accepts, motor_accepts}

-- All six lamps have that level.
abbrev pub AllLines : Wiring → Board → ℕ → Type 0
AllLines w b v =
    (b.lines w.c0 ≡ v)
    × (b.lines w.c1 ≡ v)
    × (b.lines w.c2 ≡ v)
    × (b.lines w.e0 ≡ v)
    × (b.lines w.e1 ≡ v)
    × (b.lines w.e2 ≡ v)

-- The orders of a thread of the client: to the six lamps, the fan and the motor.
abbrev pub orders : {F : Type 0} → Bool → List ℕ → List ℕ → List (Request F)
orders on fan_text motor_text = (all_leds on ++ fan fan_text ∷ []) ++ motor motor_text ∷ []

-- The hardware has the lamps on or off, the fan at a level and the motor running or not.
pub record IsDriven (h h' : Hardware) (on : Bool) (level : ℕ) (running : Bool) : Type 0 where
  pub lamps : AllLines h.wiring h'.board (if on then 1 else 0)
  pub fan : h'.fan.regs ≡ record (h.fan.regs) { ccr1 = duty level }
  pub motor :
      h'.motor.regs ≡ (if running then motor_start h.motor.regs else motor_stop h.motor.regs)

-- What `sprintf` leaves in a buffer of ten bytes.
pub sprintf_digit_lem :
    (n : ℕ) (buf : List ℕ)
    → length buf ≡ 10
    → (rest : List ℕ) × (sprintf_digit n buf ≡ (b'0' + n) ∷ 0 ∷ rest) × (length rest ≡ 8)
sprintf_digit_lem n [] ten = absurd (omega arith)
sprintf_digit_lem n (x ∷ []) ten = absurd (omega arith)
sprintf_digit_lem n (x ∷ y ∷ rest) ten = (rest, refl, omega arith)

module _ {F : Type 0} (kstrtoint : List ℕ → Parsed) where
  pub leds_runs :
      (on : Bool) (rest : List (Request F)) (h : Hardware)
      → carry_out_all kstrtoint (all_leds on ++ rest) h
        ≡ carry_out_all kstrtoint rest (record h {
          board = led_set_value h.wiring 6 on (
              led_set_value h.wiring 5 on (
                led_set_value h.wiring 4 on (
                  led_set_value h.wiring 3 on
                    (led_set_value h.wiring 2 on (led_set_value h.wiring 1 on h.board)))));
        })
  unfolding carry_out_all carry_out myleds_ioctl
  leds_runs true rest h = refl
  leds_runs false rest h = refl

pub lamps-AllLines :
    (w : Wiring) (on : Bool) (b : Board)
    → AllLines w
        (led_set_value w 6 on (
          led_set_value w 5 on (
            led_set_value w 4 on
              (led_set_value w 3 on (led_set_value w 2 on (led_set_value w 1 on b))))))
        (if on then 1 else 0)
unfolding led_set_value
lamps-AllLines w on b = ground (
  arith,
  int_eq_iff w.c0 w.c0,
  int_eq_iff w.c1 w.c1,
  int_eq_iff w.c2 w.c2,
  int_eq_iff w.e0 w.e0,
  int_eq_iff w.e1 w.e1,
  int_eq_iff w.e2 w.e2,
)

-- A write of "1" or "0", with bytes behind it, starts or stops the motor, and is accepted.
pub motor_write-runs :
    (running : Bool) (rest : List ℕ) (m : Motor)
    → length rest ≤ 127
    → let text = (b'0' + (if running then 1 else 0)) ∷ rest in
      ((Motor.motor_write true [] text (length text) m).0.regs
        ≡ (if running then motor_start m.regs else motor_stop m.regs))
      × (is_neg (Motor.motor_write true [] text (length text) m).1 ≡ false)
unfolding Motor.motor_write
motor_write-runs true rest m small =
    rw (clipped_small (suc (length rest)) (omega arith)) (refl, refl)
motor_write-runs false rest m small =
    rw (clipped_small (suc (length rest)) (omega arith)) (refl, refl)

module _ (kstrtoint : List ℕ → Parsed) (reads : ReadsDigit kstrtoint) (on running : Bool)
    (level : ℕ) (fan_buf motor_buf : List ℕ) (h : Hardware) where
  abbrev pub fan_text : List ℕ
  fan_text = sprintf_digit level fan_buf

  abbrev pub motor_text : List ℕ
  motor_text = sprintf_digit (if running then 1 else 0) motor_buf

  fan_driven :
      level < 4
      → length fan_buf ≡ 10
      → let (fan', result) = Fan.motor_write kstrtoint true [] fan_text (length fan_text) h.fan in
        (fan'.regs ≡ record (h.fan.regs) { ccr1 = duty level }) × (is_neg result ≡ false)
  fan_driven small ten =
      let (rest, is, len) = sprintf_digit_lem level fan_buf ten in
      let wrote =
        motor_write-level kstrtoint reads h.fan level rest [] (omega arith) (omega arith) in
      rw is (ground arith)

  motor_driven :
      length motor_buf ≡ 10
      → let (motor', result) = Motor.motor_write true [] motor_text (length motor_text) h.motor in
        (motor'.regs ≡ (if running then motor_start h.motor.regs else motor_stop h.motor.regs))
        × (is_neg result ≡ false)
  motor_driven ten =
      let (rest, is, len) = sprintf_digit_lem (if running then 1 else 0) motor_buf ten in
      rw is (motor_write-runs running (0 ∷ rest) h.motor (omega arith))

  -- What the two threads of the client order is carried out.
  pub orders-IsDriven :
      (F : Type 0)
      → level < 4
      → length fan_buf ≡ 10
      → length motor_buf ≡ 10
      → IsDriven h
          (carry_out_all kstrtoint {F = F} (orders on fan_text motor_text) h)
          on
          level
          running
  orders-IsDriven F small ten ten' =
      rw (leds_runs {F = F} kstrtoint on (fan fan_text ∷ motor motor_text ∷ []) h) (
        unfold carry_out_all in
        unfold carry_out in
        record {
          lamps = lamps-AllLines h.wiring on h.board;
          fan = (fan_driven small ten).0;
          motor = (motor_driven ten').0;
        })

  pub orders-accepted :
      level < 4
      → length fan_buf ≡ 10
      → length motor_buf ≡ 10
      → (fan_accepts kstrtoint fan_text h ≡ true) × (motor_accepts motor_text h ≡ true)
  unfolding fan_accepts motor_accepts
  orders-accepted small ten ten' = ground (arith, fan_driven small ten, motor_driven ten')

pub carry_out_all-append :
    {F : Type 0} (kstrtoint : List ℕ → Parsed) (xs ys : List (Request F)) (h : Hardware)
    → carry_out_all kstrtoint (xs ++ ys) h
      ≡ carry_out_all kstrtoint ys (carry_out_all kstrtoint xs h)
unfolding carry_out_all
carry_out_all-append kstrtoint [] ys h = refl
carry_out_all-append kstrtoint (x ∷ xs) ys h =
    carry_out_all-append kstrtoint xs ys (carry_out kstrtoint x h)

pub length-sprintf_digit :
    (n : ℕ) (buf : List ℕ) → length buf ≡ 10 → length (sprintf_digit n buf) ≡ 10
length-sprintf_digit n [] ten = absurd (omega arith)
length-sprintf_digit n (x ∷ []) ten = absurd (omega arith)
length-sprintf_digit n (x ∷ y ∷ rest) ten = omega arith

-- The orders of a command and its answer.
pub answered-IsDriven :
    {F : Type 0} (kstrtoint : List ℕ → Parsed) (on running : Bool) (level : ℕ)
    (fan_buf motor_buf : List ℕ) (h : Hardware) (m : Msg F)
    → ReadsDigit kstrtoint
    → level < 4
    → length fan_buf ≡ 10
    → length motor_buf ≡ 10
    → IsDriven h
        (carry_out_all kstrtoint
          (orders on
              (sprintf_digit level fan_buf)
              (sprintf_digit (if running then 1 else 0) motor_buf)
            ++ reply m ∷ [])
          h)
        on
        level
        running
answered-IsDriven {F} kstrtoint on running level fan_buf motor_buf h m reads small ten ten' =
    rw
      (carry_out_all-append kstrtoint
        (orders on (sprintf_digit level fan_buf)
          (sprintf_digit (if running then 1 else 0) motor_buf))
        (reply m ∷ []) h)
      (unfold carry_out_all in
        unfold carry_out in
        orders-IsDriven kstrtoint reads on running level fan_buf motor_buf h F small ten ten')
