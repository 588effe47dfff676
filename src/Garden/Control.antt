-- ===== src/Garden/Control.antt =====
-- From the form of the control page to the registers of the hardware.
use cloud_system.Base.{
  ℕ, ◌≡◌, ◌<◌, refl, true, not, List, arith, if◌then◌else◌, length, ◌++◌, [], ◌∷◌, str_eq, bit_and,
  ◌==◌, codes,
}
use cloud_system.Message.{Msg, with_flags}
use cloud_system.Control.{level}
use cloud_system.Cgi.{Form}
use cloud_system.Cgi.Dev.{devctrl_of, on, first_char}
use cloud_system.Client.{Globals, Request, all_leds, finished, reply}
use cloud_system.Client.Control.{ctrldev_thread, controlled, fan_cycle, motor_cycle}
use cloud_system.Driver.Fan.{Parsed}
use cloud_system.Driver.Fan.Level.{ReadsDigit}
use cloud_system.Garden.{Hardware, carry_out_all, fan_accepts, motor_accepts}
use cloud_system.Garden.Outputs.{IsDriven, orders-accepted, answered-IsDriven, length-sprintf_digit}

level-lt : (c : ℕ) → level c < 4
unfolding level
level-lt c = ground arith

-- The form's choice, as the numbers that the device computes.
cycles_of-form :
    (form : Form)
    → (fan_cycle (devctrl_of form) ≡ level (first_char (form (codes "FAN") 2)))
      × (motor_cycle (devctrl_of form) ≡ (if str_eq on (form (codes "BEEP") 10) then 1 else 0))
      × (not (bit_and (devctrl_of form) 0x01 == 0) ≡ str_eq on (form (codes "LED") 10))
unfolding fan_cycle motor_cycle devctrl_of level
cycles_of-form form = (ground arith, ground arith, ground arith)

-- The buffers of the two outputs have their ten bytes.
abbrev pub AreBuffers : {F : Type 0} → Globals F → Type 0
AreBuffers g = (length g.fanbuf ≡ 10) × (length g.motorbuf ≡ 10)

module _ {F : Type 0} (kstrtoint : List ℕ → Parsed) (form : Form) (m : Msg F) (g : Globals F)
    (h : Hardware) where
  abbrev pub after : Globals F
  after = controlled m g

  -- What the thread asks for, with its answer.
  abbrev pub requests : List (Request F)
  requests =
      ((all_leds (not (bit_and m.devctrl 0x01 == 0)) ++ Request.fan after.fanbuf ∷ [])
        ++ Request.motor after.motorbuf ∷ [])
      ++ reply (with_flags 1 m) ∷ []

  -- The drivers accept both writes, the thread comes to its end, and its requests leave the hardware as
  -- the form says.
  pub record IsCarriedOut : Type 0 where
    pub accepted :
        (fan_accepts kstrtoint after.fanbuf h ≡ true) × (motor_accepts after.motorbuf h ≡ true)
    pub ends :
        ctrldev_thread
          (fan_accepts kstrtoint after.fanbuf h)
          (motor_accepts after.motorbuf h)
          true
          m
          g
        ≡ finished after requests
    pub outputs :
        IsDriven h
          (carry_out_all kstrtoint requests h)
          (str_eq on (form (codes "LED") 10))
          (level (first_char (form (codes "FAN") 2)))
          (str_eq on (form (codes "BEEP") 10))
    pub buffers : AreBuffers after

  -- The thread of the control command on the drivers.
  pub ctrldev_thread-IsCarriedOut :
      ReadsDigit kstrtoint → AreBuffers g → m.devctrl ≡ devctrl_of form → IsCarriedOut
  unfolding ctrldev_thread controlled
  ctrldev_thread-IsCarriedOut reads (ten, ten') chosen =
      let (fan_is, motor_is, lamps_are) = cycles_of-form form in
      let light = str_eq on (form (codes "LED") 10) in
      let pump = str_eq on (form (codes "BEEP") 10) in
      let l = level (first_char (form (codes "FAN") 2)) in
      let small = level-lt (first_char (form (codes "FAN") 2)) in
      let (taken, taken') =
        orders-accepted kstrtoint reads light pump l g.fanbuf g.motorbuf h small ten ten' in
      let answer = record m { user = record (m.user) { flags = 1 }; devctrl = devctrl_of form } in
      record {
        accepted = rw (chosen, fan_is, motor_is) (taken, taken');
        ends = rw (chosen, fan_is, motor_is, lamps_are, taken, taken') refl;
        outputs =
            rw (chosen, fan_is, motor_is, lamps_are)
              (answered-IsDriven kstrtoint light pump l g.fanbuf g.motorbuf h answer reads small ten
                ten');
        buffers =
            rw (chosen, fan_is, motor_is)
              (
                length-sprintf_digit l g.fanbuf ten,
                length-sprintf_digit (if pump then 1 else 0) g.motorbuf ten',
              );
      }
