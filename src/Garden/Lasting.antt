-- ===== src/Garden/Lasting.antt =====
-- Any order of the threads' turns: the device keeps running, and its buffers keep their shape.
use cloud_system.Base.{
  ℕ, ◌<◌, ◌≡◌, ◌+◌, refl, Bool, true, not, List, [], ◌∷◌, ◌++◌, arith, ◌==◌, if◌then◌else◌, length,
  Bool-cases, bit_and, inl, inr,
}
use cloud_system.Floats.{Floats}
use cloud_system.Message.{Msg, with_flags}
use cloud_system.Client.{Globals, Request, sprintf_digit, reply}
use cloud_system.Client.Control.{controlled, ctrldev_thread, fan_cycle, motor_cycle}
use cloud_system.Client.Env.{measured, regulated}
use cloud_system.Driver.Chardev.{clipped, copied}
use cloud_system.Driver.Fan
use cloud_system.Driver.Fan.{Parsed, Fan, duty_of}
use cloud_system.Driver.Fan.Level.{ReadsDigit}
use cloud_system.Garden.{Hardware, carry_out_all, carry_out}
use cloud_system.Garden.Control.{AreBuffers}
use cloud_system.Garden.Rounds.{Outcome, goes, Buses, Turn, round, command, perform, perform_all}
use cloud_system.Garden.Sensing.{Answers}
use cloud_system.Garden.Hold.{seen, hold_lem, next, round_idle}
use cloud_system.Garden.Outputs.{
  orders, orders-accepted, carry_out_all-append, leds_runs, length-sprintf_digit, sprintf_digit_lem,
}

-- The second byte of the fan's `kbuf` is a NUL.
abbrev pub IsEnded : List ℕ → Type 0
IsEnded kbuf = (c : ℕ) × (rest : List ℕ) × (kbuf ≡ c ∷ 0 ∷ rest)

module _ (kstrtoint : List ℕ → Parsed) where
  -- A write leaves in `kbuf` what it copied, whatever `kstrtoint` makes of it.
  pub motor_write-kbuf :
      (ubuf : List ℕ) (size : ℕ) (d : Fan)
      → (Fan.motor_write kstrtoint true [] ubuf size d).0.kbuf ≡ copied (clipped size) ubuf d.kbuf
  unfolding Fan.motor_write
  motor_write-kbuf ubuf size d = ground arith

  digit-IsEnded :
      (n : ℕ) (buf : List ℕ) (d : Fan)
      → length buf ≡ 10
      → let text = sprintf_digit n buf in
        IsEnded ((Fan.motor_write kstrtoint true [] text (length text) d).0.kbuf)
  digit-IsEnded n buf d ten =
      let (rest, is, len) = sprintf_digit_lem n buf ten in
      let long = length-sprintf_digit n buf ten in
      rw (motor_write-kbuf (sprintf_digit n buf) (length (sprintf_digit n buf)) d, long, is)
        ((b'0' + n), _, refl)

  orders-IsEnded :
      (F : Type 0) (on : Bool) (level cycle : ℕ) (fan_buf motor_buf : List ℕ) (h : Hardware)
      → length fan_buf ≡ 10
      → let texts =
          orders {F = F} on (sprintf_digit level fan_buf) (sprintf_digit cycle motor_buf) in
        IsEnded ((carry_out_all kstrtoint texts h).fan.kbuf)
  orders-IsEnded F on level cycle fan_buf motor_buf h ten =
      rw
        (leds_runs {F = F} kstrtoint on
          (Request.fan (sprintf_digit level fan_buf)
            ∷ Request.motor (sprintf_digit cycle motor_buf)
            ∷ [])
          h)
        (unfold carry_out_all in unfold carry_out in digit-IsEnded level fan_buf h.fan ten)

  answered-IsEnded :
      {F : Type 0} (on : Bool) (level cycle : ℕ) (fan_buf motor_buf : List ℕ) (m : Msg F)
      (h : Hardware)
      → length fan_buf ≡ 10
      → let texts =
          orders {F = F} on (sprintf_digit level fan_buf) (sprintf_digit cycle motor_buf) in
        IsEnded ((carry_out_all kstrtoint (texts ++ reply m ∷ []) h).fan.kbuf)
  answered-IsEnded {F} on level cycle fan_buf motor_buf m h ten =
      rw
        (carry_out_all-append kstrtoint
          (orders {F = F} on (sprintf_digit level fan_buf) (sprintf_digit cycle motor_buf))
          (reply m ∷ []) h)
        (unfold carry_out_all in
          unfold carry_out in orders-IsEnded F on level cycle fan_buf motor_buf h ten)

pub fan_cycle-lt : (devctrl : ℕ) → fan_cycle devctrl < 4
unfolding fan_cycle
fan_cycle-lt devctrl = ground arith

-- Every measuring turn finds a climate sensor that answers.
abbrev pub AreAnswered : {F : Type 0} → List (Turn F) → Type 0
AreAnswered [] = Unit
AreAnswered (Turn.measuring b ∷ ts) = Answers b × AreAnswered ts
AreAnswered (Turn.waking ∷ ts) = AreAnswered ts
AreAnswered (Turn.commanded m ∷ ts) = AreAnswered ts

-- The buffers of the two outputs have ten bytes, and the fan's `kbuf` is ended.
abbrev pub AreSound : {F : Type 0} → Globals F → Hardware → Type 0
AreSound g h = AreBuffers g × IsEnded h.fan.kbuf

module _ (fl : Floats) (kstrtoint : List ℕ → Parsed) (reads : ReadsDigit kstrtoint) where
  -- A call that goes on, to globals and hardware that are sound.
  abbrev pub Goes : Outcome fl.Float → Type 0
  Goes r = (g : Globals fl.Float) × (h : Hardware) × (r ≡ goes (g, h)) × AreSound g h

  -- The hardware after a command.
  abbrev pub commanded : Msg fl.Float → Globals fl.Float → Hardware → Hardware
  commanded m g h =
      carry_out_all kstrtoint
        (orders (not (bit_and m.devctrl 0x01 == 0)) (sprintf_digit (fan_cycle m.devctrl) g.fanbuf)
            (sprintf_digit (if bit_and m.devctrl 0x08 == 0x08 then 1 else 0) g.motorbuf)
          ++ reply (with_flags 1 m) ∷ [])
        h

  pub command_runs :
      (m : Msg fl.Float) (g : Globals fl.Float) (h : Hardware)
      → AreBuffers g
      → command fl kstrtoint m g h ≡ goes (controlled m g, commanded m g h)
  unfolding command ctrldev_thread controlled motor_cycle
  command_runs m g h (ten, ten') =
      let light = not (bit_and m.devctrl 0x01 == 0) in
      let pump = bit_and m.devctrl 0x08 == 0x08 in
      let level = fan_cycle m.devctrl in
      let (taken, taken') =
        orders-accepted kstrtoint reads light pump level g.fanbuf g.motorbuf h
          (fan_cycle-lt m.devctrl) ten ten' in
      rw (taken, taken') refl

  pub commanded-AreSound :
      (m : Msg fl.Float) (g : Globals fl.Float) (h : Hardware)
      → AreBuffers g
      → AreSound (controlled m g) (commanded m g h)
  unfolding controlled motor_cycle
  commanded-AreSound m g h (ten, ten') =
      let light = not (bit_and m.devctrl 0x01 == 0) in
      let cycle = if bit_and m.devctrl 0x08 == 0x08 then 1 else 0 in
      (
        (
          length-sprintf_digit (fan_cycle m.devctrl) g.fanbuf ten,
          length-sprintf_digit cycle g.motorbuf ten',
        ),
        answered-IsEnded kstrtoint light (fan_cycle m.devctrl) cycle g.fanbuf g.motorbuf
            (with_flags 1 m) h ten,
      )

  command-Goes :
      (m : Msg fl.Float) (g : Globals fl.Float) (h : Hardware)
      → AreSound g h
      → Goes (command fl kstrtoint m g h)
  command-Goes m g h (buffers, ended) = (
    controlled m g,
    commanded m g h,
    command_runs m g h buffers,
    commanded-AreSound m g h buffers,
  )

  round-Goes :
      (b : Buses) (g : Globals fl.Float) (h : Hardware)
      → Answers b
      → AreSound g h
      → Goes (round fl kstrtoint b g h)
  round-Goes b g h answers ((ten, ten'), ended) = elim (Bool-cases (g.setflags == 0)) [
    | inl idle ↦ (
      seen fl kstrtoint b g,
      h,
      round_idle fl kstrtoint reads b g h answers idle,
      (unfold measured in (ten, ten'), ended),
    )
    | inr off ↦
        let (ran, held) =
          hold_lem fl kstrtoint reads b g h answers (ten, ten') (λ e. ground arith) in
        (
          regulated fl (seen fl kstrtoint b g),
          next fl kstrtoint b g h,
          ran,
          (held.buffers, orders-IsEnded kstrtoint fl.Float _ _ _ g.fanbuf g.motorbuf h ten),
        )
  ]

  -- In any order of turns whose measuring turns find a climate sensor that answers, the process goes on.
  pub perform_all-Goes :
      (ts : List (Turn fl.Float)) (g : Globals fl.Float) (h : Hardware)
      → AreAnswered ts
      → AreSound g h
      → Goes (perform_all fl kstrtoint ts g h)
  unfolding perform_all perform
  perform_all-Goes [] g h answered sound = (g, h, refl, sound)
  perform_all-Goes (Turn.measuring b ∷ ts) g h (answers, answered) sound =
      let (g', h', ran, sound') = round-Goes b g h answers sound in
      rw (ran, perform_all) (perform_all-Goes ts g' h' answered sound')
  perform_all-Goes (Turn.waking ∷ ts) g h answered sound =
      perform_all-Goes ts (record g { setflags = 1 }) h answered sound
  perform_all-Goes (Turn.commanded m ∷ ts) g h answered sound =
      let (g', h', ran, sound') = command-Goes m g h sound in
      rw (ran, perform_all) (perform_all-Goes ts g' h' answered sound')
