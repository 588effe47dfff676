-- ===== src/Garden/Sensing.antt =====
-- What the sensors' drivers give `hold_envthread` for what stands on the buses.
use cloud_system.Base.{
  ℕ, ◌<◌, ◌≡◌, ◌≢◌, ◌+◌, ◌*◌, refl, true, Option, none, some, List, [], ◌∷◌, pos,
}
use cloud_system.Driver.Climate
use cloud_system.Driver.Climate.{tmp_addr, hum_addr}
use cloud_system.Driver.Climate.Reading.{AreBytes, register, outcome, si7006_ioctl_lem}
use cloud_system.Driver.Light.Reading.{taken, ap3216_read_lem}
use cloud_system.Garden.Rounds.{Buses, ask, read_light}

-- The climate sensor answers with two bytes.
abbrev pub Given : Option (ℕ × ℕ) → Type 0
Given none = ⊥
Given (some (first, second)) = (first < 256) × (second < 256)

-- Two bytes as a number, the first one high.
abbrev pub word : Option (ℕ × ℕ) → ℕ
word none = 0
word (some (first, second)) = first * 256 + second

abbrev pub Answers : Buses → Type 0
Answers b = Given (b.climate tmp_addr) × Given (b.climate hum_addr)

-- What a round takes the light for: 245 for a byte that cannot be read.
abbrev pub light : Buses → ℕ
light b = taken (b.light.reads 0x0D) * 256 + taken (b.light.reads 0x0C)

given : (o : Option (ℕ × ℕ)) → Given o → AreBytes o × (outcome true o ≡ (some (word o), pos 0))
given none e = elim e [ ]
given (some (first, second)) bytes = (bytes, refl)

pub ask_lem :
    (bus : Climate.Bus) (c : Climate.Command)
    → c ≢ Climate.Command.other
    → Given (bus (register c))
    → ask bus c ≡ some (word (bus (register c)))
unfolding ask
ask_lem bus c known answers =
    let (bytes, is) = given (bus (register c)) answers in
    rw (si7006_ioctl_lem true bus c known bytes, is) refl

pub ask-none :
    (bus : Climate.Bus) (c : Climate.Command)
    → c ≢ Climate.Command.other
    → bus (register c) ≡ none
    → ask bus c ≡ none
unfolding ask
ask-none bus c known fails = rw (si7006_ioctl_lem true bus c known (rw fails tt), fails) refl

pub read_light_lem : (b : Buses) → read_light b.light ≡ some (light b)
unfolding read_light
read_light_lem b =
    let (value, low, result) = ap3216_read_lem b.light true 2 in rw (value, result) refl

abbrev pub AllAnswer : List Buses → Type 0
AllAnswer [] = Unit
AllAnswer (b ∷ bs) = Answers b × AllAnswer bs
