-- ===== src/Driver/Fan/Tests.antt =====
-- A start of the fan that fails at the third register and whose node could not be made, and three
-- writes to a fan that has started.
use cloud_system.Base.{
  List, replicate, arith, negsuc, false, ◌-◌, if◌then◌else◌, refl, true, none, [], ◌∷◌, ◌==◌, not,
  pos, ℕ, List, arith, false, replicate, ◌⊎◌, Bool, ℤ,
}
use cloud_system.Driver.Timer.{Timer}
use cloud_system.Driver.Chardev.{nothing}
use cloud_system.Driver.Fan.{Fan, Parsed, motor_init}
use cloud_system.Driver.Fan.Bounds.{
  Write, AreErrors, IsBounded, AllCounts, motor_writes, motor_writes-IsBounded,
}
use cloud_system.Driver.Fan.Level.{Refused, Started, Leaked, motor_init-balance}

abbrev all_of : ℕ → Timer
all_of n = record {
  rcc_4 = n;
  rcc_2 = n;
  moder = n;
  afr = n;
  psc = n;
  arr = n;
  ccr1 = n;
  ccmr1 = n;
  ccer = n;
  cr1 = n;
  bdtr = n;
}

abbrev idle : Fan
idle = record { held = nothing; kbuf = []; regs = all_of 0 }

abbrev third_fails : ℕ → Bool
third_fails a = not (a == 0x50006000)

abbrev failed_start : Fan × ℤ
failed_start = motor_init (pos 240) none false third_fails idle

motor_init-balance_example :
    Refused (pos 240) none idle failed_start
    ⊎ (Started false third_fails idle failed_start ⊎ Leaked false third_fails idle failed_start)
motor_init-balance_example = motor_init-balance false third_fails idle (pos 240) none

-- A number that is refused, a copy that fails, and a level with a text behind it that is too long.
abbrev blank : List ℕ
blank = replicate 128 0

abbrev digit : List ℕ → Parsed
digit (c ∷ d ∷ rest) =
    if d == 0 then Parsed.number (pos (c - b'0')) else Parsed.malformed (negsuc 21)
digit _ = Parsed.malformed (negsuc 21)

digit-AreErrors : AreErrors digit
digit-AreErrors text e h = ground arith

abbrev three_writes : List Write
three_writes =
    record { copy_ok = true; partial = blank; ubuf = b'1' ∷ b'5' ∷ []; size = 2 }
    ∷ record { copy_ok = false; partial = blank; ubuf = b'1' ∷ []; size = 1 }
    ∷ record { copy_ok = true; partial = blank; ubuf = b'3' ∷ replicate 199 0; size = 200 }
    ∷ []

abbrev begun : Fan
begun = (motor_init (pos 240) none true (λ _. true) (record idle { kbuf = blank })).0

bounds_example :
    IsBounded (motor_writes digit three_writes begun).0
    × AllCounts three_writes (motor_writes digit three_writes begun).1
bounds_example =
    motor_writes-IsBounded digit digit-AreErrors 240 true (λ _. true) three_writes
      (record idle { kbuf = blank })
      (refl, (refl, (refl, (refl, (refl, (refl, (refl, (refl, (refl, (refl, (refl, tt)))))))))))
      refl ((refl, refl), ((refl, refl), ((refl, refl), tt)))
