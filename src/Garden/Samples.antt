-- ===== src/Garden/Samples.antt =====
-- The garden of the tests: numbers with four digits behind the point, its hardware and its sensors.
use cloud_system.Base.{
  ℕ, ◌-◌, ◌+◌, ◌*◌, ◌/◌, ◌^◌, ◌==◌, true, none, some, List, [], ◌∷◌, ltb, pos, negsuc,
  if◌then◌else◌, arith,
}
use cloud_system.Floats.{Floats}
use cloud_system.Client.{Globals}
use cloud_system.Driver.Chardev.{nothing}
use cloud_system.Driver.Fan.{Parsed}
use cloud_system.Driver.Fan.Level.{ReadsDigit}
use cloud_system.Driver.Timer.{Timer}
use cloud_system.Garden.{Hardware}
use cloud_system.Garden.Rounds.{Buses}

abbrev pub fixed : Floats
fixed = record {
  Float = ℕ;
  Double = ℕ;
  zero = 0;
  lt = ltb;
  literal = λ m k. m * 10000 / 10 ^ k;
  of_int = λ n. n * 10000;
  mul = λ a b. a * b / 10000;
  div = λ a b. a * 10000 / b;
  sub = ◌-◌;
  round = λ a. a;
  print = λ a. a ∷ [];
  scan = λ text. elim text [ [] ↦ (none, []) | c ∷ cs ↦ (some c, cs) ];
  atof = λ _. 0;
}

abbrev pub globals : Globals ℕ
globals = record {
  setflags = 1;
  fan_duty_cycle = 0;
  motor_duty_cycle = 0;
  fanbuf = 0 ∷ 0 ∷ 0 ∷ 0 ∷ 0 ∷ 0 ∷ 0 ∷ 0 ∷ 0 ∷ 0 ∷ [];
  motorbuf = 0 ∷ 0 ∷ 0 ∷ 0 ∷ 0 ∷ 0 ∷ 0 ∷ 0 ∷ 0 ∷ 0 ∷ [];
  conttemp = 0;
  conthume = 0;
  contlux = 0;
  contdevstatus = 0;
  limits = record {
    tempup = 300000;
    tempdown = 200000;
    humeup = 700000;
    humedown = 400000;
    luxup = 2000000;
    luxdown = 500000;
  };
}

abbrev pub all_of : ℕ → Timer
all_of n = record {
  rcc_4 = n;
  rcc_2 = n;
  moder = n;
  afr = n;
  psc = n;
  arr = n;
  ccr1 = n;
  ccmr1 = n;
  ccer = n;
  cr1 = n;
  bdtr = n;
}

abbrev pub hardware : Hardware
hardware = record {
  wiring = record { c0 = pos 90; c1 = pos 87; c2 = pos 91; e0 = pos 74; e1 = pos 88; e2 = pos 64 };
  board = record { gpios = λ _. 1; lines = λ _. 0; chrdev = true; class = true; device = true };
  fan = record { held = nothing; kbuf = 0 ∷ 0 ∷ 0 ∷ []; regs = all_of 0 };
  motor = record { held = nothing; kbuf = 0 ∷ []; regs = all_of 0 };
}

-- A reader of one or two digits.
abbrev pub decimal : List ℕ → Parsed
decimal (c ∷ d ∷ rest) =
    if d == 0
    then Parsed.number (pos (c - b'0'))
    else Parsed.number (pos ((c - b'0') * 10 + (d - b'0')))
decimal _ = Parsed.malformed (negsuc 21)

pub one_digit : ReadsDigit decimal
one_digit d rest small = ground arith

-- The bytes of the climate sensor; the light sensor's high byte cannot be read.
abbrev pub buses : ℕ → Buses
buses n = record {
  climate = λ _. some (n, 0x9A);
  light = record { reads = λ r. if r == 0x0D then none else some 7; writes = λ _ _. true };
}
