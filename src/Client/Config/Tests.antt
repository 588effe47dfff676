-- ===== src/Client/Config/Tests.antt =====
-- Limits that are set, and read back at the next start; a number is printed as one byte.
use cloud_system.Base.{refl, ltb, true, ℕ, ◌*◌, ◌-◌, ◌/◌, ◌^◌, ◌∷◌, ◌≡◌, [], none, some}
use cloud_system.Floats.{Floats}
use cloud_system.Message.{Msg, Limitset, with_flags, zeroed}
use cloud_system.Client.{Globals, Request, finished}
use cloud_system.Client.Config.{save_text, setlimit_thread, read_config}
use cloud_system.Client.Config.Saved.{read_config-setlimit_thread}

abbrev fixed : Floats
fixed = record {
  Float = ℕ;
  Double = ℕ;
  zero = 0;
  lt = ltb;
  literal = λ m k. m * 10000 / 10 ^ k;
  of_int = λ n. n * 10000;
  mul = λ a b. a * b / 10000;
  div = λ a b. a * 10000 / b;
  sub = ◌-◌;
  round = λ a. a;
  print = λ a. a ∷ [];
  scan = λ text. elim text [ [] ↦ (none, []) | c ∷ cs ↦ (some c, cs) ];
  atof = λ _. 0;
}

abbrev limits : Limitset ℕ
limits = record {
  tempup = 300000;
  tempdown = 200000;
  humeup = 700000;
  humedown = 400000;
  luxup = 2000000;
  luxdown = 500000;
}

abbrev globals : Globals ℕ
globals = record {
  setflags = 1;
  fan_duty_cycle = 0;
  motor_duty_cycle = 0;
  fanbuf = 0 ∷ 0 ∷ [];
  motorbuf = 0 ∷ 0 ∷ [];
  conttemp = 350000;
  conthume = 500000;
  contlux = 100000;
  contdevstatus = 0;
  limits = limits;
}

abbrev command : Msg ℕ
command = record (zeroed 0) { limitset = limits }

read_config_example :
    (setlimit_thread fixed true true command globals
      ≡ finished
          (record globals { setflags = 1; limits = limits })
          (Request.save (save_text fixed limits) ∷ Request.reply (with_flags 1 command) ∷ []))
    × (read_config fixed (some (save_text fixed limits)) (zeroed 0) globals
        ≡ some (record (zeroed 0) { limitset = limits }, record globals { limits = limits }))
read_config_example =
    read_config-setlimit_thread fixed (λ x. x) (λ x rest. refl) command (zeroed 0) globals globals
