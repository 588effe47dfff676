-- ===== src/Client/Main/Tests.antt =====
-- Two commands, one after the other, and one that is overtaken by a heartbeat.
use cloud_system.Base.{ℕ, ◌≡◌, refl, true, none, some, [], ◌∷◌, ltb, ◌-◌, ◌*◌, ◌/◌, ◌^◌}
use cloud_system.Floats.{Floats}
use cloud_system.Message.{Msg, Limitset, zeroed, with_flags}
use cloud_system.Client.{Request}
use cloud_system.Client.Config.{save_text}
use cloud_system.Client.Main.{Device, receive}
use cloud_system.Server.World.{got}
use cloud_system.Client.Main.Serve.{exchange, serve_all, exchange-serve_all}
use cloud_system.Client.Main.Overtaken.{heartbeat, all_good, beaten, begun, setlimit-overtaken}

abbrev fixed : Floats
fixed = record {
  Float = ℕ;
  Double = ℕ;
  zero = 0;
  lt = ltb;
  literal = λ m k. m * 10000 / 10 ^ k;
  of_int = λ n. n * 10000;
  mul = λ a b. a * b / 10000;
  div = λ a b. a * 10000 / b;
  sub = ◌-◌;
  round = λ a. a;
  print = λ a. a ∷ [];
  scan = λ text. elim text [ [] ↦ (none, []) | c ∷ cs ↦ (some c, cs) ];
  atof = λ _. 0;
}

abbrev limits : Limitset ℕ
limits = record {
  tempup = 30;
  tempdown = 20;
  humeup = 70;
  humedown = 40;
  luxup = 200;
  luxdown = 50;
}

abbrev device : Device ℕ
device = record {
  globals = record {
    setflags = 1;
    fan_duty_cycle = 0;
    motor_duty_cycle = 0;
    fanbuf = 0 ∷ 0 ∷ [];
    motorbuf = 0 ∷ 0 ∷ [];
    conttemp = 25;
    conthume = 50;
    contlux = 100;
    contdevstatus = 0;
    limits = limits;
  };
  threadbuf = zeroed 0;
  jobs = [];
  requests = [];
  alive = true;
}

abbrev set_limits : Msg ℕ
set_limits = record (zeroed 0) { commd = 2; limitset = limits }

abbrev set_devices : Msg ℕ
set_devices = record (zeroed 0) { commd = 3; devctrl = 0x0D }

exchange_example :
    exchange fixed all_good (zeroed 0) (set_limits ∷ set_devices ∷ []) device
    ≡ serve_all fixed all_good (zeroed 0) (set_limits ∷ set_devices ∷ []) device
exchange_example =
    exchange-serve_all fixed all_good (zeroed 0) (set_limits ∷ set_devices ∷ []) device refl

setlimit-overtaken_example :
    ((begun fixed
        (zeroed 0)
        set_limits
        device
        (receive fixed.zero true (got set_limits) device)).globals
      ≡ record (device.globals) { setflags = 1; limits = limits })
    × ((begun fixed
          (zeroed 0)
          set_limits
          device
          (beaten fixed (zeroed 0) set_limits device)).globals
        ≡ record (device.globals) { setflags = 1; limits = (zeroed 0).limitset })
    × ((begun fixed
          (zeroed 0)
          set_limits
          device
          (beaten fixed (zeroed 0) set_limits device)).requests
        ≡ Request.reply (heartbeat 0)
          ∷ Request.save (save_text fixed (zeroed 0).limitset)
          ∷ Request.reply (with_flags 1 (heartbeat 0))
          ∷ [])
setlimit-overtaken_example = setlimit-overtaken fixed (zeroed 0) set_limits device refl (refl, refl)
