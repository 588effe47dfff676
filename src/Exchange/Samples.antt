-- ===== src/Exchange/Samples.antt =====
-- The device, the server and the cookie of the tests.
use cloud_system.Base.{
  ◌+◌, ℕ, ◌≡◌, refl, true, none, some, List, [], ◌∷◌, ◌++◌, ltb, pos, codes, ◌-◌, ◌*◌, ◌/◌, ◌^◌,
}
use cloud_system.Floats.{Floats}
use cloud_system.Message.{Limitset, zeroed, with_type}
use cloud_system.Server.World.{World}
use cloud_system.Server.Handler.{State, Thread}
use cloud_system.Cgi.Session.{device_name}
use cloud_system.Cgi.Session.Cookie.{device_name_lem}
use cloud_system.Client.Main.{Device}
use cloud_system.Exchange.{IsReady}

abbrev pub fixed : Floats
fixed = record {
  Float = ℕ;
  Double = ℕ;
  zero = 0;
  lt = ltb;
  literal = λ m k. m * 10000 / 10 ^ k;
  of_int = λ n. n * 10000;
  mul = λ a b. a * b / 10000;
  div = λ a b. a * 10000 / b;
  sub = ◌-◌;
  round = λ a. a;
  print = λ a. a ∷ [];
  scan = λ text. elim text [ [] ↦ (none, []) | c ∷ cs ↦ (some c, cs) ];
  atof = λ text. elim text [
    | [] ↦ 0
    | c ∷ cs ↦ (elim cs [ [] ↦ c - b'0' | d ∷ ds ↦ (c - b'0') * 10 + (d - b'0') ])
  ];
}

abbrev pub limits : Limitset ℕ
limits = record {
  tempup = 30;
  tempdown = 20;
  humeup = 70;
  humedown = 40;
  luxup = 200;
  luxdown = 50;
}

abbrev pub device : Device ℕ
device = record {
  globals = record {
    setflags = 1;
    fan_duty_cycle = 0;
    motor_duty_cycle = 0;
    fanbuf = 0 ∷ 0 ∷ [];
    motorbuf = 0 ∷ 0 ∷ [];
    conttemp = 25;
    conthume = 50;
    contlux = 100;
    contdevstatus = 0;
    limits = limits;
  };
  threadbuf = zeroed 0;
  jobs = [];
  requests = [];
  alive = true;
}

abbrev pub world : World ℕ
world = record {
  queue = with_type (pos 1) (zeroed 0) ∷ [];
  devices = record { id = codes "admin"; fd = pos 4; tid = 71 } ∷ [];
  linksem = 1;
  outbox = [];
  closed = [];
}

abbrev pub thread : Thread ℕ
thread = record {
  state = State.waiting;
  accept_fd = pos 4;
  tid = 71;
  buf = zeroed 0;
  recvmsgtype = pos 521;
  sendmsgtype = pos 1042;
}

pub ready : IsReady world thread 0
ready = record {
  waiting = refl;
  receives = refl;
  sends = refl;
  free = refl;
  listed = refl;
  no_request = (refl, tt);
  no_answer = (refl, tt);
}

abbrev pub cookie : List ℕ
cookie = codes "user" ++ b'=' ∷ (codes "admin" ++ 0 ∷ [])

pub named : device_name cookie ≡ some (codes "admin")
named =
    (device_name_lem (codes "user") (codes "admin") [] (refl, (refl, (refl, (refl, tt))))
      (refl, (refl, (refl, (refl, (refl, tt)))))).0
