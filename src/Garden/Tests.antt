-- ===== src/Garden/Tests.antt =====
-- A garden with a cold night's measures, commands in between, and a number that the fan refuses.
use cloud_system.Base.{
  ◌++◌, ℕ, ◌≡◌, ◌-◌, refl, true, none, some, List, [], ◌∷◌, take, pos, codes, str_eq, if◌then◌else◌,
  arith, false, inl,
}
use cloud_system.Message.{zeroed, with_type}
use cloud_system.Cgi.{Form}
use cloud_system.Cgi.Session.{device_name}
use cloud_system.Cgi.Session.Cookie.{device_name_lem}
use cloud_system.Client.Main.{Device}
use cloud_system.Exchange.{IsReady}
use cloud_system.Server.World.{World}
use cloud_system.Server.Handler.{State, Thread}
use cloud_system.Client.{Globals}
use cloud_system.Garden.{Hardware}
use cloud_system.Garden.Web.{IsSwitched, control-IsSwitched}
use cloud_system.Garden.Rounds.{goes, ends, Buses, Turn, perform_all, round}
use cloud_system.Cgi.View.{status_cells, light_cell, fan_cell, pump_cell}
use cloud_system.Garden.Truth.{IsAsShown, Keeps, perform_all-Keeps}
use cloud_system.Garden.Shutdown.{IsSafe}
use cloud_system.Garden.Stale.{ReadsDigits, IsStale, fan_test-IsStale}
use cloud_system.Garden.Samples.{fixed, globals, hardware, decimal, one_digit, buses}
use cloud_system.Garden.Recovery.{Program, run, run-Keeps}
use cloud_system.Garden.Failure.{readings, silent-IsSafe}
use cloud_system.Garden.Programs.{climate_test}

abbrev form : Form
form name max = take (max - 1) (if str_eq name (codes "FAN") then codes "2" else codes "ON")

-- A server with that device, and another message in its queue.
abbrev world : World ℕ
world = record {
  queue = with_type (pos 7) (zeroed 0) ∷ [];
  devices = record { id = codes "admin"; fd = pos 5; tid = 72 } ∷ [];
  linksem = 1;
  outbox = [];
  closed = [];
}

abbrev thread : Thread ℕ
thread = record {
  state = State.waiting;
  accept_fd = pos 5;
  tid = 72;
  buf = zeroed 0;
  recvmsgtype = pos 521;
  sendmsgtype = pos 1042;
}

serving : IsReady world thread 0
serving = record {
  waiting = refl;
  receives = refl;
  sends = refl;
  free = refl;
  listed = refl;
  no_request = (refl, tt);
  no_answer = (refl, tt);
}

abbrev device : Device ℕ
device = record { globals = globals; threadbuf = zeroed 0; jobs = []; requests = []; alive = true }

abbrev cookie : List ℕ
cookie = codes "user" ++ b'=' ∷ (codes "admin" ++ 0 ∷ [])

named : device_name cookie ≡ some (codes "admin")
named =
    (device_name_lem (codes "user") (codes "admin") [] (refl, (refl, (refl, (refl, tt))))
      (refl, (refl, (refl, (refl, (refl, tt)))))).0

web_example : IsSwitched fixed decimal world thread cookie form (zeroed 0) device hardware
web_example =
    control-IsSwitched fixed decimal world thread 0 cookie form (zeroed 0) device hardware one_digit
      serving named (refl, refl) (refl, refl)

two_digits : ReadsDigits decimal
two_digits a d rest low small = ground arith

fan_test_example : IsStale decimal 13 globals.fanbuf hardware
fan_test_example =
    fan_test-IsStale decimal 13 globals.fanbuf hardware two_digits (omega arith) (omega arith) refl

shown_off : IsAsShown hardware.wiring (status_cells 0) hardware
unfolding status_cells light_cell fan_cell pump_cell
shown_off = record {
  wiring = refl;
  lamps = (refl, refl, refl, refl, refl, refl);
  level = 0;
  fan = (refl, refl);
  motor = refl;
}

keeps_example : Keeps fixed hardware.wiring (
    perform_all fixed decimal
      (Turn.commanded (record (zeroed 0) { devctrl = 13 }) ∷ Turn.measuring (buses 0x64) ∷ [])
      globals
      hardware)
keeps_example =
    perform_all-Keeps fixed decimal one_digit hardware.wiring
      (Turn.commanded (record (zeroed 0) { devctrl = 13 }) ∷ Turn.measuring (buses 0x64) ∷ [])
      globals hardware (((omega arith, omega arith), (omega arith, omega arith)), tt)
      (shown_off, (refl, refl))

-- The fan was given a number that it refuses, and the lamps and the motor have been switched by hand.
abbrev by_hand : List Program
by_hand = Program.fan 15 globals.fanbuf ∷ Program.motor ∷ Program.leds 2 ∷ []

mended_example :
    Keeps fixed hardware.wiring
      (round fixed decimal (buses 0x64) globals (run decimal by_hand hardware))
mended_example =
    run-Keeps fixed decimal by_hand (buses 0x64) globals hardware one_digit
      ((omega arith, omega arith), (omega arith, omega arith)) (refl, refl) (λ e. ground arith)

-- The sensor stops to answer after a round.
abbrev dead : Buses
dead = record (buses 0x64) { climate = λ _. none }

abbrev one_round : List (Turn ℕ)
one_round = Turn.measuring (buses 0x64) ∷ []

silent_example :
    ((g' : Globals ℕ) × (h' : Hardware) × (perform_all fixed decimal one_round globals hardware
        ≡ goes (g', h'))
      × (round fixed decimal dead g' h' ≡ ends h')
      × IsSafe ℕ decimal h')
    × (climate_test fixed ((buses 0x64).climate ∷ dead.climate ∷ [])
        ≡ (readings fixed ((buses 0x64).climate ∷ []), false))
silent_example =
    silent-IsSafe fixed decimal one_round dead ((buses 0x64).climate ∷ []) [] globals hardware
      one_digit (((omega arith, omega arith), (omega arith, omega arith)), tt)
      ((refl, refl), (0, 0 ∷ [], refl))
      (((omega arith, omega arith), (omega arith, omega arith)), tt) (inl refl)
