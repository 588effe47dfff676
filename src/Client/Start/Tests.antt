-- ===== src/Client/Start/Tests.antt =====
-- A start of a device whose motor is missing.
use cloud_system.Base.{◌≡◌, refl, true, none, inr, ℤ, pos, minus_one, codes, ◌%◌, ◌*◌, ◌+◌, ◌/◌}
use cloud_system.Client.Shutdown.{close_device, writes}
use cloud_system.Client.Start.{Fds, Setup, Start, starts, starts-hangs}

abbrev setup : ℤ → Setup
setup motor = record {
  argc = 3;
  ip = codes "10.0.0.2";
  port = 8888;
  config = true;
  opens = record { si7006 = pos 3; ap3216 = pos 4; led = pos 5; fan = pos 6; motor = motor };
  socket = true;
  htons = λ n. n % 256 * 256 + n / 256;
  inet_addr = λ _. 0x0200000A;
  connect = λ _. true;
  send = true;
  recv = true;
  answer = 1;
}

starts-hangs_example :
    (fds : Fds) × (starts (setup minus_one) ≡ Start.print_err fds)
    × (close_device 500 (writes fds.fan (λ _. true)) (writes fds.motor (λ _. true)) 0 ≡ none)
starts-hangs_example =
    starts-hangs (setup minus_one) (λ _. true) (λ _. true) 500
      (record { argc = refl; config = refl; si7006 = refl; ap3216 = refl; led = refl })
      (inr (refl, refl))
