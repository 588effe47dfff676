-- ===== src/Client/Main/Overtaken.antt =====
-- A command whose thread begins after the next message: it acts on that message.
use cloud_system.Base.{ℕ, ◌≡◌, refl, true, zero, suc, [], ◌∷◌, ◌++◌, arith, bit_at, ◌<◌}
use cloud_system.Floats.{Floats}
use cloud_system.Message.{Msg, zeroed, with_flags}
use cloud_system.Server.World.{got}
use cloud_system.Client.{Request}
use cloud_system.Client.Control.{controlled, ctrldev_thread, fan_cycle, motor_cycle}
use cloud_system.Client.Control.Status.{control_status_bit}
use cloud_system.Client.Config.{save_text, setlimit_thread}
use cloud_system.Client.Main.{Device, Calls, IsIdle, dispatch, receive, perform, body, perform_all}

-- The message that `show_list` of src/server.c sends to each device.
abbrev pub heartbeat : {F : Type 0} → F → Msg F
heartbeat float_zero = record (zeroed float_zero) { commd = 255 }

abbrev pub all_good : Calls
all_good = record { file = true; fan = true; motor = true; send = true }

bit_at-zero : (k : ℕ) → bit_at 0 k ≡ 0
unfolding bit_at
bit_at-zero zero = refl
bit_at-zero (suc k) = bit_at-zero k

module _ (fl : Floats) (buf m : Msg fl.Float) (d : Device fl.Float) where
  -- The device that has received `m` and then a heartbeat.
  abbrev pub beaten : Device fl.Float
  beaten = receive fl.zero true (got (heartbeat fl.zero)) (receive fl.zero true (got m) d)

  -- The threads that wait on a device begin, oldest first.
  abbrev pub begun : Device fl.Float → Device fl.Float
  begun e = perform_all fl all_good buf e.jobs e

  -- On a client that runs with no thread under way: when the thread of a command for the limits begins
  -- before the next message, the device takes the limits of the command. When the server's heartbeat
  -- comes first, the thread that the command has started makes all six limits 0, whatever the command
  -- asked for, writes the file with these limits, and answers with the heartbeat, with flag 1.
  pub setlimit-overtaken :
      m.commd ≡ 2
      → IsIdle d
      → ((begun (receive fl.zero true (got m) d)).globals
          ≡ record (d.globals) { setflags = 1; limits = m.limitset })
        × ((begun beaten).globals
            ≡ record (d.globals) { setflags = 1; limits = (zeroed fl.zero).limitset })
        × ((begun beaten).requests
            ≡ (d.requests ++ Request.reply (heartbeat fl.zero) ∷ [])
              ++ Request.save (save_text fl (zeroed fl.zero).limitset)
                ∷ Request.reply (with_flags 1 (heartbeat fl.zero))
                ∷ [])
  unfolding receive dispatch perform body perform_all setlimit_thread
  setlimit-overtaken two (idle, alive) =
      (rw (two, idle, alive) refl, rw (two, idle, alive) refl, rw (two, idle, alive) refl)

  -- When it comes before the thread of a command for the devices begins, the fan and the motor get
  -- level 0 and the low four bits of the status, which are those of the lamps, the fan and the motor,
  -- become 0, whatever the command asked for; the limits do not count until the next pause is over.
  pub ctrldev-overtaken :
      (k : ℕ)
      → m.commd ≡ 3
      → IsIdle d
      → k < 4
      → let g = (begun beaten).globals in
        (g.fan_duty_cycle ≡ 0)
        × (g.motor_duty_cycle ≡ 0)
        × (bit_at g.contdevstatus k ≡ 0)
        × (g.setflags ≡ 0)
  unfolding receive dispatch perform body perform_all ctrldev_thread controlled fan_cycle
      motor_cycle
  ctrldev-overtaken k three (idle, alive) lt =
      rw (three, idle, alive)
        (
          refl,
          refl,
          ground
              (arith, control_status_bit 0 d.globals.contdevstatus k (omega arith), bit_at-zero k),
          refl,
        )
