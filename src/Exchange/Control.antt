-- ===== src/Exchange/Control.antt =====
-- The control page sends a command, and the next report shows it.
use cloud_system.Base.{
  ℕ, ◌≡◌, refl, true, some, List, [], ◌∷◌, ◌++◌, pos, codes, not, bit_and, ◌==◌,
}
use cloud_system.Floats.{Floats}
use cloud_system.Message.{Msg, with_type, with_flags}
use cloud_system.Message.Queue.{msgrcv}
use cloud_system.Server.World.{World, end_of_file, got}
use cloud_system.Server.Handler.{Thread, steps}
use cloud_system.Cgi.{Form}
use cloud_system.Cgi.Session.{Begun, device_name, request, accepted}
use cloud_system.Cgi.Dev.{fill, cgi_main}
use cloud_system.Cgi.View.{status_cells}
use cloud_system.Client.{Request, all_leds}
use cloud_system.Client.Control.{controlled, ctrldev_thread}
use cloud_system.Client.Main.{Device, IsIdle, body, dispatch, receive, perform, perform_all}
use cloud_system.Client.Main.Overtaken.{all_good}
use cloud_system.Control.{wanted, status_cells-control_status}
use cloud_system.Exchange.{IsReady, waiting_again, submit-waits, steps-answered, msgrcv-answered}

-- The command as the device gets it, and its answer.
abbrev pub command : {F : Type 0} → F → Form → Msg F
command float_zero form = request (codes "admin") (fill float_zero form)

abbrev pub done : {F : Type 0} → F → Form → Msg F
done float_zero form = with_flags 1 (command float_zero form)

module _ (fl : Floats) (form : Form) (buf : Msg fl.Float) (d : Device fl.Float) where
  -- The device after it has received the command, and its thread has ended.
  abbrev pub device_after : Device fl.Float
  device_after =
      let e = receive fl.zero true (got (command fl.zero form)) d in
      perform_all fl all_good buf e.jobs e

  -- What the device asks of its drivers.
  abbrev pub orders : List (Request fl.Float)
  orders =
      let g = controlled (command fl.zero form) d.globals in
      (all_leds (not (bit_and (command fl.zero form).devctrl 0x01 == 0))
        ++ Request.fan g.fanbuf ∷ [])
      ++ Request.motor g.motorbuf ∷ []

-- What the exchange comes to, for the page, the thread and the device.
pub record IsObeyed (fl : Floats) (w : World fl.Float) (t : Thread fl.Float) (cookie : List ℕ)
    (form : Form) (buf : Msg fl.Float) (d : Device fl.Float) : Type 0 where
  -- The page puts one command into the queue and waits for type 1042.
  pub asks :
      cgi_main fl.zero form true true cookie w.queue
      ≡ Begun.waits (codes "admin") (pos 1042) (w.queue ++ command fl.zero form ∷ [])
  -- The thread takes the command, sends it to the device, and puts the answer into the queue.
  pub relays :
      steps
        (record w { queue = w.queue ++ command fl.zero form ∷ [] })
        t
        (end_of_file ∷ end_of_file ∷ got (done fl.zero form) ∷ [])
      ≡ some (
        record w {
          queue = w.queue ++ with_type (pos 1042) (done fl.zero form) ∷ [];
          outbox = w.outbox ++ (t.accept_fd, command fl.zero form) ∷ [];
        },
        waiting_again t (done fl.zero form),
      )
  -- The device gives its orders and answers; its state is then the one that the form asks for, and
  -- the limits are switched off.
  pub answers :
      (device_after fl form buf d).requests
      ≡ d.requests ++ (orders fl form buf d ++ Request.reply (done fl.zero form) ∷ [])
  pub obeys : status_cells (device_after fl form buf d).globals.contdevstatus ≡ wanted form
  pub manual : (device_after fl form buf d).globals.setflags ≡ 0
  pub limits : (device_after fl form buf d).globals.limits ≡ d.globals.limits
  -- The page takes the answer, which leaves the queue as it was, and says that it was accepted.
  pub takes :
      msgrcv (pos 1042) (w.queue ++ with_type (pos 1042) (done fl.zero form) ∷ [])
      ≡ some (with_type (pos 1042) (done fl.zero form), w.queue)
  pub accepts : accepted (with_type (pos 1042) (done fl.zero form)) ≡ true

-- With the cookie of the device "admin", whose thread is ready, and with the client running and no
-- thread of it under way, the control page puts one command into the queue and waits for type 1042;
-- the thread sends the command to the device; the device gives its orders to the drivers and answers
-- with flag 1, and is then in the state of the lamps, the fan and the motor that the form asks for,
-- with the limits switched off and otherwise kept; the page takes the answer, so that the queue is as
-- it was before the page ran, and says that the command was accepted.
pub control-IsObeyed :
    (fl : Floats) (w : World fl.Float) (t : Thread fl.Float) (n : ℕ) (cookie : List ℕ) (form : Form)
    (buf : Msg fl.Float) (d : Device fl.Float)
    → IsReady w t n
    → device_name cookie ≡ some (codes "admin")
    → IsIdle d
    → IsObeyed fl w t cookie form buf d
unfolding cgi_main request receive dispatch perform body perform_all ctrldev_thread controlled fill
    accepted
control-IsObeyed fl w t n cookie form buf d ready named idle = record {
  asks = submit-waits w t n (fill fl.zero form) (done fl.zero form) cookie ready named;
  relays = steps-answered w t n (fill fl.zero form) (done fl.zero form) cookie ready named;
  answers = rw (idle.0, idle.1) refl;
  obeys = rw (idle.0, idle.1) (status_cells-control_status form d.globals.contdevstatus);
  manual = rw (idle.0, idle.1) refl;
  limits = rw (idle.0, idle.1) refl;
  takes = msgrcv-answered w t n (fill fl.zero form) (done fl.zero form) cookie ready named;
  accepts = refl;
}
