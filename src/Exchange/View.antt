-- ===== src/Exchange/View.antt =====
-- The view page asks for the climate and shows what the device answers.
use cloud_system.Base.{ℕ, ◌≡◌, refl, true, some, List, [], ◌∷◌, ◌++◌, pos, codes}
use cloud_system.Floats.{Floats}
use cloud_system.Message.{Msg, with_type}
use cloud_system.Message.Queue.{msgrcv}
use cloud_system.Server.World.{World, end_of_file, got}
use cloud_system.Server.Handler.{Thread, steps}
use cloud_system.Cgi.Session.{Begun, device_name, request}
use cloud_system.Cgi.View.{Page, show, fill, status_cells, cgi_main}
use cloud_system.Client.{Request}
use cloud_system.Client.Env.{reported, getenv_thpread}
use cloud_system.Client.Main.{Device, IsIdle, body, dispatch, receive, perform, perform_all}
use cloud_system.Client.Main.Overtaken.{all_good}
use cloud_system.Exchange.{IsReady, waiting_again, submit-waits, steps-answered, msgrcv-answered}

-- The request as the device gets it.
abbrev pub query : {F : Type 0} → F → Msg F
query float_zero = request (codes "admin") (fill float_zero)

module _ (fl : Floats) (buf : Msg fl.Float) (d : Device fl.Float) where
  -- The device after it has received the request, and its thread has ended.
  abbrev pub device_after : Device fl.Float
  device_after =
      let e = receive fl.zero true (got (query fl.zero)) d in perform_all fl all_good buf e.jobs e

  abbrev pub report : Msg fl.Float
  report = with_type (pos 1042) (reported fl buf d.globals)

-- What the exchange comes to, for the page, the thread and the device.
pub record IsShown (fl : Floats) (w : World fl.Float) (t : Thread fl.Float) (cookie : List ℕ)
    (buf : Msg fl.Float) (d : Device fl.Float) : Type 0 where
  -- The page puts one request into the queue and waits for type 1042.
  pub asks :
      cgi_main fl.zero true true cookie w.queue
      ≡ Begun.waits (codes "admin") (pos 1042) (w.queue ++ query fl.zero ∷ [])
  -- The thread takes the request, sends it to the device, and puts the answer into the queue.
  pub relays :
      steps
        (record w { queue = w.queue ++ query fl.zero ∷ [] })
        t
        (end_of_file ∷ end_of_file ∷ got (reported fl buf d.globals) ∷ [])
      ≡ some (
        record w {
          queue = w.queue ++ report fl buf d ∷ [];
          outbox = w.outbox ++ (t.accept_fd, query fl.zero) ∷ [];
        },
        waiting_again t (reported fl buf d.globals),
      )
  -- The device answers with its report, and stays as it was.
  pub answers :
      (device_after fl buf d).requests
      ≡ d.requests ++ Request.reply (reported fl buf d.globals) ∷ []
  pub keeps : (device_after fl buf d).globals ≡ d.globals
  -- The page takes the report, which leaves the queue as it was before the page ran.
  pub takes : msgrcv (pos 1042) (w.queue ++ report fl buf d ∷ []) ≡ some (report fl buf d, w.queue)
  -- The page prints the limits, the last measurements and the state of the device.
  pub shows :
      show (codes "admin") (report fl buf d)
      ≡ Page.table
          (codes "admin")
          d.globals.limits
          (record {
            temp = d.globals.conttemp;
            hume = d.globals.conthume;
            lux = d.globals.contlux;
            devstatus = d.globals.contdevstatus;
          })
          (status_cells d.globals.contdevstatus)

-- With the cookie of the device "admin", whose thread is ready, and with the client running and no
-- thread of it under way, the view page puts one request into the queue and waits for type 1042; the
-- thread takes it and sends it to the device; the device answers with its report and stays as it was;
-- the thread puts the report into the queue, and waits again; the page takes the report, so that the
-- queue is as it was before the page ran, and prints the table with the device's limits, its last
-- measurements and the state of its lamps, fan and motor.
pub view-IsShown :
    (fl : Floats) (w : World fl.Float) (t : Thread fl.Float) (n : ℕ) (cookie : List ℕ)
    (buf : Msg fl.Float) (d : Device fl.Float)
    → IsReady w t n
    → device_name cookie ≡ some (codes "admin")
    → IsIdle d
    → IsShown fl w t cookie buf d
unfolding cgi_main request receive dispatch perform body perform_all getenv_thpread show reported
view-IsShown fl w t n cookie buf d ready named idle = record {
  asks = submit-waits w t n (fill fl.zero) (reported fl buf d.globals) cookie ready named;
  relays = steps-answered w t n (fill fl.zero) (reported fl buf d.globals) cookie ready named;
  answers = rw (idle.0, idle.1) refl;
  keeps = rw (idle.0, idle.1) refl;
  takes = msgrcv-answered w t n (fill fl.zero) (reported fl buf d.globals) cookie ready named;
  shows = refl;
}
