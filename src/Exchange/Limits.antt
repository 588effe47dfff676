-- ===== src/Exchange/Limits.antt =====
-- The limits page sends the limits, and the next report shows them.
use cloud_system.Base.{◌≡◌, ℕ, refl, true, some, List, [], ◌∷◌, ◌++◌, pos, codes}
use cloud_system.Floats.{Floats}
use cloud_system.Message.{Msg, with_type, with_flags, Limitset}
use cloud_system.Message.Queue.{msgrcv}
use cloud_system.Server.World.{World, end_of_file, got}
use cloud_system.Server.Handler.{Thread, steps}
use cloud_system.Cgi.{Form}
use cloud_system.Cgi.Session.{Begun, device_name, request, accepted}
use cloud_system.Cgi.Limits.{fill, limits_of, cgi_main}
use cloud_system.Client.{Request}
use cloud_system.Client.Config.{setlimit_thread, save_text}
use cloud_system.Client.Env.{reported}
use cloud_system.Cgi.View.{Page, show, status_cells}
use cloud_system.Client.Main.{Device, IsIdle, body, dispatch, receive, perform, perform_all}
use cloud_system.Client.Main.Overtaken.{all_good}
use cloud_system.Exchange.{IsReady, waiting_again, submit-waits, steps-answered, msgrcv-answered}

module _ (fl : Floats) (form : Form) where
  -- The six limits as the user has filled them in.
  abbrev pub asked_for : Limitset fl.Float
  asked_for = record {
    tempup = fl.atof (form (codes "temp_up") 10);
    tempdown = fl.atof (form (codes "temp_low") 10);
    humeup = fl.atof (form (codes "hum_up") 10);
    humedown = fl.atof (form (codes "hum_low") 10);
    luxup = fl.atof (form (codes "illu_up") 10);
    luxdown = fl.atof (form (codes "illu_low") 10);
  }

  -- The command as the device gets it, and its answer.
  abbrev pub order : Msg fl.Float
  order = request (codes "admin") (fill fl form)

  abbrev pub set : Msg fl.Float
  set = with_flags 1 order

  -- The device after it has received the command, and its thread has ended.
  abbrev pub device_after : Msg fl.Float → Device fl.Float → Device fl.Float
  device_after buf d =
      let e = receive fl.zero true (got order) d in perform_all fl all_good buf e.jobs e

-- What the exchange comes to, for the page, the thread and the device.
pub record IsLimited (fl : Floats) (w : World fl.Float) (t : Thread fl.Float) (cookie : List ℕ)
    (form : Form) (buf : Msg fl.Float) (d : Device fl.Float) : Type 0 where
  -- The page puts one command into the queue and waits for type 1042.
  pub asks :
      cgi_main fl form true true cookie w.queue
      ≡ Begun.waits (codes "admin") (pos 1042) (w.queue ++ order fl form ∷ [])
  -- The thread takes the command, sends it to the device, and puts the answer into the queue.
  pub relays :
      steps
        (record w { queue = w.queue ++ order fl form ∷ [] })
        t
        (end_of_file ∷ end_of_file ∷ got (set fl form) ∷ [])
      ≡ some (
        record w {
          queue = w.queue ++ with_type (pos 1042) (set fl form) ∷ [];
          outbox = w.outbox ++ (t.accept_fd, order fl form) ∷ [];
        },
        waiting_again t (set fl form),
      )
  -- The command carries the limits of the fields, each under its own name.
  pub carries : (order fl form).limitset ≡ asked_for fl form
  -- The device writes the form's limits to its file and answers; it then has these limits, switched on,
  -- and nothing else of its state has changed.
  pub saves :
      (device_after fl form buf d).requests
      ≡ d.requests
        ++ Request.save (save_text fl (asked_for fl form)) ∷ Request.reply (set fl form) ∷ []
  pub holds :
      (device_after fl form buf d).globals
      ≡ record (d.globals) { setflags = 1; limits = asked_for fl form }
  -- The view page then shows them.
  pub shows :
      (name : List ℕ)
      → show name (reported fl buf (device_after fl form buf d).globals)
        ≡ Page.table name
            (asked_for fl form)
            (record {
              temp = d.globals.conttemp;
              hume = d.globals.conthume;
              lux = d.globals.contlux;
              devstatus = d.globals.contdevstatus;
            })
            (status_cells d.globals.contdevstatus)
  -- The page takes the answer, which leaves the queue as it was, and says that it was accepted.
  pub takes :
      msgrcv (pos 1042) (w.queue ++ with_type (pos 1042) (set fl form) ∷ [])
      ≡ some (with_type (pos 1042) (set fl form), w.queue)
  pub accepts : accepted (with_type (pos 1042) (set fl form)) ≡ true

-- With the cookie of the device "admin", whose thread is ready, and with the client running and no
-- thread of it under way, the limits page puts one command into the queue and waits for type 1042; the
-- thread sends the command to the device; the command carries the number of each of the six fields
-- temp_up to illu_low as the limit of that name; the device writes these limits to its file, holds
-- them from then on and answers with flag 1, and nothing else of its state changes, so that its next
-- report makes the view page show them; the page takes the answer, so that the queue is as it was
-- before the page ran, and says that the command was accepted.
pub limits-IsLimited :
    (fl : Floats) (w : World fl.Float) (t : Thread fl.Float) (n : ℕ) (cookie : List ℕ) (form : Form)
    (buf : Msg fl.Float) (d : Device fl.Float)
    → IsReady w t n
    → device_name cookie ≡ some (codes "admin")
    → IsIdle d
    → IsLimited fl w t cookie form buf d
unfolding cgi_main request receive dispatch perform body perform_all setlimit_thread fill limits_of
    accepted show reported
limits-IsLimited fl w t n cookie form buf d ready named idle = record {
  asks = submit-waits w t n (fill fl form) (set fl form) cookie ready named;
  relays = steps-answered w t n (fill fl form) (set fl form) cookie ready named;
  saves = rw (idle.0, idle.1) refl;
  holds = rw (idle.0, idle.1) refl;
  carries = refl;
  shows = λ name. rw (idle.0, idle.1) refl;
  takes = msgrcv-answered w t n (fill fl form) (set fl form) cookie ready named;
  accepts = refl;
}
