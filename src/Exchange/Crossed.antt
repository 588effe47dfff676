-- ===== src/Exchange/Crossed.antt =====
-- The heartbeat of `show_list` between a request and its answer: `show_list` and `handl_thread` of
-- src/server.c receive from one socket, and each takes whichever message of the device comes first.
use mathlib.Core.List.{append_assoc}
use cloud_system.Base.{ℕ, ◌≡◌, refl, true, some, List, [], ◌∷◌, ◌++◌, pos, codes}
use cloud_system.Floats.{Floats}
use cloud_system.Message.{Msg, with_type}
use cloud_system.Message.Queue.{msgrcv}
use cloud_system.Server.World.{World, end_of_file, got}
use cloud_system.Server.Handler.{Thread, steps}
use cloud_system.Cgi.Session.{Begun, device_name, request}
use cloud_system.Cgi.View
use cloud_system.Cgi.View.{Page, show, fill}
use cloud_system.Client.{Request}
use cloud_system.Client.Env.{reported, getenv_thpread}
use cloud_system.Client.Main.{Device, IsIdle, body, dispatch, receive, perform, perform_all}
use cloud_system.Client.Main.Overtaken.{all_good, heartbeat, beaten}
use cloud_system.Exchange.{IsReady, waiting_again, submit-waits, steps-answered, msgrcv-answered}
use cloud_system.Exchange.View.{query}

module _ (fl : Floats) (buf : Msg fl.Float) (d : Device fl.Float) where
  -- The device after the request and the heartbeat, and its thread has ended.
  abbrev pub device_after : Device fl.Float
  device_after = let e = beaten fl buf (query fl.zero) d in perform_all fl all_good buf e.jobs e

  -- The heartbeat as it goes to the page.
  abbrev pub mistaken : Msg fl.Float
  mistaken = with_type (pos 1042) (heartbeat fl.zero)

-- What the page, the thread and the device do.
pub record IsCrossed (fl : Floats) (w : World fl.Float) (t : Thread fl.Float) (cookie : List ℕ)
    (buf : Msg fl.Float) (d : Device fl.Float) : Type 0 where
  pub asks :
      View.cgi_main fl.zero true true cookie w.queue
      ≡ Begun.waits (codes "admin") (pos 1042) (w.queue ++ query fl.zero ∷ [])
  -- The device sends the heartbeat back first, and then its report.
  pub replies :
      (device_after fl buf d).requests
      ≡ d.requests
        ++ Request.reply (heartbeat fl.zero) ∷ Request.reply (reported fl buf d.globals) ∷ []
  -- The thread takes the heartbeat for the answer, and waits for the next request.
  pub relays :
      steps
        (record w { queue = w.queue ++ query fl.zero ∷ [] })
        t
        (end_of_file ∷ end_of_file ∷ got (heartbeat fl.zero) ∷ [])
      ≡ some (
        record w {
          queue = w.queue ++ mistaken fl buf d ∷ [];
          outbox = w.outbox ++ (t.accept_fd, query fl.zero) ∷ [];
        },
        waiting_again t (heartbeat fl.zero),
      )
  pub takes :
      msgrcv (pos 1042) (w.queue ++ mistaken fl buf d ∷ []) ≡ some (mistaken fl buf d, w.queue)
  pub shows : show (codes "admin") (mistaken fl buf d) ≡ Page.unreachable

-- With the cookie of the device "admin", whose thread is ready, and with the client running and no
-- thread of it under way: when the server's heartbeat reaches the device behind the request of the
-- view page and before its thread has sent the report, the device sends the heartbeat back first; when
-- the thread of the server receives that, it puts it into the queue as the answer and waits for the
-- next request; the page takes it and says that the data could not be had, although the device has
-- sent its report.
pub view-IsCrossed :
    (fl : Floats) (w : World fl.Float) (t : Thread fl.Float) (n : ℕ) (cookie : List ℕ)
    (buf : Msg fl.Float) (d : Device fl.Float)
    → IsReady w t n
    → device_name cookie ≡ some (codes "admin")
    → IsIdle d
    → IsCrossed fl w t cookie buf d
unfolding View.cgi_main request receive dispatch perform body perform_all getenv_thpread show
    reported
view-IsCrossed fl w t n cookie buf d ready named idle = record {
  asks = submit-waits w t n (fill fl.zero) (heartbeat fl.zero) cookie ready named;
  relays = steps-answered w t n (fill fl.zero) (heartbeat fl.zero) cookie ready named;
  replies =
      rw (idle.0, idle.1) (append_assoc d.requests (Request.reply (heartbeat fl.zero) ∷ []) _);
  takes = msgrcv-answered w t n (fill fl.zero) (heartbeat fl.zero) cookie ready named;
  shows = refl;
}
