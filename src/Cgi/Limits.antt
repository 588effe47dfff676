-- ===== src/Cgi/Limits.antt =====
-- cgisrc/garden_stuff_set.c: the page that sets the limits, joined with the device that takes them
-- (src/client.c) and the page that shows them (cgisrc/garden_stuff_view.c).
use cloud_system.Base.{ℕ, Bool, ◌≡◌, refl, true, List, codes}
use cloud_system.Floats.{Floats}
use cloud_system.Message.{Msg, Limitset, zeroed}
use cloud_system.Cgi.{Form}
use cloud_system.Cgi.Session.{Begun, submit}
use cloud_system.Cgi.View.{Page, show, status_cells}
use cloud_system.Client.{Globals, Ran, finished, aborted}
use cloud_system.Client.Config.{setlimit_thread}
use cloud_system.Client.Env.{reported}

module _ (fl : Floats) where
  -- `cgiFormString(name, data, 10); atof(data)` for each limit.
  unfoldable pub limits_of : Form → Limitset fl.Float
  limits_of form = record {
    tempup = fl.atof (form (codes "temp_up") 10);
    tempdown = fl.atof (form (codes "temp_low") 10);
    humeup = fl.atof (form (codes "hum_up") 10);
    humedown = fl.atof (form (codes "hum_low") 10);
    luxup = fl.atof (form (codes "illu_up") 10);
    luxdown = fl.atof (form (codes "illu_low") 10);
  }

  -- The message that the page sends, but for its type.
  unfoldable pub fill : Form → Msg fl.Float
  fill form = record (zeroed fl.zero) { commd = 2; limitset = limits_of form }

  -- `cgiMain` up to its wait.
  unfoldable pub cgi_main :
      Form → (key_ok queue_ok : Bool) → List ℕ → List (Msg fl.Float) → Begun fl.Float
  unfolding fill
  cgi_main form key_ok queue_ok cookie q = submit key_ok queue_ok cookie (fill form) q

  -- The globals after a thread's body; those before, when it did not return.
  abbrev pub after : Globals fl.Float → Ran fl.Float → Globals fl.Float
  after g (finished h rs) = h
  after g (aborted rs) = g

  -- Once the device has carried out the command of the limits page, its next report makes the view
  -- page print the table with the limits of the form, and with the climate and the devices as they
  -- were.
  pub show-limits_of :
      (form : Form) (g : Globals fl.Float) (name : List ℕ) (buf : Msg fl.Float)
      → show name (reported fl buf (after g (setlimit_thread fl true true (fill form) g)))
        ≡ Page.table name
            (limits_of form)
            (record {
              temp = g.conttemp;
              hume = g.conthume;
              lux = g.contlux;
              devstatus = g.contdevstatus;
            })
            (status_cells g.contdevstatus)
  unfolding show reported setlimit_thread fill
  show-limits_of form g name buf = refl
