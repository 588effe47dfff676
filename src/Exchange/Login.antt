-- ===== src/Exchange/Login.antt =====
-- A login, from the form through the database, the message queue and the login thread of src/server.c,
-- and back to the page.
use mathlib.Core.List.{append-nil}
use cloud_system.Base.{
  ℕ, suc, ◌≡◌, refl, ap, ◌∙◌, true, Option, some, List, [], ◌∷◌, ◌++◌, arith, if◌then◌else◌, pos,
  codes,
}
use cloud_system.Message.{Msg, zeroed, with_type, with_flags}
use cloud_system.Message.Queue.{msgrcv, msgsnd, take_type-first, NoType}
use cloud_system.Server.World.{World, AllOpen}
use cloud_system.Server.Login.{login_thread, login_thread_lem, is_online}
use cloud_system.Cgi.{Form}
use cloud_system.Cgi.Login.{Page, Begun, sql, submit, cgi_main, conclude}

module _ {F : Type 0} (float_zero : F) where
  -- The page's request, and the answer of the server.
  abbrev pub ask : List ℕ → Msg F
  ask name = record (zeroed float_zero) {
    msgtype = pos 1;
    user = record { username = name; password = []; flags = 0 };
  }

  abbrev pub reply : World F → List ℕ → Msg F
  reply w name =
      with_type (pos 2) (with_flags (if is_online name w.devices then 1 else 0) (ask name))

-- What a login comes to, for the page and the login thread.
pub record IsLoggedIn {F : Type 0} (float_zero : F) (w : World F) (query : List ℕ → Option ℕ)
    (form : Form) (name : List ℕ) : Type 0 where
  -- The page puts one request into the queue.
  pub asks :
      cgi_main float_zero true true true query form w.queue
      ≡ Begun.waits name (w.queue ++ ask float_zero name ∷ [])
  -- The login thread takes it, and puts an answer into the queue; nothing else changes.
  pub answers :
      login_thread (record w { queue = w.queue ++ ask float_zero name ∷ [] })
      ≡ some (record w { queue = w.queue ++ reply float_zero w name ∷ [] })
  -- The page takes the answer, which leaves the queue as it was.
  pub takes :
      msgrcv (pos 2) (w.queue ++ reply float_zero w name ∷ [])
      ≡ some (reply float_zero w name, w.queue)
  -- It sets the cookie and goes to the garden exactly when a device of the user's name is logged in.
  pub shows :
      conclude name (reply float_zero w name)
      ≡ (if is_online name w.devices then Page.redirect name else Page.offline)

-- When the database has a user with the form's name and password, no login is under way, and the
-- devices' sockets are open, the login page puts one request into the queue; the login thread takes it
-- and answers, and changes nothing else; the page takes the answer, so that the queue is as it was, and
-- goes to the garden under the user's name exactly when a device of that name is logged in.
pub login-IsLoggedIn :
    {F : Type 0} (float_zero : F) (w : World F) (query : List ℕ → Option ℕ) (form : Form)
    (name password : List ℕ) (n : ℕ)
    → form (codes "ID") 20 ≡ name
    → form (codes "PASSWORD") 20 ≡ password
    → query (sql name password) ≡ some (suc n)
    → NoType 1 w.queue
    → NoType 2 w.queue
    → AllOpen w.devices
    → IsLoggedIn float_zero w query form name
login-IsLoggedIn float_zero w query form name password n is_name is_password known no_ask no_reply
      opened =
    record {
      asks = unfold cgi_main in unfold submit in unfold msgsnd in ground arith;
      answers =
          login_thread_lem (record w { queue = w.queue ++ ask float_zero name ∷ [] }) w.queue []
            (ask float_zero name) refl no_ask refl opened
          ∙ ap (λ q. some (record w { queue = q ++ reply float_zero w name ∷ [] }))
              (append-nil w.queue);
      takes =
          unfold msgrcv in
          (take_type-first 2 w.queue [] (reply float_zero w name) no_reply refl
            ∙ ap (λ q. some (reply float_zero w name, q)) (append-nil w.queue));
      shows = unfold conclude in ground arith;
    }
