-- ===== src/Exchange/Connect.antt =====
-- A device connects: its login, from src/client.c, through the handler thread of src/server.c, up to
-- where the thread waits for the pages.
use cloud_system.Base.{ℕ, suc, ◌≡◌, refl, some, [], ◌∷◌, ◌++◌, arith, pos, codes, int_eq_iff}
use cloud_system.Message.{Msg, with_flags}
use cloud_system.Message.Kind.{type_of_admin, double_admin}
use cloud_system.Message.Queue.{NoType}
use cloud_system.Server.World.{World, end_of_file, got}
use cloud_system.Server.Handler.{State, Thread, steps, step, login}
use cloud_system.Client.Start.{credentials}
use cloud_system.Exchange.{IsReady}

module _ {F : Type 0} (m : Msg F) where
  -- The message that the device sends, and the server's answer to it.
  abbrev pub hello : Msg F
  hello = record m { user = credentials m.user }

  abbrev pub welcome : Msg F
  welcome = with_flags 1 hello

  -- The thread once the device is in the list.
  abbrev pub serving : Thread F → Thread F
  serving t = record t {
    state = State.waiting;
    buf = welcome;
    recvmsgtype = pos 521;
    sendmsgtype = pos 1042;
  }

module _ {F : Type 0} (w : World F) (t : Thread F) (m : Msg F) where
  -- The server once the device is in the list.
  abbrev pub connected : World F
  connected = record w {
    devices = record { id = codes "admin"; fd = t.accept_fd; tid = t.tid } ∷ w.devices;
    outbox = w.outbox ++ (t.accept_fd, welcome m) ∷ [];
  }

-- What the connection comes to, for the server and the thread.
pub record IsConnected {F : Type 0} (w : World F) (t : Thread F) (m : Msg F) (n : ℕ) : Type 0 where
  -- The device is answered with flag 1 and stands in front of the list.
  pub runs : steps w t (got (hello m) ∷ end_of_file ∷ []) ≡ some (connected w t m, serving m t)
  -- The thread is ready for the pages.
  pub ready : IsReady (connected w t m) (serving m t) n

-- When a thread waits for the login of its device, the semaphore is free, and no message of the types
-- 521 and 1042 is in the queue, the login with the name and the password of src/client.c is answered
-- with flag 1, puts the device in front of the list, and leaves the thread ready for the pages.
pub credentials-IsConnected :
    {F : Type 0} (w : World F) (t : Thread F) (m : Msg F) (n : ℕ)
    → t.state ≡ State.logging_in
    → w.linksem ≡ suc n
    → NoType 521 w.queue
    → NoType 1042 w.queue
    → IsConnected w t m n
unfolding steps step login credentials
credentials-IsConnected w t m n at free no_request no_answer = record {
  runs = rw at (ground (arith, type_of_admin, double_admin));
  ready = record {
    waiting = refl;
    receives = refl;
    sends = refl;
    free = free;
    listed = ground (arith, int_eq_iff t.accept_fd t.accept_fd);
    no_request = no_request;
    no_answer = no_answer;
  };
}
