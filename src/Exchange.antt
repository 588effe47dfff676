-- ===== src/Exchange.antt =====
-- The parts together: a device that connects (Connect), and one request from a web page through the
-- message queue, the handler thread of src/server.c and the loop of src/client.c, and back to the page.
pub mod View
pub mod Control
pub mod Login
pub mod Connect
pub mod Limits
pub mod Behind
pub mod Crossed
pub mod Echo
pub mod Twins
pub mod Doubled
pub mod Gone
pub mod Burst
pub mod Session
pub mod Sequence
mod Samples
mod Tests
use mathlib.Core.List.{append-nil}
use cloud_system.Base.{
  ℕ, zero, suc, ◌≡◌, refl, ap, ◌∙◌, true, some, List, [], ◌∷◌, ◌++◌, arith, ℤ, pos, codes, double,
}
use cloud_system.Message.{Msg, with_type}
use cloud_system.Message.Kind.{type_of, type_of_admin, double_admin}
use cloud_system.Message.Queue.{msgrcv, msgsnd, sent, take_type-first, NoType}
use cloud_system.Server.Link.Find.{holds_fd}
use cloud_system.Server.World.{World, end_of_file, got}
use cloud_system.Server.Handler.{State, Thread, steps}
use cloud_system.Server.Handler.Relay.{steps-relay}
use cloud_system.Cgi.Session.{Begun, device_name, rettype, request, submit}

-- The thread of the device waits for a request, its device is in the list, and the semaphore is free;
-- no message of the device's two types waits in the queue.
pub record IsReady {F : Type 0} (w : World F) (t : Thread F) (n : ℕ) : Type 0 where
  pub waiting : t.state ≡ State.waiting
  pub receives : t.recvmsgtype ≡ pos 521
  pub sends : t.sendmsgtype ≡ pos 1042
  pub free : w.linksem ≡ suc n
  pub listed : holds_fd t.accept_fd w.devices ≡ true
  pub no_request : NoType 521 w.queue
  pub no_answer : NoType 1042 w.queue

module _ {F : Type 0} where
  -- The message as it is sent to the device.
  abbrev pub asked : Msg F → Msg F
  asked m = request (codes "admin") m

  -- The server's state after the exchange, and that of the thread.
  abbrev pub answered : World F → Thread F → Msg F → Msg F → World F
  answered w t m a = record w {
    queue = w.queue ++ with_type (pos 1042) a ∷ [];
    outbox = w.outbox ++ (t.accept_fd, asked m) ∷ [];
  }

  abbrev pub waiting_again : Thread F → Msg F → Thread F
  waiting_again t a = record t { state = State.waiting; buf = with_type (pos 1042) a }

module _ {F : Type 0} (w : World F) (t : Thread F) (n : ℕ) (m a : Msg F) (cookie : List ℕ)
    (ready : IsReady w t n) (named : device_name cookie ≡ some (codes "admin")) where
  asked-type : (asked m).msgtype ≡ pos 521
  unfolding request
  asked-type = type_of_admin

  pub submit-waits :
      submit true true cookie m w.queue
      ≡ Begun.waits (codes "admin") (pos 1042) (w.queue ++ asked m ∷ [])
  unfolding submit msgsnd rettype request
  submit-waits = rw named (ground (arith, type_of_admin, double_admin))

  pub steps-answered :
      steps
        (record w { queue = w.queue ++ asked m ∷ [] })
        t
        (end_of_file ∷ end_of_file ∷ got a ∷ [])
      ≡ some (answered w t m a, waiting_again t a)
  steps-answered =
      steps-relay (record w { queue = w.queue ++ asked m ∷ [] }) t w.queue [] (asked m) a n 520 1041
        ready.waiting ready.receives ready.sends refl ready.no_request asked-type ready.free
        ready.listed
      ∙ ap
          (λ q. some (
            record (answered w t m a) { queue = q ++ with_type (pos 1042) a ∷ [] },
            waiting_again t a,
          ))
          (append-nil w.queue)

  pub msgrcv-answered :
      msgrcv (pos 1042) (answered w t m a).queue ≡ some (with_type (pos 1042) a, w.queue)
  unfolding msgrcv
  msgrcv-answered =
      take_type-first 1042 w.queue [] (with_type (pos 1042) a) ready.no_answer refl
      ∙ ap (λ q. some (with_type (pos 1042) a, q)) (append-nil w.queue)
