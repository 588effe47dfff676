-- ===== src/Exchange/Twins.antt =====
-- Two devices that are connected at once, which have one name and hence one message type.
use cloud_system.Base.{ℕ, ◌≡◌, refl, some, none, List, [], ◌∷◌, ◌++◌, arith, pos, codes}
use cloud_system.Message.{Msg, with_type}
use cloud_system.Message.Queue.{msgrcv, take_type-none, NoType-append}
use cloud_system.Server.World.{World, Received, end_of_file, got}
use cloud_system.Server.Handler.{Thread, handl_thread, step, steps}
use cloud_system.Cgi.Session.{device_name}
use cloud_system.Exchange.{IsReady, asked, answered, waiting_again, steps-answered, msgrcv-answered}

-- The request `m` is served by the thread `t`, whose device answers `a`, while the thread `s` has
-- nothing to take, and the page takes that answer.
pub record IsTaken {F : Type 0} (w : World F) (t s : Thread F) (m a : Msg F) : Type 0 where
  pub serves :
      steps
        (record w { queue = w.queue ++ asked m ∷ [] })
        t
        (end_of_file ∷ end_of_file ∷ got a ∷ [])
      ≡ some (answered w t m a, waiting_again t a)
  pub idle : (r : Received F) → handl_thread (answered w t m a) s r ≡ none
  pub takes : msgrcv (pos 1042) (answered w t m a).queue ≡ some (with_type (pos 1042) a, w.queue)

taken :
    {F : Type 0} (w : World F) (t s : Thread F) (n : ℕ) (cookie : List ℕ) (m a : Msg F)
    → IsReady w t n
    → IsReady w s n
    → device_name cookie ≡ some (codes "admin")
    → IsTaken w t s m a
unfolding step msgrcv
taken w t s n cookie m a ready other named = record {
  serves = steps-answered w t n m a cookie ready named;
  idle = λ r. ground (
    arith,
    other.waiting,
    other.receives,
    take_type-none 521 (w.queue ++ with_type (pos 1042) a ∷ [])
        (NoType-append 521 w.queue (with_type (pos 1042) a) ready.no_request refl),
  );
  takes = msgrcv-answered w t n m a cookie ready named;
}

-- When the threads of two devices are ready, a request of the device "admin" can be served by either of
-- them: whichever takes it first sends it to its own device and puts that device's answer `a` or `b`
-- under the type that the page waits for, the other thread finds nothing to take, so that its device
-- does not get the request, and the page takes the answer of that one device.
pub request-IsTaken :
    {F : Type 0} (w : World F) (t s : Thread F) (n : ℕ) (cookie : List ℕ) (m a b : Msg F)
    → IsReady w t n
    → IsReady w s n
    → device_name cookie ≡ some (codes "admin")
    → IsTaken w t s m a × IsTaken w s t m b
request-IsTaken w t s n cookie m a b ready other named =
    (taken w t s n cookie m a ready other named, taken w s t n cookie m b other ready named)
