-- ===== src/Exchange/Echo.antt =====
-- A device whose socket gives errors: `recv` returns -1, which the thread does not tell from an answer.
use mathlib.Core.List.{append-nil}
use cloud_system.Base.{
  ℕ, ◌≡◌, refl, true, false, Option, none, some, List, [], ◌∷◌, ◌++◌, map, arith, pos, codes, ℤ,
}
use cloud_system.Message.{Msg, with_type}
use cloud_system.Message.Kind.{type_of_admin}
use cloud_system.Message.Queue.{msgrcv, msgsnd, take_type-first}
use cloud_system.Server.World.{World, end_of_file, failed}
use cloud_system.Server.Handler.{Thread, steps, step}
use cloud_system.Cgi.Session.{Begun, device_name, request, submit, accepted}
use cloud_system.Cgi.View.{Page, show}
use cloud_system.Exchange.{IsReady, asked, answered, waiting_again, submit-waits, msgrcv-answered}

module _ {F : Type 0} where
  -- From a page's request in the queue to the message that it takes, with a `recv` that fails.
  abbrev from_queue : ℤ → World F → Thread F → Option (Msg F × (World F × Thread F))
  from_queue type w t = elim (steps w t (end_of_file ∷ end_of_file ∷ failed ∷ [])) [
    | none ↦ none
    | some (v, u) ↦ (elim (msgrcv type v.queue) [
      | none ↦ none
      | some (m, rest) ↦ some (m, (record v { queue = rest }, u))
    ])
  ]

  -- Page after page: the messages that they take, in order.
  unfoldable pub deaf_pages :
      List ℕ → List (Msg F) → World F → Thread F → Option (List (Msg F) × (World F × Thread F))
  deaf_pages cookie [] w t = some ([], (w, t))
  deaf_pages cookie (m ∷ ms) w t = elim (submit true true cookie m w.queue) [
    | Begun.failed ↦ none
    | Begun.overrun ↦ none
    | Begun.waits name type q ↦ (elim (from_queue type (record w { queue = q }) t) [
      | none ↦ none
      | some (a, (v, u)) ↦ (elim (deaf_pages cookie ms v u) [
        | none ↦ none
        | some (taken, rest) ↦ some (a ∷ taken, rest)
      ])
    ])
  ]

  -- The request as it comes back.
  abbrev pub echo : Msg F → Msg F
  echo m = with_type (pos 1042) (asked m)

  abbrev pub AreRequests : List (Msg F) → Type 0
  AreRequests [] = Unit
  AreRequests (m ∷ ms) = (m.user.flags ≡ 0) × AreRequests ms

  -- What the pages say of a message: the view page that the device cannot be reached, and the others
  -- that it has not accepted.
  abbrev pub AllFail : List (Msg F) → Type 0
  AllFail [] = Unit
  AllFail (m ∷ ms) =
      ((show (codes "admin") m ≡ Page.unreachable) × (accepted m ≡ false)) × AllFail ms

-- What becomes of the requests `ms`.
pub record IsEchoed {F : Type 0} (w : World F) (t : Thread F) (n : ℕ) (cookie : List ℕ)
    (ms : List (Msg F)) : Type 0 where
  pub world : World F
  pub thread : Thread F
  pub takes : deaf_pages cookie ms w t ≡ some (map echo ms, (world, thread))
  pub fails : AllFail (map echo ms)
  pub queue : world.queue ≡ w.queue
  pub devices : world.devices ≡ w.devices
  pub ready : IsReady world thread n

module _ {F : Type 0} (w : World F) (t : Thread F) (n : ℕ) (m : Msg F) (ready : IsReady w t n) where
  steps-echoed :
      steps
        (record w { queue = w.queue ++ asked m ∷ [] })
        t
        (end_of_file ∷ end_of_file ∷ failed ∷ [])
      ≡ some (answered w t m (asked m), waiting_again t (asked m))
  unfolding steps step msgrcv msgsnd request
  steps-echoed = ground (
    arith,
    ready.waiting,
    ready.receives,
    ready.sends,
    ready.free,
    ready.listed,
    type_of_admin,
    take_type-first 521 w.queue [] (asked m) ready.no_request type_of_admin,
    append-nil w.queue,
  )

  abbrev after : World F
  after = record w { outbox = w.outbox ++ (t.accept_fd, asked m) ∷ [] }

  ready_again : IsReady after (waiting_again t (asked m)) n
  ready_again = record {
    waiting = refl;
    receives = ready.receives;
    sends = ready.sends;
    free = ready.free;
    listed = ready.listed;
    no_request = ready.no_request;
    no_answer = ready.no_answer;
  }

echo-AllFail : {F : Type 0} (ms : List (Msg F)) → AreRequests ms → AllFail (map echo ms)
unfolding show accepted request
echo-AllFail [] zeros = tt
echo-AllFail (m ∷ ms) (zero, zeros) = ((rw zero refl, rw zero refl), echo-AllFail ms zeros)

module _ {F : Type 0} (n : ℕ) (cookie : List ℕ)
    (named : device_name cookie ≡ some (codes "admin")) where
  -- When the thread of the device "admin" is ready, and every `recv` from the device fails, then each
  -- of any number of pages with its cookie, one after the other, takes its own request back as the
  -- answer of the device, and, as the requests have flag 0, says that the request has failed; after
  -- the pages the queue and the list are as they were, the device still listed, and the thread is
  -- ready.
  pub deaf_pages-IsEchoed :
      (ms : List (Msg F)) (w : World F) (t : Thread F)
      → IsReady w t n
      → AreRequests ms
      → IsEchoed w t n cookie ms
  unfolding deaf_pages
  deaf_pages-IsEchoed [] w t ready zeros = record {
    world = w;
    thread = t;
    takes = refl;
    fails = tt;
    queue = refl;
    devices = refl;
    ready = ready;
  }
  deaf_pages-IsEchoed (m ∷ ms) w t ready (zero, zeros) =
      let rest =
        deaf_pages-IsEchoed ms (after w t n m ready) (waiting_again t (asked m))
          (ready_again w t n m ready) zeros in
      record {
        world = rest.world;
        thread = rest.thread;
        takes =
            rw
              (
                submit-waits w t n m (asked m) cookie ready named,
                steps-echoed w t n m ready,
                msgrcv-answered w t n m (asked m) cookie ready named,
                rest.takes,
                deaf_pages,
              )
              refl;
        fails = echo-AllFail (m ∷ ms) (zero, zeros);
        queue = rest.queue;
        devices = rest.devices;
        ready = rest.ready;
      }
