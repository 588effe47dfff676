-- ===== src/Exchange/Gone.antt =====
-- A device that hangs up while a page waits for its answer.
use mathlib.Core.List.{append-nil}
use cloud_system.Base.{
  ℕ, ◌≡◌, refl, ap, ◌∙◌, true, false, none, some, List, [], ◌∷◌, ◌++◌, arith, pos, codes, is_neg,
  half-double, int_eq_iff,
}
use cloud_system.Message.{Msg, with_type, with_flags}
use cloud_system.Message.Kind.{type_of_admin, double_admin}
use cloud_system.Message.Queue.{msgrcv, take_type-first, take_type-none, NoType, NoType-append}
use cloud_system.Server.World.{World, end_of_file}
use cloud_system.Server.Handler.{State, Thread, steps, step}
use cloud_system.Server.Login.{login_thread, login_thread_lem, is_online}
use cloud_system.Cgi.Session.{Begun, device_name, handler, request, submit}
use cloud_system.Exchange.{IsReady, asked, submit-waits}

module _ {F : Type 0} where
  -- The server without the device.
  abbrev pub without : World F → Thread F → Msg F → World F
  without w t m = record w {
    devices = [];
    outbox = w.outbox ++ (t.accept_fd, asked m) ∷ [];
    closed = t.accept_fd ∷ w.closed;
  }

-- What the hang-up comes to: `m` is the request that is under way, `next` that of a later page, and
-- `l` a login request.
pub record IsGone {F : Type 0} (w : World F) (t : Thread F) (cookie : List ℕ) (m next l : Msg F)
    : Type 0 where
  pub hangs_up :
      steps
        (record w { queue = w.queue ++ asked m ∷ [] })
        t
        (end_of_file ∷ end_of_file ∷ end_of_file ∷ end_of_file ∷ [])
      ≡ some (without w t m, record t { state = State.ended; buf = asked m })
  -- The page finds no answer, and its alarm nothing to take back.
  pub unanswered : (msgrcv (pos 1042) w.queue ≡ none) × (handler (pos 1042) w.queue ≡ w.queue)
  -- The request of a later page stays in the queue until the alarm takes it back.
  pub later :
      (submit true true cookie next w.queue
        ≡ Begun.waits (codes "admin") (pos 1042) (w.queue ++ asked next ∷ []))
      × (msgrcv (pos 1042) (w.queue ++ asked next ∷ []) ≡ none)
      × (handler (pos 1042) (w.queue ++ asked next ∷ []) ≡ w.queue)
  -- The login page is told that no such device is online, whatever its name.
  pub offline :
      login_thread (record (without w t m) { queue = w.queue ++ l ∷ [] })
      ≡ some (record (without w t m) { queue = w.queue ++ with_type (pos 2) (with_flags 0 l) ∷ [] })

typed : {F : Type 0} (m : Msg F) → (asked m).msgtype ≡ pos 521
unfolding request
typed m = type_of_admin

module _ {F : Type 0} (w : World F) (t : Thread F) (n : ℕ) (ready : IsReady w t n) where
  hung_up :
      (m : Msg F) (id : List ℕ) (tid : ℕ)
      → w.devices ≡ record { id = id; fd = t.accept_fd; tid = tid } ∷ []
      → is_neg t.accept_fd ≡ false
      → steps
          (record w { queue = w.queue ++ asked m ∷ [] })
          t
          (end_of_file ∷ end_of_file ∷ end_of_file ∷ end_of_file ∷ [])
        ≡ some (without w t m, record t { state = State.ended; buf = asked m })
  unfolding steps step msgrcv
  hung_up m id tid only open' = ground (
    arith,
    ready.waiting,
    ready.receives,
    ready.sends,
    ready.free,
    ready.listed,
    only,
    open',
    int_eq_iff t.accept_fd t.accept_fd,
    take_type-first 521 w.queue [] (asked m) ready.no_request (typed m),
    append-nil w.queue,
  )

  taken_back : (m : Msg F) → handler (pos 1042) (w.queue ++ asked m ∷ []) ≡ w.queue
  unfolding handler msgrcv
  taken_back m = ground (
    arith,
    half-double (pos 521),
    double_admin,
    take_type-first 521 w.queue [] (asked m) ready.no_request (typed m),
    append-nil w.queue,
  )

  none_taken : handler (pos 1042) w.queue ≡ w.queue
  unfolding handler msgrcv
  none_taken =
      ground
        (arith, half-double (pos 521), double_admin, take_type-none 521 w.queue ready.no_request)

  not_answered : (m : Msg F) → msgrcv (pos 1042) (w.queue ++ asked m ∷ []) ≡ none
  unfolding msgrcv
  not_answered m =
      take_type-none 1042 (w.queue ++ asked m ∷ [])
        (NoType-append 1042 w.queue (asked m) ready.no_answer (rw (typed m) refl))

not_online :
    {F : Type 0} (w : World F) (t : Thread F) (m l : Msg F)
    → NoType 1 w.queue
    → l.msgtype ≡ pos 1
    → login_thread (record (without w t m) { queue = w.queue ++ l ∷ [] })
      ≡ some (record (without w t m) { queue = w.queue ++ with_type (pos 2) (with_flags 0 l) ∷ [] })
unfolding is_online
not_online {F} w t m l idle login =
    login_thread_lem (record (without w t m) { queue = w.queue ++ l ∷ [] }) w.queue [] l refl idle
      login tt
    ∙ ap
        (λ (q : List (Msg F)).
          some (record (without w t m) { queue = q ++ with_type (pos 2) (with_flags 0 l) ∷ [] }))
        (append-nil w.queue)

-- When a device that is the only one in the list hangs up after its thread, which was ready, has sent it
-- the request of a page, the thread takes the device from the list, closes its socket, gives the
-- semaphore back and ends, and the page is not answered: its alarm ends it and leaves the queue as it
-- was before. A later page's request is not answered either, and its alarm takes it back. A login page
-- that asks for any device, when no other login waits, is told that it is not online.
pub submit-IsGone :
    {F : Type 0} (w : World F) (t : Thread F) (n : ℕ) (cookie : List ℕ) (m next l : Msg F)
    (id : List ℕ) (tid : ℕ)
    → IsReady w t n
    → device_name cookie ≡ some (codes "admin")
    → w.devices ≡ record { id = id; fd = t.accept_fd; tid = tid } ∷ []
    → is_neg t.accept_fd ≡ false
    → NoType 1 w.queue
    → l.msgtype ≡ pos 1
    → IsGone w t cookie m next l
unfolding msgrcv
submit-IsGone w t n cookie m next l id tid ready named only open' idle login = record {
  hangs_up = hung_up w t n ready m id tid only open';
  unanswered = (take_type-none 1042 w.queue ready.no_answer, none_taken w t n ready);
  later = (
    submit-waits w t n next next cookie ready named,
    not_answered w t n ready next,
    taken_back w t n ready next,
  );
  offline = not_online w t m l idle login;
}
