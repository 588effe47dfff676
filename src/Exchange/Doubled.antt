-- ===== src/Exchange/Doubled.antt =====
-- A page of the user "adminadmin", whose message type is the one under which the answers for "admin" go.
use mathlib.Core.List.{append_assoc, append-nil}
use cloud_system.Base.{
  ℕ, ◌≡◌, refl, ap, ◌∙◌, true, false, none, some, List, [], ◌∷◌, ◌++◌, arith, pos, codes, double,
  ◌+ℤ◌, sym, half,
}
use cloud_system.Message.{Msg, with_type}
use cloud_system.Message.Kind.{type_of, type_of_admin, double_admin, type_of-append}
use cloud_system.Message.Queue.{
  msgrcv, msgsnd, take_type-first, take_type-none, NoType, NoType-append,
}
use cloud_system.Server.World.{World, end_of_file, got}
use cloud_system.Server.Handler.{Thread, steps}
use cloud_system.Cgi.Session.{Begun, device_name, handler, rettype, request, submit, accepted}
use cloud_system.Cgi.View.{Page, show}
use cloud_system.Exchange.{IsReady, asked, answered, waiting_again, submit-waits, steps-answered}

abbrev pub twice : List ℕ
twice = codes "admin" ++ codes "admin"

abbrev pub other : {F : Type 0} → Msg F → Msg F
other m = request twice m

-- `m` is the request of the page of "admin", `p` that of the page of "adminadmin", and `a` the device's
-- answer to `m`.
pub record IsMixed {F : Type 0} (w : World F) (t : Thread F) (cookie cookie' : List ℕ)
    (m p a : Msg F) : Type 0 where
  -- Both pages put their requests into the queue and wait.
  pub asks :
      submit true true cookie m w.queue
      ≡ Begun.waits (codes "admin") (pos 1042) (w.queue ++ asked m ∷ [])
  pub asks_too :
      submit true true cookie' p (w.queue ++ asked m ∷ [])
      ≡ Begun.waits twice (pos 2084) (w.queue ++ asked m ∷ other p ∷ [])
  -- The first page takes the request of the other one for its answer, and shows that it has failed.
  pub takes :
      msgrcv (pos 1042) (w.queue ++ asked m ∷ other p ∷ [])
      ≡ some (other p, w.queue ++ asked m ∷ [])
  pub fails : (show (codes "admin") (other p) ≡ Page.unreachable) × (accepted (other p) ≡ false)
  -- The device serves the request of the first page, which has gone.
  pub relays :
      steps
        (record w { queue = w.queue ++ asked m ∷ [] })
        t
        (end_of_file ∷ end_of_file ∷ got a ∷ [])
      ≡ some (answered w t m a, waiting_again t a)
  -- The other page gets no answer, and its alarm takes away the one for the first page.
  pub unanswered : msgrcv (pos 2084) (answered w t m a).queue ≡ none
  pub takes_away : handler (pos 2084) (answered w t m a).queue ≡ w.queue

type_of-twice : type_of twice ≡ pos 1042
unfolding ◌+ℤ◌ double
type_of-twice =
    type_of-append (codes "admin") (codes "admin") ∙ ap double type_of_admin ∙ double_admin

type_of_other : {F : Type 0} (p : Msg F) → (other p).msgtype ≡ pos 1042
unfolding request
type_of_other p = type_of-twice

double_1042 : double (pos 1042) ≡ pos 2084
unfolding double ◌+ℤ◌
double_1042 = refl

module _ {F : Type 0} (w : World F) (t : Thread F) (n : ℕ) (cookie' : List ℕ) (m p a : Msg F)
    (ready : IsReady w t n) (named' : device_name cookie' ≡ some twice)
    (none_left : NoType 2084 w.queue) where
  submits :
      submit true true cookie' p (w.queue ++ asked m ∷ [])
      ≡ Begun.waits twice (pos 2084) (w.queue ++ asked m ∷ other p ∷ [])
  unfolding submit msgsnd rettype request
  submits = rw named' (
      ground
        (arith, type_of-twice, double_1042, append_assoc w.queue (asked m ∷ []) (other p ∷ [])))

  takes_other :
      msgrcv (pos 1042) (w.queue ++ asked m ∷ other p ∷ [])
      ≡ some (other p, w.queue ++ asked m ∷ [])
  unfolding msgrcv request
  takes_other =
      let before = NoType-append 1042 w.queue (asked m) ready.no_answer (rw type_of_admin refl) in
      ap (λ q. msgrcv (pos 1042) q) (sym (append_assoc w.queue (asked m ∷ []) (other p ∷ [])))
      ∙ take_type-first 1042 (w.queue ++ asked m ∷ []) [] (other p) before type_of-twice
      ∙ ap (λ q. some (other p, q)) (append-nil (w.queue ++ asked m ∷ []))

  no_other : msgrcv (pos 2084) (answered w t m a).queue ≡ none
  unfolding msgrcv
  no_other =
      take_type-none 2084 (answered w t m a).queue
        (NoType-append 2084 w.queue (with_type (pos 1042) a) none_left refl)

  removes : handler (pos 2084) (answered w t m a).queue ≡ w.queue
  unfolding handler msgrcv half
  removes = ground (
    arith,
    take_type-first 1042 w.queue [] (with_type (pos 1042) a) ready.no_answer refl,
    append-nil w.queue,
  )

-- When the thread of the device "admin" is ready, a page with its cookie has put its request into the
-- queue, and then a page with the cookie of a user "adminadmin", whose message has flag 0, as requests
-- have: the first page takes the request of the other one for its answer and says that it has failed;
-- the device then serves the request of the first page, whose answer stays in the queue; the other page,
-- when no message waits for it, gets no answer, and its alarm takes that answer out of the queue.
pub submit-IsMixed :
    {F : Type 0} (w : World F) (t : Thread F) (n : ℕ) (cookie cookie' : List ℕ) (m p a : Msg F)
    → IsReady w t n
    → device_name cookie ≡ some (codes "admin")
    → device_name cookie' ≡ some twice
    → p.user.flags ≡ 0
    → NoType 2084 w.queue
    → IsMixed w t cookie cookie' m p a
unfolding show accepted request
submit-IsMixed w t n cookie cookie' m p a ready named named' zero none_left = record {
  asks = submit-waits w t n m a cookie ready named;
  asks_too = submits w t n cookie' m p a ready named' none_left;
  takes = takes_other w t n cookie' m p a ready named' none_left;
  fails = (rw zero refl, rw zero refl);
  relays = steps-answered w t n m a cookie ready named;
  unanswered = no_other w t n cookie' m p a ready named' none_left;
  takes_away = removes w t n cookie' m p a ready named' none_left;
}
