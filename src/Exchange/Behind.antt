-- ===== src/Exchange/Behind.antt =====
-- A page whose alarm comes after the thread has taken its request: the answer stays in the queue, and
-- the next page takes it for its own.
use mathlib.Core.List.{append_assoc}
use cloud_system.Base.{
  ℕ, ◌≡◌, refl, true, some, List, [], ◌∷◌, ◌++◌, arith, pos, half-double, codes,
}
use cloud_system.Message.{Msg, with_type}
use cloud_system.Message.Kind.{type_of_admin, double_admin}
use cloud_system.Message.Queue.{msgrcv, msgsnd, take_type-first, take_type-none}
use cloud_system.Server.World.{World, end_of_file, got}
use cloud_system.Server.Handler.{Thread, steps}
use cloud_system.Cgi.Session.{Begun, device_name, handler, rettype, request, submit}
use cloud_system.Exchange.{IsReady, asked, waiting_again, steps-answered}

module _ {F : Type 0} where
  -- The answer to the page that has gone.
  abbrev pub late : Msg F → Msg F
  late a = with_type (pos 1042) a

-- How the pages fall behind: `a` is the device's answer to the page that has gone, `m` the request of
-- the next page, and `b` the device's answer to that.
pub record IsBehind {F : Type 0} (w : World F) (t : Thread F) (cookie : List ℕ) (a m b : Msg F)
    : Type 0 where
  -- The alarm finds no request to take back.
  pub gives_up : handler (pos 1042) w.queue ≡ w.queue
  -- The next page takes the late answer, with its own request still in the queue.
  pub asks :
      submit true true cookie m (w.queue ++ late a ∷ [])
      ≡ Begun.waits (codes "admin") (pos 1042) (w.queue ++ late a ∷ asked m ∷ [])
  pub takes :
      msgrcv (pos 1042) (w.queue ++ late a ∷ asked m ∷ []) ≡ some (late a, w.queue ++ asked m ∷ [])
  -- The thread serves that request afterwards, and its answer is the next one that is late.
  pub relays :
      steps
        (record w { queue = w.queue ++ asked m ∷ [] })
        t
        (end_of_file ∷ end_of_file ∷ got b ∷ [])
      ≡ some (
        record w {
          queue = w.queue ++ late b ∷ [];
          outbox = w.outbox ++ (t.accept_fd, asked m) ∷ [];
        },
        waiting_again t b,
      )

-- When the thread of the device "admin" is ready and no request waits, so that the alarm of a page whose
-- request was taken finds nothing to take back, and the device's answer comes after the alarm, the next
-- page, whatever it asks, takes this answer at once, while its own request still waits; when the thread
-- has served that request too, its answer is left in the queue as the late one was.
pub submit-IsBehind :
    {F : Type 0} (w : World F) (t : Thread F) (n : ℕ) (cookie : List ℕ) (a m b : Msg F)
    → IsReady w t n
    → device_name cookie ≡ some (codes "admin")
    → IsBehind w t cookie a m b
unfolding msgrcv
submit-IsBehind w t n cookie a m b ready named = record {
  gives_up =
      unfold handler in
      ground
        (arith, half-double (pos 521), double_admin, take_type-none 521 w.queue ready.no_request);
  asks =
      unfold submit in
      unfold request in
      unfold rettype in
      unfold msgsnd in
      rw named (
        ground
          (arith, type_of_admin, double_admin, append_assoc w.queue (late a ∷ []) (asked m ∷ [])));
  takes = take_type-first 1042 w.queue (asked m ∷ []) (late a) ready.no_answer refl;
  relays = steps-answered w t n m b cookie ready named;
}
