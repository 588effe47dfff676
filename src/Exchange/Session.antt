-- ===== src/Exchange/Session.antt =====
-- Page after page on one device: the server and its queue between them do what the pages would do if
-- they called the device.
use cloud_system.Base.{ℕ, ◌≡◌, refl, true, Option, none, some, List, [], ◌∷◌, ◌++◌, arith, ℤ}
use cloud_system.Floats.{Floats}
use cloud_system.Message.{Msg}
use cloud_system.Message.Queue.{msgrcv}
use cloud_system.Server.World.{World, end_of_file, got}
use cloud_system.Server.Handler.{Thread, handl_thread, steps}
use cloud_system.Cgi.Session.{submit, failed, overrun, waits}
use cloud_system.Client.{Request, led, fan, motor, reply, save}
use cloud_system.Client.Main.{Device, receive, perform_all}
use cloud_system.Client.Main.Overtaken.{all_good}

-- What the server last sent, and what the device last answered.
module _ {F : Type 0} where
  abbrev pub last_sent : List (ℤ × Msg F) → Option (Msg F)
  last_sent [] = none
  last_sent ((fd, m) ∷ rest) = elim (last_sent rest) [ none ↦ some m | some later ↦ some later ]

  abbrev pub last_reply : List (Request F) → Option (Msg F)
  last_reply [] = none
  last_reply (reply m ∷ rest) = elim (last_reply rest) [ none ↦ some m | some later ↦ some later ]
  last_reply (led n on ∷ rest) = last_reply rest
  last_reply (fan text ∷ rest) = last_reply rest
  last_reply (motor text ∷ rest) = last_reply rest
  last_reply (save text ∷ rest) = last_reply rest

  pub last_sent-append :
      (xs : List (ℤ × Msg F)) (fd : ℤ) (m : Msg F) → last_sent (xs ++ (fd, m) ∷ []) ≡ some m
  last_sent-append [] fd m = refl
  last_sent-append (x ∷ xs) fd m = ground (arith, last_sent-append xs fd m)

  pub last_reply-append :
      (xs ys : List (Request F)) (m : Msg F)
      → last_reply ys ≡ some m
      → last_reply (xs ++ ys) ≡ some m
  last_reply-append [] ys m is = is
  last_reply-append (reply x ∷ xs) ys m is = ground (arith, last_reply-append xs ys m is)
  last_reply-append (led n on ∷ xs) ys m is = last_reply-append xs ys m is
  last_reply-append (fan text ∷ xs) ys m is = last_reply-append xs ys m is
  last_reply-append (motor text ∷ xs) ys m is = last_reply-append xs ys m is
  last_reply-append (save text ∷ xs) ys m is = last_reply-append xs ys m is

infixl 5 ◌>>=◌
abbrev ◌>>=◌ : {A B : Type 0} → Option A → (A → Option B) → Option B
none >>= next = none
some x >>= next = next x

-- The server with the device's thread, and the device.
pub record Whole (F : Type 0) : Type 0 where
  pub world : World F
  pub thread : Thread F
  pub device : Device F

module _ (fl : Floats) (buf : Msg fl.Float) where
  -- The device after it has received a message, and its thread has ended.
  abbrev pub told : Msg fl.Float → Device fl.Float → Device fl.Float
  told m d = let e = receive fl.zero true (got m) d in perform_all fl all_good buf e.jobs e

  -- From the page's request in the queue to the message that the page takes out.
  unfoldable pub relay : ℤ → Whole fl.Float → Option (Msg fl.Float × Whole fl.Float)
  relay type s = do
    a ← steps s.world s.thread (end_of_file ∷ end_of_file ∷ [])
    m ← last_sent a.0.outbox
    r ← last_reply (told m s.device).requests
    b ← handl_thread a.0 a.1 (got r)
    c ← msgrcv type b.0.queue
    some (
      c.0,
      record { world = record (b.0) { queue = c.1 }; thread = b.1; device = told m s.device },
    )

  -- One page, over its message but for the type.
  unfoldable pub page :
      List ℕ → Msg fl.Float → Whole fl.Float → Option (Msg fl.Float × Whole fl.Float)
  page cookie m s = elim (submit true true cookie m s.world.queue) [
    | failed ↦ none
    | overrun ↦ none
    | waits name type q ↦ relay type (record s { world = record (s.world) { queue = q } })
  ]

  -- Page after page: the messages that they take, in order.
  unfoldable pub pages :
      List ℕ → List (Msg fl.Float) → Whole fl.Float → Option (List (Msg fl.Float) × Whole fl.Float)
  pages cookie [] s = some ([], s)
  pages cookie (m ∷ ms) s = do a ← page cookie m s; b ← pages cookie ms a.1; some (a.0 ∷ b.0, b.1)
