-- ===== src/Exchange/Sequence.antt =====
-- What the pages of Exchange/Session take, and what becomes of the device.
use mathlib.Core.List.{append-nil}
use cloud_system.Base.{
  ℕ, ◌≡◌, ◌⊎◌, inl, inr, refl, ◌∙◌, true, false, some, List, [], ◌∷◌, ◌++◌, map, arith, pos, codes,
  ◌==◌, if◌then◌else◌, sym, ap, Bool,
}
use cloud_system.Floats.{Floats}
use cloud_system.Message.{Msg, with_type, with_flags}
use cloud_system.Message.Kind.{type_of_admin}
use cloud_system.Message.Queue.{msgrcv, msgsnd, take_type-first}
use cloud_system.Server.World.{World, end_of_file, got}
use cloud_system.Server.Handler.{State, Thread, handl_thread, step, steps}
use cloud_system.Cgi.Session.{device_name, request}
use cloud_system.Client.Env.{reported, getenv_thpread}
use cloud_system.Client.Config.{setlimit_thread}
use cloud_system.Client.Control.{ctrldev_thread}
use cloud_system.Client.Main.{Device, IsIdle}
use cloud_system.Client.Main.Serve.{serve, serve_all, serve-jobs, receive-serve}
use cloud_system.Client.Main.Overtaken.{all_good}
use cloud_system.Exchange.{IsReady, asked, answered, waiting_again, submit-waits, msgrcv-answered}
use cloud_system.Exchange.Session.{
  Whole, told, relay, page, pages, last_reply, last_sent-append, last_reply-append,
}

-- The commands of the garden pages.
abbrev pub IsCommand : {F : Type 0} → Msg F → Type 0
IsCommand m = (m.commd ≡ 1) ⊎ ((m.commd ≡ 2) ⊎ (m.commd ≡ 3))

abbrev pub AllCommands : {F : Type 0} → List (Msg F) → Type 0
AllCommands [] = Unit
AllCommands (m ∷ ms) = IsCommand m × AllCommands ms

module _ (fl : Floats) (buf : Msg fl.Float) where
  -- What the device answers to a command, and what the page takes.
  abbrev pub reply_to : Msg fl.Float → Device fl.Float → Msg fl.Float
  reply_to m d = if m.commd == 1 then reported fl buf d.globals else with_flags 1 m

  abbrev pub answer_to : Msg fl.Float → Device fl.Float → Msg fl.Float
  answer_to m d = with_type (pos 1042) (reply_to (asked m) d)

  -- The device after a command, and what the pages take, without server, queue and threads.
  abbrev pub called : Msg fl.Float → Device fl.Float → Device fl.Float
  called m d = serve fl all_good buf (asked m) (record d { threadbuf = asked m })

  abbrev pub answers : List (Msg fl.Float) → Device fl.Float → List (Msg fl.Float)
  answers [] d = []
  answers (m ∷ ms) d = answer_to m d ∷ answers ms (called m d)

  told-serve :
      (m : Msg fl.Float) (d : Device fl.Float)
      → IsIdle d
      → told fl buf m d ≡ serve fl all_good buf m (record d { threadbuf = m })
  told-serve m d idle = receive-serve fl all_good buf m d idle

  -- The process goes on.
  serve-alive :
      (m : Msg fl.Float) (d : Device fl.Float) → (serve fl all_good buf m d).alive ≡ d.alive
  unfolding serve getenv_thpread setlimit_thread ctrldev_thread
  serve-alive m d = ground arith

  last_reply-serve :
      (m : Msg fl.Float) (d : Device fl.Float)
      → IsCommand m
      → last_reply (serve fl all_good buf m d).requests ≡ some (reply_to m d)
  unfolding serve getenv_thpread setlimit_thread ctrldev_thread
  last_reply-serve m d (inl one) =
      let e1 : (m.commd == 1) ≡ true = ground arith in
      rw e1 (last_reply-append d.requests _ (reported fl buf d.globals) refl)
  last_reply-serve m d (inr (inl two)) =
      let e1 : (m.commd == 1) ≡ false = ground arith in
      let e2 : (m.commd == 2) ≡ true = ground arith in
      rw (e1, e2) (last_reply-append d.requests _ (with_flags 1 m) refl)
  last_reply-serve m d (inr (inr three)) =
      let e1 : (m.commd == 1) ≡ false = ground arith in
      let e2 : (m.commd == 2) ≡ false = ground arith in
      let e3 : (m.commd == 3) ≡ true = ground arith in
      rw (e1, e2, e3) (last_reply-append d.requests _ (with_flags 1 m) refl)

  module _ (w : World fl.Float) (t : Thread fl.Float) (n : ℕ) (m : Msg fl.Float)
      (ready : IsReady w t n) where
    -- The thread once it has sent the request.
    abbrev asking : Thread fl.Float
    asking = record t { state = State.answering; buf = asked m }

    abbrev sent_on : World fl.Float
    sent_on = record w { outbox = w.outbox ++ (t.accept_fd, asked m) ∷ [] }

    steps-asked :
        (asked m).msgtype ≡ pos 521
        → steps (record w { queue = w.queue ++ asked m ∷ [] }) t (end_of_file ∷ end_of_file ∷ [])
          ≡ some (sent_on, asking)
    unfolding steps step msgrcv
    steps-asked typed = ground (
      arith,
      ready.waiting,
      ready.receives,
      ready.free,
      ready.listed,
      take_type-first 521 w.queue [] (asked m) ready.no_request typed,
      append-nil w.queue,
    )

    handl_thread-answered :
        (a : Msg fl.Float)
        → handl_thread sent_on asking (got a) ≡ some (answered w t m a, waiting_again t a)
    unfolding step msgsnd
    handl_thread-answered a = ground (arith, ready.sends, ready.waiting)

  -- The whole once a page has taken its answer.
  abbrev pub whole_after : Msg fl.Float → Whole fl.Float → Whole fl.Float
  whole_after m s = record {
    world = record (s.world) { outbox = s.world.outbox ++ (s.thread.accept_fd, asked m) ∷ [] };
    thread = waiting_again s.thread (reply_to (asked m) s.device);
    device = called m s.device;
  }

  module _ (cookie : List ℕ) (named : device_name cookie ≡ some (codes "admin")) (n : ℕ) where
    page-answer_to :
        (m : Msg fl.Float) (s : Whole fl.Float)
        → IsReady s.world s.thread n
        → IsIdle s.device
        → IsCommand m
        → page fl buf cookie m s ≡ some (answer_to m s.device, whole_after m s)
    unfolding page relay request
    page-answer_to m s ready idle command =
        let d = s.device in
        rw
          (
            submit-waits s.world s.thread n m m cookie ready named,
            page,
            steps-asked s.world s.thread n m ready type_of_admin,
            relay,
            last_sent-append s.world.outbox s.thread.accept_fd (asked m),
            told-serve (asked m) d idle,
            last_reply-serve (asked m) (record d { threadbuf = asked m }) command,
            handl_thread-answered s.world s.thread n m ready (reply_to (asked m) d),
            msgrcv-answered s.world s.thread n m (reply_to (asked m) d) cookie ready named,
          )
          refl

    -- When the cookie is that of the device "admin", its thread is ready and the client runs with no
    -- thread under way, and each thread of the device ends before the next message, pages that run one
    -- after the other, each with a command of the garden, all come to their end: each takes the answer
    -- to its own request; the device has done what calling it with the one command after the other
    -- does; the queue is as it was, and the thread is ready again.
    pub pages-answers :
        (ms : List (Msg fl.Float)) (s : Whole fl.Float)
        → IsReady s.world s.thread n
        → IsIdle s.device
        → AllCommands ms
        → (t : Whole fl.Float) × (pages fl buf cookie ms s ≡ some (answers ms s.device, t))
          × (t.device ≡ serve_all fl all_good buf (map asked ms) s.device)
          × (t.world.queue ≡ s.world.queue)
          × IsReady t.world t.thread n
    unfolding pages serve_all
    pages-answers [] s ready idle commands = (s, refl, refl, refl, ready)
    pages-answers (m ∷ ms) s ready idle commands =
        let (t, runs, does, keeps, again) =
          pages-answers ms (whole_after m s) (ready_after m s ready)
            (
              serve-jobs fl all_good buf (asked m) (record (s.device) { threadbuf = asked m })
                  ∙ idle.0,
              serve-alive (asked m) (record (s.device) { threadbuf = asked m }) ∙ idle.1,
            )
            commands.1 in
        (
          t,
          rw (page-answer_to m s ready idle commands.0, runs) refl,
          does
              ∙ sym (
                  ap
                    (λ (b : Bool).
                      if b
                      then serve_all fl all_good buf (map asked ms) (called m s.device)
                      else s.device)
                    idle.1),
          keeps,
          again,
        )
      where
        ready_after :
            (m : Msg fl.Float) (s : Whole fl.Float)
            → IsReady s.world s.thread n
            → IsReady (whole_after m s).world (whole_after m s).thread n
        ready_after m s ready = record {
          waiting = refl;
          receives = ready.receives;
          sends = ready.sends;
          free = ready.free;
          listed = ready.listed;
          no_request = ready.no_request;
          no_answer = ready.no_answer;
        }
