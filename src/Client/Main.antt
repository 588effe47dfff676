-- ===== src/Client/Main.antt =====
-- `main` of src/client.c from the login on: the loop that receives the server's messages and starts a
-- thread for each command. The threads that act on a command read it from `threadbuf`, when they
-- begin; the loop writes every message there. `char` is unsigned on the device's machine.
pub mod Serve
pub mod Overtaken
mod Tests
use cloud_system.Base.{ℕ, Bool, true, false, not, List, [], ◌∷◌, ◌++◌, ◌≡◌, ◌==◌, if◌then◌else◌}
use cloud_system.Floats.{Floats}
use cloud_system.Message.{Msg, zeroed}
use cloud_system.Server.World.{Received, buffer, is_end}
use cloud_system.Client.{Globals, Request, Ran, finished, aborted}
use cloud_system.Client.Control.{ctrldev_thread}
use cloud_system.Client.Env.{getenv_thpread}
use cloud_system.Client.Config.{setlimit_thread}

-- A thread that `pthread_create` has made and that has not begun.
pub data Job : Type 0 where
  getenv setlimit ctrldev : Job

-- The device: `jobs` oldest first, and what it has asked of its drivers, files and socket.
pub record Device (F : Type 0) : Type 0 where
  pub globals : Globals F
  pub threadbuf : Msg F
  pub jobs : List Job
  pub requests : List (Request F)
  pub alive : Bool

-- The process runs, and no thread waits to begin.
abbrev pub IsIdle : {F : Type 0} → Device F → Type 0
IsIdle d = (d.jobs ≡ []) × (d.alive ≡ true)

-- Whether the calls of a thread succeed.
pub record Calls : Type 0 where
  pub file : Bool
  pub fan : Bool
  pub motor : Bool
  pub send : Bool

module _ {F : Type 0} where
  abbrev pub start : Job → Device F → Device F
  start j d = record d { jobs = d.jobs ++ j ∷ [] }

  abbrev pub stop : Device F → Device F
  stop d = record d { alive = false }

  -- The `switch`, by whether its `pthread_create` or `send` succeeds.
  unfoldable pub dispatch : (ok : Bool) → Msg F → Device F → Device F
  dispatch ok m d =
      if m.commd == 1
      then (if ok then start Job.getenv d else stop d)
      else if m.commd == 2
      then (if ok then start Job.setlimit d else stop d)
      else if m.commd == 3
      then (if ok then start Job.ctrldev d else stop d)
      else if m.commd == 255
      then (let d' = record d { requests = d.requests ++ Request.reply m ∷ [] } in
          if ok then d' else stop d')
      else d

  -- A round of the loop, which comes to an end with the process. `memset` comes before `recv`, so an
  -- error leaves an empty message.
  unfoldable pub receive : F → (ok : Bool) → Received F → Device F → Device F
  unfolding dispatch
  receive float_zero ok r d =
      if not d.alive
      then d
      else if is_end r
      then stop d
      else (let m = buffer (zeroed float_zero) r in dispatch ok m (record d { threadbuf = m }))

  -- What a thread's body leaves of the device.
  abbrev pub settle : Device F → Ran F → Device F
  settle d (finished g rs) = record d { globals = g; requests = d.requests ++ rs }
  settle d (aborted rs) = stop (record d { requests = d.requests ++ rs })

module _ (fl : Floats) where
  -- The body of a thread; `buf` is the variable of `getenv_thpread`, which has no value yet.
  unfoldable pub body : Calls → Msg fl.Float → Job → Device fl.Float → Device fl.Float
  body c buf Job.getenv d = settle d (getenv_thpread fl c.send buf d.globals)
  body c buf Job.setlimit d = settle d (setlimit_thread fl c.file c.send d.threadbuf d.globals)
  body c buf Job.ctrldev d = settle d (ctrldev_thread c.fan c.motor c.send d.threadbuf d.globals)

  -- A thread begins, unless the process has exited.
  unfoldable pub perform : Calls → Msg fl.Float → Job → Device fl.Float → Device fl.Float
  unfolding body
  perform c buf j d = if d.alive then body c buf j d else d

  -- Every thread that waits begins, oldest first.
  unfoldable pub perform_all : Calls → Msg fl.Float → List Job → Device fl.Float → Device fl.Float
  perform_all c buf [] d = record d { jobs = [] }
  perform_all c buf (j ∷ js) d = perform_all c buf js (perform c buf j d)
