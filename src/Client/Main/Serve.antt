-- ===== src/Client/Main/Serve.antt =====
-- When each thread begins before the next message comes, the device carries out one command after
-- the other.
use cloud_system.Base.{
  ◌≡◌, refl, ap, sym, ◌∙◌, true, List, [], ◌∷◌, ◌++◌, arith, ◌==◌, if◌then◌else◌, Bool-cases, inl,
  inr, subst, Bool,
}
use cloud_system.Floats.{Floats}
use cloud_system.Message.{Msg}
use cloud_system.Server.World.{got}
use cloud_system.Client.{Request, Ran}
use cloud_system.Client.Control.{ctrldev_thread}
use cloud_system.Client.Env.{getenv_thpread}
use cloud_system.Client.Config.{setlimit_thread}
use cloud_system.Client.Main.{
  Device, Calls, Job, settle, dispatch, receive, perform, perform_all, IsIdle, body,
}

module _ (fl : Floats) (c : Calls) (buf : Msg fl.Float) where
  -- What a message asks of the device, without threads and shared buffers.
  unfoldable pub serve : Msg fl.Float → Device fl.Float → Device fl.Float
  serve m d =
      if m.commd == 1
      then settle d (getenv_thpread fl c.send buf d.globals)
      else if m.commd == 2
      then settle d (setlimit_thread fl c.file c.send m d.globals)
      else if m.commd == 3
      then settle d (ctrldev_thread c.fan c.motor c.send m d.globals)
      else if m.commd == 255
      then record d { requests = d.requests ++ Request.reply m ∷ [] }
      else d

  abbrev after : Msg fl.Float → Device fl.Float → Device fl.Float
  after m d = let e = receive fl.zero true (got m) d in perform_all fl c buf e.jobs e

  -- The loop and its threads, each of which ends before the next message, until the process exits.
  unfoldable pub exchange : List (Msg fl.Float) → Device fl.Float → Device fl.Float
  exchange [] d = d
  exchange (m ∷ ms) d = let rest = exchange ms (after m d) in if d.alive then rest else d

  unfoldable pub serve_all : List (Msg fl.Float) → Device fl.Float → Device fl.Float
  serve_all [] d = d
  serve_all (m ∷ ms) d =
      let rest = serve_all ms (serve m (record d { threadbuf = m })) in if d.alive then rest else d

  -- A thread's body neither reads the list of threads nor changes it.
  settle-idle :
      (d : Device fl.Float) (js : List Job) (ran : Ran fl.Float)
      → record (settle (record d { jobs = js }) ran) { jobs = [] }
        ≡ settle (record d { jobs = [] }) ran
  settle-idle d js (Ran.finished g rs) = refl
  settle-idle d js (Ran.aborted rs) = refl

  -- A message whose thread begins before the next message is served.
  dispatch-serve :
      (m : Msg fl.Float) (d : Device fl.Float)
      → let e = dispatch true m (record d { threadbuf = m; jobs = []; alive = true }) in
        perform_all fl c buf e.jobs e
        ≡ serve m (record d { threadbuf = m; jobs = []; alive = true })
  unfolding dispatch perform body perform_all serve
  dispatch-serve m d = elim (Bool-cases (m.commd == 1)) [
    | inl one ↦ rw one (
        settle-idle (record d { threadbuf = m; alive = true }) _
          (getenv_thpread fl c.send buf d.globals))
    | inr o1 ↦ elim (Bool-cases (m.commd == 2)) [
      | inl two ↦
          rw (o1, two)
            (settle-idle (record d { threadbuf = m; alive = true }) _
              (setlimit_thread fl c.file c.send m d.globals))
      | inr o2 ↦ elim (Bool-cases (m.commd == 3)) [
        | inl three ↦
            rw (o1, o2, three)
              (settle-idle (record d { threadbuf = m; alive = true }) _
                (ctrldev_thread c.fan c.motor c.send m d.globals))
        | inr o3 ↦ elim (Bool-cases (m.commd == 255)) [
          | inl beat ↦ rw (o1, o2, o3, beat)
          | inr o4 ↦ rw (o1, o2, o3, o4)
        ]
      ]
    ]
  ]

  settle-jobs : (d : Device fl.Float) (ran : Ran fl.Float) → (settle d ran).jobs ≡ d.jobs
  settle-jobs d (Ran.finished g rs) = refl
  settle-jobs d (Ran.aborted rs) = refl

  -- No thread is left behind.
  pub serve-jobs : (m : Msg fl.Float) (d : Device fl.Float) → (serve m d).jobs ≡ d.jobs
  unfolding serve
  serve-jobs m d = ground (
    arith,
    settle-jobs d (getenv_thpread fl c.send buf d.globals),
    settle-jobs d (setlimit_thread fl c.file c.send m d.globals),
    settle-jobs d (ctrldev_thread c.fan c.motor c.send m d.globals),
  )

  idle_is : (d : Device fl.Float) → IsIdle d → d ≡ record d { jobs = []; alive = true }
  idle_is d (idle, alive) =
      ap (λ js. record d { jobs = js }) idle ∙ ap (λ b. record d { jobs = []; alive = b }) alive

  -- A message to a process that runs, with no thread under way.
  pub receive-serve :
      (m : Msg fl.Float) (d : Device fl.Float)
      → IsIdle d
      → let e = receive fl.zero true (got m) d in
        perform_all fl c buf e.jobs e ≡ serve m (record d { threadbuf = m })
  unfolding receive
  receive-serve m d idle =
      subst
        (λ (x : Device fl.Float).
          let e = receive fl.zero true (got m) x in
          perform_all fl c buf e.jobs e ≡ serve m (record x { threadbuf = m }))
        (sym (idle_is d idle)) (dispatch-serve m d)

  -- On a device with no thread under way, where each thread ends before the next message comes, the
  -- loop with its threads and their shared buffer does what serving one message after the other does,
  -- until the process exits.
  pub exchange-serve_all :
      (ms : List (Msg fl.Float)) (d : Device fl.Float)
      → d.jobs ≡ []
      → exchange ms d ≡ serve_all ms d
  unfolding exchange serve_all
  exchange-serve_all [] d idle = refl
  exchange-serve_all (m ∷ ms) d idle = elim (Bool-cases d.alive) [
    | inl alive ↦
        ap (λ (b : Bool). if b then exchange ms (after m d) else d) alive
        ∙ ap (exchange ms) (receive-serve m d (idle, alive))
        ∙ exchange-serve_all ms (serve m (record d { threadbuf = m }))
            (serve-jobs m (record d { threadbuf = m }) ∙ idle)
        ∙ ap (λ (b : Bool). if b then serve_all ms (serve m (record d { threadbuf = m })) else d)
            (sym alive)
    | inr dead ↦
        ap (λ (b : Bool). if b then exchange ms (after m d) else d) dead
        ∙ ap (λ (b : Bool). if b then serve_all ms (serve m (record d { threadbuf = m })) else d)
            (sym dead)
  ]
