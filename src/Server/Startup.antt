-- ===== src/Server/Startup.antt =====
-- `main`, `network_init` and `sig_handler` of src/server.c: what they ask of the system, in order,
-- as the results of the calls decide. Handler threads are those of Server/Handler.
pub mod Queue
pub mod Accept
mod Tests
use cloud_system.Base.{
  ℕ, suc, ◌+◌, ◌≡◌, refl, ap, ◌∙◌, inl, inr, Bool, true, false, not, ◌&&◌, ◌||◌, Option, none, some,
  List, [], ◌∷◌, ◌++◌, arith, Bool-cases, ◌==◌, if◌then◌else◌, length, length-append, subst, sym,
}

-- Whether each call succeeds, in the order of the code. `malloc` is the one in `create_link`.
pub record Calls : Type 0 where
  pub signal : Bool
  pub argc : ℕ
  pub socket : Bool
  pub setsockopt : Bool
  pub bind : Bool
  pub listen : Bool
  pub ftok : Bool
  pub msgget : Bool
  pub malloc : Bool
  pub sem_init : Bool
  pub inspect_thread : Bool
  pub login_thread : Bool

-- One round of the accept loop: `accept` fails, or gives a socket whose thread starts or not.
pub data Round : Type 0 where
  accept_failed : Round
  accepted : ℕ → Bool → Round

pub data Effect : Type 0 where
  create_socket close_socket create_queue remove_queue create_list destroy_list : Effect
  start_inspect start_login : Effect
  start_handler : ℕ → Effect

-- The effects up to `exit`, or, while the server runs on, so far.
pub data Trace : Type 0 where
  exits : List Effect → Trace
  runs : List Effect → Trace

abbrev pub effects : Trace → List Effect
effects (exits es) = es
effects (runs es) = es

infixr 5 ◌then◌
abbrev pub ◌then◌ : List Effect → Trace → Trace
es then exits fs = exits (es ++ fs)
es then runs fs = runs (es ++ fs)

-- `none` is the -1 that `main` tests, and `some false` an exit inside.
unfoldable pub network_init : Calls → Option Bool
network_init c =
    if not c.socket
    then none
    else if not c.setsockopt
    then some false
    else if not c.bind
    then some false
    else if not c.listen
    then some false
    else some true

-- The loop, for the rounds that have come so far.
unfoldable pub accept_loop : List Round → Trace
accept_loop [] = runs []
accept_loop (accept_failed ∷ rs) = exits (Effect.remove_queue ∷ [])
accept_loop (accepted fd ok ∷ rs) =
    let rest = (Effect.start_handler fd ∷ []) then accept_loop rs in
    if ok
    then rest
    else exits (Effect.close_socket ∷ Effect.remove_queue ∷ Effect.destroy_list ∷ [])

-- `close(sockfd); msgctl(msgid, IPC_RMID, NULL); destroy_link(&head); exit(-1);`
abbrev pub give_up : Trace
give_up = exits (Effect.close_socket ∷ Effect.remove_queue ∷ Effect.destroy_list ∷ [])

-- From `sem_init` on.
unfoldable pub start_threads : Calls → List Round → Trace
unfolding accept_loop
start_threads c rs =
    if not c.sem_init
    then give_up
    else if not c.inspect_thread
    then give_up
    else if not c.login_thread
    then (Effect.start_inspect ∷ [])
    then give_up
    else ((Effect.start_inspect ∷ Effect.start_login ∷ []) then accept_loop rs)

-- From `ftok` on. `create_link` itself exits when `malloc` fails.
unfoldable pub start_queue : Calls → List Round → Trace
unfolding start_threads
start_queue c rs =
    if not c.ftok
    then exits (Effect.close_socket ∷ [])
    else if not c.msgget
    then exits (Effect.close_socket ∷ [])
    else if not c.malloc
    then exits (Effect.create_queue ∷ [])
    else ((Effect.create_queue ∷ Effect.create_list ∷ []) then start_threads c rs)

unfoldable pub main : Calls → List Round → Trace
unfolding network_init start_queue
main c rs =
    if not c.signal
    then exits []
    else if not (c.argc == 2)
    then exits []
    else (elim (network_init c) [
      | none ↦ exits []
      | some up ↦
          if up
          then (Effect.create_socket ∷ [])
          then start_queue c rs
          else exits (Effect.create_socket ∷ [])
    ])

-- `sig_handler`, by the signal: SIGINT and SIGTERM end the server.
pub data Signal : Type 0 where
  sigint sigterm other : Signal

unfoldable pub sig_handler : Signal → Trace
sig_handler Signal.sigint = exits (Effect.remove_queue ∷ [])
sig_handler Signal.sigterm = exits (Effect.remove_queue ∷ [])
sig_handler Signal.other = runs []

-- How often the queue was created, and how often removed.
abbrev pub created : List Effect → ℕ
created [] = 0
created (Effect.create_queue ∷ es) = suc (created es)
created (_ ∷ es) = created es

abbrev pub removed : List Effect → ℕ
removed [] = 0
removed (Effect.remove_queue ∷ es) = suc (removed es)
removed (_ ∷ es) = removed es
