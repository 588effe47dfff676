-- ===== src/Server/Startup/Queue.antt =====
-- What `main` of src/server.c leaves of the message queue at each of its exits.
use cloud_system.Base.{
  ◌+◌, ◌≡◌, refl, inl, inr, Bool, true, false, not, ◌&&◌, Option, none, some, List, [], ◌∷◌, arith,
  Bool-cases, ◌==◌, if◌then◌else◌, subst, sym,
}
use cloud_system.Server.Startup.{
  Calls, Round, accept_failed, accepted, Effect, Trace, exits, runs, ◌then◌, network_init,
  accept_loop, start_threads, start_queue, main, created, removed,
}

-- An exit leaves no queue behind, and removes none that it did not make.
abbrev pub IsClean : Trace → Type 0
IsClean (exits es) = removed es ≡ created es
IsClean (runs es) = removed es ≡ 0

-- From the loop on the queue exists and is removed once.
abbrev IsRemoving : Trace → Type 0
IsRemoving (exits es) = (removed es ≡ 1) × (created es ≡ 0)
IsRemoving (runs es) = (removed es ≡ 0) × (created es ≡ 0)

accept_loop-IsRemoving : (rs : List Round) → IsRemoving (accept_loop rs)
unfolding accept_loop
accept_loop-IsRemoving [] = (refl, refl)
accept_loop-IsRemoving (accept_failed ∷ rs) = (refl, refl)
accept_loop-IsRemoving (accepted fd false ∷ rs) = (refl, refl)
accept_loop-IsRemoving (accepted fd true ∷ rs) =
    started (accept_loop rs) (accept_loop-IsRemoving rs)
  where
    started : (t : Trace) → IsRemoving t → IsRemoving ((Effect.start_handler fd ∷ []) then t)
    started (exits es) r = r
    started (runs es) r = r

-- A property of both branches holds of the conditional.
either : (P : Trace → Type 0) (b : Bool) {t u : Trace} → P t → P u → P (if b then t else u)
either P true p q = p
either P false p q = q

threads-then :
    (t : Trace)
    → IsRemoving t
    → IsRemoving ((Effect.start_inspect ∷ Effect.start_login ∷ []) then t)
threads-then (exits es) r = r
threads-then (runs es) r = r

start_threads-IsRemoving : (c : Calls) (rs : List Round) → IsRemoving (start_threads c rs)
unfolding start_threads
start_threads-IsRemoving c rs =
    either IsRemoving (not c.sem_init) (refl, refl)
      (either IsRemoving (not c.inspect_thread) (refl, refl)
        (either IsRemoving (not c.login_thread) (refl, refl)
          (threads-then (accept_loop rs) (accept_loop-IsRemoving rs))))

queue-then :
    (t : Trace) → IsRemoving t → IsClean ((Effect.create_queue ∷ Effect.create_list ∷ []) then t)
queue-then (exits es) r = omega arith
queue-then (runs es) r = omega arith

start_queue-IsClean : (c : Calls) (rs : List Round) → c.malloc ≡ true → IsClean (start_queue c rs)
unfolding start_queue
start_queue-IsClean c rs m = either IsClean (not c.ftok) refl (
    either IsClean (not c.msgget) refl
      (rw m (queue-then (start_threads c rs) (start_threads-IsRemoving c rs))))

socket-then : (t : Trace) → IsClean t → IsClean ((Effect.create_socket ∷ []) then t)
socket-then (exits es) r = r
socket-then (runs es) r = r

-- `main` up to its result, by what `network_init` gives.
connected-IsClean :
    (c : Calls) (rs : List Round) (up : Option Bool)
    → c.malloc ≡ true
    → IsClean (elim up [
      | none ↦ exits []
      | some ok ↦
          if ok
          then (Effect.create_socket ∷ [])
          then start_queue c rs
          else exits (Effect.create_socket ∷ [])
    ])
connected-IsClean c rs none m = refl
connected-IsClean c rs (some true) m = socket-then (start_queue c rs) (start_queue-IsClean c rs m)
connected-IsClean c rs (some false) m = refl

main-IsClean : (c : Calls) (rs : List Round) → c.malloc ≡ true → IsClean (main c rs)
unfolding main
main-IsClean c rs m =
    either IsClean (not c.signal) refl
      (either IsClean (not (c.argc == 2)) refl (connected-IsClean c rs (network_init c) m))

-- Every call before `create_link` succeeds.
abbrev pub has_queue : Calls → Bool
has_queue c =
    c.signal
    && ((c.argc == 2)
        && (c.socket && (c.setsockopt && (c.bind && (c.listen && (c.ftok && c.msgget))))))

-- What is left of the queue: at an exit, as often created as removed, and once more where `left`; a
-- server that runs on has it, and nothing is left.
abbrev pub IsTidy : (left : Bool) → Trace → Type 0
IsTidy left (exits es) = created es ≡ removed es + (if left then 1 else 0)
IsTidy left (runs es) = (removed es ≡ 0) × (left ≡ false)

IsTidy-IsClean : (t : Trace) → IsClean t → IsTidy false t
IsTidy-IsClean (exits es) h = omega arith
IsTidy-IsClean (runs es) h = (h, refl)

queue-left :
    (ftok msgget : Bool)
    → IsTidy (ftok && msgget) (
        (Effect.create_socket ∷ [])
        then (if not ftok
            then exits (Effect.close_socket ∷ [])
            else if not msgget
            then exits (Effect.close_socket ∷ [])
            else exits (Effect.create_queue ∷ [])))
queue-left false msgget = refl
queue-left true false = refl
queue-left true true = refl

connected-left :
    (socket setsockopt bind listen left : Bool) (t : Trace)
    → IsTidy left ((Effect.create_socket ∷ []) then t)
    → IsTidy
        (socket && (setsockopt && (bind && (listen && left))))
        (elim (if not socket
          then none
          else if not setsockopt
          then some false
          else if not bind
          then some false
          else if not listen
          then some false
          else some true) [
            | none ↦ exits []
            | some up ↦
                if up then (Effect.create_socket ∷ []) then t else exits (Effect.create_socket ∷ [])
          ])
connected-left false setsockopt bind listen left t h = refl
connected-left true false bind listen left t h = refl
connected-left true true false listen left t h = refl
connected-left true true true false left t h = refl
connected-left true true true true left t h = h

-- A call that must succeed, and what follows it.
guarded :
    (b left : Bool) (t : Trace) → IsTidy left t → IsTidy (b && left) (if not b then exits [] else t)
guarded false left t h = refl
guarded true left t h = h

main-left :
    (c : Calls) (rs : List Round) → IsTidy (has_queue c) (main (record c { malloc = false }) rs)
unfolding main network_init start_queue
main-left c rs = guarded c.signal _ _ (
    guarded (c.argc == 2) _ _ (
      connected-left c.socket c.setsockopt c.bind c.listen (c.ftok && c.msgget) _
        (queue-left c.ftok c.msgget)))

-- At every exit `main` has removed the message queue as often as it had created it, but for one case:
-- when `malloc` fails for the head of the list, after every call before it has succeeded, the queue
-- that was created is left behind. While `main` runs on it has removed no queue.
pub main-IsTidy : (c : Calls) (rs : List Round) → IsTidy (has_queue c && not c.malloc) (main c rs)
main-IsTidy c rs = elim (Bool-cases c.malloc) [
  | inl m ↦
      let none_left : (has_queue c && not c.malloc) ≡ false = ground arith in
      subst (λ b. IsTidy b (main c rs)) (sym none_left)
        (IsTidy-IsClean (main c rs) (main-IsClean c rs m))
  | inr m ↦
      let all_left : (has_queue c && true) ≡ has_queue c = ground arith in
      rw m (
        subst (λ b. IsTidy b (main (record c { malloc = false }) rs)) (sym all_left)
          (main-left c rs))
]
