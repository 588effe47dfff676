-- ===== src/Server/Handler/Free.antt =====
-- The only way in which the semaphore of src/server.c is lost.
use cloud_system.Base.{ℕ, ◌≡◌, ◌⊎◌, refl, inl, inr, false, some, arith, Bool-cases}
use cloud_system.Server.Link.Find.{holds_fd}
use cloud_system.Server.World.{World, Received, end_of_file}
use cloud_system.Server.Login.{login_thread}
use cloud_system.Server.Handler.{State, Thread, login as answer_login, step}
use cloud_system.Server.Handler.Trap.{
  System, Step, Reach, handler, login, page, cancel, forget, here, next, trapped, IsStuck,
  check-IsStuck,
}

-- The thread has taken a request, and its device is no longer in the list.
abbrev pub IsMissing : {F : Type 0} → World F → Thread F → Type 0
IsMissing w t = (t.state ≡ State.checking) × (holds_fd t.accept_fd w.devices ≡ false)

module _ {F : Type 0} (w v : World F) (t u : Thread F) (r : Received F) (free : w.linksem ≡ 1) where
  -- A step gives the semaphore back, but for the one of a thread whose device is missing.
  step-free :
      (x : State)
      → t.state ≡ x
      → step x w t r ≡ some (v, u)
      → (v.linksem ≡ 1)
        ⊎ (IsMissing w t
            × ((v ≡ record w { linksem = 0 }) × (u ≡ record t { state = State.dropping })))
  unfolding step answer_login
  step-free State.logging_in at e = ground arith
  step-free State.joining at e = ground arith
  step-free State.waiting at e = ground arith
  step-free State.checking at e = elim (Bool-cases (holds_fd t.accept_fd w.devices)) [
    | inl held ↦ ground arith
    | inr missing ↦ inr ((at, missing), ground arith)
  ]
  step-free State.dropping at e = ground arith
  step-free State.answering at e = ground arith
  step-free State.leaving at e = ground arith
  step-free State.ended at e = ground arith

-- The semaphore has been lost on the way from s to t: in a system u a thread has taken a request whose
-- device is missing from the list, and its next step has taken the semaphore for good.
pub record IsLost {F : Type 0} (s t : System F) : Type 0 where
  pub at : System F
  pub thread : ℕ
  pub before : Reach s at
  pub free : at.world.linksem ≡ 1
  pub missing : IsMissing at.world (at.threads thread)
  pub behind : Reach (trapped at thread) t
  pub stuck : IsStuck thread at.world.devices t

module _ {F : Type 0} where
  abbrev Outcome : System F → System F → Type 0
  Outcome s t = (t.world.linksem ≡ 1) ⊎ IsLost s t

  lost :
      (s t u : System F) (i : ℕ)
      → Reach s u
      → u.world.linksem ≡ 1
      → IsMissing u.world (u.threads i)
      → Reach (trapped u i) t
      → IsLost s t
  lost s t u i before free (at, missing) behind = record {
    at = u;
    thread = i;
    before = before;
    free = free;
    missing = (at, missing);
    behind = behind;
    stuck = (check-IsStuck u t i end_of_file free at missing behind).1;
  }

  Step-free : {s t u : System F} → Reach s t → t.world.linksem ≡ 1 → Step t u → Outcome s u
  unfolding login_thread
  Step-free {s} {t} reach free (handler j r {v} {u} e) =
      elim (step-free t.world v (t.threads j) u r free (t.threads j).state refl e) [
        | inl kept ↦ inl kept
        | inr (missing, (taken, dropped)) ↦
            inr (lost s _ t j reach free missing (rw (taken, dropped) Reach.here))
      ]
  Step-free reach free (login e) = inl (ground arith)
  Step-free reach free (page q) = inl free
  Step-free reach free (cancel j) = inl free
  Step-free reach free (forget fd n e) = inl (ground arith)

  -- In every system that is reached from one in which the semaphore is free, it is free again between
  -- the steps, unless it has been lost in one way: a thread took a request while its device was missing
  -- from the list, and its next step took the semaphore for good, so that the system is stuck.
  pub Reach-IsLost :
      (s t : System F) → s.world.linksem ≡ 1 → Reach s t → (t.world.linksem ≡ 1) ⊎ IsLost s t
  Reach-IsLost s t free here = inl free
  Reach-IsLost s t free (next {t = u} r st) = elim (Reach-IsLost s u free r) [
    | inl still ↦ Step-free r still st
    | inr gone ↦ inr (
        lost s t gone.at gone.thread gone.before gone.free gone.missing (Reach.next gone.behind st))
  ]
