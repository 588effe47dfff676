-- ===== src/Server/Handler/Trap.antt =====
-- The branch of `handl_thread` that waits for the semaphore while it holds it.
use cloud_system.Base.{
  ℕ, suc, ◌≡◌, ◌⊎◌, refl, sym, subst, ◌∙◌, inl, inr, false, some, List, arith, Bool-cases, ◌==◌,
  ==_iff, ==_refl, ℤ, if◌then◌else◌,
}
use cloud_system.Message.{Msg}
use cloud_system.Server.Link.Heap.{Entry}
use cloud_system.Server.Link.Find.{holds_fd}
use cloud_system.Server.World.{World, Received, delete}
use cloud_system.Server.Login.{login_thread}
use cloud_system.Server.Handler.{State, Thread, login as answer_login, step, handl_thread}

-- The handler threads by number, over what they share.
pub record System (F : Type 0) : Type 0 where
  pub world : World F
  pub threads : ℕ → Thread F

abbrev pub update {ℓ} : {A : Type ℓ} → (ℕ → A) → ℕ → A → ℕ → A
update f i a j = if i == j then a else f j

-- A step of a handler, of `login_thread`, of a page that puts messages into the queue or takes
-- them out, or of `insprct_thread`, which cancels a thread and, with the semaphore, deletes from
-- the list. The calls that block the handlers are points where they can be cancelled.
pub data Step {F : Type 0} (s : System F) : System F → Type 0 where
  handler :
      (i : ℕ) (r : Received F) {v : World F} {u : Thread F}
      → handl_thread s.world (s.threads i) r ≡ some (v, u)
      → Step s (record { world = v; threads = update s.threads i u })
  login : {v : World F} → login_thread s.world ≡ some v → Step s (record s { world = v })
  page : (q : List (Msg F)) → Step s (record s { world = record (s.world) { queue = q } })
  cancel :
      (i : ℕ)
      → Step s
          (record s { threads = update s.threads i (record (s.threads i) { state = State.ended }) })
  forget :
      (fd : ℤ) (n : ℕ) → s.world.linksem ≡ suc n → Step s (record s { world = delete fd s.world })

pub data Reach {F : Type 0} (s : System F) : System F → Type 0 where
  here : Reach s s
  next : {t u : System F} → Reach s t → Step t u → Reach s u

-- The semaphore is taken for good: thread `i`, which took it, waits for it again or is no more.
pub record IsStuck {F : Type 0} (i : ℕ) (devices : List Entry) (s : System F) : Type 0 where
  pub taken : s.world.linksem ≡ 0
  pub at : ((s.threads i).state ≡ State.dropping) ⊎ ((s.threads i).state ≡ State.ended)
  pub frozen : s.world.devices ≡ devices

module _ {F : Type 0} (w v : World F) (t u : Thread F) (r : Received F) (z : w.linksem ≡ 0) where
  abbrev Kept : Type 0
  Kept = (v.linksem ≡ 0) × (v.devices ≡ w.devices)

  -- With the semaphore taken, no step gives it back or changes the list.
  step_taken : (x : State) → step x w t r ≡ some (v, u) → Kept
  unfolding step answer_login
  step_taken State.logging_in e = ground arith
  step_taken State.joining e = ground arith
  step_taken State.waiting e = ground arith
  step_taken State.checking e = ground arith
  step_taken State.dropping e = ground arith
  step_taken State.answering e = ground arith
  step_taken State.leaving e = ground arith
  step_taken State.ended e = ground arith

  step_blocked :
      (x : State) → (x ≡ State.dropping) ⊎ (x ≡ State.ended) → step x w t r ≡ some (v, u) → ⊥
  unfolding step
  step_blocked x at e = ground arith

module _ {F : Type 0} {devices : List Entry} {i : ℕ} where
  Step-IsStuck : {s t : System F} → Step s t → IsStuck i devices s → IsStuck i devices t
  unfolding login_thread
  Step-IsStuck {s} (handler j r {v} {u} e) k =
      let (z, d) = step_taken s.world v (s.threads j) u r k.taken (s.threads j).state e in
      record {
        taken = z;
        at = elim (Bool-cases (j == i)) [
          | inl same ↦ absurd (
              step_blocked s.world v (s.threads j) u r k.taken (s.threads j).state
                (subst
                  (λ n.
                    ((s.threads n).state ≡ State.dropping) ⊎ ((s.threads n).state ≡ State.ended))
                  (sym ((==_iff j i).0 same)) k.at)
                e)
          | inr other ↦ rw other k.at
        ];
        frozen = d ∙ k.frozen;
      }
  Step-IsStuck (login e) k = record { taken = ground arith; at = k.at; frozen = ground arith }
  Step-IsStuck (page q) k = record { taken = k.taken; at = k.at; frozen = k.frozen }
  Step-IsStuck (cancel j) k = record { taken = k.taken; at = ground arith; frozen = k.frozen }
  Step-IsStuck (forget fd n free) k = absurd (ground arith)

  Reach-IsStuck : {s t : System F} → Reach s t → IsStuck i devices s → IsStuck i devices t
  Reach-IsStuck here k = k
  Reach-IsStuck (next r st) k = Step-IsStuck st (Reach-IsStuck r k)

-- Thread `i` has taken the semaphore and waits for it again, to delete its device.
abbrev pub trapped : {F : Type 0} → System F → ℕ → System F
trapped s i = record {
  world = record (s.world) { linksem = 0 };
  threads = update s.threads i (record (s.threads i) { state = State.dropping });
}

module _ {F : Type 0} (s t : System F) (i : ℕ) (r : Received F) where
  -- When the semaphore is free and a thread that has taken a request finds its device no longer in
  -- the list, the thread's next step leads to `trapped s i`; in every system that is reached from
  -- there the semaphore is taken and the list of devices is as it was: no device is logged in or
  -- dropped any more.
  pub check-IsStuck :
      s.world.linksem ≡ 1
      → (s.threads i).state ≡ State.checking
      → holds_fd (s.threads i).accept_fd s.world.devices ≡ false
      → Reach (trapped s i) t
      → (handl_thread s.world (s.threads i) r
          ≡ some ((trapped s i).world, record (s.threads i) { state = State.dropping }))
        × IsStuck i s.world.devices t
  unfolding step
  check-IsStuck free at missing reach = (
    ground arith,
    Reach-IsStuck reach (record { taken = refl; at = inl (rw (==_refl i)); frozen = refl }),
  )
