-- ===== src/Server/Handler/Traffic.antt =====
-- Which messages a thread of src/server.c past its login takes out of the queue and puts into it.
use cloud_system.Base.{
  ℕ, zero, suc, ◌≡◌, ◌⊎◌, refl, sym, ap, inl, inr, false, Option, none, some, List, [], ◌∷◌, ◌++◌,
  arith, Bool-cases, pos, int_eq, int_eq_iff, is_neg, subst,
}
use cloud_system.Message.{Msg}
use cloud_system.Message.Queue.{msgrcv, msgsnd, take_type, NoType}
use cloud_system.Server.Link.Find.{holds_fd}
use cloud_system.Server.World.{World, Received, is_end, buffer}
use cloud_system.Server.Handler.{State, Thread, is_admin, login, step, await}

module _ {F : Type 0} where
  -- The first message of type 521 has been taken, and is in the thread's buffer.
  pub record IsTaken (w v : World F) (u : Thread F) : Type 0 where
    pub before : List (Msg F)
    pub after : List (Msg F)
    pub stood : w.queue ≡ before ++ u.buf ∷ after
    pub first : NoType 521 before
    pub type : u.buf.msgtype ≡ pos 521
    pub left : v.queue ≡ before ++ after

  -- One message has been put behind the others, under type 1042.
  pub record IsPut (w v : World F) : Type 0 where
    pub message : Msg F
    pub type : message.msgtype ≡ pos 1042
    pub behind : v.queue ≡ w.queue ++ message ∷ []

  -- What a step does to the queue, by the state in which it was made.
  abbrev pub Passed : State → World F → World F → Thread F → Type 0
  Passed State.waiting w v u = IsTaken w v u
  Passed State.answering w v u = (v.queue ≡ w.queue) ⊎ IsPut w v
  Passed State.dropping w v u = IsPut w v
  Passed State.logging_in w v u = v.queue ≡ w.queue
  Passed State.joining w v u = v.queue ≡ w.queue
  Passed State.checking w v u = v.queue ≡ w.queue
  Passed State.leaving w v u = v.queue ≡ w.queue
  Passed State.ended w v u = v.queue ≡ w.queue

  -- What the thread's next step does, if it is not blocked.
  abbrev pub Passes : State → World F → Option (World F × Thread F) → Type 0
  Passes x w none = Unit
  Passes x w (some (v, u)) = Passed x w v u

  abbrev Split : ℕ → List (Msg F) → Option (Msg F × List (Msg F)) → Type 0
  Split n q none = Unit
  Split n q (some (m, rest)) =
      (before after : List (Msg F)) × (q ≡ before ++ m ∷ after)
      × NoType n before
      × (m.msgtype ≡ pos n)
      × (rest ≡ before ++ after)

  abbrev behind : Msg F → Option (Msg F × List (Msg F)) → Option (Msg F × List (Msg F))
  behind x none = none
  behind x (some (m, rest)) = some (m, x ∷ rest)

  behind-Split :
      (n : ℕ) (x : Msg F) (q : List (Msg F)) (o : Option (Msg F × List (Msg F)))
      → int_eq x.msgtype (pos n) ≡ false
      → Split n q o
      → Split n (x ∷ q) (behind x o)
  behind-Split n x q none other split = tt
  behind-Split n x q (some (m, rest)) other (before, after, is, free, type, left) =
      (x ∷ before, after, ap (λ l. x ∷ l) is, (other, free), type, ap (λ l. x ∷ l) left)

  take_type-Split : (n : ℕ) (q : List (Msg F)) → Split n q (take_type n q)
  unfolding take_type
  take_type-Split n [] = tt
  take_type-Split n (x ∷ q) = elim (Bool-cases (int_eq x.msgtype (pos n))) [
    | inl same ↦ rw same ([], q, refl, tt, (int_eq_iff x.msgtype (pos n)).0 same, refl)
    | inr other ↦
        subst (Split n (x ∷ q)) (sym (passed x other))
          (behind-Split n x q (take_type n q) other (take_type-Split n q))
  ]
    where
      passed :
          (x : Msg F)
          → int_eq x.msgtype (pos n) ≡ false
          → take_type n (x ∷ q) ≡ behind x (take_type n q)
      passed x other = ground arith

  module _ (w : World F) (t : Thread F) (r : Received F) where
    abbrev took : Option (Msg F × List (Msg F)) → Option (World F × Thread F)
    took none = none
    took (some (m, rest)) =
        some (record w { queue = rest }, record t { state = State.checking; buf = m })

    awaits : t.recvmsgtype ≡ pos 521 → step State.waiting w t r ≡ took (take_type 521 w.queue)
    unfolding step await msgrcv
    awaits type = ap (λ y. took (msgrcv y w.queue)) type

    took-Passes :
        (o : Option (Msg F × List (Msg F))) → Split 521 w.queue o → Passes State.waiting w (took o)
    took-Passes none split = tt
    took-Passes (some (m, rest)) (before, after, stood, free, type, left) = record {
      before = before;
      after = after;
      stood = stood;
      first = free;
      type = type;
      left = left;
    }

    pub waiting-Passes : t.recvmsgtype ≡ pos 521 → Passes State.waiting w (step State.waiting w t r)
    waiting-Passes type =
        subst (Passes State.waiting w) (sym (awaits type))
          (took-Passes (take_type 521 w.queue) (take_type-Split 521 w.queue))

    pub answering-Passes :
        t.sendmsgtype ≡ pos 1042 → Passes State.answering w (step State.answering w t r)
    unfolding step msgsnd
    answering-Passes type = elim (Bool-cases (is_end r)) [
      | inl over ↦ rw over (inl refl)
      | inr more ↦ rw (more, type) (inr (record { message = _; type = refl; behind = refl }))
    ]

    pub dropping-Passes :
        t.sendmsgtype ≡ pos 1042 → Passes State.dropping w (step State.dropping w t r)
    unfolding step msgsnd
    dropping-Passes type = from w.linksem refl
      where
        from : (n : ℕ) → w.linksem ≡ n → Passes State.dropping w (step State.dropping w t r)
        from zero taken = rw taken tt
        from (suc n) free = elim (Bool-cases (is_neg t.accept_fd)) [
          | inl shut ↦ rw (free, type, shut) (record { message = _; type = refl; behind = refl })
          | inr open' ↦ rw (free, type, open') (record { message = _; type = refl; behind = refl })
        ]

    -- The other states leave the queue alone.
    pub logging_in-Passes : Passes State.logging_in w (step State.logging_in w t r)
    unfolding step login
    logging_in-Passes = elim (Bool-cases (is_end r)) [
      | inl over ↦ rw over refl
      | inr more ↦ elim (Bool-cases (is_admin (buffer t.buf r))) [
        | inl right ↦ rw (more, right) refl
        | inr wrong ↦ rw (more, wrong) refl
      ]
    ]

    pub joining-Passes : Passes State.joining w (step State.joining w t r)
    unfolding step
    joining-Passes = from w.linksem refl
      where
        from : (n : ℕ) → w.linksem ≡ n → Passes State.joining w (step State.joining w t r)
        from zero taken = rw taken tt
        from (suc n) free = rw free refl

    pub checking-Passes : Passes State.checking w (step State.checking w t r)
    unfolding step
    checking-Passes = from w.linksem refl
      where
        from : (n : ℕ) → w.linksem ≡ n → Passes State.checking w (step State.checking w t r)
        from zero taken = rw taken tt
        from (suc n) free = elim (Bool-cases (holds_fd t.accept_fd w.devices)) [
          | inl held ↦ rw (free, held) refl
          | inr missing ↦ rw (free, missing) refl
        ]

    pub leaving-Passes : Passes State.leaving w (step State.leaving w t r)
    unfolding step
    leaving-Passes = from w.linksem refl
      where
        from : (n : ℕ) → w.linksem ≡ n → Passes State.leaving w (step State.leaving w t r)
        from zero taken = rw taken tt
        from (suc n) free = elim (Bool-cases (is_neg t.accept_fd)) [
          | inl shut ↦ rw (free, shut) refl
          | inr open' ↦ rw (free, open') refl
        ]
