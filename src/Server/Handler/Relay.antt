-- ===== src/Server/Handler/Relay.antt =====
-- What one handler thread does for the web pages: logins, and a request with its answer.
use cloud_system.Base.{
  ℕ, suc, ◌≡◌, ◌↔◌, ◌⊎◌, refl, ap, ◌∙◌, inl, inr, true, false, some, List, [], ◌∷◌, ◌++◌, arith,
  Bool-cases, str_eq→eq, pos, double,
}
use cloud_system.Message.{Msg, with_flags, with_type}
use cloud_system.Message.Kind.{type_of, type_of_admin, double_admin}
use cloud_system.Message.Queue.{msgrcv, msgsnd, take_type-first, NoType}
use cloud_system.Server.Link.Find.{holds_fd}
use cloud_system.Server.World.{World, end_of_file, got, send, close}
use cloud_system.Server.Handler.{State, Thread, id, ps, is_admin, login, first_recv, step, steps}

module _ {F : Type 0} where
  -- The user name and the password of the message are those of the code.
  abbrev IsAdmin : Msg F → Type 0
  IsAdmin m = (m.user.username ≡ id) × (m.user.password ≡ ps)

  pub is_admin_iff : (m : Msg F) → (is_admin m ≡ true) ↔ IsAdmin m
  is_admin_iff m = (there, back)
    where
      there : is_admin m ≡ true → IsAdmin m
      there h =
          (str_eq→eq m.user.username id (ground arith), str_eq→eq m.user.password ps (ground arith))

      back : IsAdmin m → is_admin m ≡ true
      back (u, p) = rw (u, p)

  -- A login is let in exactly when its name is "admin" and its password is "123456"; then the
  -- device is answered with flag 1, and the thread will take messages of type 521 and send those of
  -- type 1042. Otherwise the device is answered with flag 0, its socket is closed, and the thread
  -- ends.
  first_recv-login :
      (w : World F) (t : Thread F) (m : Msg F)
      → let (v, u) = first_recv w t (got m) in
        (IsAdmin m
          × (v ≡ send t.accept_fd (with_flags 1 m) w)
          × (u.state ≡ State.joining)
          × (u.recvmsgtype ≡ pos 521)
          × (u.sendmsgtype ≡ pos 1042))
        ⊎ ((¬ IsAdmin m)
            × (v ≡ close t.accept_fd (send t.accept_fd (with_flags 0 m) w))
            × (u.state ≡ State.ended))
  unfolding first_recv login
  first_recv-login w t m = elim (Bool-cases (is_admin m)) [
    | inl right ↦ rw right (
        inl
          ((is_admin_iff m).0 right, refl, refl, type right, ap double (type right) ∙ double_admin))
    | inr wrong ↦ rw wrong (inr (λ a. refuted a wrong, refl, refl))
  ]
    where
      type : is_admin m ≡ true → type_of m.user.username ≡ pos 521
      type right = ap type_of ((is_admin_iff m).0 right).0 ∙ type_of_admin

      refuted : IsAdmin m → is_admin m ≡ false → ⊥
      refuted a wrong = cc ((is_admin_iff m).1 a)

module _ {F : Type 0} (w : World F) (t : Thread F) (before after : List (Msg F)) (m a : Msg F)
    (n k j : ℕ) where
  -- A thread that waits for type `k + 1`, with its device in the list and the semaphore free, takes
  -- the first such message `m` from the queue, sends it to its device, and puts the device's answer
  -- at the end of the queue under its own type; the other messages keep their order, the list and
  -- the semaphore are as they were, and the thread waits again.
  pub steps-relay :
      t.state ≡ State.waiting
      → t.recvmsgtype ≡ pos (suc k)
      → t.sendmsgtype ≡ pos (suc j)
      → w.queue ≡ before ++ m ∷ after
      → NoType (suc k) before
      → m.msgtype ≡ pos (suc k)
      → w.linksem ≡ suc n
      → holds_fd t.accept_fd w.devices ≡ true
      → steps w t (end_of_file ∷ end_of_file ∷ got a ∷ [])
        ≡ some (
          record w {
            queue = (before ++ after) ++ with_type (pos (suc j)) a ∷ [];
            outbox = w.outbox ++ (t.accept_fd, m) ∷ [];
          },
          record t { state = State.waiting; buf = with_type (pos (suc j)) a },
        )
  unfolding steps step msgrcv msgsnd
  steps-relay s kt jt e free type sem listed =
      ground (arith, take_type-first (suc k) before after m free type)
