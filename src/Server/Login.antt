-- ===== src/Server/Login.antt =====
-- `login_thread` of src/server.c: it tells the login page whether a device is online.
use cloud_system.Base.{
  ℕ, ◌≡◌, refl, Bool, true, false, Option, none, some, List, [], ◌∷◌, ◌++◌, arith, if◌then◌else◌, ℤ,
  pos, minus_one, int_eq, is_neg, str_eq,
}
use cloud_system.Message.{Msg, with_flags, with_type}
use cloud_system.Message.Queue.{msgrcv, msgsnd, sent, take_type-first, NoType}
use cloud_system.Server.Link.Heap.{Entry}
use cloud_system.Server.Link.Find.{fd_of_id}
use cloud_system.Server.World.{World, AllOpen}

module _ {F : Type 0} where
  -- The answer to the request `m`.
  unfoldable pub verdict : List Entry → Msg F → Msg F
  verdict devices m =
      if int_eq (fd_of_id m.user.username devices) minus_one
      then with_type (pos 2) (with_flags 0 m)
      else with_type (pos 2) (with_flags 1 m)

  -- One round of the loop, `none` while no message of type 1 waits.
  unfoldable pub login_thread : World F → Option (World F)
  unfolding verdict
  login_thread w = elim (msgrcv (pos 1) w.queue) [
    | none ↦ none
    | some (m, rest) ↦ some (record w { queue = sent (verdict w.devices m) rest })
  ]

-- Whether a device of that name is in the list.
unfoldable pub is_online : List ℕ → List Entry → Bool
is_online name [] = false
is_online name (e ∷ es) = if str_eq e.id name then true else is_online name es

fd_of_id-eq-minus_one :
    (name : List ℕ) (es : List Entry)
    → AllOpen es
    → int_eq (fd_of_id name es) minus_one ≡ (if is_online name es then false else true)
unfolding is_online
fd_of_id-eq-minus_one name [] open_fds = refl
fd_of_id-eq-minus_one name (e ∷ es) open_fds =
    open_case e.fd open_fds.0 (fd_of_id-eq-minus_one name es open_fds.1)
  where
    open_case :
        (fd : ℤ)
        → is_neg fd ≡ false
        → int_eq (fd_of_id name es) minus_one ≡ (if is_online name es then false else true)
        → int_eq (if str_eq e.id name then fd else fd_of_id name es) minus_one
          ≡ (if (if str_eq e.id name then true else is_online name es) then false else true)
    open_case (pos n) sign ih = ground arith
    open_case (ℤ.negsuc n) sign ih = ground arith

module _ {F : Type 0} (w : World F) (before after : List (Msg F)) (m : Msg F) where
  -- When a login request waits, `login_thread` takes the first of them and appends one answer of
  -- type 2 about the same user, with flag 1 exactly when a device of that name is in the list; the
  -- other messages keep their order and the list of devices is as it was.
  pub login_thread_lem :
      w.queue ≡ before ++ m ∷ after
      → NoType 1 before
      → m.msgtype ≡ pos 1
      → AllOpen w.devices
      → login_thread w
        ≡ some (record w {
          queue =
              (before ++ after)
              ++ with_type
                  (pos 2)
                  (with_flags (if is_online m.user.username w.devices then 1 else 0) m)
                ∷ [];
        })
  unfolding login_thread verdict msgrcv msgsnd
  login_thread_lem e free type open_fds = rw e (
      ground (
        arith,
        take_type-first 1 before after m free type,
        fd_of_id-eq-minus_one m.user.username w.devices open_fds,
      ))
