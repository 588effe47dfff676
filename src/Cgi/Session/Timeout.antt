-- ===== src/Cgi/Session/Timeout.antt =====
-- What the alarm leaves in the queue.
use mathlib.Core.List.{append_assoc}
use cloud_system.Base.{ℕ, suc, ◌≡◌, List, [], ◌∷◌, ◌++◌, arith, pos, half-double}
use cloud_system.Message.{Msg}
use cloud_system.Message.Kind.{type_of}
use cloud_system.Message.Queue.{msgrcv, msgsnd, sent, take_type-first, take_type-none, NoType}
use cloud_system.Cgi.Session.{request, rettype, handler}

module _ {F : Type 0} (name : List ℕ) (n : ℕ) (m : Msg F) (before after : List (Msg F)) where
  -- When nothing of the device's type waited before the request, and the server has not taken it,
  -- the alarm takes the page's own request back, whatever has been put behind it, and leaves the
  -- other messages in their order.
  pub handler-own :
      type_of name ≡ pos (suc n)
      → NoType (suc n) before
      → handler (rettype name) (sent (request name m) before ++ after) ≡ before ++ after
  unfolding handler rettype request msgsnd msgrcv
  handler-own t free = ground (
    arith,
    half-double (type_of name),
    append_assoc before (record m { msgtype = type_of name } ∷ []) after,
    take_type-first (suc n) before after (record m { msgtype = type_of name }) free t,
  )

  -- When the server has taken the request, and no other of that type waits, the alarm changes
  -- nothing.
  pub handler-taken :
      type_of name ≡ pos (suc n) → NoType (suc n) before → handler (rettype name) before ≡ before
  unfolding handler rettype msgrcv
  handler-taken t free =
      ground (arith, half-double (type_of name), take_type-none (suc n) before free)
