-- ===== src/Cgi/Login/Turn.antt =====
-- When the alarm of the login page ends, and when it never does.
use mathlib.Core.List.{append_assoc, append-nil}
use cloud_system.Base.{
  ℕ, zero, suc, ◌<◌, ◌≡◌, refl, ap, ◌∙◌, false, none, some, List, [], ◌∷◌, ◌++◌, arith, length,
  str_eq, str_eq_refl, pos,
}
use cloud_system.Message.{Msg}
use cloud_system.Message.Queue.{msgrcv, msgsnd, take_type-first}
use cloud_system.Cgi.Login.{handler}

module _ {F : Type 0} (username : List ℕ) where
  -- Login requests about other users.
  abbrev pub AllOthers : List (Msg F) → Type 0
  AllOthers [] = Unit
  AllOthers (m ∷ ms) =
      (m.msgtype ≡ pos 1) × (str_eq username m.user.username ≡ false) × AllOthers ms

  AllOthers-append :
      (ms : List (Msg F)) (m : Msg F)
      → AllOthers ms
      → m.msgtype ≡ pos 1
      → str_eq username m.user.username ≡ false
      → AllOthers (ms ++ m ∷ [])
  AllOthers-append [] m all t other = (t, other, tt)
  AllOthers-append (x ∷ ms) m all t other = (all.0, all.1, AllOthers-append ms m all.2 t other)

  -- A request about another user goes to the end of the queue.
  handler-turn :
      (k : ℕ) (msg m : Msg F) (rest : List (Msg F))
      → m.msgtype ≡ pos 1
      → str_eq username m.user.username ≡ false
      → handler (suc k) username msg (m ∷ rest) ≡ handler k username m (rest ++ m ∷ [])
  unfolding handler msgrcv msgsnd
  handler-turn k msg m rest t other = ground (arith, take_type-first 1 [] rest m tt t)

  -- When the page's own request `m` waits behind login requests about other users, the alarm ends
  -- within as many rounds as there are such requests, and one more: it takes `m` out, and leaves the
  -- others in their order behind what came after `m`.
  pub handler-ends :
      (k : ℕ) (msg m : Msg F) (before after : List (Msg F))
      → length before < k
      → AllOthers before
      → m.msgtype ≡ pos 1
      → m.user.username ≡ username
      → handler k username msg (before ++ m ∷ after) ≡ some (after ++ before)
  unfolding handler msgrcv
  handler-ends zero msg m before after fuel all t own = absurd (omega arith)
  handler-ends (suc k) msg m [] after fuel all t own =
      ground (arith, take_type-first 1 [] after m tt t, str_eq_refl username, append-nil after)
  handler-ends (suc k) msg m (x ∷ before) after fuel all t own =
      handler-turn k msg x (before ++ m ∷ after) all.0 all.1
      ∙ ap (handler k username x) (append_assoc before (m ∷ after) (x ∷ []))
      ∙ handler-ends k x m before (after ++ x ∷ []) (omega arith) all.2 t own
      ∙ ap some (append_assoc after (x ∷ []) before)

  -- When only login requests about other users wait, because the server has taken the page's own, the
  -- alarm does not end by itself, however many rounds it is given.
  pub handler-spins :
      (k : ℕ) (msg m : Msg F) (others : List (Msg F))
      → AllOthers (m ∷ others)
      → handler k username msg (m ∷ others) ≡ none
  unfolding handler
  handler-spins zero msg m others all = refl
  handler-spins (suc k) msg m [] all =
      handler-turn k msg m [] all.0 all.1 ∙ handler-spins k m m [] all
  handler-spins (suc k) msg m (x ∷ others) all =
      handler-turn k msg m (x ∷ others) all.0 all.1
      ∙ handler-spins k m x (others ++ m ∷ [])
          (all.2.0, all.2.1, AllOthers-append others m all.2.2 all.0 all.1)
