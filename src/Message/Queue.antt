-- ===== src/Message/Queue.antt =====
-- `msgsnd` and `msgrcv` on a queue, oldest message first, as POSIX describes them. A queue that is
-- full is not modelled.
use cloud_system.Base.{
  ℕ, zero, suc, ◌≡◌, refl, Bool, true, false, Option, none, some, List, [], ◌∷◌, ◌++◌, arith, ◌==◌,
  leb, ltb, if◌then◌else◌, ℤ, pos, negsuc, int_eq,
}
use cloud_system.Message.{Msg}

unfoldable lower : ℕ → ℤ → ℕ → ℕ
lower t (negsuc n) best = best
lower t (pos n) best =
    if leb n t then (if best == 0 then n else if ltb n best then n else best) else best

abbrev pub is_positive : ℤ → Bool
is_positive (pos zero) = false
is_positive (pos (suc t)) = true
is_positive (negsuc t) = false

module _ {F : Type 0} where
  -- The first message of the type, and the others in their order.
  unfoldable pub take_type : ℕ → List (Msg F) → Option (Msg F × List (Msg F))
  take_type t [] = none
  take_type t (m ∷ q) =
      if int_eq m.msgtype (pos t)
      then some (m, q)
      else elim (take_type t q) [ none ↦ none | some (n, rest) ↦ some (n, m ∷ rest) ]

  -- The lowest type that is waiting and at most `t`, where 0 stands for none.
  unfoldable pub lowest : ℕ → List (Msg F) → ℕ
  unfolding lower
  lowest t [] = 0
  lowest t (m ∷ q) = lower t m.msgtype (lowest t q)

  -- `msgrcv(msgid, &m, size, t, flag)`: `none` when no such message waits, where the call blocks
  -- or, with `IPC_NOWAIT`, returns -1 and leaves `m` alone.
  unfoldable pub msgrcv : ℤ → List (Msg F) → Option (Msg F × List (Msg F))
  msgrcv (pos zero) [] = none
  msgrcv (pos zero) (m ∷ q) = some (m, q)
  msgrcv (pos (suc t)) q = take_type (suc t) q
  msgrcv (negsuc t) q = let best = lowest (suc t) q in if best == 0 then none else take_type best q

  -- `msgsnd`, which refuses a type below 1.
  unfoldable pub msgsnd : Msg F → List (Msg F) → Option (List (Msg F))
  msgsnd m q = if is_positive m.msgtype then some (q ++ m ∷ []) else none

  -- The queue after `msgsnd`, whose result most callers ignore.
  abbrev pub sent : Msg F → List (Msg F) → List (Msg F)
  sent m q = elim (msgsnd m q) [ none ↦ q | some r ↦ r ]

  -- No message of that type waits.
  abbrev pub NoType : ℕ → List (Msg F) → Type 0
  NoType t [] = Unit
  NoType t (m ∷ q) = (int_eq m.msgtype (pos t) ≡ false) × NoType t q

  -- A queue that holds a message of the type, behind others of other types, gives that message and
  -- keeps the others in order.
  pub take_type-first :
      (t : ℕ) (before after : List (Msg F)) (m : Msg F)
      → NoType t before
      → m.msgtype ≡ pos t
      → take_type t (before ++ m ∷ after) ≡ some (m, before ++ after)
  unfolding take_type
  take_type-first t [] after m free e = rw e (ground arith)
  take_type-first t (n ∷ before) after m free e =
      ground (arith, take_type-first t before after m free.1 e)

  pub take_type-none : (t : ℕ) (q : List (Msg F)) → NoType t q → take_type t q ≡ none
  unfolding take_type
  take_type-none t [] free = refl
  take_type-none t (n ∷ q) free = ground (arith, take_type-none t q free.1)

  pub NoType-append :
      (t : ℕ) (q : List (Msg F)) (m : Msg F)
      → NoType t q
      → int_eq m.msgtype (pos t) ≡ false
      → NoType t (q ++ m ∷ [])
  NoType-append t [] m free other = (other, tt)
  NoType-append t (x ∷ q) m free other = (free.0, NoType-append t q m free.1 other)
