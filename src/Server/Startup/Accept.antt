-- ===== src/Server/Startup/Accept.antt =====
-- The variable `accept_fd` of `main` in src/server.c: each handler thread is given its address, and
-- reads it when the thread begins, while the loop accepts the next device.
use mathlib.Core.List.{append_assoc, append-nil, Memᴰ}
use mathlib.Core.List.Memᴰ
use cloud_system.Base.{
  ℕ, zero, suc, ◌≡◌, refl, ap, ◌∙◌, Option, none, some, List, [], ◌∷◌, ◌++◌, arith, ℤ, pos, inl,
  ◌↔◌, sym, inr, subst,
}

-- The variable, the threads that `pthread_create` has made and that have not begun, and the sockets that
-- those that have begun serve, oldest first.
pub record Acceptor : Type 0 where
  pub accept_fd : ℤ
  pub pending : ℕ
  pub served : List ℤ

-- `accept` gives a socket and a thread is made for it, where neither fails; or a thread begins,
-- `accept_fd = *(int *)argv`.
pub data Turn : Type 0 where
  accepted : ℤ → Turn
  begins : Turn

-- `none`: there is no thread to begin.
unfoldable pub turn : Turn → Acceptor → Option Acceptor
turn (accepted fd) a = some (record a { accept_fd = fd; pending = suc a.pending })
turn begins a = elim (a.pending) [
  | zero ↦ none
  | suc n ↦ some (record a { pending = n; served = a.served ++ a.accept_fd ∷ [] })
]

unfoldable pub turns : List Turn → Acceptor → Option Acceptor
unfolding turn
turns [] a = some a
turns (t ∷ ts) a = elim (turn t a) [ none ↦ none | some b ↦ turns ts b ]

-- Each thread begins before the next device is accepted.
abbrev pub one_by_one : List ℤ → List Turn
one_by_one [] = []
one_by_one (fd ∷ fds) = accepted fd ∷ begins ∷ one_by_one fds

-- The sockets that are accepted, oldest first.
abbrev pub sockets : List Turn → List ℤ
sockets [] = []
sockets (accepted fd ∷ ts) = fd ∷ sockets ts
sockets (begins ∷ ts) = sockets ts

abbrev pub AllDistinct : List ℤ → Type 0
AllDistinct [] = Unit
AllDistinct (fd ∷ fds) = (¬ Memᴰ fd fds) × AllDistinct fds

-- Every device has a thread that serves it.
abbrev pub AllServed : List ℤ → List ℤ → Type 0
AllServed fds served = (fd : ℤ) → Memᴰ fd fds → Memᴰ fd served

-- The sockets that the threads serve which begin, `fd` being the one that was accepted before.
abbrev served_after : ℤ → List Turn → List ℤ
served_after fd [] = []
served_after fd (accepted x ∷ ts) = served_after x ts
served_after fd (begins ∷ ts) = fd ∷ served_after fd ts

turns-served :
    (ts : List Turn) (fd : ℤ) (n : ℕ) (s : List ℤ) (b : Acceptor)
    → turns ts (record { accept_fd = fd; pending = n; served = s }) ≡ some b
    → b.served ≡ s ++ served_after fd ts
unfolding turns turn
turns-served [] fd n s b e = ground (arith, append-nil s)
turns-served (accepted x ∷ ts) fd n s b e = turns-served ts x (suc n) s b e
turns-served (begins ∷ ts) fd zero s b e = absurd (ground arith)
turns-served (begins ∷ ts) fd (suc n) s b e =
    turns-served ts fd n (s ++ fd ∷ []) b e ∙ append_assoc s (fd ∷ []) (served_after fd ts)

from_sockets : (fd y : ℤ) (ts : List Turn) → Memᴰ y (served_after fd ts) → Memᴰ y (fd ∷ sockets ts)
from_sockets fd y [] m = elim m [ ]
from_sockets fd y (accepted x ∷ ts) m = Memᴰ.tail (from_sockets x y ts m)
from_sockets fd y (begins ∷ ts) (Memᴰ.head e) = Memᴰ.head e
from_sockets fd y (begins ∷ ts) (Memᴰ.tail m) = from_sockets fd y ts m

abbrev pub after_begin : ℤ → List ℤ → Acceptor
after_begin fd s = record { accept_fd = fd; pending = 0; served = s }

served-one_by_one :
    (ts : List Turn) (x : ℤ) (s : List ℤ) (b : Acceptor)
    → turns ts (after_begin x s) ≡ some b
    → b.pending ≡ 0
    → AllDistinct (sockets ts)
    → AllServed (sockets ts) (served_after x ts)
    → ts ≡ one_by_one (sockets ts)
unfolding turns turn
served-one_by_one [] x s b e done distinct all = refl
served-one_by_one (begins ∷ ts) x s b e done distinct all = absurd (ground arith)
served-one_by_one (accepted fd ∷ []) x s b e done distinct all = absurd (ground arith)
served-one_by_one (accepted fd ∷ begins ∷ ts) x s b e done (new, distinct) all =
    ap (λ (l : List Turn). accepted fd ∷ begins ∷ l)
      (served-one_by_one ts fd (s ++ fd ∷ []) b e done distinct (λ y m.
        elim (Memᴰ.cases_cons (all y (Memᴰ.tail m))) [
          | inl same ↦ absurd (new (Memᴰ.cast (sym same) m))
          | inr later ↦ later
        ]))
served-one_by_one (accepted fd ∷ accepted fd' ∷ ts) x s b e done (new, distinct) all =
    absurd (new (from_sockets fd' fd ts (all fd (Memᴰ.head refl))))

served_after-one_by_one : (x : ℤ) (fds : List ℤ) → served_after x (one_by_one fds) ≡ fds
served_after-one_by_one x [] = refl
served_after-one_by_one x (fd ∷ fds) = ap (λ (l : List ℤ). fd ∷ l) (served_after-one_by_one fd fds)

-- From the start of the server, where no thread has begun: for any order of connections and of threads
-- that begin, after which every thread has begun, and with sockets that all differ, every device has a
-- thread that serves it exactly when each thread begins before the next device is accepted; and then
-- the threads serve the devices in the order in which they have connected.
pub turns-AllServed :
    (ts : List Turn) (b : Acceptor)
    → turns ts (after_begin (pos 0) []) ≡ some b
    → b.pending ≡ 0
    → AllDistinct (sockets ts)
    → (AllServed (sockets ts) b.served ↔ (ts ≡ one_by_one (sockets ts)))
      × (ts ≡ one_by_one (sockets ts) → b.served ≡ sockets ts)
turns-AllServed ts b e done distinct = ((there, back), in_order)
  where
    is : b.served ≡ served_after (pos 0) ts
    is = turns-served ts (pos 0) 0 [] b e

    in_order : ts ≡ one_by_one (sockets ts) → b.served ≡ sockets ts
    in_order one =
        is
        ∙ ap (λ (l : List Turn). served_after (pos 0) l) one
        ∙ served_after-one_by_one (pos 0) (sockets ts)

    there : AllServed (sockets ts) b.served → ts ≡ one_by_one (sockets ts)
    there all =
        served-one_by_one ts (pos 0) [] b e done distinct
          (subst (λ (l : List ℤ). AllServed (sockets ts) l) is all)

    back : ts ≡ one_by_one (sockets ts) → AllServed (sockets ts) b.served
    back one = subst (λ (l : List ℤ). AllServed (sockets ts) l) (sym (in_order one)) (λ fd m. m)
