-- ===== src/Server/Inspect/Keep.antt =====
-- What rounds of `insprct_thread` leave of the list, when each socket gives one thing within a round and
-- the semaphore is given back each time.
use mathlib.Core.List.{append-nil}
use cloud_system.Base.{
  ℕ, zero, suc, ◌+◌, ◌*◌, ◌<◌, ◌≡◌, refl, sym, ap, ◌∙◌, inl, inr, Bool, true, false, List, [], ◌∷◌,
  ◌++◌, arith, map, Bool-cases, length, ℤ, int_eq, int_eq_iff, is_neg,
}
use cloud_system.Server.Link.Heap.{Entry}
use cloud_system.Server.Link.Delete.{erase_entry}
use cloud_system.Server.World.{AllOpen}
use cloud_system.Server.Inspect.{
  Heard, answers, gone, silent, Progress, ended, hangs, ran_out, Scan, ask, drop, show_loop,
  show_list, insprct_thread, rounds,
}
use cloud_system.Server.Inspect.Walk.{Heard-cases, dropped, move_on, shorter}

module _ (ok : ℤ → Heard) where
  abbrev behind : Entry → Progress (List Entry) → Progress (List Entry)
  behind e (ended es) = ended (e ∷ es)
  behind e (hangs es) = hangs (e ∷ es)
  behind e ran_out = ran_out

  -- One pass over the list: a device that answers stays, one that has hung up goes, and at one that does
  -- neither the pass waits for good, with the devices behind it as they were.
  unfoldable pub sift : List Entry → Progress (List Entry)
  sift [] = ended []
  sift (e ∷ es) = elim (ok e.fd) [
    | answers ↦ behind e (sift es)
    | gone ↦ sift es
    | silent ↦ hangs (e ∷ es)
  ]

  abbrev AllAnswer : List Entry → Type 0
  AllAnswer [] = Unit
  AllAnswer (e ∷ es) = (ok e.fd ≡ answers) × AllAnswer es

  AllAnswer-snoc :
      (pre : List Entry) (e : Entry) → AllAnswer pre → ok e.fd ≡ answers → AllAnswer (pre ++ e ∷ [])
  AllAnswer-snoc [] e a h = (h, tt)
  AllAnswer-snoc (x ∷ pre) e a h = (a.0, AllAnswer-snoc pre e a.1 h)

  -- The first device with the descriptor of one that does not answer comes after those that do.
  erase_behind :
      (pre rest : List Entry) (e : Entry)
      → AllAnswer pre
      → ok e.fd ≡ gone
      → erase_entry e.fd (pre ++ e ∷ rest) ≡ pre ++ rest
  erase_behind [] rest e a h = ground (arith, int_eq_iff e.fd e.fd)
  erase_behind (x ∷ pre) rest e a h = elim (Bool-cases (int_eq x.fd e.fd)) [
    | inl same ↦ absurd (clash ((int_eq_iff x.fd e.fd).0 same))
    | inr other ↦ rw other (ap (◌∷◌ x) (erase_behind pre rest e a.1 h))
  ]
    where
      clash : x.fd ≡ e.fd → ⊥
      clash q = cc (ap ok q)

  sift_all : (pre : List Entry) → AllAnswer pre → sift (pre ++ []) ≡ ended pre
  unfolding sift
  sift_all [] a = refl
  sift_all (e ∷ pre) a = rw (a.0, sift_all pre a.1) refl

  sift-skip :
      (pre rest : List Entry) (e : Entry)
      → AllAnswer pre
      → ok e.fd ≡ gone
      → sift (pre ++ e ∷ rest) ≡ sift (pre ++ rest)
  unfolding sift
  sift-skip [] rest e a h = rw h refl
  sift-skip (x ∷ pre) rest e a h = rw a.0 (ap (behind x) (sift-skip pre rest e a.1 h))

  sift-stop :
      (pre rest : List Entry) (e : Entry)
      → AllAnswer pre
      → ok e.fd ≡ silent
      → sift (pre ++ e ∷ rest) ≡ hangs (pre ++ e ∷ rest)
  unfolding sift
  sift-stop [] rest e a h = rw h refl
  sift-stop (x ∷ pre) rest e a h = rw (a.0, sift-stop pre rest e a.1 h) refl

  -- The answers of a round by socket, and a semaphore that is always given.
  abbrev pub by_socket : (ℕ → Entry → Heard) × (ℕ → Bool)
  by_socket = (λ n e. ok e.fd, λ n. true)

  abbrev devices_of : Progress Scan → Progress (List Entry)
  devices_of (ended s) = ended s.devices
  devices_of (hangs s) = hangs s.devices
  devices_of ran_out = ran_out

  show_loop-sift :
      (k n : ℕ) (s : Scan) (pre rest : List Entry)
      → s.devices ≡ pre ++ rest
      → AllOpen s.devices
      → AllAnswer pre
      → length s.devices * length s.devices + length s.devices + length rest < k
      → devices_of (show_loop k by_socket.0 by_socket.1 n s rest) ≡ sift (pre ++ rest)
  unfolding show_loop
  show_loop-sift zero n s pre rest d o a fuel = absurd (omega arith)
  show_loop-sift (suc k) n s pre [] d o a fuel =
      ap ended (d ∙ append-nil pre) ∙ sym (sift_all pre a)
  show_loop-sift (suc k) n s pre (e ∷ rest) d o a fuel = elim (Heard-cases (ok e.fd)) [
    | inl here ↦ rw here (
        show_loop-sift k (n + 1) (ask e s) (pre ++ e ∷ []) rest (d ∙ move_on pre rest e) o
          (AllAnswer-snoc pre e a here) (omega arith)
        ∙ ap sift (sym (move_on pre rest e)))
    | inr (inr never) ↦ rw never (ap hangs d ∙ sym (sift-stop pre rest e a never))
    | inr (inl left) ↦
        let (d', o', len) = dropped s pre rest e d o in
        rw left (
          show_loop-sift k (n + 1) (drop e (ask e s)) [] (drop e (ask e s)).devices refl o' tt (
            shorter (length (drop e (ask e s)).devices) (length s.devices) (length rest) k len fuel)
          ∙ ap sift (d' ∙ erase_behind pre rest e a left)
          ∙ sym (sift-skip pre rest e a left))
  ]

  pub show_list-sift :
      (devices : List Entry)
      → AllOpen devices
      → devices_of (show_list (suc (rounds (length devices))) by_socket.0 by_socket.1 devices)
        ≡ sift devices
  unfolding show_list
  show_list-sift devices o = show_loop-sift _ 0 _ [] devices refl o tt (omega arith)

-- Round after round, until one waits for good.
unfoldable pub survive : List (ℤ → Heard) → List Entry → Progress (List Entry)
survive [] devices = ended devices
survive (ok ∷ later) devices = elim (sift ok devices) [
  | ended left ↦ survive later left
  | hangs left ↦ hangs left
  | ran_out ↦ ran_out
]

abbrev AreOpen : Progress (List Entry) → Type 0
AreOpen (ended es) = AllOpen es
AreOpen (hangs es) = Unit
AreOpen ran_out = Unit

sift-AreOpen : (ok : ℤ → Heard) (es : List Entry) → AllOpen es → AreOpen (sift ok es)
unfolding sift
sift-AreOpen ok [] o = tt
sift-AreOpen ok (e ∷ es) o = elim (Heard-cases (ok e.fd)) [
  | inl here ↦ rw (here, AreOpen) (kept e (sift ok es) o.0 (sift-AreOpen ok es o.1))
  | inr (inr never) ↦ rw (never, AreOpen) tt
  | inr (inl left) ↦ rw (left, AreOpen) (sift-AreOpen ok es o.1)
]
  where
    kept :
        (e : Entry) (p : Progress (List Entry))
        → is_neg e.fd ≡ false
        → AreOpen p
        → AreOpen (behind ok e p)
    kept e (ended es) open' o = (open', o)
    kept e (hangs es) open' o = tt
    kept e ran_out open' o = tt

abbrev carry : List (ℤ → Heard) → Progress (List Entry) → Progress (List Entry)
carry later (ended left) = insprct_thread (map by_socket later) left
carry later (hangs left) = hangs left
carry later ran_out = ran_out

abbrev survives : List (ℤ → Heard) → Progress (List Entry) → Progress (List Entry)
survives later (ended left) = survive later left
survives later (hangs left) = hangs left
survives later ran_out = ran_out

abbrev resume : (ok : ℤ → Heard) → List (ℤ → Heard) → Progress Scan → Progress (List Entry)
resume ok later (ended s) = insprct_thread (map by_socket later) s.devices
resume ok later (hangs s) = hangs s.devices
resume ok later ran_out = ran_out

resume-carry :
    (ok : ℤ → Heard) (later : List (ℤ → Heard)) (o : Progress Scan)
    → resume ok later o ≡ carry later (devices_of ok o)
resume-carry ok later (ended s) = refl
resume-carry ok later (hangs s) = refl
resume-carry ok later ran_out = refl

-- On a list of open sockets that no other thread changes, when within a round each socket answers, or
-- has hung up, or is silent, and the semaphore is always given back: the rounds of `insprct_thread` do
-- to the list what as many single passes do, although `show_list` starts over after each deletion. A
-- device that answers stays and one that has hung up is dropped; and at the first device that is
-- silent, the thread waits for good, with the devices behind it still in the list.
pub insprct_thread-survive :
    (later : List (ℤ → Heard)) (devices : List Entry)
    → AllOpen devices
    → insprct_thread (map by_socket later) devices ≡ survive later devices
unfolding insprct_thread survive
insprct_thread-survive [] devices o = refl
insprct_thread-survive (ok ∷ later) devices o =
    resume-carry ok later
      (show_list (suc (rounds (length devices))) (by_socket ok).0 (by_socket ok).1 devices)
    ∙ ap (carry later) (show_list-sift ok devices o)
    ∙ onward (λ left open'. insprct_thread-survive later left open') (sift ok devices)
        (sift-AreOpen ok devices o)
  where
    onward :
        ((left : List Entry)
          → AllOpen left
          → insprct_thread (map by_socket later) left ≡ survive later left)
        → (p : Progress (List Entry)) → AreOpen p
        → carry later p ≡ survives later p
    onward rest (ended left) open' = rest left open'
    onward rest (hangs left) open' = refl
    onward rest ran_out open' = refl
