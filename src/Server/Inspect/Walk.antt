-- ===== src/Server/Inspect/Walk.antt =====
-- The walk of `show_list` ends, or waits for good in one of its calls.
use mathlib.Core.List.{append_assoc}
use cloud_system.Base.{
  ◌⊎◌, ℕ, zero, suc, ◌+◌, ◌*◌, ◌<◌, ◌≡◌, refl, sym, ap, ◌∙◌, subst, inl, inr, Bool, false, List, [],
  ◌∷◌, ◌++◌, arith, Bool-cases, length, ℤ, is_neg, int_eq_iff,
}
use cloud_system.Server.Link.Heap.{Entry}
use cloud_system.Server.Link.Delete.{erase_entry}
use cloud_system.Server.World.{AllOpen}
use cloud_system.Server.Inspect.{
  Heard, answers, gone, silent, Progress, ended, hangs, ran_out, Scan, ask, drop, show_loop,
  show_list, rounds,
}

length-erase_entry :
    (fd : ℤ) (pre rest : List Entry) (e : Entry)
    → e.fd ≡ fd
    → length (erase_entry fd (pre ++ e ∷ rest)) + 1 ≡ length (pre ++ e ∷ rest)
length-erase_entry fd [] rest e h = ground (arith, int_eq_iff e.fd fd)
length-erase_entry fd (x ∷ pre) rest e h = ground (arith, length-erase_entry fd pre rest e h)

erase_entry-AllOpen : (fd : ℤ) (es : List Entry) → AllOpen es → AllOpen (erase_entry fd es)
erase_entry-AllOpen fd [] o = tt
erase_entry-AllOpen fd (e ∷ es) o = ground (arith, erase_entry-AllOpen fd es o.1)

AllOpen-last : (pre rest : List Entry) (e : Entry) → AllOpen (pre ++ e ∷ rest) → is_neg e.fd ≡ false
AllOpen-last [] rest e o = o.0
AllOpen-last (x ∷ pre) rest e o = AllOpen-last pre rest e o.1

pub move_on : (pre rest : List Entry) (e : Entry) → pre ++ e ∷ rest ≡ (pre ++ e ∷ []) ++ rest
move_on pre rest e = sym (append_assoc pre (e ∷ []) rest)

-- What a deletion leaves, when the device stood in the list.
pub dropped :
    (s : Scan) (pre rest : List Entry) (e : Entry)
    → s.devices ≡ pre ++ e ∷ rest
    → AllOpen s.devices
    → ((drop e (ask e s)).devices ≡ erase_entry e.fd (pre ++ e ∷ rest))
      × AllOpen (drop e (ask e s)).devices
      × (length (drop e (ask e s)).devices + 1 ≡ length s.devices)
dropped s pre rest e d o =
    let sign = AllOpen-last pre rest e (subst AllOpen d o) in
    (
      rw sign (ap (erase_entry e.fd) d),
      rw sign (erase_entry-AllOpen e.fd s.devices o),
      rw (sign, d) (length-erase_entry e.fd pre rest e refl),
    )

-- Fewer rounds are left when a device has been dropped.
pub shorter : (m l r k : ℕ) → m + 1 ≡ l → l * l + l + suc r < suc k → m * m + m + m < k
shorter m l r k h f = grind arith

pub Heard-cases : (h : Heard) → (h ≡ answers) ⊎ ((h ≡ gone) ⊎ (h ≡ silent))
Heard-cases answers = inl refl
Heard-cases gone = inr (inl refl)
Heard-cases silent = inr (inr refl)

module _ (hears : ℕ → Entry → Heard) (given : ℕ → Bool) where
  -- In round `n` the device `e` was asked last, and its `recv` does not return, or it was found to have
  -- hung up and the `sem_wait` behind that does not return.
  pub record IsBlocked (t : Scan) : Type 0 where
    pub n : ℕ
    pub e : Entry
    pub before : List ℤ
    pub last : t.asked ≡ before ++ e.fd ∷ []
    pub call : (hears n e ≡ silent) ⊎ ((hears n e ≡ gone) × (given n ≡ false))

  abbrev pub Comes : Progress Scan → Type 0
  Comes (ended t) = Unit
  Comes (hangs t) = IsBlocked t
  Comes ran_out = ⊥

  show_loop-Comes :
      (k n : ℕ) (s : Scan) (pre rest : List Entry)
      → s.devices ≡ pre ++ rest
      → AllOpen s.devices
      → length s.devices * length s.devices + length s.devices + length rest < k
      → Comes (show_loop k hears given n s rest)
  unfolding show_loop
  show_loop-Comes zero n s pre rest d o fuel = absurd (omega arith)
  show_loop-Comes (suc k) n s pre [] d o fuel = tt
  show_loop-Comes (suc k) n s pre (e ∷ rest) d o fuel = elim (Heard-cases (hears n e)) [
    | inl here ↦
        rw (here, Comes)
          (show_loop-Comes k (n + 1) (ask e s) (pre ++ e ∷ []) rest (d ∙ move_on pre rest e) o
            (omega arith))
    | inr (inr never) ↦
        rw (never, Comes) (record { n = n; e = e; before = s.asked; last = refl; call = inl never })
    | inr (inl left) ↦ elim (Bool-cases (given n)) [
      | inr taken ↦
          rw (left, taken, Comes)
            (record { n = n; e = e; before = s.asked; last = refl; call = inr (left, taken) })
      | inl free ↦
          let (_, o', len) = dropped s pre rest e d o in
          rw (left, free, Comes)
            (show_loop-Comes k (n + 1) (drop e (ask e s)) [] (drop e (ask e s)).devices refl o' (
              shorter (length (drop e (ask e s)).devices) (length s.devices) (length rest) k len
                fuel))
    ]
  ]

-- Whatever the devices answer, and whoever has the semaphore, `show_list` does not walk for ever: for
-- `n` devices on open sockets, `n * n + 2 n + 1` rounds are enough for it to end, or to come to a call
-- that never returns, which is the `recv` from the device asked last, or the `sem_wait` behind it.
pub show_list-Comes :
    (hears : ℕ → Entry → Heard) (given : ℕ → Bool) (devices : List Entry)
    → AllOpen devices
    → Comes hears given (show_list (suc (rounds (length devices))) hears given devices)
unfolding show_list
show_list-Comes hears given devices o =
    show_loop-Comes hears given _ 0 _ [] devices refl o (omega arith)
