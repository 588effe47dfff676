-- ===== src/Driver/Fan/Bounds.antt =====
-- Any sequence of writes to the fan: its buffer is not overrun, and the duty cycle stays within the
-- period.
use cloud_system.Base.{
  ℕ, zero, suc, ◌-◌, ◌≤◌, ◌≡◌, refl, Bool, true, none, some, List, [], ◌∷◌, arith, length,
  length-append, take, ℤ, pos, negsuc, is_neg, Option-cases, Bool-cases, inl, inr, ◌⊎◌,
}
use cloud_system.Driver.Chardev.{clipped, copied, drop}
use cloud_system.Driver.Chardev.Mapping.{AllMap, map_all-done}
use cloud_system.Driver.Fan.{
  Fan, Parsed, number, malformed, duty_of, motor_write, motor_init, configure, addresses,
}

length-take : (n : ℕ) (xs : List ℕ) → n ≤ length xs → length (take n xs) ≡ n
length-take zero xs h = refl
length-take (suc n) [] h = absurd (omega arith)
length-take (suc n) (x ∷ xs) h = omega (arith, length-take n xs (omega arith))

length-drop : (n : ℕ) (xs : List ℕ) → length (drop n xs) ≡ length xs - n
length-drop zero xs = omega arith
length-drop (suc n) [] = omega arith
length-drop (suc n) (x ∷ xs) = omega (arith, length-drop n xs)

length-copied :
    (size : ℕ) (ubuf kbuf : List ℕ)
    → length ubuf ≡ size
    → length kbuf ≡ 128
    → length (copied (clipped size) ubuf kbuf) ≡ 128
length-copied size ubuf kbuf len full =
    let n = clipped size in
    let small : n ≤ 128 = ground arith in
    let within : n ≤ size = ground arith in
    rw (length-append (take n ubuf) (drop n kbuf))
      (omega (arith, length-take n ubuf (rw len within), length-drop n kbuf))

duty_of-le : (v : ℤ) (duty : ℕ) → duty_of v ≡ some duty → duty ≤ 800
unfolding duty_of
duty_of-le (pos n) duty e = ground arith
duty_of-le (negsuc n) duty e = ground arith

-- A call of `write`: the bytes at `ubuf`, and what a copy that fails leaves in the buffer.
pub record Write : Type 0 where
  pub copy_ok : Bool
  pub partial : List ℕ
  pub ubuf : List ℕ
  pub size : ℕ

-- The user's bytes are there, and the buffer is the driver's own.
abbrev pub IsWrite : Write → Type 0
IsWrite w = (length w.ubuf ≡ w.size) × (length w.partial ≡ 128)

abbrev pub AllWrites : List Write → Type 0
AllWrites [] = Unit
AllWrites (w ∷ ws) = IsWrite w × AllWrites ws

-- The kernel's `kstrtoint` gives negative error codes.
abbrev pub AreErrors : (List ℕ → Parsed) → Type 0
AreErrors kstrtoint = (text : List ℕ) (e : ℤ) → kstrtoint text ≡ malformed e → is_neg e ≡ true

-- The buffer has its 128 bytes, and the fan is on for at most 800 of the 1000 ticks of a period.
pub record IsBounded (d : Fan) : Type 0 where
  pub buffer : length d.kbuf ≡ 128
  pub duty : d.regs.ccr1 ≤ 800
  pub period : d.regs.arr ≡ 1000

-- The result of a write: an error, or a count that is neither above the size nor above the buffer's.
abbrev pub IsCount : ℕ → ℤ → Type 0
IsCount size result = (is_neg result ≡ true) ⊎ ((n : ℕ) × (result ≡ pos n) × (n ≤ size) × (n ≤ 128))

module _ (kstrtoint : List ℕ → Parsed) where
  -- The writes one after the other, and their results.
  unfoldable pub motor_writes : List Write → Fan → Fan × List ℤ
  motor_writes [] d = (d, [])
  motor_writes (w ∷ ws) d =
      let (d', result) = motor_write kstrtoint w.copy_ok w.partial w.ubuf w.size d in
      let (d'', results) = motor_writes ws d' in (d'', result ∷ results)

abbrev pub AllCounts : List Write → List ℤ → Type 0
AllCounts [] [] = Unit
AllCounts [] (r ∷ rs) = ⊥
AllCounts (w ∷ ws) [] = ⊥
AllCounts (w ∷ ws) (r ∷ rs) = IsCount w.size r × AllCounts ws rs

Parsed-cases : (p : Parsed) → ((v : ℤ) × (p ≡ number v)) ⊎ ((e : ℤ) × (p ≡ malformed e))
Parsed-cases (number v) = inl (v, refl)
Parsed-cases (malformed e) = inr (e, refl)

started :
    (n : ℕ) (device : Bool) (ok : ℕ → Bool) (d : Fan)
    → AllMap ok addresses
    → length d.kbuf ≡ 128
    → IsBounded (motor_init (pos n) none device ok d).0
unfolding motor_init configure
started n device ok d mapped full =
    rw
      (map_all-done ok addresses (record (d.held) { chrdev = true; class = true; device = device })
        mapped)
      (record { buffer = full; duty = omega arith; period = refl })

module _ (kstrtoint : List ℕ → Parsed) (errors : AreErrors kstrtoint) where
  write-IsBounded :
      (w : Write) (d : Fan)
      → IsWrite w
      → IsBounded d
      → let (d', result) = motor_write kstrtoint w.copy_ok w.partial w.ubuf w.size d in
        IsBounded d' × IsCount w.size result
  unfolding motor_write
  write-IsBounded w d (fits, own) b = elim (Bool-cases w.copy_ok) [
    | inr failed ↦ rw failed (record { buffer = own; duty = b.duty; period = b.period }, inl refl)
    | inl copied_all ↦
        let buffer = length-copied w.size w.ubuf d.kbuf fits (b.buffer) in
        let within : clipped w.size ≤ w.size = ground arith in
        let small : clipped w.size ≤ 128 = ground arith in
        elim (Parsed-cases (kstrtoint (copied (clipped w.size) w.ubuf d.kbuf))) [
          | inr (e, is) ↦
              rw (copied_all, is)
                (record { buffer = buffer; duty = b.duty; period = b.period }, inl (errors _ e is))
          | inl (v, is) ↦ (elim (Option-cases (duty_of v)) [
            | inl bad ↦
                rw (copied_all, is, bad)
                  (record { buffer = buffer; duty = b.duty; period = b.period }, inl refl)
            | inr (duty, level) ↦
                rw (copied_all, is, level)
                  (
                    record { buffer = buffer; duty = duty_of-le v duty level; period = b.period },
                    inr (clipped w.size, refl, within, small),
                  )
          ])
        ]
  ]

  writes-IsBounded :
      (ws : List Write) (d : Fan)
      → AllWrites ws
      → IsBounded d
      → IsBounded (motor_writes kstrtoint ws d).0 × AllCounts ws (motor_writes kstrtoint ws d).1
  unfolding motor_writes
  writes-IsBounded [] d all b = (b, tt)
  writes-IsBounded (w ∷ ws) d (fits, all) b =
      let (b', count) = write-IsBounded w d fits b in
      let (b'', counts) =
        writes-IsBounded ws (motor_write kstrtoint w.copy_ok w.partial w.ubuf w.size d).0 all b' in
      (b'', (count, counts))

  -- Once the driver has started, with a buffer of 128 bytes, and when `kstrtoint` gives negative error
  -- codes: after any writes, of any sizes and texts, the copies that fail included, the buffer still
  -- has its 128 bytes, the duty cycle is at most 800 of the 1000 ticks of a period, and each write has
  -- returned an error or a count that is neither above its size nor above 128.
  pub motor_writes-IsBounded :
      (n : ℕ) (device : Bool) (ok : ℕ → Bool) (ws : List Write) (d : Fan)
      → AllMap ok addresses
      → length d.kbuf ≡ 128
      → AllWrites ws
      → let started = (motor_init (pos n) none device ok d).0 in
        IsBounded (motor_writes kstrtoint ws started).0
        × AllCounts ws (motor_writes kstrtoint ws started).1
  motor_writes-IsBounded n device ok ws d mapped full all =
      writes-IsBounded ws (motor_init (pos n) none device ok d).0 all
        (started n device ok d mapped full)
