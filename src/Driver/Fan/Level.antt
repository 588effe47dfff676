-- ===== src/Driver/Fan/Level.antt =====
-- The levels of the fan: what a write does, and what a failed start leaves behind.
use cloud_system.Base.{
  ℕ, suc, ◌+◌, ◌≤◌, ◌<◌, ◌≡◌, refl, sym, subst, Bool, true, false, Option, none, some, List, ◌∷◌,
  ◌++◌, arith, ◌⊎◌, inl, inr, if◌then◌else◌, length, ltb, ℤ, pos, negsuc, is_neg, ◌==◌,
}
use cloud_system.Driver.Chardev.{Held, nothing, eio, einval, enomem, clipped, map_all}
use cloud_system.Driver.Chardev.Mapping.{
  AllMap, AllMap-cases, with_mapped, map_all-done, map_all-stopped,
}
use cloud_system.Driver.Fan.{
  Fan, Parsed, number, duty_of, motor_write, motor_init, motor_exit, configure, deconfigure,
  addresses,
}

-- The kernel's `kstrtoint` reads a digit in front of a NUL as its value.
abbrev pub ReadsDigit : (List ℕ → Parsed) → Type 0
ReadsDigit kstrtoint =
    (d : ℕ) (rest : List ℕ) → d < 10 → kstrtoint ((b'0' + d) ∷ 0 ∷ rest) ≡ number (pos d)

-- The share of the period, of 1000 ticks, that each level switches the fan on.
abbrev pub duty : ℕ → ℕ
duty level = if level == 0 then 0 else if level == 1 then 300 else if level == 2 then 500 else 800

pub clipped_small : (n : ℕ) → n ≤ 128 → clipped n ≡ n
clipped_small n h = ground arith

module _ (kstrtoint : List ℕ → Parsed) (reads : ReadsDigit kstrtoint) (d : Fan) (level : ℕ)
    (rest partial : List ℕ) where
  -- Writing a digit and a NUL, with up to 126 bytes behind them, sets the duty cycle of the levels 0
  -- to 3 and returns the size of the write; a digit from 4 on is refused with -EINVAL and leaves
  -- every register as it was.
  pub motor_write-level :
      level < 10
      → length rest ≤ 126
      → let size = suc (suc (length rest)) in
        let (d', result) = motor_write kstrtoint true partial ((b'0' + level) ∷ 0 ∷ rest) size d in
        (d'.regs ≡ (if ltb level 4 then record (d.regs) { ccr1 = duty level } else d.regs))
        × (result ≡ (if ltb level 4 then pos size else einval))
  unfolding motor_write duty_of
  motor_write-level digit small =
      rw (clipped_small (suc (suc (length rest))) (omega arith), reads level _ digit)
        (ground arith, ground arith)

-- The start has failed before it kept anything.
abbrev pub Refused : ℤ → Option ℤ → Fan → Fan × ℤ → Type 0
Refused major class d (d', result) =
    (d' ≡ d) × (((is_neg major ≡ true) × (result ≡ eio)) ⊎ (class ≡ some result))

-- The fan works, and `motor_exit` gives everything back.
abbrev pub Started : Bool → (ℕ → Bool) → Fan → Fan × ℤ → Type 0
Started device ok d (d', result) =
    AllMap ok addresses
    × (result ≡ pos 0)
    × (d'.held ≡ record {
      chrdev = true;
      class = true;
      device = device;
      mapped = d.held.mapped ++ addresses;
    })
    × (d'.regs ≡ configure d.regs)
    × ((motor_exit d').held ≡ nothing)
    × ((motor_exit d').regs.ccr1 ≡ 0)

-- The register `a` is the first that cannot be mapped.
abbrev pub Leaked : Bool → (ℕ → Bool) → Fan → Fan × ℤ → Type 0
Leaked device ok d (d', result) =
    (before after : List ℕ) × (a : ℕ) × (addresses ≡ before ++ a ∷ after)
    × AllMap ok before
    × (ok a ≡ false)
    × (result ≡ enomem)
    × (d'.held
        ≡ record { chrdev = true; class = true; device = device; mapped = d.held.mapped ++ before })
    × (d'.regs ≡ d.regs)

module _ (device : Bool) (ok : ℕ → Bool) (d : Fan) where
  abbrev made : Held
  made = record (d.held) { chrdev = true; class = true; device = device }

  init_done :
      (n : ℕ)
      → AllMap ok addresses
      → motor_init (pos n) none device ok d
        ≡ (record d { held = with_mapped made addresses; regs = configure d.regs }, pos 0)
  unfolding motor_init
  init_done n all = rw (map_all-done ok addresses made all) refl

  init_mapped :
      (n : ℕ) → AllMap ok addresses → Started device ok d (motor_init (pos n) none device ok d)
  unfolding motor_exit deconfigure
  init_mapped n all =
      subst (Started device ok d) (sym (init_done n all)) (all, refl, refl, refl, refl, refl)

  init_stopped :
      (n : ℕ) (before after : List ℕ) (a : ℕ)
      → addresses ≡ before ++ a ∷ after
      → AllMap ok before
      → ok a ≡ false
      → Leaked device ok d (motor_init (pos n) none device ok d)
  unfolding motor_init
  init_stopped n before after a split all bad =
      rw
        (subst (λ l. map_all ok l made ≡ (false, with_mapped made before)) (sym split)
          (map_all-stopped ok before after a made all bad))
        (before, after, a, split, all, bad, refl, refl, refl)

  -- Whatever the kernel answers, `motor_init` comes out in one of three ways. It returns the error of
  -- `register_chrdev` or `class_create` and holds what it held before. Or every register is mapped: it
  -- returns 0, holds the character device, the class, the node, if that was made, and the eleven
  -- registers, and has configured them, and `motor_exit` gives all of it back and sets the duty cycle
  -- to 0. Or an `ioremap` fails: it returns -ENOMEM with no register changed, and gives nothing back of
  -- the character device, the class, the node, if that was made, and the registers mapped before.
  pub motor_init-balance :
      (major : ℤ) (class : Option ℤ)
      → let out = motor_init major class device ok d in
        Refused major class d out ⊎ (Started device ok d out ⊎ Leaked device ok d out)
  unfolding motor_init
  motor_init-balance (negsuc n) class = inl (refl, inl (refl, refl))
  motor_init-balance (pos n) (some e) = inl (refl, inr refl)
  motor_init-balance (pos n) none = elim (AllMap-cases ok addresses) [
    | inl all ↦ inr (inl (init_mapped n all))
    | inr (before, after, a, split, all, bad) ↦
        inr (inr (init_stopped n before after a split all bad))
  ]
