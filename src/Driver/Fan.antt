-- ===== src/Driver/Fan.antt =====
-- mydev/fan/fan.c: the fan, on channel 1 of TIM1, whose duty cycle has four levels. Its functions are
-- named `motor_…` in the source.
pub mod Pwm
pub mod Level
pub mod Bounds
mod Tests
use cloud_system.Base.{
  ℕ, ◌-◌, Bool, not, Option, none, some, List, [], ◌∷◌, ◌==◌, if◌then◌else◌, bit_or, set_bits,
  clear_bits, ◌<<◌, ℤ, pos, negsuc, is_neg, true,
}
use cloud_system.Driver.Timer.{Timer}
use cloud_system.Driver.Chardev.{Held, nothing, eio, einval, enomem, map_all, clipped, copied}

-- The registers that `motor_init` sets up.
unfoldable pub configure : Timer → Timer
configure r = record r {
  rcc_4 = set_bits r.rcc_4 (0x1 << 4);
  moder = set_bits (clear_bits r.moder (0x3 << 18)) (0x2 << 18);
  afr = set_bits (clear_bits r.afr (0xF << 4)) (0x1 << 4);
  rcc_2 = set_bits r.rcc_2 (0x1 << 0);
  psc = 209 - 1;
  arr = 1000;
  ccr1 = 0;
  ccmr1 =
      clear_bits
        (set_bits (set_bits (clear_bits r.ccmr1 (bit_or (0x1 << 16) (0x7 << 4))) (0x6 << 4))
          (0x1 << 3))
        (0x3 << 0);
  ccer = set_bits (clear_bits r.ccer (0x1 << 1)) (0x1 << 0);
  cr1 =
      set_bits (clear_bits (clear_bits (set_bits r.cr1 (0x1 << 7)) (0x3 << 5)) (0x1 << 4))
        (0x1 << 0);
  bdtr = set_bits r.bdtr (0x1 << 15);
}

-- The registers that `motor_exit` resets.
unfoldable pub deconfigure : Timer → Timer
deconfigure r = record r {
  rcc_4 = clear_bits r.rcc_4 (0x1 << 4);
  moder = clear_bits r.moder (0x3 << 18);
  afr = clear_bits r.afr (0xF << 4);
  rcc_2 = clear_bits r.rcc_2 (0x1 << 0);
  psc = 0;
  arr = 0;
  ccr1 = 0;
  ccmr1 =
      set_bits (clear_bits (clear_bits r.ccmr1 (bit_or (0x1 << 16) (0x7 << 4))) (0x1 << 3))
        (0x3 << 0);
  ccer = clear_bits (set_bits r.ccer (0x1 << 1)) (0x1 << 0);
  cr1 =
      clear_bits (set_bits (set_bits (clear_bits r.cr1 (0x1 << 7)) (0x3 << 5)) (0x1 << 4))
        (0x1 << 0);
  bdtr = clear_bits r.bdtr (0x1 << 15);
}

pub record Fan : Type 0 where
  pub held : Held
  pub kbuf : List ℕ
  pub regs : Timer

-- What the kernel's `kstrtoint(kbuf, 10, &duty_cycle)` gives: the number, or an error code.
pub data Parsed : Type 0 where
  number : ℤ → Parsed
  malformed : ℤ → Parsed

-- The value of `*tim1_ccr1` for a level, `none` in the default case.
unfoldable pub duty_of : ℤ → Option ℕ
duty_of (negsuc n) = none
duty_of (pos n) =
    if n == 0
    then some 0
    else if n == 1
    then some 300
    else if n == 2
    then some 500
    else if n == 3
    then some 800
    else none

-- `copy_ok`: `copy_from_user` copies all. When it fails, `partial` is what it leaves in the buffer.
unfoldable pub motor_write :
    (kstrtoint : List ℕ → Parsed) → (copy_ok : Bool) (partial : List ℕ) → List ℕ → ℕ → Fan → Fan × ℤ
motor_write kstrtoint copy_ok partial ubuf size d =
    let n = clipped size in
    let kbuf = copied n ubuf d.kbuf in
    if not copy_ok then (record d { kbuf = partial }, eio) else (elim (kstrtoint kbuf) [
      | malformed e ↦ (record d { kbuf = kbuf }, e)
      | number v ↦ (elim (duty_of v) [
        | none ↦ (record d { kbuf = kbuf }, einval)
        | some duty ↦ (record d { kbuf = kbuf; regs = record (d.regs) { ccr1 = duty } }, pos n)
      ])
    ])

-- The bytes that `copy_to_user` is given, and the result.
unfoldable pub motor_read : Bool → ℕ → Fan → List ℕ × ℤ
motor_read copy_ok size d =
    let n = clipped size in if not copy_ok then ([], eio) else (copied n d.kbuf [], pos n)

abbrev pub addresses : List ℕ
addresses =
    0x50000A28 ∷ 0x50000A08 ∷ 0x50006000 ∷ 0x50006024 ∷ 0x44000028 ∷ 0x4400002C ∷ 0x44000034
    ∷ 0x44000018 ∷ 0x44000020 ∷ 0x44000000 ∷ 0x44000044 ∷ []

-- `motor_init`: what the kernel answers to `register_chrdev`, to `class_create` (an error, or none),
-- to `device_create`, whose result is not looked at, and to each `ioremap`.
unfoldable pub motor_init : ℤ → Option ℤ → (device : Bool) → (ℕ → Bool) → Fan → Fan × ℤ
motor_init major class device ok d = if is_neg major then (d, eio) else (elim class [
  | some e ↦ (d, e)
  | none ↦
      let (done, h) =
        map_all ok addresses (record (d.held) { chrdev = true; class = true; device = device }) in
      if done
      then (record d { held = h; regs = configure d.regs }, pos 0)
      else (record d { held = h }, enomem)
])

unfoldable pub motor_exit : Fan → Fan
motor_exit d = record d { regs = deconfigure d.regs; held = nothing }
