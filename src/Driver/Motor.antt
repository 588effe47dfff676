-- ===== src/Driver/Motor.antt =====
-- mydev/motor/motor.c: the pump's motor, on TIM16.
pub mod Pwm
use cloud_system.Base.{
  ℕ, ◌-◌, Bool, not, List, [], ◌∷◌, ◌==◌, if◌then◌else◌, bit_or, set_bits, clear_bits, ◌<<◌, ℤ, pos,
  is_neg, Option, none, some, true, false,
}
use cloud_system.Driver.Timer.{Timer}
use cloud_system.Driver.Chardev.{Held, nothing, eio, enomem, map_all, clipped, copied}

unfoldable pub motor_start : Timer → Timer
motor_start r = record r {
  rcc_4 = set_bits r.rcc_4 (0x1 << 5);
  moder = set_bits (clear_bits r.moder (0x3 << 12)) (0x2 << 12);
  afr = set_bits (clear_bits r.afr (0xF << 24)) (0x1 << 24);
  rcc_2 = set_bits r.rcc_2 (0x1 << 3);
  psc = 209 - 1;
  arr = 1000;
  ccr1 = 700;
  ccmr1 =
      clear_bits
        (set_bits (set_bits (clear_bits r.ccmr1 (bit_or (0x1 << 16) (0x7 << 4))) (0x6 << 4))
          (0x1 << 3))
        (0x3 << 0);
  ccer = set_bits (clear_bits r.ccer (0x1 << 1)) (0x1 << 0);
  cr1 = set_bits (set_bits r.cr1 (0x1 << 7)) (0x1 << 0);
  bdtr = set_bits r.bdtr (0x1 << 15);
}

unfoldable pub motor_stop : Timer → Timer
motor_stop r = record r {
  cr1 = clear_bits (clear_bits r.cr1 (0x1 << 0)) (0x1 << 7);
  bdtr = clear_bits r.bdtr (0x1 << 15);
  ccer = set_bits (clear_bits r.ccer (0x1 << 0)) (0x1 << 1);
  ccmr1 =
      set_bits (clear_bits (set_bits r.ccmr1 (0x3 << 0)) (0x1 << 3))
        (bit_or (0x1 << 16) (0x7 << 4));
  ccr1 = 0;
  arr = 0;
  psc = 0;
  rcc_2 = clear_bits r.rcc_2 (0x1 << 3);
  afr = set_bits r.afr (0xF << 24);
  moder = set_bits (clear_bits r.moder (0x2 << 12)) (0x3 << 12);
  rcc_4 = clear_bits r.rcc_4 (0x1 << 5);
}

-- The driver's state: what it holds of the kernel, its buffer and the registers.
pub record Motor : Type 0 where
  pub held : Held
  pub kbuf : List ℕ
  pub regs : Timer

-- `kbuf[0]`
abbrev pub first_byte : List ℕ → ℕ
first_byte [] = 0
first_byte (c ∷ cs) = c

-- `copy_ok`: `copy_from_user` copies all. When it fails, `partial` is what it leaves in the buffer.
unfoldable pub motor_write : Bool → (partial : List ℕ) → List ℕ → ℕ → Motor → Motor × ℤ
motor_write copy_ok partial ubuf size d =
    let n = clipped size in
    let kbuf = copied n ubuf d.kbuf in
    if not copy_ok
    then (record d { kbuf = partial }, eio)
    else if first_byte kbuf == b'1'
    then (record d { kbuf = kbuf; regs = motor_start d.regs }, pos n)
    else if first_byte kbuf == b'0'
    then (record d { kbuf = kbuf; regs = motor_stop d.regs }, pos n)
    else (record d { kbuf = kbuf }, pos n)

-- The bytes that `copy_to_user` is given, and the result.
unfoldable pub motor_read : Bool → ℕ → Motor → List ℕ × ℤ
motor_read copy_ok size d =
    let n = clipped size in if not copy_ok then ([], eio) else (copied n d.kbuf [], pos n)

abbrev pub addresses : List ℕ
addresses =
    0x50000A28 ∷ 0x50000A08 ∷ 0x50007000 ∷ 0x50007020 ∷ 0x44007028 ∷ 0x4400702C ∷ 0x44007034
    ∷ 0x44007018 ∷ 0x44007020 ∷ 0x44007000 ∷ 0x44007044 ∷ []

-- `motor_init`: what the kernel answers to `register_chrdev`, to `class_create` (an error, or none),
-- to `device_create`, whose result is not looked at, and to each `ioremap`.
unfoldable pub motor_init : ℤ → Option ℤ → (device : Bool) → (ℕ → Bool) → Held → Held × ℤ
motor_init major class device ok h = if is_neg major then (h, eio) else (elim class [
  | some e ↦ (h, e)
  | none ↦
      let (done, h') =
        map_all ok addresses (record h { chrdev = true; class = true; device = device }) in
      if done then (h', pos 0) else (h', enomem)
])

unfoldable pub motor_exit : Motor → Motor
motor_exit d = record d { regs = motor_stop d.regs; held = nothing }
