-- ===== src/Driver/Fan/Pwm.antt =====
-- The registers after `motor_init` and `motor_exit` of the fan, bit by bit.
use cloud_system.Base.{
  ℕ, ◌+◌, ◌<◌, ◌≡◌, refl, Bool, arith, ◌==◌, ◌||◌, if◌then◌else◌, bit_at, bit_at-set_bits,
  bit_at-clear_bits, holds_below, set_bits, clear_bits, ◌<<◌, bit_or,
}
use cloud_system.Driver.Timer.{Timer}
use cloud_system.Driver.Timer.Bits.{span, one_bit}
use cloud_system.Driver.Fan.{configure, deconfigure}

-- What `motor_init` sets: the port's clock, pin 9 as alternate function 1, the timer's clock, a period
-- of 1000 ticks of the clock divided by 209 that is low throughout, PWM mode 1 with preload on an
-- output channel, a counter that counts up, and the counter, the channel and the main output switched
-- on. Every other bit is as it was.
pub record IsConfigured (r s : Timer) : Type 0 where
  pub rcc_4 : (k : ℕ) → k < 32 → bit_at s.rcc_4 k ≡ (if k == 4 then 1 else bit_at r.rcc_4 k)
  pub moder :
      (k : ℕ)
      → k < 32
      → bit_at s.moder k ≡ (if k == 19 then 1 else if k == 18 then 0 else bit_at r.moder k)
  pub afr :
      (k : ℕ)
      → k < 32
      → bit_at s.afr k ≡ (if k == 4 then 1 else if span 5 7 k then 0 else bit_at r.afr k)
  pub rcc_2 : (k : ℕ) → k < 32 → bit_at s.rcc_2 k ≡ (if k == 0 then 1 else bit_at r.rcc_2 k)
  pub pwm : (s.psc + 1 ≡ 209) × (s.arr ≡ 1000) × (s.ccr1 ≡ 0)
  pub ccmr1 :
      (k : ℕ)
      → k < 32
      → bit_at s.ccmr1 k ≡ (
          if (k == 3) || span 5 6 k
          then 1
          else if (k == 16) || ((k == 4) || span 0 1 k)
          then 0
          else bit_at r.ccmr1 k)
  pub ccer :
      (k : ℕ)
      → k < 32
      → bit_at s.ccer k ≡ (if k == 0 then 1 else if k == 1 then 0 else bit_at r.ccer k)
  pub cr1 :
      (k : ℕ)
      → k < 32
      → bit_at s.cr1 k
        ≡ (if (k == 0) || (k == 7) then 1 else if span 4 6 k then 0 else bit_at r.cr1 k)
  pub bdtr : (k : ℕ) → k < 32 → bit_at s.bdtr k ≡ (if k == 15 then 1 else bit_at r.bdtr k)

-- What `motor_exit` leaves: the clocks, the counter, the channel and the main output off, no period,
-- pin 9 as an input with function 0, the channel as an input with inverted polarity, and the bits 4
-- to 6 of the control register all set, which is a counter that is centre-aligned and counts down.
-- Every other bit is as it was.
pub record IsDeconfigured (r s : Timer) : Type 0 where
  pub rcc_4 : (k : ℕ) → k < 32 → bit_at s.rcc_4 k ≡ (if k == 4 then 0 else bit_at r.rcc_4 k)
  pub moder : (k : ℕ) → k < 32 → bit_at s.moder k ≡ (if span 18 19 k then 0 else bit_at r.moder k)
  pub afr : (k : ℕ) → k < 32 → bit_at s.afr k ≡ (if span 4 7 k then 0 else bit_at r.afr k)
  pub rcc_2 : (k : ℕ) → k < 32 → bit_at s.rcc_2 k ≡ (if k == 0 then 0 else bit_at r.rcc_2 k)
  pub pwm : (s.psc ≡ 0) × (s.arr ≡ 0) × (s.ccr1 ≡ 0)
  pub ccmr1 :
      (k : ℕ)
      → k < 32
      → bit_at s.ccmr1 k ≡ (
          if span 0 1 k
          then 1
          else if (k == 16) || ((k == 3) || span 4 6 k)
          then 0
          else bit_at r.ccmr1 k)
  pub ccer :
      (k : ℕ)
      → k < 32
      → bit_at s.ccer k ≡ (if k == 1 then 1 else if k == 0 then 0 else bit_at r.ccer k)
  pub cr1 :
      (k : ℕ)
      → k < 32
      → bit_at s.cr1 k
        ≡ (if span 4 6 k then 1 else if (k == 0) || (k == 7) then 0 else bit_at r.cr1 k)
  pub bdtr : (k : ℕ) → k < 32 → bit_at s.bdtr k ≡ (if k == 15 then 0 else bit_at r.bdtr k)

abbrev mode : ℕ
mode = bit_or (0x1 << 16) (0x7 << 4)

abbrev mode_bits : ℕ → Bool
mode_bits k = (k == 16) || span 4 6 k

module _ (r : Timer) (k : ℕ) (lt : k < 32) where
  init_moder :
      bit_at (configure r).moder k
      ≡ (if k == 19 then 1 else if k == 18 then 0 else bit_at r.moder k)
  unfolding configure holds_below bit_at
  init_moder =
      let v0 = clear_bits r.moder (0x3 << 18) in
      ground (
        arith,
        bit_at-clear_bits (0x3 << 18) (span 18 19) refl r.moder k lt,
        bit_at-set_bits (0x2 << 18) (one_bit 19) refl v0 k lt,
      )

  init_afr :
      bit_at (configure r).afr k ≡ (if k == 4 then 1 else if span 5 7 k then 0 else bit_at r.afr k)
  unfolding configure holds_below bit_at
  init_afr =
      let v0 = clear_bits r.afr (0xF << 4) in
      ground (
        arith,
        bit_at-clear_bits (0xF << 4) (span 4 7) refl r.afr k lt,
        bit_at-set_bits (0x1 << 4) (one_bit 4) refl v0 k lt,
      )

  init_ccmr1 : bit_at (configure r).ccmr1 k ≡ (
      if (k == 3) || span 5 6 k
      then 1
      else if (k == 16) || ((k == 4) || span 0 1 k)
      then 0
      else bit_at r.ccmr1 k)
  unfolding configure holds_below bit_at
  init_ccmr1 =
      let v0 = clear_bits r.ccmr1 mode in
      let v1 = set_bits v0 (0x6 << 4) in
      let v2 = set_bits v1 (0x1 << 3) in
      ground (
        arith,
        bit_at-clear_bits mode mode_bits refl r.ccmr1 k lt,
        bit_at-set_bits (0x6 << 4) (span 5 6) refl v0 k lt,
        bit_at-set_bits (0x1 << 3) (one_bit 3) refl v1 k lt,
        bit_at-clear_bits (0x3 << 0) (span 0 1) refl v2 k lt,
      )

  init_ccer :
      bit_at (configure r).ccer k ≡ (if k == 0 then 1 else if k == 1 then 0 else bit_at r.ccer k)
  unfolding configure holds_below bit_at
  init_ccer =
      let v0 = clear_bits r.ccer (0x1 << 1) in
      ground (
        arith,
        bit_at-clear_bits (0x1 << 1) (one_bit 1) refl r.ccer k lt,
        bit_at-set_bits (0x1 << 0) (one_bit 0) refl v0 k lt,
      )

  init_cr1 :
      bit_at (configure r).cr1 k
      ≡ (if (k == 0) || (k == 7) then 1 else if span 4 6 k then 0 else bit_at r.cr1 k)
  unfolding configure holds_below bit_at
  init_cr1 =
      let v0 = set_bits r.cr1 (0x1 << 7) in
      let v1 = clear_bits v0 (0x3 << 5) in
      let v2 = clear_bits v1 (0x1 << 4) in
      ground (
        arith,
        bit_at-set_bits (0x1 << 7) (one_bit 7) refl r.cr1 k lt,
        bit_at-clear_bits (0x3 << 5) (span 5 6) refl v0 k lt,
        bit_at-clear_bits (0x1 << 4) (one_bit 4) refl v1 k lt,
        bit_at-set_bits (0x1 << 0) (one_bit 0) refl v2 k lt,
      )

  exit_ccmr1 : bit_at (deconfigure r).ccmr1 k ≡ (
      if span 0 1 k
      then 1
      else if (k == 16) || ((k == 3) || span 4 6 k)
      then 0
      else bit_at r.ccmr1 k)
  unfolding deconfigure holds_below bit_at
  exit_ccmr1 =
      let v0 = clear_bits r.ccmr1 mode in
      let v1 = clear_bits v0 (0x1 << 3) in
      ground (
        arith,
        bit_at-clear_bits mode mode_bits refl r.ccmr1 k lt,
        bit_at-clear_bits (0x1 << 3) (one_bit 3) refl v0 k lt,
        bit_at-set_bits (0x3 << 0) (span 0 1) refl v1 k lt,
      )

  exit_ccer :
      bit_at (deconfigure r).ccer k ≡ (if k == 1 then 1 else if k == 0 then 0 else bit_at r.ccer k)
  unfolding deconfigure holds_below bit_at
  exit_ccer =
      let v0 = set_bits r.ccer (0x1 << 1) in
      ground (
        arith,
        bit_at-set_bits (0x1 << 1) (one_bit 1) refl r.ccer k lt,
        bit_at-clear_bits (0x1 << 0) (one_bit 0) refl v0 k lt,
      )

  exit_cr1 :
      bit_at (deconfigure r).cr1 k
      ≡ (if span 4 6 k then 1 else if (k == 0) || (k == 7) then 0 else bit_at r.cr1 k)
  unfolding deconfigure holds_below bit_at
  exit_cr1 =
      let v0 = clear_bits r.cr1 (0x1 << 7) in
      let v1 = set_bits v0 (0x3 << 5) in
      let v2 = set_bits v1 (0x1 << 4) in
      ground (
        arith,
        bit_at-clear_bits (0x1 << 7) (one_bit 7) refl r.cr1 k lt,
        bit_at-set_bits (0x3 << 5) (span 5 6) refl v0 k lt,
        bit_at-set_bits (0x1 << 4) (one_bit 4) refl v1 k lt,
        bit_at-clear_bits (0x1 << 0) (one_bit 0) refl v2 k lt,
      )

-- From any state of the registers, the set-up of `motor_init` sets exactly the bits that
-- `IsConfigured` names, and leaves every other bit as it was.
pub configure-IsConfigured : (r : Timer) → IsConfigured r (configure r)
unfolding configure holds_below bit_at
configure-IsConfigured r = record {
  rcc_4 = bit_at-set_bits (0x1 << 4) (one_bit 4) refl r.rcc_4;
  moder = init_moder r;
  afr = init_afr r;
  rcc_2 = bit_at-set_bits (0x1 << 0) (one_bit 0) refl r.rcc_2;
  pwm = (refl, refl, refl);
  ccmr1 = init_ccmr1 r;
  ccer = init_ccer r;
  cr1 = init_cr1 r;
  bdtr = bit_at-set_bits (0x1 << 15) (one_bit 15) refl r.bdtr;
}

-- From any state of the registers, the reset of `motor_exit` sets exactly the bits that
-- `IsDeconfigured` names, and leaves every other bit as it was.
pub deconfigure-IsDeconfigured : (r : Timer) → IsDeconfigured r (deconfigure r)
unfolding deconfigure holds_below bit_at
deconfigure-IsDeconfigured r = record {
  rcc_4 = bit_at-clear_bits (0x1 << 4) (one_bit 4) refl r.rcc_4;
  moder = bit_at-clear_bits (0x3 << 18) (span 18 19) refl r.moder;
  afr = bit_at-clear_bits (0xF << 4) (span 4 7) refl r.afr;
  rcc_2 = bit_at-clear_bits (0x1 << 0) (one_bit 0) refl r.rcc_2;
  pwm = (refl, refl, refl);
  ccmr1 = exit_ccmr1 r;
  ccer = exit_ccer r;
  cr1 = exit_cr1 r;
  bdtr = bit_at-clear_bits (0x1 << 15) (one_bit 15) refl r.bdtr;
}
