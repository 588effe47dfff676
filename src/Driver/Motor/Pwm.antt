-- ===== src/Driver/Motor/Pwm.antt =====
-- The registers after `motor_start` and `motor_stop`, bit by bit.
use cloud_system.Base.{
  ℕ, ◌+◌, ◌<◌, ◌≡◌, refl, Bool, arith, ◌==◌, ◌||◌, if◌then◌else◌, bit_at, bit_at-set_bits,
  bit_at-clear_bits, holds_below, set_bits, clear_bits, ◌<<◌, bit_or,
}
use cloud_system.Driver.Timer.{Timer}
use cloud_system.Driver.Timer.Bits.{span, one_bit}
use cloud_system.Driver.Motor.{motor_start, motor_stop}

-- What `motor_start` leaves: the port's clock, pin 6 as alternate function 1, the timer's clock, a
-- period of 1000 ticks of the clock divided by 209 with 700 of them high, PWM mode 1 with preload on
-- an output channel, and the counter, the channel and the main output switched on. Every other bit
-- is as it was.
pub record IsStarted (r s : Timer) : Type 0 where
  pub rcc_4 : (k : ℕ) → k < 32 → bit_at s.rcc_4 k ≡ (if k == 5 then 1 else bit_at r.rcc_4 k)
  pub moder :
      (k : ℕ)
      → k < 32
      → bit_at s.moder k ≡ (if k == 13 then 1 else if k == 12 then 0 else bit_at r.moder k)
  pub afr :
      (k : ℕ)
      → k < 32
      → bit_at s.afr k ≡ (if k == 24 then 1 else if span 25 27 k then 0 else bit_at r.afr k)
  pub rcc_2 : (k : ℕ) → k < 32 → bit_at s.rcc_2 k ≡ (if k == 3 then 1 else bit_at r.rcc_2 k)
  pub pwm : (s.psc + 1 ≡ 209) × (s.arr ≡ 1000) × (s.ccr1 ≡ 700)
  pub ccmr1 :
      (k : ℕ)
      → k < 32
      → bit_at s.ccmr1 k ≡ (
          if (k == 3) || span 5 6 k
          then 1
          else if (k == 16) || ((k == 4) || span 0 1 k)
          then 0
          else bit_at r.ccmr1 k)
  pub ccer :
      (k : ℕ)
      → k < 32
      → bit_at s.ccer k ≡ (if k == 0 then 1 else if k == 1 then 0 else bit_at r.ccer k)
  pub cr1 : (k : ℕ) → k < 32 → bit_at s.cr1 k ≡ (if (k == 0) || (k == 7) then 1 else bit_at r.cr1 k)
  pub bdtr : (k : ℕ) → k < 32 → bit_at s.bdtr k ≡ (if k == 15 then 1 else bit_at r.bdtr k)

-- What `motor_stop` leaves: the clocks of the port and the timer off, the counter, the channel and
-- the main output off with no period, pin 6 as analog with all bits of its function set, and the
-- channel as an input with all bits of the PWM mode set. Every other bit is as it was.
pub record IsStopped (r s : Timer) : Type 0 where
  pub rcc_4 : (k : ℕ) → k < 32 → bit_at s.rcc_4 k ≡ (if k == 5 then 0 else bit_at r.rcc_4 k)
  pub moder : (k : ℕ) → k < 32 → bit_at s.moder k ≡ (if span 12 13 k then 1 else bit_at r.moder k)
  pub afr : (k : ℕ) → k < 32 → bit_at s.afr k ≡ (if span 24 27 k then 1 else bit_at r.afr k)
  pub rcc_2 : (k : ℕ) → k < 32 → bit_at s.rcc_2 k ≡ (if k == 3 then 0 else bit_at r.rcc_2 k)
  pub pwm : (s.psc ≡ 0) × (s.arr ≡ 0) × (s.ccr1 ≡ 0)
  pub ccmr1 :
      (k : ℕ)
      → k < 32
      → bit_at s.ccmr1 k ≡ (
          if (k == 16) || (span 4 6 k || span 0 1 k)
          then 1
          else if k == 3
          then 0
          else bit_at r.ccmr1 k)
  pub ccer :
      (k : ℕ)
      → k < 32
      → bit_at s.ccer k ≡ (if k == 1 then 1 else if k == 0 then 0 else bit_at r.ccer k)
  pub cr1 : (k : ℕ) → k < 32 → bit_at s.cr1 k ≡ (if (k == 0) || (k == 7) then 0 else bit_at r.cr1 k)
  pub bdtr : (k : ℕ) → k < 32 → bit_at s.bdtr k ≡ (if k == 15 then 0 else bit_at r.bdtr k)

abbrev mode : ℕ
mode = bit_or (0x1 << 16) (0x7 << 4)

abbrev mode_bits : ℕ → Bool
mode_bits k = (k == 16) || span 4 6 k

module _ (r : Timer) (k : ℕ) (lt : k < 32) where
  start_moder :
      bit_at (motor_start r).moder k
      ≡ (if k == 13 then 1 else if k == 12 then 0 else bit_at r.moder k)
  unfolding motor_start holds_below bit_at
  start_moder = ground (
    arith,
    bit_at-clear_bits (0x3 << 12) (span 12 13) refl r.moder k lt,
    bit_at-set_bits (0x2 << 12) (one_bit 13) refl (clear_bits r.moder (0x3 << 12)) k lt,
  )

  start_afr :
      bit_at (motor_start r).afr k
      ≡ (if k == 24 then 1 else if span 25 27 k then 0 else bit_at r.afr k)
  unfolding motor_start holds_below bit_at
  start_afr = ground (
    arith,
    bit_at-clear_bits (0xF << 24) (span 24 27) refl r.afr k lt,
    bit_at-set_bits (0x1 << 24) (one_bit 24) refl (clear_bits r.afr (0xF << 24)) k lt,
  )

  start_ccmr1 : bit_at (motor_start r).ccmr1 k ≡ (
      if (k == 3) || span 5 6 k
      then 1
      else if (k == 16) || ((k == 4) || span 0 1 k)
      then 0
      else bit_at r.ccmr1 k)
  unfolding motor_start holds_below bit_at
  start_ccmr1 =
      let off = clear_bits r.ccmr1 mode in
      let pwm = set_bits off (0x6 << 4) in
      let preload = set_bits pwm (0x1 << 3) in
      ground (
        arith,
        bit_at-clear_bits mode mode_bits refl r.ccmr1 k lt,
        bit_at-set_bits (0x6 << 4) (span 5 6) refl off k lt,
        bit_at-set_bits (0x1 << 3) (one_bit 3) refl pwm k lt,
        bit_at-clear_bits (0x3 << 0) (span 0 1) refl preload k lt,
      )

  start_ccer :
      bit_at (motor_start r).ccer k ≡ (if k == 0 then 1 else if k == 1 then 0 else bit_at r.ccer k)
  unfolding motor_start holds_below bit_at
  start_ccer = ground (
    arith,
    bit_at-clear_bits (0x1 << 1) (one_bit 1) refl r.ccer k lt,
    bit_at-set_bits (0x1 << 0) (one_bit 0) refl (clear_bits r.ccer (0x1 << 1)) k lt,
  )

  start_cr1 : bit_at (motor_start r).cr1 k ≡ (if (k == 0) || (k == 7) then 1 else bit_at r.cr1 k)
  unfolding motor_start holds_below bit_at
  start_cr1 = ground (
    arith,
    bit_at-set_bits (0x1 << 7) (one_bit 7) refl r.cr1 k lt,
    bit_at-set_bits (0x1 << 0) (one_bit 0) refl (set_bits r.cr1 (0x1 << 7)) k lt,
  )

  stop_moder : bit_at (motor_stop r).moder k ≡ (if span 12 13 k then 1 else bit_at r.moder k)
  unfolding motor_stop holds_below bit_at
  stop_moder = ground (
    arith,
    bit_at-clear_bits (0x2 << 12) (one_bit 13) refl r.moder k lt,
    bit_at-set_bits (0x3 << 12) (span 12 13) refl (clear_bits r.moder (0x2 << 12)) k lt,
  )

  stop_ccmr1 : bit_at (motor_stop r).ccmr1 k ≡ (
      if (k == 16) || (span 4 6 k || span 0 1 k) then 1 else if k == 3 then 0 else bit_at r.ccmr1 k)
  unfolding motor_stop holds_below bit_at
  stop_ccmr1 =
      let input = set_bits r.ccmr1 (0x3 << 0) in
      let direct = clear_bits input (0x1 << 3) in
      ground (
        arith,
        bit_at-set_bits (0x3 << 0) (span 0 1) refl r.ccmr1 k lt,
        bit_at-clear_bits (0x1 << 3) (one_bit 3) refl input k lt,
        bit_at-set_bits mode mode_bits refl direct k lt,
      )

  stop_ccer :
      bit_at (motor_stop r).ccer k ≡ (if k == 1 then 1 else if k == 0 then 0 else bit_at r.ccer k)
  unfolding motor_stop holds_below bit_at
  stop_ccer = ground (
    arith,
    bit_at-clear_bits (0x1 << 0) (one_bit 0) refl r.ccer k lt,
    bit_at-set_bits (0x1 << 1) (one_bit 1) refl (clear_bits r.ccer (0x1 << 0)) k lt,
  )

  stop_cr1 : bit_at (motor_stop r).cr1 k ≡ (if (k == 0) || (k == 7) then 0 else bit_at r.cr1 k)
  unfolding motor_stop holds_below bit_at
  stop_cr1 = ground (
    arith,
    bit_at-clear_bits (0x1 << 0) (one_bit 0) refl r.cr1 k lt,
    bit_at-clear_bits (0x1 << 7) (one_bit 7) refl (clear_bits r.cr1 (0x1 << 0)) k lt,
  )

-- From any state of the registers, `motor_start` sets exactly the bits that `IsStarted` names, and
-- leaves every other bit as it was.
pub motor_start-IsStarted : (r : Timer) → IsStarted r (motor_start r)
unfolding motor_start holds_below bit_at
motor_start-IsStarted r = record {
  rcc_4 = bit_at-set_bits (0x1 << 5) (one_bit 5) refl r.rcc_4;
  moder = start_moder r;
  afr = start_afr r;
  rcc_2 = bit_at-set_bits (0x1 << 3) (one_bit 3) refl r.rcc_2;
  pwm = (refl, refl, refl);
  ccmr1 = start_ccmr1 r;
  ccer = start_ccer r;
  cr1 = start_cr1 r;
  bdtr = bit_at-set_bits (0x1 << 15) (one_bit 15) refl r.bdtr;
}

-- From any state of the registers, `motor_stop` sets exactly the bits that `IsStopped` names, and
-- leaves every other bit as it was.
pub motor_stop-IsStopped : (r : Timer) → IsStopped r (motor_stop r)
unfolding motor_stop holds_below bit_at
motor_stop-IsStopped r = record {
  rcc_4 = bit_at-clear_bits (0x1 << 5) (one_bit 5) refl r.rcc_4;
  moder = stop_moder r;
  afr = bit_at-set_bits (0xF << 24) (span 24 27) refl r.afr;
  rcc_2 = bit_at-clear_bits (0x1 << 3) (one_bit 3) refl r.rcc_2;
  pwm = (refl, refl, refl);
  ccmr1 = stop_ccmr1 r;
  ccer = stop_ccer r;
  cr1 = stop_cr1 r;
  bdtr = bit_at-clear_bits (0x1 << 15) (one_bit 15) refl r.bdtr;
}
