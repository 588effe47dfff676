-- ===== src/Driver/Timer.antt =====
-- The registers that mydev/fan/fan.c and mydev/motor/motor.c map: the clock gates, one GPIO port,
-- and one timer that makes the PWM signal. `moder` and `afr` are `gpioe_moder` and `gpioe_afrh` in
-- the fan, `gpiof_moder` and `gpiof_afrl` in the motor; the timer is TIM1 or TIM16.
pub mod Bits
use cloud_system.Base.{ℕ}

pub record Timer : Type 0 where
  pub rcc_4 : ℕ
  pub rcc_2 : ℕ
  pub moder : ℕ
  pub afr : ℕ
  pub psc : ℕ
  pub arr : ℕ
  pub ccr1 : ℕ
  pub ccmr1 : ℕ
  pub ccer : ℕ
  pub cr1 : ℕ
  pub bdtr : ℕ
