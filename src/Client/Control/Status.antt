-- ===== src/Client/Control/Status.antt =====
-- Bit by bit, what a control command does to the status byte.
use cloud_system.Base.{
  ℕ, ◌+◌, ◌-◌, ◌*◌, ◌^◌, ◌<◌, ◌≡◌, refl, Bool, true, arith, ◌==◌, ==_iff, ltb, not, ◌&&◌, ◌||◌,
  holds_below, holds_below_sound, if◌then◌else◌, min, max, bit_and, bit_or, bit_at, bit_at-le-one,
  bit_at-bit_and, bit_at-bit_or, bit_at_low, bit_and_lowest, bit_and_middle, bit_and_fourth,
  set_bits8, clear_bits8,
}
use cloud_system.Client.Control.{
  light_status, motor_status, motor_cycle, fan_status, fan_cycle, control_status,
}

pub bit_at-set_bits8 :
    (c m k : ℕ) → k < 8 → bit_at (set_bits8 c m) k ≡ max (bit_at c k) (bit_at m k)
bit_at-set_bits8 c m k h = rw (bit_at_low (bit_or c m) k h) (bit_at-bit_or c m k)

pub bit_at-clear_bits8 :
    (c m k : ℕ) → k < 8 → bit_at (clear_bits8 c m) k ≡ min (bit_at c k) (bit_at (2 ^ 32 - 1 - m) k)
bit_at-clear_bits8 c m k h = rw (bit_at_low (bit_and c (2 ^ 32 - 1 - m)) k h) (bit_at-bit_and c _ k)

-- The bits of the masks and of their complements, as tables.
abbrev pub bit_if : Bool → ℕ
bit_if b = if b then 1 else 0

abbrev pub Mask : ℕ → (ℕ → Bool) → Type 0
Mask m sel =
    (k : ℕ)
    → k < 8
    → (bit_at m k ≡ bit_if (sel k)) × (bit_at (2 ^ 32 - 1 - m) k ≡ bit_if (not (sel k)))

Mask-table :
    (m : ℕ) (sel : ℕ → Bool)
    → holds_below 8
        (λ k. (bit_at m k == bit_if (sel k)) && (bit_at (2 ^ 32 - 1 - m) k == bit_if (not (sel k))))
      ≡ true
    → Mask m sel
Mask-table m sel h k lt =
    let both = holds_below_sound 8 _ h k lt in
    ((==_iff _ _).0 (ground arith), (==_iff _ _).0 (ground arith))

pub light-Mask : Mask 0x01 (λ k. k == 0)
unfolding holds_below bit_at
light-Mask = Mask-table 0x01 _ refl

pub motor-Mask : Mask 0x08 (λ k. k == 3)
unfolding holds_below bit_at
motor-Mask = Mask-table 0x08 _ refl

pub fan-Mask : Mask 0x06 (λ k. (k == 1) || (k == 2))
unfolding holds_below bit_at
fan-Mask = Mask-table 0x06 _ refl

low-Mask : Mask 0x02 (λ k. k == 1)
unfolding holds_below bit_at
low-Mask = Mask-table 0x02 _ refl

high-Mask : Mask 0x04 (λ k. k == 2)
unfolding holds_below bit_at
high-Mask = Mask-table 0x04 _ refl

light_bit :
    (d s k : ℕ) → k < 8 → bit_at (light_status d s) k ≡ (if k == 0 then bit_at d 0 else bit_at s k)
unfolding light_status
light_bit d s k h = ground (
  arith,
  bit_and_lowest d,
  bit_at-le-one d 0,
  bit_at-le-one s k,
  bit_at-set_bits8 s 1 k h,
  bit_at-clear_bits8 s 1 k h,
  light-Mask k h,
)

motor_bit :
    (d s k : ℕ) → k < 8 → bit_at (motor_status d s) k ≡ (if k == 3 then bit_at d 3 else bit_at s k)
unfolding motor_status
motor_bit d s k h = ground (
  arith,
  bit_and_fourth d,
  bit_at-le-one d 3,
  bit_at-le-one s k,
  bit_at-set_bits8 s 8 k h,
  bit_at-clear_bits8 s 8 k h,
  motor-Mask k h,
)

fan_bit :
    (d s k : ℕ)
    → k < 8
    → bit_at (fan_status d s) k
      ≡ (if k == 1 then bit_at d 1 else if k == 2 then bit_at d 2 else bit_at s k)
unfolding fan_status
fan_bit d s k h = ground (
  arith,
  bit_and_middle d,
  bit_at-le-one d 1,
  bit_at-le-one d 2,
  bit_at-le-one s k,
  bit_at-set_bits8 (clear_bits8 s 6) 2 k h,
  bit_at-set_bits8 (clear_bits8 s 6) 4 k h,
  bit_at-set_bits8 (clear_bits8 s 6) 6 k h,
  bit_at-clear_bits8 s 6 k h,
  fan-Mask k h,
  low-Mask k h,
  high-Mask k h,
)

-- The command's low four bits become the status byte's, and its high four bits are as they were.
pub control_status_bit :
    (d s k : ℕ)
    → k < 8
    → bit_at (control_status d s) k ≡ (if ltb k 4 then bit_at d k else bit_at s k)
unfolding control_status
control_status_bit d s k h = ground (
  arith,
  light_bit d s k h,
  motor_bit d (light_status d s) k h,
  fan_bit d (motor_status d (light_status d s)) k h,
)

-- The levels that the command sets: the fan's is its bits 1 and 2 as a number, the motor's bit 3.
pub cycles_lem :
    (d : ℕ) → (fan_cycle d ≡ bit_at d 1 + 2 * bit_at d 2) × (motor_cycle d ≡ bit_at d 3)
unfolding fan_cycle motor_cycle
cycles_lem d = (
  ground (arith, bit_and_middle d, bit_at-le-one d 1, bit_at-le-one d 2),
  ground (arith, bit_and_fourth d, bit_at-le-one d 3),
)
