-- ===== src/Driver/Led/Lamps.antt =====
-- The six lamps together, as the device switches them.
use cloud_system.Base.{
  ℕ, ◌≡◌, refl, Bool, true, false, List, [], ◌∷◌, arith, if◌then◌else◌, ℤ, int_eq,
}
use cloud_system.Driver.Led.{Board, Wiring, Command, led_set_value, myleds_ioctl}

abbrev pub command : Bool → Command
command on = if on then Command.led_on else Command.led_off

-- One `ioctl` for each number, from left to right.
unfoldable pub switch : Wiring → Bool → List ℕ → Board → Board
switch w on [] b = b
switch w on (n ∷ ns) b = switch w on ns (myleds_ioctl w (command on) true n b).0

abbrev pub level : Bool → ℕ
level on = if on then 1 else 0

-- Whether the line is that of a lamp.
abbrev pub is_lamp : Wiring → ℤ → Bool
is_lamp w x =
    if int_eq x w.c0
    then true
    else if int_eq x w.c1
    then true
    else if int_eq x w.c2
    then true
    else if int_eq x w.e0
    then true
    else if int_eq x w.e1
    then true
    else int_eq x w.e2

-- The loop over the numbers 1 to 6 puts the line of every lamp to the level asked for, whatever the
-- wiring, and no other line; the lines held stay the same.
pub switch_all :
    (w : Wiring) (on : Bool) (b : Board) (x : ℤ)
    → let c = switch w on (1 ∷ 2 ∷ 3 ∷ 4 ∷ 5 ∷ 6 ∷ []) b in
      (c.lines x ≡ (if is_lamp w x then level on else b.lines x)) × (c.gpios x ≡ b.gpios x)
unfolding switch myleds_ioctl led_set_value
switch_all w true b x = (ground arith, refl)
switch_all w false b x = (ground arith, refl)
