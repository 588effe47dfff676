-- ===== src/Control.antt =====
-- From the form of the control page to the table of the view page: cgisrc/garden_stuff_dev.c writes
-- a command, `ctrldev_thread` of src/client.c carries it out, and cgisrc/garden_stuff_view.c reads
-- the status that it leaves.
use cloud_system.Base.{
  ℕ, ◌<◌, ◌≡◌, some, arith, ◌==◌, if◌then◌else◌, codes, str_eq, bit_at, bit_and_lowest,
  bit_and_middle, bit_and_fourth, ◌∙◌,
}
use cloud_system.Cgi.{Form}
use cloud_system.Cgi.Dev.{on, first_char, devctrl_of}
use cloud_system.Cgi.View.{Shown, status_cells}
use cloud_system.Client.Control.{control_status}
use cloud_system.Client.Control.Status.{control_status_bit}

-- What the user chose: the lamps and the motor are on where the field says ON, and the fan has the
-- level that its field begins with, and is off where that is no level.
unfoldable pub level : ℕ → ℕ
level c = if c == b'1' then 1 else if c == b'2' then 2 else if c == b'3' then 3 else 0

unfoldable pub wanted : Form → Shown
unfolding level
wanted form = record {
  light = str_eq on (form (codes "LED") 10);
  fan = some (level (first_char (form (codes "FAN") 2)));
  pump = str_eq on (form (codes "BEEP") 10);
}

-- The status cells read the low four bits.
pub cells_of_bits :
    (s d : ℕ) → ((k : ℕ) → k < 4 → bit_at s k ≡ bit_at d k) → status_cells s ≡ status_cells d
unfolding status_cells
cells_of_bits s d same = ground (
  arith,
  same 0 (omega arith),
  same 1 (omega arith),
  same 2 (omega arith),
  same 3 (omega arith),
  bit_and_lowest s,
  bit_and_lowest d,
  bit_and_middle s,
  bit_and_middle d,
  bit_and_fourth s,
  bit_and_fourth d,
)

devctrl_of-cells : (form : Form) → status_cells (devctrl_of form) ≡ wanted form
unfolding devctrl_of wanted status_cells
devctrl_of-cells form = ground arith

-- Whatever the status was before, once the device has carried out the command of the control page,
-- the view page shows what the form had asked for: the lamps, the fan's level and the motor.
pub status_cells-control_status :
    (form : Form) (status : ℕ)
    → status_cells (control_status (devctrl_of form) status) ≡ wanted form
status_cells-control_status form status =
    cells_of_bits _ (devctrl_of form)
      (λ k h. ground (arith, control_status_bit (devctrl_of form) status k))
    ∙ devctrl_of-cells form
