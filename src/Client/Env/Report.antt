-- ===== src/Client/Env/Report.antt =====
-- From the climate to the table of the view page.
use cloud_system.Base.{
  ℕ, ◌≡◌, not, some, List, arith, if◌then◌else◌, bit_and_lowest, bit_and_middle, bit_and_fourth, ap,
}
use cloud_system.Floats.{Floats}
use cloud_system.Message.{Msg}
use cloud_system.Cgi.View.{Shown, Page, status_cells, show}
use cloud_system.Client.{Globals}
use cloud_system.Client.Env.{temp_ok, hume_ok, lux_ok, regulated, reported}
use cloud_system.Client.Env.Hold.{regulated_bit}

module _ (fl : Floats) (g : Globals fl.Float) where
  -- What the limits ask for.
  abbrev pub needed : Shown
  needed = record {
    light = not (lux_ok fl g);
    fan = some (if temp_ok fl g then 0 else 3);
    pump = not (hume_ok fl g);
  }

  status_cells-regulated : status_cells (regulated fl g).contdevstatus ≡ needed
  unfolding status_cells
  status_cells-regulated =
      let s = (regulated fl g).contdevstatus in
      ground (
        arith,
        bit_and_lowest s,
        bit_and_middle s,
        bit_and_fourth s,
        regulated_bit fl g 0 (omega arith),
        regulated_bit fl g 1 (omega arith),
        regulated_bit fl g 2 (omega arith),
        regulated_bit fl g 3 (omega arith),
      )

  -- After the limits have been tested, the answer of `getenv_thpread` makes the view page print the
  -- table, with the device's limits and its last measurements, the lamps on exactly when the light is
  -- not within its limits, the fan at level 3 exactly when the temperature is not, and else off, and
  -- the motor on exactly when the humidity is not.
  pub show-reported :
      (name : List ℕ) (buf : Msg fl.Float)
      → show name (reported fl buf (regulated fl g))
        ≡ Page.table name g.limits
            (record {
              temp = g.conttemp;
              hume = g.conthume;
              lux = g.contlux;
              devstatus = (regulated fl g).contdevstatus;
            })
            needed
  unfolding show reported regulated
  show-reported name buf =
      ap (Page.table name g.limits (reported fl buf (regulated fl g)).envdata)
        status_cells-regulated
