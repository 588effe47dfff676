-- ===== src/Cgi/View.antt =====
-- cgisrc/garden_stuff_view.c: the page that shows the climate and the state of the devices. What it
-- prints is modelled by what it says: the state of each device, and that of the request.
use cloud_system.Base.{ℕ, Bool, not, Option, none, some, List, ◌==◌, if◌then◌else◌, bit_and}
use cloud_system.Message.{Msg, Env, Limitset, zeroed}
use cloud_system.Cgi.Session.{Begun, submit}

-- 照明, 温控 and 水泵: whether the lamps are on, the fan's level, and whether the motor is on. A fan
-- cell is `none` where the code prints no cell.
pub record Shown : Type 0 where
  pub light : Bool
  pub fan : Option ℕ
  pub pump : Bool

unfoldable pub light_cell : ℕ → Bool
light_cell devstatus = not (bit_and devstatus 0x01 == 0)

unfoldable pub fan_cell : ℕ → Option ℕ
fan_cell devstatus =
    if bit_and devstatus 0x06 == 0x00
    then some 0
    else if bit_and devstatus 0x06 == 0x02
    then some 1
    else if bit_and devstatus 0x06 == 0x04
    then some 2
    else if bit_and devstatus 0x06 == 0x06
    then some 3
    else none

unfoldable pub pump_cell : ℕ → Bool
pump_cell devstatus = not (bit_and devstatus 0x08 == 0)

unfoldable pub status_cells : ℕ → Shown
unfolding light_cell fan_cell pump_cell
status_cells s = record { light = light_cell s; fan = fan_cell s; pump = pump_cell s }

-- The page: the name, the limits, the climate and the devices; or the notice that the data could
-- not be had.
pub data Page (F : Type 0) : Type 0 where
  table : List ℕ → Limitset F → Env F → Shown → Page F
  unreachable : Page F

module _ {F : Type 0} where
  -- From the answer in `msg`.
  unfoldable pub show : List ℕ → Msg F → Page F
  show name msg =
      if msg.user.flags == 1
      then table name msg.limitset msg.envdata (status_cells msg.envdata.devstatus)
      else unreachable

  -- The request of the page, but for its type.
  unfoldable pub fill : F → Msg F
  fill zero = record (zeroed zero) { commd = 1 }

  -- `cgiMain` up to its wait.
  unfoldable pub cgi_main : F → (key_ok queue_ok : Bool) → List ℕ → List (Msg F) → Begun F
  unfolding fill
  cgi_main zero key_ok queue_ok cookie q = submit key_ok queue_ok cookie (fill zero) q
