-- ===== src/Cgi/Dev.antt =====
-- cgisrc/garden_stuff_dev.c: the page that sets the devices. Its form has the fields LED, FAN and
-- BEEP; the last is the motor's.
use cloud_system.Base.{
  ℕ, Bool, List, [], ◌∷◌, ◌==◌, if◌then◌else◌, codes, str_eq, set_bits8, clear_bits8,
}
use cloud_system.Message.{Msg, zeroed}
use cloud_system.Cgi.{Form}
use cloud_system.Cgi.Session.{Begun, submit}

-- `data[0]` of an array that was zeroed.
abbrev pub first_char : List ℕ → ℕ
first_char [] = 0
first_char (c ∷ cs) = c

abbrev pub on : List ℕ
on = codes "ON"

-- The bit of LED into `devctrl`.
unfoldable pub led_ctrl : List ℕ → ℕ → ℕ
led_ctrl text ctrl = if str_eq on text then set_bits8 ctrl 0x01 else clear_bits8 ctrl 0x01

-- The two bits of FAN, by its first character.
unfoldable pub fan_ctrl : ℕ → ℕ → ℕ
fan_ctrl c ctrl =
    if c == b'0'
    then clear_bits8 ctrl 0x06
    else if c == b'1'
    then set_bits8 (clear_bits8 ctrl 0x06) 0x02
    else if c == b'2'
    then set_bits8 (clear_bits8 ctrl 0x06) 0x04
    else if c == b'3'
    then set_bits8 (clear_bits8 ctrl 0x06) 0x06
    else clear_bits8 ctrl 0x06

-- The bit of BEEP.
unfoldable pub beep_ctrl : List ℕ → ℕ → ℕ
beep_ctrl text ctrl = if str_eq on text then set_bits8 ctrl 0x08 else clear_bits8 ctrl 0x08

-- `devctrl` from the form, over the 0 that `memset` left.
unfoldable pub devctrl_of : Form → ℕ
unfolding led_ctrl fan_ctrl beep_ctrl
devctrl_of form =
    beep_ctrl (form (codes "BEEP") 10)
      (fan_ctrl (first_char (form (codes "FAN") 2)) (led_ctrl (form (codes "LED") 10) 0))

-- The message that the page sends, but for its type, which Cgi/Session gives.
unfoldable pub fill : {F : Type 0} → F → Form → Msg F
fill zero form = record (zeroed zero) { commd = 3; devctrl = devctrl_of form }

-- `cgiMain` up to its wait.
unfoldable pub cgi_main :
    {F : Type 0} → F → Form → (key_ok queue_ok : Bool) → List ℕ → List (Msg F) → Begun F
unfolding fill
cgi_main zero form key_ok queue_ok cookie q = submit key_ok queue_ok cookie (fill zero form) q
