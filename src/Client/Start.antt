-- ===== src/Client/Start.antt =====
-- `main` of src/client.c up to its loop, and `client_network_init`.
mod Tests
use cloud_system.Base.{
  ℕ, ◌≡◌, ◌⊎◌, refl, Bool, true, false, not, none, some, arith, ◌==◌, if◌then◌else◌, ℤ, pos, is_neg,
  int_eq, minus_one, codes, ◌&&◌, ◌↔◌, inl, inr, Option, List,
}
use cloud_system.Message.{Msg, User}
use cloud_system.Client.Shutdown.{close_device, close_device-spins, writes}

-- The descriptors of the devices, which are globals: 0 before `open`.
pub record Fds : Type 0 where
  pub si7006 : ℤ
  pub ap3216 : ℤ
  pub led : ℤ
  pub fan : ℤ
  pub motor : ℤ

abbrev pub unopened : Fds
unopened = record { si7006 = pos 0; ap3216 = pos 0; led = pos 0; fan = pos 0; motor = pos 0 }

-- `struct sockaddr_in`.
pub record SockAddr : Type 0 where
  pub sin_family : ℕ
  pub sin_port : ℕ
  pub s_addr : ℕ

-- AF_INET
abbrev pub af_inet : ℕ
af_inet = 2

-- The arguments `ip` and `port`, and what the calls give: `opens` the results of `open`, `answer` the
-- flag in the server's answer, which is that of the own message if `recv` gives an end of file.
pub record Setup : Type 0 where
  pub argc : ℕ
  pub ip : List ℕ
  pub port : ℕ
  pub config : Bool
  pub opens : Fds
  pub socket : Bool
  pub htons : ℕ → ℕ
  pub inet_addr : List ℕ → ℕ
  pub connect : SockAddr → Bool
  pub send : Bool
  pub recv : Bool
  pub answer : ℕ

-- How the start ends: with the usage, by `PRINT_ERR`, by an exit without `close_device`, by a login
-- that the server refuses, or in the loop.
pub data Start : Type 0 where
  usage : Start
  print_err : Fds → Start
  exited : Fds → Start
  refused : Fds → Start
  serves : Fds → Start

-- `strcpy` of the name and the password into the message of the login.
unfoldable pub credentials : User → User
credentials u = record u { username = codes "admin"; password = codes "123456" }

-- The address that is filled in; `none` is an exit.
unfoldable pub client_network_init : Setup → Option SockAddr
client_network_init s =
    if not s.socket
    then none
    else some
        (record { sin_family = af_inet; sin_port = s.htons s.port; s_addr = s.inet_addr s.ip })

-- From `client_network_init` on.
unfoldable pub connects : Setup → Start
unfolding client_network_init
connects s = elim (client_network_init s) [
  | none ↦ exited s.opens
  | some server_addr ↦
      if not (s.connect server_addr)
      then print_err s.opens
      else if not s.send
      then print_err s.opens
      else if not s.recv
      then print_err s.opens
      else if s.answer == 1
      then serves s.opens
      else refused s.opens
]

-- From the `open` of the lamps on.
unfoldable pub opens_outputs : Setup → Start
unfolding connects
opens_outputs s =
    if int_eq s.opens.led minus_one
    then print_err (record (s.opens) { fan = pos 0; motor = pos 0 })
    else if int_eq s.opens.fan minus_one
    then print_err (record (s.opens) { motor = pos 0 })
    else if int_eq s.opens.motor minus_one
    then print_err s.opens
    else connects s

unfoldable pub starts : Setup → Start
unfolding opens_outputs
starts s =
    if not (s.argc == 3)
    then usage
    else if not s.config
    then print_err unopened
    else if int_eq s.opens.si7006 minus_one
    then print_err (record unopened { si7006 = s.opens.si7006 })
    else if int_eq s.opens.ap3216 minus_one
    then print_err (record unopened { si7006 = s.opens.si7006; ap3216 = s.opens.ap3216 })
    else opens_outputs s

-- Every call succeeds.
record AllWell (s : Setup) : Type 0 where
  pub argc : s.argc ≡ 3
  pub config : s.config ≡ true
  pub si7006 : int_eq s.opens.si7006 minus_one ≡ false
  pub ap3216 : int_eq s.opens.ap3216 minus_one ≡ false
  pub led : int_eq s.opens.led minus_one ≡ false
  pub fan : int_eq s.opens.fan minus_one ≡ false
  pub motor : int_eq s.opens.motor minus_one ≡ false
  pub socket : s.socket ≡ true
  pub connect :
      s.connect
        (record { sin_family = af_inet; sin_port = s.htons s.port; s_addr = s.inet_addr s.ip })
      ≡ true
  pub send : s.send ≡ true
  pub recv : s.recv ≡ true
  pub answer : s.answer ≡ 1

-- The client serves exactly when every call succeeds, `connect` with the address and the port of the
-- arguments among them, and the server's answer has flag 1, and then it holds the five descriptors
-- that `open` gave.
starts-serves : (s : Setup) → (starts s ≡ serves s.opens) ↔ AllWell s
unfolding starts
starts-serves s = (λ h. ground arith, λ w. ground arith)

-- The start comes to the `open` of the fan.
pub record ReachesFan (s : Setup) : Type 0 where
  pub argc : s.argc ≡ 3
  pub config : s.config ≡ true
  pub si7006 : int_eq s.opens.si7006 minus_one ≡ false
  pub ap3216 : int_eq s.opens.ap3216 minus_one ≡ false
  pub led : int_eq s.opens.led minus_one ≡ false

module _ (s : Setup) (fan motor : ℕ → Bool) (k : ℕ) (reaches : ReachesFan s) where
  -- When the fan or the motor cannot be opened, the start calls `PRINT_ERR`, and whatever the drivers
  -- answer, its `close_device` does not end, however many calls it makes: the write to the descriptor
  -- -1 fails each time.
  pub starts-hangs :
      (s.opens.fan ≡ minus_one)
        ⊎ ((int_eq s.opens.fan minus_one ≡ false) × (s.opens.motor ≡ minus_one))
      → (fds : Fds) × (starts s ≡ print_err fds)
        × (close_device k (writes fds.fan fan) (writes fds.motor motor) 0 ≡ none)
  unfolding starts
  starts-hangs (inl no_fan) = (
    record (s.opens) { motor = pos 0 },
    ground arith,
    close_device-spins _ _ k 0 λ j. ground arith,
  )
  starts-hangs (inr (has_fan, no_motor)) =
      (s.opens, ground arith, close_device-spins _ _ k 0 λ j. ground arith)
