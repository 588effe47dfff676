-- ===== src/Cgi/Session.antt =====
-- What the three garden pages share: the device's name from the cookie, the request through the
-- message queue, and the alarm that ends the wait.
pub mod Cookie
pub mod Timeout
use cloud_system.Base.{
  ℕ, zero, suc, Bool, true, false, not, Option, none, some, List, [], ◌∷◌, ◌==◌, if◌then◌else◌, ℤ,
  pos, double, half,
}
use cloud_system.Message.{Msg, with_type}
use cloud_system.Message.Kind.{type_of}
use cloud_system.Message.Queue.{msgrcv, sent}

-- `while(*s!='=') s++; s++;` on the 128 bytes of `name`; `none` is a read behind them.
unfoldable pub skip_to_value : List ℕ → Option (List ℕ)
skip_to_value [] = none
skip_to_value (c ∷ cs) = if c == b'=' then some cs else skip_to_value cs

-- `while(*s) { buf[i] = *s; msg.msgtype += *s; s++; i++; }`: the bytes that are copied to `buf`,
-- which is as long as `name`.
unfoldable pub read_value : List ℕ → Option (List ℕ)
read_value [] = none
read_value (c ∷ cs) =
    if c == 0 then some [] else elim (read_value cs) [ none ↦ none | some r ↦ some (c ∷ r) ]

-- The name of the device: what `buf` holds.
unfoldable pub device_name : List ℕ → Option (List ℕ)
unfolding skip_to_value read_value
device_name name = elim (skip_to_value name) [ none ↦ none | some s ↦ read_value s ]

-- `rettype = msg.msgtype * 2`
unfoldable pub rettype : List ℕ → ℤ
rettype buf = double (type_of buf)

module _ {F : Type 0} where
  -- The page's request: `msg` as the page has filled it in, under the device's type.
  unfoldable pub request : List ℕ → Msg F → Msg F
  request buf msg = with_type (type_of buf) msg

  -- `handler`, which the alarm calls: it takes one message of the request's type out of the queue.
  unfoldable pub handler : ℤ → List (Msg F) → List (Msg F)
  handler ret q = elim (msgrcv (half ret) q) [ none ↦ q | some (m, rest) ↦ rest ]

-- A page up to its wait: it has failed, has read behind its buffer, or waits for messages of a type,
-- over the queue that it leaves.
pub data Begun (F : Type 0) : Type 0 where
  failed overrun : Begun F
  waits : (name : List ℕ) → ℤ → List (Msg F) → Begun F

module _ {F : Type 0} where
  -- `cgiMain` of a garden page up to its second `msgrcv`, over the cookie and the message as the page
  -- fills it in, by whether `ftok` and `msgget` succeed.
  unfoldable pub submit : (key_ok queue_ok : Bool) → List ℕ → Msg F → List (Msg F) → Begun F
  submit key_ok queue_ok cookie msg q =
      if not key_ok then failed else if not queue_ok then failed else (elim (device_name cookie) [
        | none ↦ overrun
        | some name ↦ waits name (rettype name) (sent (request name msg) q)
      ])

  -- What the pages for the limits and the devices say of the answer.
  unfoldable pub accepted : Msg F → Bool
  accepted msg = msg.user.flags == 1
