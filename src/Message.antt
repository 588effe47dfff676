-- ===== src/Message.antt =====
-- The messages of include/myhead.h: `user_t`, `env_t`, `limitset_t` and `msg_t`, which the web
-- pages, the server and the device exchange, and the System V message queue that carries them.
-- `msg_arm_t`, the device's type, has the same fields in the same order and size.
-- The type of `float` is a parameter.
pub mod Queue
pub mod Kind
use cloud_system.Base.{ℕ, List, [], ℤ, pos}

-- A byte array is the bytes before its first NUL.
pub record User : Type 0 where
  pub username : List ℕ
  pub password : List ℕ
  pub flags : ℕ

pub record Env (F : Type 0) : Type 0 where
  pub temp : F
  pub hume : F
  pub lux : F
  pub devstatus : ℕ

pub record Limitset (F : Type 0) : Type 0 where
  pub tempup : F
  pub tempdown : F
  pub humeup : F
  pub humedown : F
  pub luxup : F
  pub luxdown : F

pub record Msg (F : Type 0) : Type 0 where
  pub msgtype : ℤ
  pub commd : ℕ
  pub user : User
  pub envdata : Env F
  pub limitset : Limitset F
  pub devctrl : ℕ

-- `memset(&msg, 0, sizeof(msg))`; `zero` is the `float` whose bytes are all 0.
abbrev pub zeroed : {F : Type 0} → F → Msg F
zeroed zero = record {
  msgtype = pos 0;
  commd = 0;
  user = record { username = []; password = []; flags = 0 };
  envdata = record { temp = zero; hume = zero; lux = zero; devstatus = 0 };
  limitset = record {
    tempup = zero;
    tempdown = zero;
    humeup = zero;
    humedown = zero;
    luxup = zero;
    luxdown = zero;
  };
  devctrl = 0;
}

abbrev pub with_flags : {F : Type 0} → ℕ → Msg F → Msg F
with_flags f m = record m { user = record (m.user) { flags = f } }

abbrev pub with_type : {F : Type 0} → ℤ → Msg F → Msg F
with_type t m = record m { msgtype = t }
