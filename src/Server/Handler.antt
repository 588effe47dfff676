-- ===== src/Server/Handler.antt =====
-- `handl_thread` of src/server.c, which serves one device: a state machine with a state for each
-- call that may block. `linksem` is taken and given back within a step where nothing blocks
-- between, and kept across steps in the one branch where the code waits for it twice.
pub mod Relay
pub mod Trap
pub mod Traffic
pub mod Orderly
pub mod Free
mod Tests
use Prim.Native.Nat.{pred}
use cloud_system.Base.{
  ℕ, zero, suc, ◌+◌, Bool, ◌&&◌, Option, none, some, List, [], ◌∷◌, if◌then◌else◌, codes, str_eq, ℤ,
  pos, double,
}
use cloud_system.Message.{Msg, with_flags, with_type}
use cloud_system.Message.Kind.{type_of}
use cloud_system.Message.Queue.{msgrcv, sent}
use cloud_system.Server.Link.Find.{holds_fd}
use cloud_system.Server.World.{World, Received, buffer, is_end, send, close, insert, delete}

-- Where the thread waits: in the first `recv`, for `linksem` before `insert_link`, in `msgrcv`, for
-- `linksem` before `find_fd`, for `linksem` again before `delete_link` of a device that has left
-- the list, in the `recv` of the answer, for `linksem` before `delete_link` of a device that hung
-- up; or it has ended.
pub data State : Type 0 where
  logging_in joining waiting checking dropping answering leaving ended : State

pub record Thread (F : Type 0) : Type 0 where
  pub state : State
  pub accept_fd : ℤ
  pub tid : ℕ
  pub buf : Msg F
  pub recvmsgtype : ℤ
  pub sendmsgtype : ℤ

abbrev pub id : List ℕ
id = codes "admin"

abbrev pub ps : List ℕ
ps = codes "123456"

module _ {F : Type 0} where
  -- `0 == strcmp(buf.user.username, ID) && 0 == strcmp(buf.user.password, PS)`
  abbrev pub is_admin : Msg F → Bool
  is_admin m = str_eq m.user.username id && str_eq m.user.password ps

  abbrev stop : World F → Thread F → World F × Thread F
  stop w t = (w, record t { state = State.ended })

  -- The answer to the login in `buf`.
  unfoldable pub login : World F → Thread F → Msg F → World F × Thread F
  login w t buf =
      if is_admin buf
      then (
        send t.accept_fd (with_flags 1 buf) w,
        record t {
          state = State.joining;
          buf = with_flags 1 buf;
          recvmsgtype = type_of buf.user.username;
          sendmsgtype = double (type_of buf.user.username);
        },
      )
      else stop (close t.accept_fd (send t.accept_fd (with_flags 0 buf) w)) t

  -- `login` from `Server.Handler`: the step from the first `recv`.
  unfoldable pub first_recv : World F → Thread F → Received F → World F × Thread F
  unfolding login
  first_recv w t r = if is_end r then stop (close t.accept_fd w) t else login w t (buffer t.buf r)

  -- `sem_wait`, and the step behind it.
  abbrev locked : World F → (World F → World F × Thread F) → Option (World F × Thread F)
  locked w next = elim w.linksem [ zero ↦ none | suc n ↦ some (next (record w { linksem = n })) ]

  abbrev unlock : World F → World F
  unlock w = record w { linksem = w.linksem + 1 }

  unfoldable pub join : World F → Thread F → Option (World F × Thread F)
  join w t = locked w λ v. (
    unlock (insert (record { id = t.buf.user.username; fd = t.accept_fd; tid = t.tid }) v),
    record t { state = State.waiting },
  )

  unfoldable pub await : World F → Thread F → Option (World F × Thread F)
  await w t = elim (msgrcv t.recvmsgtype w.queue) [
    | none ↦ none
    | some (m, rest) ↦
        some (record w { queue = rest }, record t { state = State.checking; buf = m })
  ]

  -- `find_fd` is 0, false to `if`, when the device is in the list.
  unfoldable pub check : World F → Thread F → Option (World F × Thread F)
  check w t = locked w λ v.
      if holds_fd t.accept_fd v.devices
      then (send t.accept_fd t.buf (unlock v), record t { state = State.answering })
      else (v, record t { state = State.dropping })

  unfoldable pub drop : World F → Thread F → Option (World F × Thread F)
  drop w t = locked w λ v.
      let failure = with_flags 0 (with_type t.sendmsgtype t.buf) in
      let u = unlock (delete t.accept_fd v) in
      stop (close t.accept_fd (record u { queue = sent failure u.queue })) t

  unfoldable pub answer : World F → Thread F → Received F → World F × Thread F
  answer w t r =
      if is_end r
      then (close t.accept_fd w, record t { state = State.leaving; buf = buffer t.buf r })
      else (
        record w { queue = sent (with_type t.sendmsgtype (buffer t.buf r)) w.queue },
        record t { state = State.waiting; buf = with_type t.sendmsgtype (buffer t.buf r) },
      )

  unfoldable pub leave : World F → Thread F → Option (World F × Thread F)
  leave w t = locked w λ v. stop (unlock (delete t.accept_fd v)) t

  -- One step of the thread, `none` while it is blocked. `r` is what `recv` gives, if it is called.
  unfoldable pub step : State → World F → Thread F → Received F → Option (World F × Thread F)
  unfolding first_recv join await check drop answer leave
  step State.logging_in w t r = some (first_recv w t r)
  step State.joining w t r = join w t
  step State.waiting w t r = await w t
  step State.checking w t r = check w t
  step State.dropping w t r = drop w t
  step State.answering w t r = some (answer w t r)
  step State.leaving w t r = leave w t
  step State.ended w t r = none

  -- `handl_thread`, from where the thread stands.
  abbrev pub handl_thread : World F → Thread F → Received F → Option (World F × Thread F)
  handl_thread w t r = step t.state w t r

  -- Several steps of the thread in a row.
  unfoldable pub steps : World F → Thread F → List (Received F) → Option (World F × Thread F)
  steps w t [] = some (w, t)
  steps w t (r ∷ rs) = elim (handl_thread w t r) [ none ↦ none | some (v, u) ↦ steps v u rs ]
