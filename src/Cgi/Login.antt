-- ===== src/Cgi/Login.antt =====
-- cgisrc/login.c: the login page, which asks the database for the user and the server for the user's
-- device. The database is an argument.
pub mod Turn
pub mod Sql
mod Tests
use cloud_system.Cgi.{Form}
use cloud_system.Base.{
  ℕ, zero, suc, Bool, not, Option, none, some, List, ◌++◌, ◌==◌, if◌then◌else◌, codes, str_eq, pos,
  ◌⊎◌, inl, inr,
}
use cloud_system.Message.{Msg, zeroed}
use cloud_system.Message.Queue.{msgrcv, sent}

-- What the page prints.
pub data Page : Type 0 where
  db_failed query_failed wrong offline : Page
  redirect : (cookie : List ℕ) → Page

-- The text of `sql`.
unfoldable pub sql : List ℕ → List ℕ → List ℕ
sql username password =
    codes "select * from Iot where username = '"
    ++ (username ++ (codes "' and password = '" ++ (password ++ codes "';")))

module _ {F : Type 0} where
  -- `alarm` calls `handler` while the page waits; `msg` is the global, which a failing `msgrcv` leaves
  -- as it was. The queue that is left; `none`: the fuel ran out.
  unfoldable pub handler : ℕ → List ℕ → Msg F → List (Msg F) → Option (List (Msg F))
  handler zero username msg q = none
  handler (suc k) username msg q = elim (msgrcv (pos 1) q) [
    | none ↦
        let again = handler k username msg (sent msg q) in
        if str_eq username msg.user.username then some q else again
    | some (m, rest) ↦
        let again = handler k username m (sent m rest) in
        if str_eq username m.user.username then some rest else again
  ]

  -- The page up to the wait: what it prints, or the message that it puts into the queue. `query`
  -- gives the number of rows, or an error.
  unfoldable pub submit :
      F → (open_ok : Bool) → (List ℕ → Option ℕ) → List ℕ → List ℕ → Page ⊎ Msg F
  unfolding sql
  submit float_zero open_ok query username password =
      if not open_ok then inl Page.db_failed else (elim (query (sql username password)) [
        | none ↦ inl Page.query_failed
        | some nrow ↦
            if nrow == 0
            then inl Page.wrong
            else inr (record (zeroed float_zero) {
              msgtype = pos 1;
              user = record { username = username; password = List.[]; flags = 0 };
            })
      ])

  -- The page behind the wait, with the server's answer.
  unfoldable pub conclude : List ℕ → Msg F → Page
  conclude username msg = if msg.user.flags == 1 then Page.redirect username else Page.offline

-- The page up to its wait: it has failed, has printed something, or waits for an answer about the user,
-- over the queue that it leaves.
pub data Begun (F : Type 0) : Type 0 where
  failed : Begun F
  printed : Page → Begun F
  waits : (username : List ℕ) → List (Msg F) → Begun F

module _ {F : Type 0} where
  -- `cgiMain` up to its wait, by whether `ftok`, `msgget` and `sqlite3_open` succeed.
  unfoldable pub cgi_main :
      F → (key_ok queue_ok open_ok : Bool) → (List ℕ → Option ℕ) → Form → List (Msg F) → Begun F
  cgi_main float_zero key_ok queue_ok open_ok query form q =
      if not key_ok
      then failed
      else if not queue_ok
      then failed
      else (elim (submit float_zero open_ok query (form (codes "ID") 20)
          (form (codes "PASSWORD") 20)) [
            | inl page ↦ printed page
            | inr m ↦ waits (form (codes "ID") 20) (sent m q)
          ])
