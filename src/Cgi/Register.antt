-- ===== src/Cgi/Register.antt =====
-- cgisrc/register.c: the registration page, which adds a user to the database that the login page
-- asks. The database is a parameter; the three fields are what `cgiFormString` put into them.
pub mod Text
pub mod Table
pub mod Recorded
pub mod Unique
pub mod Submit
pub mod Race
pub mod Memory
mod Tests
use cloud_system.Cgi.{Form}
use cloud_system.Base.{
  ℕ, Bool, not, ◌||◌, Option, none, some, List, ◌++◌, ◌==◌, if◌then◌else◌, ltb, length, codes,
  str_eq, ◌⊎◌, inl, inr,
}

-- What the page prints; the two errors of the database are printed with its text.
pub data Page : Type 0 where
  empty differ db_failed taken registered : Page
  query_failed insert_failed : (errmsg : List ℕ) → Page

-- SQLite, as the pages call it: `sqlite3_open`, `sqlite3_get_table`, which gives an error or the number
-- of rows, and `sqlite3_exec`, which gives an error or none.
pub record Database : Type 1 where
  pub State : Type 0
  pub opens : State → Bool
  pub get_table : State → List ℕ → List ℕ ⊎ ℕ
  pub exec : State → List ℕ → Option (List ℕ) × State

-- The two texts of `sql`.
unfoldable pub select_text : List ℕ → List ℕ
select_text username = codes "select * from Iot where username = '" ++ (username ++ codes "';")

unfoldable pub insert_text : List ℕ → List ℕ → List ℕ
insert_text username password =
    codes "insert into Iot (username, password) values ('"
    ++ (username ++ (codes "', '" ++ (password ++ codes "');")))

-- The page up to the insertion: what it prints, or the text that inserts the user.
unfoldable pub examine :
    (D : Database) → D.State → (username password password2 : List ℕ) → Page ⊎ List ℕ
examine D s username password password2 =
    if (length username == 0) || (length password == 0)
    then inl Page.empty
    else if not (str_eq password password2)
    then inl Page.differ
    else if not (D.opens s)
    then inl Page.db_failed
    else (elim (D.get_table s (select_text username)) [
      | inl errmsg ↦ inl (Page.query_failed errmsg)
      | inr nrow ↦ if ltb 0 nrow then inl Page.taken else inr (insert_text username password)
    ])

abbrev pub outcome : Option (List ℕ) → Page
outcome none = Page.registered
outcome (some errmsg) = Page.insert_failed errmsg

unfoldable pub commit : (D : Database) → D.State → List ℕ → Page × D.State
commit D s text = (outcome (D.exec s text).0, (D.exec s text).1)

-- The page behind the reading of the form.
unfoldable pub register :
    (D : Database) → D.State → (username password password2 : List ℕ) → Page × D.State
register D s username password password2 = elim (examine D s username password password2) [
  | inl page ↦ (page, s)
  | inr text ↦ commit D s text
]

-- `cgiMain`
unfoldable pub cgi_main : (D : Database) → D.State → Form → Page × D.State
cgi_main D s form =
    register D s (form (codes "username1") 20) (form (codes "password1") 20)
      (form (codes "password2") 20)
