-- ===== src/Cgi/Register/Table.antt =====
-- What registration does to the table of users, for a database that answers as SQL says.
use cloud_system.Base.{
  ℕ, ◌≡◌, ◌+◌, true, none, some, List, [], ◌∷◌, ◌++◌, if◌then◌else◌, str_eq, inr, ◌&&◌,
}
use cloud_system.Cgi.Login.{sql}
use cloud_system.Cgi.Register.{Database, select_text, insert_text}
use cloud_system.Cgi.Register.Text.{quote_free}

-- A user's name and password.
abbrev pub Row : Type 0
Row = List ℕ × List ℕ

-- How many rows have the name, and how many have the name and the password.
abbrev pub count_name : List ℕ → List Row → ℕ
count_name u [] = 0
count_name u ((n, q) ∷ rows) = (if str_eq n u then 1 else 0) + count_name u rows

abbrev pub count_both : List ℕ → List ℕ → List Row → ℕ
count_both u p [] = 0
count_both u p ((n, q) ∷ rows) = (if str_eq n u && str_eq q p then 1 else 0) + count_both u p rows

-- What SQL says of the pages' statements, on fields without quotes: a query that gives no error counts
-- the rows that fit, an insertion that gives no error adds the row, and one that fails changes nothing.
pub record IsLawful (D : Database) (rows : D.State → List Row) : Type 0 where
  pub selects :
      (s : D.State) (u : List ℕ) (n : ℕ)
      → quote_free u ≡ true
      → D.get_table s (select_text u) ≡ inr n
      → n ≡ count_name u (rows s)
  pub finds :
      (s : D.State) (u p : List ℕ) (n : ℕ)
      → quote_free u ≡ true
      → quote_free p ≡ true
      → D.get_table s (sql u p) ≡ inr n
      → n ≡ count_both u p (rows s)
  pub inserts :
      (s : D.State) (u p : List ℕ)
      → quote_free u ≡ true
      → quote_free p ≡ true
      → (D.exec s (insert_text u p)).0 ≡ none
      → rows (D.exec s (insert_text u p)).1 ≡ rows s ++ (u, p) ∷ []
  pub refuses :
      (s : D.State) (u p e : List ℕ)
      → quote_free u ≡ true
      → quote_free p ≡ true
      → (D.exec s (insert_text u p)).0 ≡ some e
      → rows (D.exec s (insert_text u p)).1 ≡ rows s
