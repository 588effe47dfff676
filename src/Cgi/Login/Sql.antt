-- ===== src/Cgi/Login/Sql.antt =====
-- What the SQL text says of the form.
use mathlib.Core.List.{append_assoc}
use cloud_system.Base.{ℕ, ◌≡◌, List, ◌++◌, codes}
use cloud_system.Cgi.Login.{sql}

-- The text between the name and the password.
abbrev pub between : List ℕ
between = codes "' and password = '"

-- The text does not tell the name from the password: a name that goes on with the text between them
-- gives the same query as the password that begins so.
pub sql_ambiguous : (u p q : List ℕ) → sql (u ++ between ++ p) q ≡ sql u (p ++ between ++ q)
unfolding sql
sql_ambiguous u p q = simp append_assoc
