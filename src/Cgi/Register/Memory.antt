-- ===== src/Cgi/Register/Memory.antt =====
-- A database in memory that knows the pages' three statements, by the fields between their quotes: the
-- laws that the other theorems ask of SQLite can hold.
use cloud_system.Base.{
  ℕ, true, Option, none, some, List, [], ◌∷◌, ◌++◌, codes, ◌⊎◌, inl, inr, arith,
}
use cloud_system.Cgi.Register.{Database}
use cloud_system.Cgi.Register.Text.{pieces, pieces-select_text, pieces-sql, pieces-insert_text}
use cloud_system.Cgi.Register.Table.{Row, count_name, count_both, IsLawful}

abbrev refusal : List ℕ
refusal = codes "syntax error"

abbrev answer : List (List ℕ) → List Row → List ℕ ⊎ ℕ
answer (a ∷ u ∷ b ∷ []) rows = inr (count_name u rows)
answer (a ∷ u ∷ b ∷ p ∷ c ∷ []) rows = inr (count_both u p rows)
answer _ rows = inl refusal

abbrev add : List (List ℕ) → List Row → Option (List ℕ) × List Row
add (a ∷ u ∷ b ∷ p ∷ c ∷ []) rows = (none, rows ++ (u, p) ∷ [])
add _ rows = (some refusal, rows)

abbrev pub memory : Database
memory = record {
  State = List Row;
  opens = λ rows. true;
  get_table = λ rows text. answer (pieces text) rows;
  exec = λ rows text. add (pieces text) rows;
}

pub memory-IsLawful : IsLawful memory (λ rows. rows)
memory-IsLawful = record {
  selects = λ s u n name is. ground (arith, pieces-select_text u name);
  finds = λ s u p n name pass is. ground (arith, pieces-sql u p name pass);
  inserts = λ s u p name pass is. ground (arith, pieces-insert_text u p name pass);
  refuses = λ s u p e name pass is. ground (arith, pieces-insert_text u p name pass);
}
