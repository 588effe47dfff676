-- ===== src/Cgi/Register/Text.antt =====
-- What the SQL texts of the login and registration pages say of the form's fields, and how long they
-- are.
use Prim.Native.String.{String}
use cloud_system.Base.{
  ℕ, ◌≡◌, ◌<◌, refl, sym, ap, ap₂, ◌↔◌, ◌∙◌, Bool, true, not, ◌&&◌, List, [], ◌∷◌, ◌++◌, ◌==◌,
  ==_iff, arith, if◌then◌else◌, codes, length, length-append,
}
use cloud_system.Cgi.Login.{sql}
use cloud_system.Cgi.Register.{select_text, insert_text}

-- No byte is the quote that ends a literal of SQL.
abbrev pub quote_free : List ℕ → Bool
quote_free [] = true
quote_free (c ∷ cs) = not (c == 39) && quote_free cs

abbrev piece : String → List (List ℕ) → List (List ℕ)
piece s r = codes s ∷ r

abbrev onto_first : ℕ → List (List ℕ) → List (List ℕ)
onto_first c [] = []
onto_first c (x ∷ xs) = (c ∷ x) ∷ xs

-- The pieces of a text between its quotes.
abbrev pub pieces : List ℕ → List (List ℕ)
pieces [] = [] ∷ []
pieces (c ∷ cs) = let rest = pieces cs in if c == 39 then [] ∷ rest else onto_first c rest

pub pieces-quote :
    (u rest : List ℕ) → quote_free u ≡ true → pieces (u ++ 39 ∷ rest) ≡ u ∷ pieces rest
pieces-quote [] rest free = refl
pieces-quote (c ∷ cs) rest free = ground (arith, pieces-quote cs rest, ==_iff c 39)

pub pieces-select_text :
    (u : List ℕ)
    → quote_free u ≡ true
    → pieces (select_text u) ≡ codes "select * from Iot where username = " ∷ u ∷ codes ";" ∷ []
unfolding select_text
pieces-select_text u free = ap (piece "select * from Iot where username = ") (pieces-quote u _ free)

module _ (u p : List ℕ) (name : quote_free u ≡ true) (pass : quote_free p ≡ true) where
  pub pieces-sql :
      pieces (sql u p)
      ≡ codes "select * from Iot where username = "
        ∷ u
        ∷ codes " and password = "
        ∷ p
        ∷ codes ";"
        ∷ []
  unfolding sql
  pieces-sql = ap (piece "select * from Iot where username = ") (
      pieces-quote u (codes " and password = '" ++ (p ++ codes "';")) name
      ∙ ap (λ (r : List (List ℕ)). u ∷ piece " and password = " r)
          (pieces-quote p (codes ";") pass))

  pub pieces-insert_text :
      pieces (insert_text u p)
      ≡ codes "insert into Iot (username, password) values (" ∷ u ∷ codes ", " ∷ p ∷ codes ");" ∷ []
  unfolding insert_text
  pieces-insert_text = ap (piece "insert into Iot (username, password) values (") (
      pieces-quote u (codes ", '" ++ (p ++ codes "');")) name
      ∙ ap (λ (r : List (List ℕ)). u ∷ piece ", " r) (pieces-quote p (codes ");") pass))

-- The second and the fourth piece.
abbrev fields : List (List ℕ) → List ℕ × List ℕ
fields (a ∷ u ∷ b ∷ p ∷ r) = (u, p)
fields _ = ([], [])

-- When no quote is in the fields, the text that asks for a user and a password is the same exactly
-- for the same two fields, and so is the text that inserts them.
texts-injective :
    (u p u' p' : List ℕ)
    → quote_free u ≡ true
    → quote_free p ≡ true
    → quote_free u' ≡ true
    → quote_free p' ≡ true
    → ((sql u p ≡ sql u' p') ↔ ((u ≡ u') × (p ≡ p')))
      × ((insert_text u p ≡ insert_text u' p') ↔ ((u ≡ u') × (p ≡ p')))
texts-injective u p u' p' name pass name' pass' = (
  (
    λ same. halves (ap pieces same) (pieces-sql u p name pass) (pieces-sql u' p' name' pass'),
    λ same. ap₂ sql same.0 same.1,
  ),
  (
    λ same.
        halves (ap pieces same) (pieces-insert_text u p name pass)
          (pieces-insert_text u' p' name' pass'),
    λ same. ap₂ insert_text same.0 same.1,
  ),
)
  where
    halves :
        {x y : List (List ℕ)} {a b c : List ℕ}
        → x ≡ y
        → x ≡ a ∷ u ∷ b ∷ p ∷ c ∷ []
        → y ≡ a ∷ u' ∷ b ∷ p' ∷ c ∷ []
        → (u ≡ u') × (p ≡ p')
    halves same left right =
        let e = ap fields (sym left ∙ same ∙ right) in (ap (λ q. q.0) e, ap (λ q. q.1) e)

-- The texts of the three statements end within the 1024 bytes of `sql`, their final NUL included, since
-- the form's fields are cut to 19 bytes.
pub texts-fit :
    (u p : List ℕ)
    → length u < 20
    → length p < 20
    → (length (select_text u) < 1024)
      × (length (insert_text u p) < 1024)
      × (length (sql u p) < 1024)
unfolding select_text insert_text sql
texts-fit u p name pass = (
  omega (arith, length-append u (codes "';")),
  omega
      (arith, length-append u (codes "', '" ++ (p ++ codes "');")), length-append p (codes "');")),
  omega (
    arith,
    length-append u (codes "' and password = '" ++ (p ++ codes "';")),
    length-append p (codes "';"),
  ),
)
