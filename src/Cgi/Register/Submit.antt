-- ===== src/Cgi/Register/Submit.antt =====
-- From the registration page to the login page.
use cloud_system.Base.{
  ℕ, ◌≡◌, ◌<◌, ap, ◌∙◌, true, Option, none, some, List, [], ◌∷◌, ◌++◌, arith, str_eq_refl, ◌⊎◌, inl,
  inr, pos,
}
use cloud_system.Message.{zeroed}
use cloud_system.Cgi.Login.{sql, submit}
use cloud_system.Cgi.Register.{Page, Database, register}
use cloud_system.Cgi.Register.Text.{quote_free}
use cloud_system.Cgi.Register.Table.{Row, count_both, IsLawful}
use cloud_system.Cgi.Register.Recorded.{register-IsRecorded}

count_both-append : (u p : List ℕ) (rows : List Row) → 0 < count_both u p (rows ++ (u, p) ∷ [])
count_both-append u p [] = ground (arith, str_eq_refl u, str_eq_refl p)
count_both-append u p ((n, q) ∷ rows) = omega (arith, count_both-append u p rows)

-- The database as the login page asks it: the number of rows, or an error.
abbrev pub rows_of : List ℕ ⊎ ℕ → Option ℕ
rows_of (inl errmsg) = none
rows_of (inr n) = some n

module _ (D : Database) (rows : D.State → List Row) (lawful : IsLawful D rows) where
  -- Who was told of a successful registration passes the password check of the login page with the same
  -- two fields, without quotes, when the database opens and its query gives no error: the page asks the
  -- server for the user's device.
  pub register-submit :
      {F : Type 0} (float_zero : F) (s : D.State) (u p p2 : List ℕ) (n : ℕ)
      → quote_free u ≡ true
      → quote_free p ≡ true
      → (register D s u p p2).0 ≡ Page.registered
      → D.get_table (register D s u p p2).1 (sql u p) ≡ inr n
      → submit float_zero true (λ t. rows_of (D.get_table (register D s u p p2).1 t)) u p
        ≡ inr (record (zeroed float_zero) {
          msgtype = pos 1;
          user = record { username = u; password = []; flags = 0 };
        })
  unfolding submit
  register-submit float_zero s u p p2 n name pass done found =
      let recorded = register-IsRecorded D rows lawful s u p p2 name pass in
      let after = (register D s u p p2).1 in
      let counted : n ≡ count_both u p (rows s ++ (u, p) ∷ []) =
        lawful.finds after u p n name pass found ∙ ap (count_both u p) (recorded.added done) in
      ground (arith, count_both-append u p (rows s))
