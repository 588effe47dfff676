-- ===== src/Cgi/Register/Unique.antt =====
-- Registration keeps the names of the table distinct.
use cloud_system.Base.{
  ℕ, ◌≡◌, ◌≢◌, ◌+◌, refl, true, List, [], ◌∷◌, ◌++◌, arith, str_eq, ◌⊎◌, inl, inr, ==_iff,
}
use cloud_system.Cgi.Register.{Page, Database, register}
use cloud_system.Cgi.Register.Text.{quote_free}
use cloud_system.Cgi.Register.Table.{Row, count_name, IsLawful}
use cloud_system.Cgi.Register.Recorded.{register-IsRecorded}

-- No two rows have the same name.
abbrev pub AllDistinct : List Row → Type 0
AllDistinct [] = Unit
AllDistinct ((n, q) ∷ rows) = (count_name n rows ≡ 0) × AllDistinct rows

str_eq_sym : (a b : List ℕ) → str_eq a b ≡ str_eq b a
str_eq_sym [] [] = refl
str_eq_sym [] (y ∷ ys) = refl
str_eq_sym (x ∷ xs) [] = refl
str_eq_sym (x ∷ xs) (y ∷ ys) = ground (arith, str_eq_sym xs ys, ==_iff x y, ==_iff y x)

pub count_name-append :
    (u : List ℕ) (xs ys : List Row) → count_name u (xs ++ ys) ≡ count_name u xs + count_name u ys
count_name-append u [] ys = omega arith
count_name-append u ((n, q) ∷ xs) ys = omega (arith, count_name-append u xs ys)

AllDistinct-append :
    (rows : List Row) (u p : List ℕ)
    → AllDistinct rows
    → count_name u rows ≡ 0
    → AllDistinct (rows ++ (u, p) ∷ [])
AllDistinct-append [] u p all free = (refl, tt)
AllDistinct-append ((n, q) ∷ rows) u p all free = (
  ground (arith, count_name-append n rows ((u, p) ∷ []), str_eq_sym n u),
  AllDistinct-append rows u p all.1 (ground arith),
)

module _ (D : Database) (rows : D.State → List Row) (lawful : IsLawful D rows) where
  -- On fields without quotes, registration keeps the names of the table distinct.
  pub register-AllDistinct :
      (s : D.State) (u p p2 : List ℕ)
      → quote_free u ≡ true
      → quote_free p ≡ true
      → AllDistinct (rows s)
      → AllDistinct (rows (register D s u p p2).1)
  register-AllDistinct s u p p2 name pass all =
      let recorded = register-IsRecorded D rows lawful s u p p2 name pass in
      elim (registered? (register D s u p p2).0) [
        | inl done ↦
            rw (recorded.added done) (AllDistinct-append (rows s) u p all (recorded.checked done).3)
        | inr other ↦ rw (recorded.kept other) all
      ]
    where
      registered? : (page : Page) → (page ≡ Page.registered) ⊎ (page ≢ Page.registered)
      registered? Page.registered = inl refl
      registered? Page.empty = inr (λ is. cc)
      registered? Page.differ = inr (λ is. cc)
      registered? Page.db_failed = inr (λ is. cc)
      registered? Page.taken = inr (λ is. cc)
      registered? (Page.query_failed e) = inr (λ is. cc)
      registered? (Page.insert_failed e) = inr (λ is. cc)
