-- ===== src/Cgi/Register/Race.antt =====
-- Two registration pages at once: each is a process of its own, and nothing keeps the other out between
-- the query for the name and the insertion.
use cloud_system.Base.{ℕ, ◌≡◌, true, List, [], ◌∷◌, arith, str_eq_refl, inr, ◌<◌, length, ◌∙◌}
use cloud_system.Cgi.Register.{Page, Database, select_text, insert_text, examine, commit, register}
use cloud_system.Cgi.Register.Text.{quote_free}
use cloud_system.Cgi.Register.Recorded.{commit-added}
use cloud_system.Cgi.Register.Unique.{count_name-append}
use cloud_system.Cgi.Register.Table.{Row, count_name, IsLawful}

-- Two pages ask for the name `u`; `s'` is the table after the insertion of the first one.
pub record IsRaced (D : Database) (rows : D.State → List Row) (s : D.State) (u p p' : List ℕ)
    (s' : D.State) : Type 0 where
  -- When both look before either inserts, both come to their insertions, and the name is there twice.
  pub first : examine D s u p p ≡ inr (insert_text u p)
  pub second : examine D s u p' p' ≡ inr (insert_text u p')
  pub twice : count_name u (rows (commit D s' (insert_text u p')).1) ≡ 2
  -- When the second one looks after the insertion of the first one, it is told that the name is taken.
  pub in_turn : register D s' u p' p' ≡ (Page.taken, s')
  pub once : count_name u (rows s') ≡ 1

module _ (D : Database) (rows : D.State → List Row) (lawful : IsLawful D rows) where
  examined_free :
      (s : D.State) (u p : List ℕ) (n : ℕ)
      → quote_free u ≡ true
      → 0 < length u
      → 0 < length p
      → D.opens s ≡ true
      → D.get_table s (select_text u) ≡ inr n
      → count_name u (rows s) ≡ 0
      → examine D s u p p ≡ inr (insert_text u p)
  unfolding examine
  examined_free s u p n name some_u some_p opened found free =
      let none_has = lawful.selects s u n name found in ground (arith, str_eq_refl p)

  -- When the name is not in the table, the fields have no quotes and are not empty, and the database
  -- opens, answers the two queries and takes the insertions: two pages that both look for the name
  -- before either inserts its user both come to the insertion, and the table then has the name twice;
  -- but when the second page looks after the insertion of the first, it says that the name is taken and
  -- changes nothing, and the table has the name once.
  pub examine-IsRaced :
      (s : D.State) (u p p' : List ℕ) (n n' : ℕ)
      → let s' = (commit D s (insert_text u p)).1 in
        quote_free u ≡ true
        → quote_free p ≡ true
        → quote_free p' ≡ true
        → 0 < length u
        → 0 < length p
        → 0 < length p'
        → D.opens s ≡ true
        → D.get_table s (select_text u) ≡ inr n
        → count_name u (rows s) ≡ 0
        → (commit D s (insert_text u p)).0 ≡ Page.registered
        → D.opens s' ≡ true
        → D.get_table s' (select_text u) ≡ inr n'
        → (commit D s' (insert_text u p')).0 ≡ Page.registered
        → IsRaced D rows s u p p' s'
  examine-IsRaced s u p p' n n' name pass pass' some_u some_p some_p' opened found free done opened'
        found' done' =
      let s' = (commit D s (insert_text u p)).1 in
      let one : count_name u (rows s') ≡ 1 =
        rw (commit-added D rows lawful s u p name pass done)
          (ground (arith, count_name-append u (rows s) ((u, p) ∷ []), str_eq_refl u)) in
      record {
        first = examined_free s u p n name some_u some_p opened found free;
        second = examined_free s u p' n name some_u some_p' opened found free;
        twice =
            rw (commit-added D rows lawful s' u p' name pass' done')
              (ground (arith, count_name-append u (rows s') ((u, p') ∷ []), str_eq_refl u, one));
        in_turn =
            taken s' u p' n' some_u some_p' opened' found'
              (lawful.selects s' u n' name found' ∙ one);
        once = one;
      }
    where
      taken :
          (s : D.State) (u p : List ℕ) (n : ℕ)
          → 0 < length u
          → 0 < length p
          → D.opens s ≡ true
          → D.get_table s (select_text u) ≡ inr n
          → n ≡ 1
          → register D s u p p ≡ (Page.taken, s)
      taken s u p n some_u some_p opened found one =
          unfold register in unfold examine in ground (arith, str_eq_refl p)
