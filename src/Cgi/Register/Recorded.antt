-- ===== src/Cgi/Register/Recorded.antt =====
-- When the registration page changes the table of users, and how.
use cloud_system.Base.{
  ℕ, zero, suc, ◌≡◌, ◌≢◌, ◌<◌, refl, sym, ap, true, Option, none, some, List, [], ◌∷◌, ◌++◌, ◌==◌,
  arith, length, str_eq, str_eq→eq, ◌⊎◌, inl, inr, Bool-cases, ◌||◌,
}
use cloud_system.Cgi.Register.{
  Page, Database, select_text, insert_text, examine, commit, register, outcome,
}
use cloud_system.Cgi.Register.Text.{quote_free}
use cloud_system.Cgi.Register.Table.{Row, count_name, IsLawful}

-- What the page says agrees with what it did to the table.
pub record IsRecorded (before after : List Row) (u p p2 : List ℕ) (page : Page) : Type 0 where
  -- A user who is told of success is in the table, had given a name and twice the same password, and the
  -- name was free.
  pub added : page ≡ Page.registered → after ≡ before ++ (u, p) ∷ []
  pub checked :
      page ≡ Page.registered
      → (0 < length u) × (0 < length p) × (p ≡ p2) × (count_name u before ≡ 0)
  -- On every other page the table is as it was.
  pub kept : page ≢ Page.registered → after ≡ before

-- The ways that the page can take: it stops before the insertion, or it comes to it.
data Way (D : Database) (s : D.State) (u p p2 : List ℕ) : Type 0 where
  stops : (page : Page) → page ≢ Page.registered → examine D s u p p2 ≡ inl page → Way D s u p p2
  inserts :
      0 < length u
      → 0 < length p
      → p ≡ p2
      → D.get_table s (select_text u) ≡ inr 0
      → examine D s u p p2 ≡ inr (insert_text u p)
      → Way D s u p p2

asked_cases :
    (D : Database) (s : D.State) (u p p2 : List ℕ) (answer : List ℕ ⊎ ℕ)
    → 0 < length u
    → 0 < length p
    → str_eq p p2 ≡ true
    → D.opens s ≡ true
    → D.get_table s (select_text u) ≡ answer
    → Way D s u p p2
unfolding examine
asked_cases D s u p p2 (inl e) a b same opened is =
    stops (Page.query_failed e) (λ no'. cc) (ground arith)
asked_cases D s u p p2 (inr zero) a b same opened is =
    inserts a b (str_eq→eq p p2 same) is (ground arith)
asked_cases D s u p p2 (inr (suc n)) a b same opened is =
    stops Page.taken (λ no'. cc) (ground arith)

ways : (D : Database) (s : D.State) (u p p2 : List ℕ) → Way D s u p p2
unfolding examine
ways D s u p p2 = elim (Bool-cases ((length u == 0) || (length p == 0))) [
  | inl blank ↦ stops Page.empty (λ no'. cc) (ground arith)
  | inr full ↦ elim (Bool-cases (str_eq p p2)) [
    | inr other ↦ stops Page.differ (λ no'. cc) (ground arith)
    | inl same ↦ elim (Bool-cases (D.opens s)) [
      | inr shut ↦ stops Page.db_failed (λ no'. cc) (ground arith)
      | inl opened ↦
          asked_cases D s u p p2 (D.get_table s (select_text u)) (ground arith) (ground arith) same
            opened refl
    ]
  ]
]

-- What the page gives back on each way.
module _ (D : Database) (s : D.State) (u p p2 : List ℕ) where
  register-stops : (page : Page) → examine D s u p p2 ≡ inl page → register D s u p p2 ≡ (page, s)
  unfolding register
  register-stops page is = rw (is, register) refl

  pub register-commits :
      (text : List ℕ) → examine D s u p p2 ≡ inr text → register D s u p p2 ≡ commit D s text
  unfolding register
  register-commits text is = rw (is, register) refl

outcome-registered : (r : Option (List ℕ)) → outcome r ≡ Page.registered → r ≡ none
outcome-registered none is = refl
outcome-registered (some e) is = cc

module _ (D : Database) (rows : D.State → List Row) (lawful : IsLawful D rows) where
  pub commit-added :
      (s : D.State) (u p : List ℕ)
      → quote_free u ≡ true
      → quote_free p ≡ true
      → (commit D s (insert_text u p)).0 ≡ Page.registered
      → rows (commit D s (insert_text u p)).1 ≡ rows s ++ (u, p) ∷ []
  unfolding commit
  commit-added s u p name pass is = lawful.inserts s u p name pass (outcome-registered _ is)

  commit-kept :
      (s : D.State) (u p : List ℕ) (r : Option (List ℕ))
      → quote_free u ≡ true
      → quote_free p ≡ true
      → (D.exec s (insert_text u p)).0 ≡ r
      → (commit D s (insert_text u p)).0 ≢ Page.registered
      → rows (commit D s (insert_text u p)).1 ≡ rows s
  unfolding commit
  commit-kept s u p none name pass is other = absurd (other (ap outcome is))
  commit-kept s u p (some e) name pass is other = lawful.refuses s u p e name pass is

  Way-IsRecorded :
      (s : D.State) (u p p2 : List ℕ)
      → quote_free u ≡ true
      → quote_free p ≡ true
      → Way D s u p p2
      → IsRecorded (rows s) (rows (register D s u p p2).1) u p p2 (register D s u p p2).0
  Way-IsRecorded s u p p2 name pass (stops page other is) =
      rw (register-stops D s u p p2 page is) (record {
        added = λ done. absurd (other done);
        checked = λ done. absurd (other done);
        kept = λ no'. refl;
      })
  Way-IsRecorded s u p p2 name pass (inserts a b same free is) =
      rw (register-commits D s u p p2 (insert_text u p) is) (record {
        added = commit-added s u p name pass;
        checked = λ done. (a, b, same, sym (lawful.selects s u 0 name free));
        kept = commit-kept s u p _ name pass refl;
      })

  -- On fields without quotes, registration changes the table exactly when it reports success: it then
  -- adds the user, whose name was free, and who had given a name and the same password twice.
  pub register-IsRecorded :
      (s : D.State) (u p p2 : List ℕ)
      → quote_free u ≡ true
      → quote_free p ≡ true
      → IsRecorded (rows s) (rows (register D s u p p2).1) u p p2 (register D s u p p2).0
  register-IsRecorded s u p p2 name pass = Way-IsRecorded s u p p2 name pass (ways D s u p p2)
