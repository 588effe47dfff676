-- ===== src/Server/Link/Delete.antt =====
-- What `delete_link` does to the list.
use cloud_system.Base.{
  ℕ, zero, suc, ◌<◌, ◌≡◌, refl, inl, inr, Option, true, false, none, some, List, [], ◌∷◌, arith,
  Bool-cases, if◌then◌else◌, length, ℤ, is_neg, int_eq,
}
use cloud_system.Server.Link.{delete_loop, delete_link}
use cloud_system.Server.Link.Heap.{Ptr, Entry, Heap, put, returned, load, set_next, free, ◌>>◌}
use cloud_system.Server.Link.Chain.{
  Cells, entries, first, node, Apart, Chain, blank, IsLink, SameOutside, Chain-put, load_lem,
}

-- The cells without the first that has the descriptor.
abbrev pub erase : ℤ → Cells → Cells
erase fd [] = []
erase fd ((p, e) ∷ xs) = if int_eq e.fd fd then xs else (p, e) ∷ erase fd xs

-- The same on the devices.
abbrev pub erase_entry : ℤ → List Entry → List Entry
erase_entry fd [] = []
erase_entry fd (e ∷ es) = if int_eq e.fd fd then es else e ∷ erase_entry fd es

-- The address of the first cell that has the descriptor.
abbrev pub victim : ℤ → Cells → Option Ptr
victim fd [] = none
victim fd ((p, e) ∷ xs) = if int_eq e.fd fd then some p else victim fd xs

-- The list is gone from one cell, whose node is freed, and no other memory has changed.
pub record IsErased (fd : ℤ) (h : Heap) (q : Ptr) (e : Entry) (xs : Cells) (g : Heap) : Type 0 where
  pub chain : Chain g ((q, e) ∷ erase fd xs)
  pub same : SameOutside ((q, e) ∷ xs) h g
  pub freed : (p : Ptr) → victim fd xs ≡ some p → g p ≡ none

Apart-erase : (fd : ℤ) (a : Ptr) (xs : Cells) → Apart a xs → Apart a (erase fd xs)
Apart-erase fd a [] out = tt
Apart-erase fd a ((p, e) ∷ xs) out = ground (arith, Apart-erase fd a xs out.1)

module _ (fd : ℤ) (h : Heap) (q p : Ptr) (e e' : Entry) (xs : Cells)
    (ch : Chain h ((q, e) ∷ (p, e') ∷ xs)) where
  -- `q->next = p->next; free(p);`
  abbrev unlinked : Heap
  unlinked = put (put h q (some (node e (first xs)))) p none

  unlinked_runs : (do set_next q (first xs); free p) h ≡ returned tt unlinked
  unfolding set_next free load put
  unlinked_runs = ground arith

  unlinked-IsErased : int_eq e'.fd fd ≡ true → IsErased fd h q e ((p, e') ∷ xs) unlinked
  unlinked-IsErased hit = record {
    chain = rw hit (
      ch.0,
      unfold put in ground arith,
      ch.2.1,
      Chain-put _ p none xs ch.3.2 (Chain-put h q _ xs ch.2.1 ch.3.3),
    );
    same = λ a out. unfold put in ground arith;
    freed = λ a is. unfold put in ground arith;
  }

  further-IsErased :
      (g : Heap)
      → int_eq e'.fd fd ≡ false
      → IsErased fd h p e' xs g
      → IsErased fd h q e ((p, e') ∷ xs) g
  further-IsErased g miss rest = record {
    chain =
        rw miss (
          ch.0,
          ground (arith, rest.same q ch.2),
          (ch.2.0, Apart-erase fd q xs ch.2.1),
          rest.chain,
        );
    same = λ a out. rest.same a out.1;
    freed = λ a is. rest.freed a (ground arith);
  }

delete_loop_lem :
    (k : ℕ) (fd : ℤ) (h : Heap) (q : Ptr) (e : Entry) (xs : Cells)
    → length xs < k
    → Chain h ((q, e) ∷ xs)
    → (g : Heap) × (delete_loop k fd q (first xs) h ≡ returned tt g) × IsErased fd h q e xs g
unfolding delete_loop
delete_loop_lem zero fd h q e xs fuel ch = absurd (omega arith)
delete_loop_lem (suc k) fd h q e [] fuel ch =
    (h, refl, record { chain = ch; same = λ a out. refl; freed = λ a is. cc })
delete_loop_lem (suc k) fd h q e ((p, e') ∷ xs) fuel ch = elim (Bool-cases (int_eq e'.fd fd)) [
  | inl hit ↦ (
    unlinked fd h q p e e' xs ch,
    ground (arith, load_lem h p ch.3.0 ch.3.1, unlinked_runs fd h q p e e' xs ch),
    unlinked-IsErased fd h q p e e' xs ch hit,
  )
  | inr miss ↦
      let (g, runs, rest) = delete_loop_lem k fd h p e' xs (omega arith) ch.3 in
      (
        g,
        ground (arith, load_lem h p ch.3.0 ch.3.1),
        further-IsErased fd h q p e e' xs ch g miss rest,
      )
]

-- On a descriptor of an open file, with enough fuel, `delete_link` returns; the first device with
-- that descriptor has left the list and its node is freed, the others are as they were, and so is
-- the memory outside the list. With no such device nothing leaves the list.
pub delete_link-erase :
    (k : ℕ) (fd : ℤ) (h : Heap) (head : Ptr) (xs : Cells)
    → length xs < k
    → is_neg fd ≡ false
    → IsLink h head xs
    → (g : Heap) × (delete_link k head fd h ≡ returned tt g) × IsErased fd h head blank xs g
delete_link-erase k fd h head xs fuel sign ch =
    let (g, runs, rest) = delete_loop_lem k fd h head blank xs fuel ch in
    (g, unfold delete_link in ground (arith, load_lem h head ch.0 ch.1), rest)

-- The devices that are left.
pub entries-erase : (fd : ℤ) (xs : Cells) → entries (erase fd xs) ≡ erase_entry fd (entries xs)
entries-erase fd [] = refl
entries-erase fd ((p, e) ∷ xs) = ground (arith, entries-erase fd xs)
