-- ===== src/Server/Link/Exact.antt =====
-- A heap that holds a list and nothing else, and that the operations keep so.
use cloud_system.Base.{
  ℕ, ◌<◌, ◌≡◌, ◌≢◌, ◌⊎◌, inl, inr, false, none, some, List, [], ◌∷◌, arith, Bool-cases, ◌==◌,
  ==_iff, length, ℤ, is_neg, int_eq,
}
use cloud_system.Server.Link.{insert_link, delete_link, destroy_link}
use cloud_system.Server.Link.Heap.{Ptr, null, Heap, returned}
use cloud_system.Server.Link.Chain.{Cells, Apart, blank, IsLink}
use cloud_system.Server.Link.Insert.{entry, insert_link-IsLink}
use cloud_system.Server.Link.Delete.{erase, victim, delete_link-erase}
use cloud_system.Server.Link.Destroy.{AllFreed, destroy_link-IsDestroyed}

-- The list is in the heap, and no node lives anywhere else.
pub record IsExact (h : Heap) (head : Ptr) (xs : Cells) : Type 0 where
  pub link : IsLink h head xs
  pub only : (a : Ptr) → Apart a ((head, blank) ∷ xs) → h a ≡ none

abbrev pub IsEmpty : Heap → Type 0
IsEmpty h = (a : Ptr) → h a ≡ none

-- An address is that of the cell that goes, or of none, if it is that of none that stay.
erase-cases :
    (fd : ℤ) (a : Ptr) (xs : Cells) → Apart a (erase fd xs) → Apart a xs ⊎ (victim fd xs ≡ some a)
erase-cases fd a [] out = inl tt
erase-cases fd a ((p, e) ∷ xs) out = elim (Bool-cases (int_eq e.fd fd)) [
  | inl hit ↦ elim (Bool-cases (a == p)) [
    | inl same ↦ inr (ground (arith, ==_iff a p))
    | inr other ↦ inl (ground (arith, ==_iff a p), ground arith)
  ]
  | inr miss ↦ elim (erase-cases fd a xs (ground arith)) [
    | inl far ↦ inl (ground arith, far)
    | inr is ↦ inr (ground arith)
  ]
]

-- After `destroy_link` an address is that of a cell, which is freed, or of none.
freed-cases : (g : Heap) (a : Ptr) (xs : Cells) → AllFreed g xs → Apart a xs ⊎ (g a ≡ none)
freed-cases g a [] freed = inl tt
freed-cases g a ((p, e) ∷ xs) freed = elim (Bool-cases (a == p)) [
  | inl same ↦ inr (ground (arith, ==_iff a p))
  | inr other ↦ elim (freed-cases g a xs freed.1) [
    | inl far ↦ inl (ground (arith, ==_iff a p), far)
    | inr gone ↦ inr gone
  ]
]

module _ (h : Heap) (head : Ptr) (xs : Cells) (exact : IsExact h head xs) where
  pub insert_link-IsExact :
      (fresh : Ptr) (id : List ℕ) (fd : ℤ) (tid : ℕ)
      → fresh ≢ null
      → Apart fresh ((head, blank) ∷ xs)
      → length id < 32
      → (g : Heap) × (insert_link fresh head (some id) fd tid h ≡ returned tt g)
        × IsExact g head ((fresh, entry id fd tid) ∷ xs)
  insert_link-IsExact fresh id fd tid ne out fits =
      let (g, runs, link, same) =
        insert_link-IsLink h fresh head id fd tid xs ne (exact.only fresh out) fits exact.link in
      (
        g,
        runs,
        record {
          link = link;
          only = λ a apart.
              ground (arith, same a (apart.0, (apart.1.0, tt)), exact.only a (apart.0, apart.1.1));
        },
      )

  pub delete_link-IsExact :
      (k : ℕ) (fd : ℤ)
      → length xs < k
      → is_neg fd ≡ false
      → (g : Heap) × (delete_link k head fd h ≡ returned tt g) × IsExact g head (erase fd xs)
  delete_link-IsExact k fd fuel sign =
      let (g, runs, erased) = delete_link-erase k fd h head xs fuel sign exact.link in
      (
        g,
        runs,
        record {
          link = erased.chain;
          only = λ a apart. elim (erase-cases fd a xs apart.1) [
            | inl out ↦ ground (arith, erased.same a (apart.0, out), exact.only a (apart.0, out))
            | inr is ↦ erased.freed a is
          ];
        },
      )

  pub destroy_link-IsEmpty :
      (k : ℕ) → length xs < k → (g : Heap) × (destroy_link k head h ≡ returned null g) × IsEmpty g
  destroy_link-IsEmpty k fuel =
      let (g, runs, gone) = destroy_link-IsDestroyed k h head xs fuel exact.link in
      (
        g,
        runs,
        λ a. elim (freed-cases g a ((head, blank) ∷ xs) gone.freed) [
          | inl out ↦ ground (arith, gone.same a out, exact.only a out)
          | inr none' ↦ none'
        ],
      )
