-- ===== src/Server/Link/Chain.antt =====
-- The list that a heap holds behind its head node, as the sequence of its cells.
use cloud_system.Base.{◌≡◌, ◌≢◌, refl, Option, none, some, List, [], ◌∷◌, map, arith, pos}
use cloud_system.Server.Link.Heap.{
  Ptr, null, Entry, Node, Heap, put, returned, load, set_next, free,
}

-- The address and the entry of each node, in the order of the `next` pointers.
abbrev pub Cells : Type 0
Cells = List (Ptr × Entry)

abbrev pub entries : Cells → List Entry
entries = map (λ c. c.1)

abbrev pub first : Cells → Ptr
first [] = null
first ((p, e) ∷ xs) = p

abbrev pub node : Entry → Ptr → Node
node e q = record { entry = e; next = q }

-- `a` is the address of none of the cells.
abbrev pub Apart : Ptr → Cells → Type 0
Apart a [] = Unit
Apart a ((p, e) ∷ xs) = (a ≢ p) × Apart a xs

-- The cells lie in the heap, at distinct addresses, each pointing to the next and the last to
-- nothing.
abbrev pub Chain : Heap → Cells → Type 0
Chain h [] = Unit
Chain h ((p, e) ∷ xs) = (p ≢ null) × (h p ≡ some (node e (first xs))) × Apart p xs × Chain h xs

-- A head node, whose entry is all zeros, and the cells behind it.
abbrev pub blank : Entry
blank = record { id = []; fd = pos 0; tid = 0 }

abbrev pub IsLink : Heap → Ptr → Cells → Type 0
IsLink h head xs = Chain h ((head, blank) ∷ xs)

-- `g` agrees with `h` wherever no cell of `xs` lies.
abbrev pub SameOutside : Cells → Heap → Heap → Type 0
SameOutside xs h g = (a : Ptr) → Apart a xs → g a ≡ h a

module _ (h : Heap) (p : Ptr) {n : Node} (ne : p ≢ null) (here : h p ≡ some n) where
  pub load_lem : load p h ≡ returned n h
  unfolding load
  load_lem = ground arith

  pub set_next_lem :
      (q : Ptr) → set_next p q h ≡ returned tt (put h p (some (record n { next = q })))
  unfolding set_next
  set_next_lem q = rw load_lem

  pub free_lem : free p h ≡ returned tt (put h p none)
  unfolding free
  free_lem = rw load_lem

-- A write outside the cells keeps them.
pub Chain-put :
    (h : Heap) (a : Ptr) (c : Option Node) (xs : Cells)
    → Apart a xs
    → Chain h xs
    → Chain (put h a c) xs
Chain-put h a c [] out ch = tt
Chain-put h a c ((p, e) ∷ xs) out ch =
    (ch.0, unfold put in ground arith, ch.2, Chain-put h a c xs out.1 ch.3)

-- An address where no node lives is none of the cells.
pub Apart-none : (h : Heap) (a : Ptr) (xs : Cells) → h a ≡ none → Chain h xs → Apart a xs
Apart-none h a [] gone ch = tt
Apart-none h a ((p, e) ∷ xs) gone ch = (λ same. ground arith, Apart-none h a xs gone ch.3)

-- A chain starts at a null pointer exactly when it is empty.
pub first-null : (h : Heap) (xs : Cells) → Chain h xs → first xs ≡ null → xs ≡ []
first-null h [] ch e = refl
first-null h ((p, e') ∷ xs) ch e = absurd (ch.0 e)
