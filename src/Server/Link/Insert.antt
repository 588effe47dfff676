-- ===== src/Server/Link/Insert.antt =====
-- What `create_link` and `insert_link` do to the list.
use cloud_system.Base.{ℕ, ◌<◌, ◌≡◌, ◌≢◌, none, some, List, [], ◌∷◌, arith, length, ℤ, pos}
use cloud_system.Server.Link.{create_link, copy_id, set_owner, insert_link, zeroed}
use cloud_system.Server.Link.Heap.{Ptr, null, Entry, Heap, put, returned, load, set_next}
use cloud_system.Server.Link.Chain.{
  Cells, first, node, Apart, Chain, blank, IsLink, SameOutside, Chain-put, Apart-none,
}

-- `create_link` returns an empty list on the address that `malloc` gave.
pub create_link-IsLink :
    (h : Heap) (fresh : Ptr)
    → fresh ≢ null
    → (create_link fresh h ≡ returned fresh (put h fresh (some zeroed)))
      × IsLink (put h fresh (some zeroed)) fresh []
unfolding create_link put
create_link-IsLink h fresh ne = (ground arith, (ne, ground arith, tt, tt))

abbrev pub entry : List ℕ → ℤ → ℕ → Entry
entry id fd tid = record { id = id; fd = fd; tid = tid }

module _ (h : Heap) (fresh head : Ptr) (id : List ℕ) (fd : ℤ) (tid : ℕ) (xs : Cells) where
  -- The writes of `insert_link`, in order.
  abbrev cleared : Heap
  cleared = put h fresh (some zeroed)

  abbrev named : Heap
  named = put cleared fresh (some (node (entry id (pos 0) 0) null))

  abbrev owned : Heap
  owned = put named fresh (some (node (entry id fd tid) null))

  abbrev pointed : Heap
  pointed =
      put (put owned fresh (some (node (entry id fd tid) (first xs)))) fresh
        (some (node (entry id fd tid) (first xs)))

  abbrev inserted : Heap
  inserted = put pointed head (some (node blank fresh))

  insert_link_runs :
      fresh ≢ null
      → h fresh ≡ none
      → length id < 32
      → IsLink h head xs
      → insert_link fresh head (some id) fd tid h ≡ returned tt inserted
  unfolding insert_link create_link copy_id set_owner load set_next put
  insert_link_runs ne free fits ch = ground arith

  -- With a fresh node and a name that fits the field, `insert_link` returns, and the list has the
  -- new device in front of the devices that were there, in their order; no memory has changed but the
  -- new node and the head.
  pub insert_link-IsLink :
      fresh ≢ null
      → h fresh ≡ none
      → length id < 32
      → IsLink h head xs
      → (g : Heap) × (insert_link fresh head (some id) fd tid h ≡ returned tt g)
        × IsLink g head ((fresh, entry id fd tid) ∷ xs)
        × SameOutside ((head, blank) ∷ (fresh, entry id fd tid) ∷ []) h g
  insert_link-IsLink ne free fits ch =
      (inserted, insert_link_runs ne free fits ch, whole, λ a out. unfold put in ground arith)
    where
      spared : Apart fresh xs
      spared = Apart-none h fresh xs free ch.3

      rest : Chain inserted xs
      rest = Chain-put pointed head _ xs ch.2 (
          Chain-put _ fresh _ xs spared (
            Chain-put owned fresh _ xs spared (
              Chain-put named fresh _ xs spared
                (Chain-put cleared fresh _ xs spared (Chain-put h fresh _ xs spared ch.3)))))

      apart : head ≢ fresh
      apart = ground arith

      whole : IsLink inserted head ((fresh, entry id fd tid) ∷ xs)
      whole = unfold put in (ch.0, ground arith, (apart, ch.2), (ne, ground arith, spared, rest))
