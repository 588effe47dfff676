-- ===== src/Server/Link/Destroy.antt =====
-- What `destroy_link` does to the list.
use cloud_system.Base.{ℕ, zero, suc, ◌<◌, ◌≡◌, refl, ◌∙◌, none, [], ◌∷◌, arith, length}
use cloud_system.Server.Link.{destroy_loop, destroy_link}
use cloud_system.Server.Link.Heap.{Ptr, null, Heap, put, returned}
use cloud_system.Server.Link.Chain.{
  Cells, first, node, Apart, Chain, blank, IsLink, SameOutside, Chain-put, load_lem, free_lem,
}

-- No cell is left in the heap.
abbrev pub AllFreed : Heap → Cells → Type 0
AllFreed g [] = Unit
AllFreed g ((p, e) ∷ xs) = (g p ≡ none) × AllFreed g xs

pub record IsDestroyed (h : Heap) (xs : Cells) (g : Heap) : Type 0 where
  pub freed : AllFreed g xs
  pub same : SameOutside xs h g

destroy_loop_lem :
    (k : ℕ) (h : Heap) (xs : Cells)
    → length xs < k
    → Chain h xs
    → (g : Heap) × (destroy_loop k (first xs) h ≡ returned tt g) × IsDestroyed h xs g
unfolding destroy_loop put
destroy_loop_lem zero h xs fuel ch = absurd (omega arith)
destroy_loop_lem (suc k) h [] fuel ch = (h, refl, record { freed = tt; same = λ a out. refl })
destroy_loop_lem (suc k) h ((p, e) ∷ xs) fuel ch =
    let h' = put h p none in
    let ch' = Chain-put h p none xs ch.2 ch.3 in
    let (g, runs, rest) = destroy_loop_lem k h' xs (omega arith) ch' in
    (
      g,
      ground (arith, load_lem h p ch.0 ch.1, free_lem h p ch.0 ch.1),
      record {
        freed = (ground (arith, rest.same p ch.2), rest.freed);
        same = λ a out. ground (arith, rest.same a out.1);
      },
    )

-- With enough fuel `destroy_link` returns and sets the caller's pointer to null; every node of the
-- list, its head too, is freed, and no other memory has changed.
pub destroy_link-IsDestroyed :
    (k : ℕ) (h : Heap) (head : Ptr) (xs : Cells)
    → length xs < k
    → IsLink h head xs
    → (g : Heap) × (destroy_link k head h ≡ returned null g) × IsDestroyed h ((head, blank) ∷ xs) g
destroy_link-IsDestroyed k h head xs fuel ch =
    let (g, runs, rest) = destroy_loop_lem k h xs fuel ch.3 in
    let still = rest.same head ch.2 in
    (
      put g head none,
      unfold destroy_link in
          ground (
            arith,
            load_lem h head ch.0 ch.1,
            free_lem g head {n = node blank (first xs)} ch.0 (still ∙ ch.1),
          ),
      record {
        freed = (unfold put in ground arith, AllFreed-put g head xs ch.2 rest.freed);
        same = λ a out. unfold put in ground (arith, rest.same a out.1);
      },
    )
  where
    AllFreed-put :
        (g : Heap) (a : Ptr) (ys : Cells) → Apart a ys → AllFreed g ys → AllFreed (put g a none) ys
    AllFreed-put g a [] out freed = tt
    AllFreed-put g a ((p, e) ∷ ys) out freed =
        (unfold put in ground arith, AllFreed-put g a ys out.1 freed.1)
