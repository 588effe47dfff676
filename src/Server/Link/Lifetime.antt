-- ===== src/Server/Link/Lifetime.antt =====
-- The server's list from `create_link` to `destroy_link`, with any devices logged in and out between.
use cloud_system.Base.{
  ℕ, suc, ◌<◌, ◌≤◌, ◌+◌, ◌≡◌, ◌≢◌, ◌∙◌, refl, ap, some, List, [], ◌∷◌, arith, Bool-cases, length, ℤ,
  is_neg, if◌then◌else◌, inl, inr,
}
use cloud_system.Server.World
use cloud_system.Server.World.{World}
use cloud_system.Server.Link.{zeroed, create_link, insert_link, delete_link, destroy_link}
use cloud_system.Server.Link.Heap.{Ptr, null, Entry, Heap, Cmd, put, returned, return, ◌>>=◌, ◌>>◌}
use cloud_system.Server.Link.Chain.{Cells, IsLink, Apart, blank, entries}
use cloud_system.Server.Link.Insert.{entry, create_link-IsLink}
use cloud_system.Server.Link.Delete.{erase, erase_entry, entries-erase}
use cloud_system.Server.Link.Exact.{
  IsExact, IsEmpty, insert_link-IsExact, delete_link-IsExact, destroy_link-IsEmpty,
}

-- What the server asks of its list: `malloc` gives `fresh` to an insertion.
pub data Op : Type 0 where
  insert : (fresh : Ptr) (id : List ℕ) (fd : ℤ) (tid : ℕ) → Op
  delete : (fd : ℤ) → Op

unfoldable pub step : ℕ → Ptr → Op → Cmd (Unit {0})
step k head (insert fresh id fd tid) = insert_link fresh head (some id) fd tid
step k head (delete fd) = delete_link k head fd

unfoldable pub run : ℕ → Ptr → List Op → Cmd (Unit {0})
run k head [] = return tt
run k head (op ∷ ops) = do step k head op; run k head ops

unfoldable pub lifetime : ℕ → Ptr → List Op → Cmd Ptr
lifetime k fresh ops = do head ← create_link fresh; run k head ops; destroy_link k head

-- What an operation does to the list of devices that the threads share.
abbrev pub world_after : {F : Type 0} → World F → Op → World F
world_after w (insert fresh id fd tid) = World.insert (entry id fd tid) w
world_after w (delete fd) = World.delete fd w

-- What it does to the cells.
abbrev pub cells_after : Cells → Op → Cells
cells_after xs (insert fresh id fd tid) = (fresh, entry id fd tid) ∷ xs
cells_after xs (delete fd) = if is_neg fd then xs else erase fd xs

abbrev pub all_after : {A : Type 0} → (A → Op → A) → A → List Op → A
all_after after x [] = x
all_after after x (op ∷ ops) = all_after after (after x op) ops

-- `malloc` gives an address that is not null and not in use, and the name fits its field.
abbrev pub IsAllowed : Ptr → Cells → Op → Type 0
IsAllowed head xs (insert fresh id fd tid) =
    (fresh ≢ null) × Apart fresh ((head, blank) ∷ xs) × (length id < 32)
IsAllowed head xs (delete fd) = Unit

abbrev pub AllAllowed : Ptr → Cells → List Op → Type 0
AllAllowed head xs [] = Unit
AllAllowed head xs (op ∷ ops) = IsAllowed head xs op × AllAllowed head (cells_after xs op) ops

-- No operation makes the list longer by more than one.
length-erase : (fd : ℤ) (xs : Cells) → length (erase fd xs) ≤ length xs
length-erase fd [] = omega arith
length-erase fd ((p, e) ∷ xs) = ground (arith, length-erase fd xs)

length-cells_after : (xs : Cells) (op : Op) → length (cells_after xs op) ≤ suc (length xs)
length-cells_after xs (insert fresh id fd tid) = omega arith
length-cells_after xs (delete fd) = ground (arith, length-erase fd xs)

length-all_after :
    (xs : Cells) (ops : List Op) → length (all_after cells_after xs ops) ≤ length xs + length ops
length-all_after xs [] = omega arith
length-all_after xs (op ∷ ops) =
    omega (arith, length-all_after (cells_after xs op) ops, length-cells_after xs op)

entries-cells_after :
    {F : Type 0} (w : World F) (xs : Cells) (op : Op)
    → entries xs ≡ w.devices
    → entries (cells_after xs op) ≡ (world_after w op).devices
entries-cells_after w xs (insert fresh id fd tid) same =
    ap (λ (es : List Entry). entry id fd tid ∷ es) same
entries-cells_after w xs (delete fd) same = elim (Bool-cases (is_neg fd)) [
  | inl neg ↦ rw neg same
  | inr open' ↦ rw open' (entries-erase fd xs ∙ ap (erase_entry fd) same)
]

entries-all_after :
    {F : Type 0} (w : World F) (xs : Cells) (ops : List Op)
    → entries xs ≡ w.devices
    → entries (all_after cells_after xs ops) ≡ (all_after world_after w ops).devices
entries-all_after w xs [] same = same
entries-all_after w xs (op ∷ ops) same =
    entries-all_after (world_after w op) (cells_after xs op) ops (entries-cells_after w xs op same)

step-IsExact :
    (k : ℕ) (h : Heap) (head : Ptr) (xs : Cells) (op : Op)
    → length xs < k
    → IsExact h head xs
    → IsAllowed head xs op
    → (g : Heap) × (step k head op h ≡ returned tt g) × IsExact g head (cells_after xs op)
unfolding step
step-IsExact k h head xs (insert fresh id fd tid) fuel exact ok =
    insert_link-IsExact h head xs exact fresh id fd tid ok.0 ok.1 ok.2
step-IsExact k h head xs (delete fd) fuel exact ok = elim (Bool-cases (is_neg fd)) [
  | inl neg ↦ (h, unfold delete_link in ground arith, rw neg exact)
  | inr open' ↦ rw open' (delete_link-IsExact h head xs exact k fd fuel open')
]

run-IsExact :
    (k : ℕ) (h : Heap) (head : Ptr) (xs : Cells) (ops : List Op)
    → length xs + length ops < k
    → IsExact h head xs
    → AllAllowed head xs ops
    → (g : Heap) × (run k head ops h ≡ returned tt g)
      × IsExact g head (all_after cells_after xs ops)
unfolding run
run-IsExact k h head xs [] fuel exact ok = (h, refl, exact)
run-IsExact k h head xs (op ∷ ops) fuel exact ok =
    let (g, first, rest) = step-IsExact k h head xs op (omega arith) exact ok.0 in
    let (g', then', end) =
      run-IsExact k g head (cells_after xs op) ops (omega (arith, length-cells_after xs op)) rest
        ok.1 in
    (g', rw first then', end)

-- The heap holds the devices that the threads share, and nothing else.
pub record IsShared {F : Type 0} (w : World F) (h : Heap) (head : Ptr) : Type 0 where
  pub cells : Cells
  pub exact : IsExact h head cells
  pub same : entries cells ≡ w.devices

-- When the heap holds the devices of `w` and nothing else, any logins and logouts return, whatever
-- their order and their descriptors, with fuel for the devices that were there and those that log
-- in, if `malloc` gives unused addresses and the names fit: the heap then holds the devices that the
-- operations leave in `w`, in their order, and nothing else.
pub run-IsShared :
    {F : Type 0} (w : World F) (k : ℕ) (h : Heap) (head : Ptr) (ops : List Op)
    → (shared : IsShared w h head) → length shared.cells + length ops < k
    → AllAllowed head shared.cells ops
    → (g : Heap) × (run k head ops h ≡ returned tt g)
      × IsShared (all_after world_after w ops) g head
run-IsShared w k h head ops shared fuel ok =
    let (g, runs, exact) = run-IsExact k h head shared.cells ops fuel shared.exact ok in
    (
      g,
      runs,
      record {
        cells = all_after cells_after shared.cells ops;
        exact = exact;
        same = entries-all_after w shared.cells ops shared.same;
      },
    )

-- From an empty heap, `create_link`, any logins and logouts and `destroy_link` return, with fuel for
-- the logins, and leave the heap empty: no use of a freed node, no node freed twice and none left, if
-- `malloc` gives unused addresses and the names fit.
pub lifetime-IsEmpty :
    (k : ℕ) (fresh : Ptr) (ops : List Op) (h : Heap)
    → IsEmpty h
    → fresh ≢ null
    → length ops < k
    → AllAllowed fresh [] ops
    → (g : Heap) × (lifetime k fresh ops h ≡ returned null g) × IsEmpty g
unfolding lifetime
lifetime-IsEmpty k fresh ops h empty ne fuel ok =
    let (made, link) = create_link-IsLink h fresh ne in
    let exact = create_link-IsExact h fresh empty link in
    let (g, runs, left) = run-IsExact k _ fresh [] ops (omega arith) exact ok in
    let (g', ends, gone) =
      destroy_link-IsEmpty g fresh _ left k (omega (arith, length-all_after [] ops)) in
    (g', rw (made, runs) ends, gone)
  where
    create_link-IsExact :
        (h : Heap) (fresh : Ptr)
        → IsEmpty h
        → IsLink (put h fresh (some zeroed)) fresh []
        → IsExact (put h fresh (some zeroed)) fresh []
    create_link-IsExact h fresh empty link = record {
      link = link;
      only = λ a out. unfold put in ground (arith, empty a);
    }
