-- ===== src/Server/Link/Find.antt =====
-- What `find_link` and `find_fd` answer.
use cloud_system.Base.{
  ℕ, zero, suc, ◌<◌, ◌≡◌, refl, Bool, some, List, [], ◌∷◌, arith, if◌then◌else◌, length, str_eq, ℤ,
  pos, minus_one, int_eq,
}
use cloud_system.Server.Link.{find_link_loop, find_link, find_fd_loop, find_fd}
use cloud_system.Server.Link.Heap.{Ptr, Entry, Heap, returned}
use cloud_system.Server.Link.Chain.{Cells, entries, first, Chain, IsLink, load_lem}

-- The descriptor of the first device of that name, or -1.
abbrev pub fd_of_id : List ℕ → List Entry → ℤ
fd_of_id id [] = minus_one
fd_of_id id (e ∷ es) = if str_eq e.id id then e.fd else fd_of_id id es

-- Whether a device has that descriptor.
abbrev pub holds_fd : ℤ → List Entry → Bool
holds_fd fd [] = Bool.false
holds_fd fd (e ∷ es) = if int_eq e.fd fd then Bool.true else holds_fd fd es

find_link_loop_lem :
    (k : ℕ) (id : List ℕ) (h : Heap) (xs : Cells)
    → length xs < k
    → Chain h xs
    → find_link_loop k id (first xs) h ≡ returned (fd_of_id id (entries xs)) h
unfolding find_link_loop
find_link_loop_lem zero id h xs fuel ch = absurd (omega arith)
find_link_loop_lem (suc k) id h [] fuel ch = refl
find_link_loop_lem (suc k) id h ((p, e) ∷ xs) fuel ch =
    ground (arith, load_lem h p ch.0 ch.1, find_link_loop_lem k id h xs (omega arith) ch.3)

-- With enough fuel `find_link` returns the descriptor of the first device of that name, and -1
-- when there is none; it changes nothing.
pub find_link_lem :
    (k : ℕ) (id : List ℕ) (h : Heap) (head : Ptr) (xs : Cells)
    → length xs < k
    → IsLink h head xs
    → find_link k head (some id) h ≡ returned (fd_of_id id (entries xs)) h
unfolding find_link
find_link_lem k id h head xs fuel ch =
    ground (arith, load_lem h head ch.0 ch.1, find_link_loop_lem k id h xs fuel ch.3)

find_fd_loop_lem :
    (k : ℕ) (fd : ℤ) (h : Heap) (xs : Cells)
    → length xs < k
    → Chain h xs
    → find_fd_loop k fd (first xs) h
      ≡ returned (if holds_fd fd (entries xs) then pos 0 else minus_one) h
unfolding find_fd_loop
find_fd_loop_lem zero fd h xs fuel ch = absurd (omega arith)
find_fd_loop_lem (suc k) fd h [] fuel ch = refl
find_fd_loop_lem (suc k) fd h ((p, e) ∷ xs) fuel ch =
    ground (arith, load_lem h p ch.0 ch.1, find_fd_loop_lem k fd h xs (omega arith) ch.3)

-- With enough fuel `find_fd` returns 0 when a device has the descriptor and -1 when none has, and
-- changes nothing.
pub find_fd_lem :
    (k : ℕ) (fd : ℤ) (h : Heap) (head : Ptr) (xs : Cells)
    → length xs < k
    → IsLink h head xs
    → find_fd k head fd h ≡ returned (if holds_fd fd (entries xs) then pos 0 else minus_one) h
unfolding find_fd
find_fd_lem k fd h head xs fuel ch =
    ground (arith, load_lem h head ch.0 ch.1, find_fd_loop_lem k fd h xs fuel ch.3)
