-- ===== src/Server/Link.antt =====
-- The linked list of logged-in devices: `link_t` of include/myhead.h, and `create_link`,
-- `insert_link`, `find_link`, `find_fd`, `delete_link` and `destroy_link` of src/server.c, on an
-- explicit heap. A walk over the list takes fuel, one round for each node and one to stop.
pub mod Heap
pub mod Chain
pub mod Insert
pub mod Find
pub mod Delete
pub mod Destroy
pub mod Exact
pub mod Lifetime
mod Tests
use cloud_system.Base.{
  ℕ, zero, suc, ◌≡◌, ◌||◌, Option, none, some, List, [], ◌==◌, if◌then◌else◌, leb, length, str_eq,
  ℤ, pos, minus_one, is_neg, int_eq,
}
use Heap.{
  Ptr, null, Entry, Node, Cmd, exited, undefined, exhausted, return, ◌>>=◌, ◌>>◌, load, store,
  set_next, free,
}

-- The node that `memset` leaves.
abbrev pub zeroed : Node
zeroed = record { entry = record { id = []; fd = pos 0; tid = 0 }; next = null }

-- `fresh` is what `malloc` returns.
unfoldable pub create_link : (fresh : Ptr) → Cmd Ptr
create_link fresh = if fresh == null then exited else do store fresh (some zeroed); return fresh

-- `strcpy(p->ID, ID)` into the 32 bytes of the field.
unfoldable pub copy_id : Ptr → List ℕ → Cmd (Unit {0})
copy_id p id =
    if leb 32 (length id)
    then undefined
    else do n ← load p; store p (some (record n { entry = record (n.entry) { id = id } }))

-- `p->fd = fd; p->tid = tid;`
unfoldable pub set_owner : Ptr → ℤ → ℕ → Cmd (Unit {0})
set_owner p fd tid = do
  n ← load p
  store p (some (record n { entry = record (n.entry) { fd = fd; tid = tid } }))

-- A null `ID` is `none`.
unfoldable pub insert_link : (fresh : Ptr) → Ptr → Option (List ℕ) → ℤ → ℕ → Cmd (Unit {0})
insert_link fresh head none fd tid = return tt
insert_link fresh head (some id) fd tid = if head == null then return tt else do
  p ← create_link fresh
  copy_id p id
  set_owner p fd tid
  n ← load head
  set_next p n.next
  m ← load head
  set_next p m.next
  set_next head p

unfoldable pub find_link_loop : ℕ → List ℕ → Ptr → Cmd ℤ
find_link_loop zero id p = exhausted
find_link_loop (suc k) id p = if p == null then return minus_one else do
  n ← load p
  if str_eq n.entry.id id then return n.entry.fd else find_link_loop k id n.next

unfoldable pub find_link : ℕ → Ptr → Option (List ℕ) → Cmd ℤ
find_link fuel head none = return minus_one
find_link fuel head (some id) =
    if head == null then return minus_one else do n ← load head; find_link_loop fuel id n.next

-- 0 when a node holds `fd`, and -1 otherwise.
unfoldable pub find_fd_loop : ℕ → ℤ → Ptr → Cmd ℤ
find_fd_loop zero fd p = exhausted
find_fd_loop (suc k) fd p =
    if p == null
    then return minus_one
    else do n ← load p; if int_eq n.entry.fd fd then return (pos 0) else find_fd_loop k fd n.next

unfoldable pub find_fd : ℕ → Ptr → ℤ → Cmd ℤ
find_fd fuel head fd = do n ← load head; find_fd_loop fuel fd n.next

-- `p` is the node looked at and `q` the one before it.
unfoldable pub delete_loop : ℕ → ℤ → Ptr → Ptr → Cmd (Unit {0})
delete_loop zero fd q p = exhausted
delete_loop (suc k) fd q p = if p == null then return tt else do
  n ← load p
  if int_eq n.entry.fd fd then (do set_next q n.next; free p) else delete_loop k fd p n.next

unfoldable pub delete_link : ℕ → Ptr → ℤ → Cmd (Unit {0})
delete_link fuel head fd =
    if (head == null) || is_neg fd
    then return tt
    else do n ← load head; delete_loop fuel fd head n.next

unfoldable pub destroy_loop : ℕ → Ptr → Cmd (Unit {0})
destroy_loop zero p = exhausted
destroy_loop (suc k) p =
    if p == null then return tt else do n ← load p; free p; destroy_loop k n.next

-- The caller's pointer is an argument, and its new value the result.
unfoldable pub destroy_link : ℕ → Ptr → Cmd Ptr
destroy_link fuel head =
    if head == null
    then return head
    else do n ← load head; destroy_loop fuel n.next; free head; return null
