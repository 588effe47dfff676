-- ===== src/Server/Inspect.antt =====
-- `show_list` of src/server.c, by which `insprct_thread` finds the devices that have hung up: it
-- sends a message with command 255 to each device and drops those whose `recv` gives 0 or -1. Its `recv`
-- and its `sem_wait` may block for good.
pub mod Walk
pub mod Keep
mod Tests
use cloud_system.Base.{
  ℕ, zero, suc, ◌+◌, ◌*◌, Bool, true, false, List, [], ◌∷◌, ◌++◌, if◌then◌else◌, length, ℤ, is_neg,
}
use cloud_system.Server.Link.Heap.{Entry}
use cloud_system.Server.Link.Delete.{erase_entry}

-- The devices that are left, the sockets that were asked and the threads that were cancelled, both
-- oldest first.
pub record Scan : Type 0 where
  pub devices : List Entry
  pub asked : List ℤ
  pub cancelled : List ℕ

-- What a `recv` comes to: it gives a byte or more, or 0 or -1, or it never returns.
pub data Heard : Type 0 where
  answers gone silent : Heard

-- How a walk ends: it ends, it waits for good in a call, or the fuel ran out.
pub data Progress (A : Type 0) : Type 0 where
  ended hangs : A → Progress A
  ran_out : Progress A

abbrev pub ask : Entry → Scan → Scan
ask e s = record s { asked = s.asked ++ e.fd ∷ [] }

-- `pthread_cancel(p->tid);`
abbrev pub cancel : Entry → Scan → Scan
cancel e s = record s { cancelled = s.cancelled ++ e.tid ∷ [] }

-- `delete_link(head, p->fd);`, behind that.
abbrev pub drop : Entry → Scan → Scan
drop e s = record (cancel e s) {
  devices = if is_neg e.fd then s.devices else erase_entry e.fd s.devices;
}

-- `hears n e` is what the `recv` of the n-th round gives, from the device `e`, and `given n` says
-- whether its `sem_wait`, if it comes to that, is ever given the semaphore. `rest` is the list from
-- `p` on. After a deletion the walk starts over.
unfoldable pub show_loop :
    ℕ → (ℕ → Entry → Heard) → (given : ℕ → Bool) → ℕ → Scan → List Entry → Progress Scan
show_loop zero hears given n s rest = ran_out
show_loop (suc k) hears given n s [] = ended s
show_loop (suc k) hears given n s (e ∷ rest) = elim (hears n e) [
  | answers ↦ show_loop k hears given (n + 1) (ask e s) rest
  | gone ↦ (elim (given n) [
    | true ↦ show_loop k hears given (n + 1) (drop e (ask e s)) (drop e (ask e s)).devices
    | false ↦ hangs (cancel e (ask e s))
  ])
  | silent ↦ hangs (ask e s)
]

unfoldable pub show_list : ℕ → (ℕ → Entry → Heard) → (given : ℕ → Bool) → List Entry → Progress Scan
show_list fuel hears given devices =
    show_loop fuel hears given 0 (record { devices = devices; asked = []; cancelled = [] }) devices

-- Rounds enough for a list of that length.
abbrev pub rounds : ℕ → ℕ
rounds n = n * n + n + n

-- `insprct_thread`, for the rounds whose calls are given, while no other thread changes the list: the
-- devices that are left.
unfoldable pub insprct_thread :
    List ((ℕ → Entry → Heard) × (ℕ → Bool)) → List Entry → Progress (List Entry)
insprct_thread [] devices = ended devices
insprct_thread ((hears, given) ∷ later) devices =
    elim (show_list (suc (rounds (length devices))) hears given devices) [
      | ended s ↦ insprct_thread later s.devices
      | hangs s ↦ hangs s.devices
      | ran_out ↦ ran_out
    ]
