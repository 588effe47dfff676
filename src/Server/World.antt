-- ===== src/Server/World.antt =====
-- What the threads of src/server.c share: the message queue `msgid`, the list `head`, the semaphore
-- `linksem`, and the sockets. The list is the sequence of its entries, newest first, which
-- Server/Link shows the heap to hold; its operations here are the ones proved there.
use cloud_system.Base.{ℕ, ◌≡◌, Bool, false, List, ◌∷◌, ◌++◌, [], ℤ, is_neg, if◌then◌else◌}
use cloud_system.Message.{Msg}
use cloud_system.Server.Link.Heap.{Entry}
use cloud_system.Server.Link.Delete.{erase_entry}

pub record World (F : Type 0) : Type 0 where
  pub queue : List (Msg F)
  pub devices : List Entry
  pub linksem : ℕ
  -- What was sent to each socket, oldest first.
  pub outbox : List (ℤ × Msg F)
  pub closed : List ℤ

-- What `recv` gives: an end of file, an error, or a whole message.
pub data Received (F : Type 0) : Type 0 where
  end_of_file failed : Received F
  got : Msg F → Received F

module _ {F : Type 0} where
  -- The buffer after `recv`, which an error leaves as it was.
  abbrev pub buffer : Msg F → Received F → Msg F
  buffer buf end_of_file = buf
  buffer buf failed = buf
  buffer buf (got m) = m

  abbrev pub is_end : Received F → Bool
  is_end end_of_file = Bool.true
  is_end failed = Bool.false
  is_end (got m) = Bool.false

  abbrev pub send : ℤ → Msg F → World F → World F
  send fd m w = record w { outbox = w.outbox ++ (fd, m) ∷ [] }

  abbrev pub close : ℤ → World F → World F
  close fd w = record w { closed = fd ∷ w.closed }

  -- `insert_link`, `delete_link` and the semaphore.
  abbrev pub insert : Entry → World F → World F
  insert e w = record w { devices = e ∷ w.devices }

  abbrev pub delete : ℤ → World F → World F
  delete fd w = if is_neg fd then w else record w { devices = erase_entry fd w.devices }

-- The sockets in the list are open files.
abbrev pub AllOpen : List Entry → Type 0
AllOpen [] = Unit
AllOpen (e ∷ es) = (is_neg e.fd ≡ false) × AllOpen es
