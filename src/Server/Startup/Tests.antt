-- ===== src/Server/Startup/Tests.antt =====
-- A server that has no memory for the head of its list, and one to which three devices connect.
use mathlib.Core.List.{Memᴰ}
use cloud_system.Base.{List, ◌≡◌, ◌↔◌, some, refl, arith, true, false, [], ◌∷◌, not, ◌&&◌, pos}
use cloud_system.Server.Startup.{Calls, main}
use cloud_system.Server.Startup.Accept.{
  Acceptor, Turn, accepted, begins, turn, turns, sockets, AllServed, one_by_one, after_begin,
  turns-AllServed,
}
use cloud_system.Server.Startup.Queue.{IsTidy, has_queue, main-IsTidy}

abbrev all_well : Calls
all_well = record {
  signal = true;
  argc = 2;
  socket = true;
  setsockopt = true;
  bind = true;
  listen = true;
  ftok = true;
  msgget = true;
  malloc = true;
  sem_init = true;
  inspect_thread = true;
  login_thread = true;
}

abbrev no_list : Calls
no_list = record all_well { malloc = false }

main_example : IsTidy (has_queue no_list && not no_list.malloc) (main no_list [])
main_example = main-IsTidy no_list []

-- Two devices connect before a thread begins, and then a third one.
abbrev crowded : List Turn
crowded = accepted (pos 4) ∷ accepted (pos 5) ∷ begins ∷ begins ∷ accepted (pos 6) ∷ begins ∷ []

abbrev behind : Acceptor
behind = record { accept_fd = pos 6; pending = 0; served = pos 5 ∷ pos 5 ∷ pos 6 ∷ [] }

crowded_run : turns crowded (after_begin (pos 0) []) ≡ some behind
unfolding turns turn
crowded_run = refl

four : ¬ Memᴰ (pos 4) (pos 5 ∷ pos 6 ∷ [])
four (Memᴰ.head e) = ground arith
four (Memᴰ.tail (Memᴰ.head e)) = ground arith
four (Memᴰ.tail (Memᴰ.tail m)) = elim m [ ]

five : ¬ Memᴰ (pos 5) (pos 6 ∷ [])
five (Memᴰ.head e) = ground arith
five (Memᴰ.tail m) = elim m [ ]

six : ¬ Memᴰ (pos 6) []
six m = elim m [ ]

turns_example :
    (AllServed (sockets crowded) behind.served ↔ (crowded ≡ one_by_one (sockets crowded)))
    × (crowded ≡ one_by_one (sockets crowded) → behind.served ≡ sockets crowded)
turns_example = turns-AllServed crowded behind crowded_run refl (four, (five, (six, tt)))
