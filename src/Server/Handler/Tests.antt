-- ===== src/Server/Handler/Tests.antt =====
-- A handler thread whose device is in the list, and one whose device has left it.
use cloud_system.Base.{◌≡◌, ◌⊎◌, refl, some, List, [], ◌∷◌, codes, pos, ℕ}
use cloud_system.Message.{Msg, zeroed, with_flags, with_type}
use cloud_system.Server.Link.Heap.{Entry}
use cloud_system.Server.World.{World, end_of_file, got, send, insert}
use cloud_system.Server.Handler.{State, Thread, step, login, handl_thread}
use cloud_system.Message.Kind.{type_of_admin, double_admin}
use cloud_system.Server.Handler.Orderly.{IsOrderly, started-IsOrderly}
use cloud_system.Server.Handler.Free.{IsLost, Reach-IsLost}
use cloud_system.Server.Handler.Trap.{System, Step, Reach, update, IsStuck, trapped, check-IsStuck}

abbrev blank_msg : Msg ℕ
blank_msg = zeroed 0

abbrev login_page : Msg ℕ
login_page = with_type (pos 1) blank_msg

abbrev request : Msg ℕ
request = record (with_type (pos 521) blank_msg) { commd = 3 }

abbrev answer_msg : Msg ℕ
answer_msg = record blank_msg { devctrl = 9 }

abbrev garden : Entry
garden = record { id = codes "admin"; fd = pos 4; tid = 71 }

abbrev world : List Entry → World ℕ
world devices = record {
  queue = login_page ∷ request ∷ [];
  devices = devices;
  linksem = 1;
  outbox = [];
  closed = [];
}

abbrev thread : State → Thread ℕ
thread s = record {
  state = s;
  accept_fd = pos 4;
  tid = 71;
  buf = blank_msg;
  recvmsgtype = pos 521;
  sendmsgtype = pos 1042;
}

abbrev gone : System ℕ
gone = record { world = world []; threads = λ _. thread State.checking }

check_example :
    (handl_thread gone.world (gone.threads 3) end_of_file
      ≡ some ((trapped gone 3).world, record (gone.threads 3) { state = State.dropping }))
    × IsStuck 3 []
        (record (trapped gone 3) { world = record ((trapped gone 3).world) { queue = [] } })
check_example =
    check-IsStuck gone _ 3 end_of_file refl refl refl (Reach.next Reach.here (Step.page []))

abbrev login_msg : Msg ℕ
login_msg = record blank_msg {
  user = record { username = codes "admin"; password = codes "123456"; flags = 0 };
}

-- A device logs in, and its thread puts it into the list.
abbrev fresh : System ℕ
fresh = record { world = world []; threads = λ _. thread State.logging_in }

abbrev told : World ℕ
told = send (pos 4) (with_flags 1 login_msg) (world [])

abbrev joining_thread : Thread ℕ
joining_thread = record {
  state = State.joining;
  accept_fd = pos 4;
  tid = 71;
  buf = with_flags 1 login_msg;
  recvmsgtype = pos 521;
  sendmsgtype = pos 1042;
}

abbrev let_in : System ℕ
let_in = record { world = told; threads = update (fresh.threads) 3 joining_thread }

abbrev joined : System ℕ
joined = record {
  world = insert garden told;
  threads = update (let_in.threads) 3 (record joining_thread { state = State.waiting });
}

let_in_step :
    handl_thread fresh.world (fresh.threads 3) (got login_msg) ≡ some (told, joining_thread)
unfolding step login
let_in_step = rw (type_of_admin, double_admin) refl

joined-Reach : Reach fresh joined
unfolding step
joined-Reach =
    Reach.next (Reach.next Reach.here (Step.handler 3 (got login_msg) let_in_step))
      (Step.handler 3 end_of_file refl)

started_example : IsOrderly joined
started_example = started-IsOrderly fresh joined (refl, refl, λ i. refl) joined-Reach

-- The thread of the device that is gone takes its next step.
lost_example : ((trapped gone 3).world.linksem ≡ 1) ⊎ IsLost gone (trapped gone 3)
lost_example = Reach-IsLost gone (trapped gone 3) refl (
    Reach.next Reach.here (
      Step.handler 3 end_of_file
        (check-IsStuck gone (trapped gone 3) 3 end_of_file refl refl refl Reach.here).0))
