-- ===== src/Server/Handler/Orderly.antt =====
-- What holds of the threads and the list at any time after the start of the server.
use cloud_system.Base.{
  ℕ, ◌≡◌, ◌≤◌, inl, inr, some, List, [], ◌∷◌, arith, Bool-cases, ◌==◌, ℤ, pos, is_neg,
}
use cloud_system.Message.{Msg}
use cloud_system.Message.Kind.{type_of_admin, double_admin}
use cloud_system.Server.Link.Heap.{Entry}
use cloud_system.Server.Link.Delete.{erase_entry}
use cloud_system.Server.World.{World, Received, delete, is_end, buffer}
use cloud_system.Server.Login.{login_thread}
use cloud_system.Server.Handler.{
  State, Thread, id, is_admin, first_recv, login as answer_login, step, handl_thread,
}
use cloud_system.Server.Handler.Relay.{is_admin_iff}
use cloud_system.Server.Handler.Traffic.{
  Passes, waiting-Passes, answering-Passes, dropping-Passes, logging_in-Passes, joining-Passes,
  checking-Passes, leaving-Passes,
}
use cloud_system.Server.Handler.Trap.{
  System, Step, Reach, handler, login, page, cancel, forget, here, next,
}

-- Every device in the list has the name that the code compares with.
abbrev pub AllAdmin : List Entry → Type 0
AllAdmin [] = Unit
AllAdmin (e ∷ es) = (e.id ≡ id) × AllAdmin es

-- A thread past its login has the name in its buffer until it has put its device into the list, and
-- waits for messages of type 521 and answers with type 1042 from then on.
abbrev pub IsServing : {F : Type 0} → State → Thread F → Type 0
IsServing State.logging_in t = Unit
IsServing State.ended t = Unit
IsServing State.joining t =
    (t.buf.user.username ≡ id) × (t.recvmsgtype ≡ pos 521) × (t.sendmsgtype ≡ pos 1042)
IsServing State.waiting t = (t.recvmsgtype ≡ pos 521) × (t.sendmsgtype ≡ pos 1042)
IsServing State.checking t = (t.recvmsgtype ≡ pos 521) × (t.sendmsgtype ≡ pos 1042)
IsServing State.dropping t = (t.recvmsgtype ≡ pos 521) × (t.sendmsgtype ≡ pos 1042)
IsServing State.answering t = (t.recvmsgtype ≡ pos 521) × (t.sendmsgtype ≡ pos 1042)
IsServing State.leaving t = (t.recvmsgtype ≡ pos 521) × (t.sendmsgtype ≡ pos 1042)

-- The semaphore keeps the threads apart, the devices have one name, and each thread past its login
-- serves the types of that name: its next step, whatever `recv` gives, takes out or puts in what
-- `Passes` says.
pub record IsOrderly {F : Type 0} (s : System F) : Type 0 where
  pub exclusive : s.world.linksem ≤ 1
  pub named : AllAdmin s.world.devices
  pub serving : (i : ℕ) → IsServing (s.threads i).state (s.threads i)
  pub passes :
      (i : ℕ) (r : Received F)
      → Passes (s.threads i).state s.world (handl_thread s.world (s.threads i) r)

-- The first three of these, which each step keeps.
record IsSteady {F : Type 0} (s : System F) : Type 0 where
  exclusive : s.world.linksem ≤ 1
  named : AllAdmin s.world.devices
  serving : (i : ℕ) → IsServing (s.threads i).state (s.threads i)

erase_entry-AllAdmin : (fd : ℤ) (es : List Entry) → AllAdmin es → AllAdmin (erase_entry fd es)
erase_entry-AllAdmin fd [] all = tt
erase_entry-AllAdmin fd (e ∷ es) all = ground (arith, erase_entry-AllAdmin fd es all.1)

delete-AllAdmin :
    {F : Type 0} (fd : ℤ) (w : World F) → AllAdmin w.devices → AllAdmin (delete fd w).devices
delete-AllAdmin fd w all = elim (Bool-cases (is_neg fd)) [
  | inl neg ↦ rw neg all
  | inr open' ↦ rw open' (erase_entry-AllAdmin fd w.devices all)
]

-- What a step of a thread keeps.
abbrev Kept : {F : Type 0} → World F → Thread F → Type 0
Kept v u = (v.linksem ≤ 1) × AllAdmin v.devices × IsServing u.state u

login-Kept :
    {F : Type 0} (w : World F) (t : Thread F) (m : Msg F)
    → w.linksem ≤ 1
    → AllAdmin w.devices
    → Kept (answer_login w t m).0 (answer_login w t m).1
unfolding answer_login
login-Kept w t m free all = elim (Bool-cases (is_admin m)) [
  | inl ok ↦
      let (name, _) = (is_admin_iff m).0 ok in
      rw ok (free, all, (name, rw name type_of_admin, rw (name, type_of_admin) double_admin))
  | inr bad ↦ rw bad (free, all, tt)
]

module _ {F : Type 0} (w v : World F) (t u : Thread F) (r : Received F) (free : w.linksem ≤ 1)
    (all : AllAdmin w.devices) where
  first_recv-Kept : first_recv w t r ≡ (v, u) → Kept v u
  unfolding first_recv
  first_recv-Kept e = elim (Bool-cases (is_end r)) [
    | inl over ↦ ground arith
    | inr more ↦ ground (arith, login-Kept w t (buffer t.buf r) free all)
  ]

  step-Kept : (x : State) → IsServing x t → step x w t r ≡ some (v, u) → Kept v u
  unfolding step
  step-Kept State.logging_in k e = first_recv-Kept (ground arith)
  step-Kept State.joining k e = ground arith
  step-Kept State.waiting k e = ground arith
  step-Kept State.checking k e = ground arith
  step-Kept State.dropping k e = ground (arith, erase_entry-AllAdmin t.accept_fd w.devices all)
  step-Kept State.answering k e = ground arith
  step-Kept State.leaving k e = ground (arith, erase_entry-AllAdmin t.accept_fd w.devices all)
  step-Kept State.ended k e = ground arith

module _ {F : Type 0} where
  Step-IsSteady : {s t : System F} → Step s t → IsSteady s → IsSteady t
  unfolding login_thread
  Step-IsSteady {s} (handler j r {v} {u} e) k =
      let (free, all, served) =
        step-Kept s.world v (s.threads j) u r k.exclusive k.named (s.threads j).state (k.serving j)
          e in
      record {
        exclusive = free;
        named = all;
        serving = λ i. elim (Bool-cases (j == i)) [
          | inl same ↦ rw same served
          | inr other ↦ rw other (k.serving i)
        ];
      }
  Step-IsSteady (login e) k = record {
    exclusive = ground arith;
    named = ground arith;
    serving = k.serving;
  }
  Step-IsSteady (page q) k = record {
    exclusive = k.exclusive;
    named = k.named;
    serving = k.serving;
  }
  Step-IsSteady (cancel j) k = record {
    exclusive = k.exclusive;
    named = k.named;
    serving = λ i. elim (Bool-cases (j == i)) [
      | inl same ↦ rw same tt
      | inr other ↦ rw other (k.serving i)
    ];
  }
  Step-IsSteady {s} (forget fd n free) k = record {
    exclusive = ground arith;
    named = delete-AllAdmin fd s.world k.named;
    serving = k.serving;
  }

  -- The server as it starts: the list is empty, the semaphore is free, and no thread is past its login.
  abbrev pub IsStarted : System F → Type 0
  IsStarted s =
      (s.world.devices ≡ [])
      × (s.world.linksem ≡ 1)
      × ((i : ℕ) → (s.threads i).state ≡ State.logging_in)

  Reach-IsSteady : {s t : System F} → Reach s t → IsSteady s → IsSteady t
  Reach-IsSteady here k = k
  Reach-IsSteady (next r st) k = Step-IsSteady st (Reach-IsSteady r k)

  step-Passes :
      (x : State) (w : World F) (t : Thread F) (r : Received F)
      → IsServing x t
      → Passes x w (step x w t r)
  step-Passes State.logging_in w t r k = logging_in-Passes w t r
  step-Passes State.joining w t r k = joining-Passes w t r
  step-Passes State.waiting w t r (takes, puts) = waiting-Passes w t r takes
  step-Passes State.checking w t r k = checking-Passes w t r
  step-Passes State.dropping w t r (takes, puts) = dropping-Passes w t r puts
  step-Passes State.answering w t r (takes, puts) = answering-Passes w t r puts
  step-Passes State.leaving w t r k = leaving-Passes w t r
  step-Passes State.ended w t r k = unfold step in tt

  -- In every system that is reached from the start, whatever the devices send, the pages put into the
  -- queue and the inspection drops: the semaphore is at most 1, so that it keeps the threads apart;
  -- each device in the list is called "admin"; and each thread past its login has the name "admin" in
  -- its buffer until its device is in the list, and holds the types 521 and 1042 from then on.
  -- Whatever its next `recv` gives, the thread's next step, if it is not blocked, does this to the
  -- queue: one that waits for a request takes out the first message of type 521, and has it in its
  -- buffer; one that waits for the answer puts one message of type 1042 behind the others, or leaves
  -- the queue alone; one whose device has left the list puts one message of type 1042 behind the
  -- others; and any other step leaves the queue alone.
  pub started-IsOrderly : (s t : System F) → IsStarted s → Reach s t → IsOrderly t
  started-IsOrderly s t (none', free, first) reach =
      let steady = Reach-IsSteady reach (record {
        exclusive = omega (arith, free);
        named = rw none' tt;
        serving = λ i. rw (first i) tt;
      }) in
      record {
        exclusive = steady.exclusive;
        named = steady.named;
        serving = steady.serving;
        passes = λ i r. step-Passes (t.threads i).state t.world (t.threads i) r (steady.serving i);
      }
