-- ===== src/Server/Link/Tests.antt =====
-- The list operations on a heap with a head and two devices.
use cloud_system.Base.{
  ◌≡◌, refl, none, some, List, [], ◌∷◌, ◌==◌, if◌then◌else◌, arith, codes, pos, minus_one, ℕ,
}
use cloud_system.Server.Link.Heap.{null, Heap, returned}
use cloud_system.Server.Link.Chain.{Cells, node, blank, IsLink}
use cloud_system.Server.Link.Insert.{entry}
use cloud_system.Server.World.{World}
use cloud_system.Server.Link.Exact.{IsEmpty, IsExact}
use cloud_system.Server.Link.Lifetime.{
  Op, insert, delete, IsShared, AllAllowed, lifetime, run, all_after, world_after, lifetime-IsEmpty,
  run-IsShared,
}

abbrev pump : List ℕ
pump = codes "pump"

abbrev lamp : List ℕ
lamp = codes "lamp"

abbrev two_cells : Cells
two_cells = (20, entry pump (pos 5) 71) ∷ (30, entry lamp (pos 6) 72) ∷ []

abbrev two_devices : Heap
two_devices a =
    if a == 10
    then some (node blank 20)
    else if a == 20
    then some (node (entry pump (pos 5) 71) 30)
    else if a == 30
    then some (node (entry lamp (pos 6) 72) null)
    else none

two_devices-IsLink : IsLink two_devices 10 two_cells
two_devices-IsLink = (
  ground arith,
  refl,
  (ground arith, (ground arith, tt)),
  (ground arith, refl, (ground arith, tt), (ground arith, refl, tt, tt)),
)

-- Two devices log in, the first leaves, and a third takes its descriptor and its node.
abbrev three_logins : List Op
three_logins =
    insert 20 pump (pos 5) 71
    ∷ insert 30 lamp (pos 6) 72
    ∷ delete (pos 5)
    ∷ delete minus_one
    ∷ insert 20 (codes "fan") (pos 5) 73
    ∷ []

three_logins-AllAllowed : AllAllowed 10 [] three_logins
three_logins-AllAllowed = omega arith

lifetime_example :
    (g : Heap) × (lifetime 6 10 three_logins (λ a. none) ≡ returned null g) × IsEmpty g
lifetime_example =
    lifetime-IsEmpty 6 10 three_logins (λ a. none) (λ a. refl) (ground arith) (omega arith)
      three_logins-AllAllowed

abbrev world : World ℕ
world = record {
  queue = [];
  devices = entry pump (pos 5) 71 ∷ entry lamp (pos 6) 72 ∷ [];
  linksem = 1;
  outbox = [];
  closed = [];
}

two_devices-IsExact : IsExact two_devices 10 two_cells
two_devices-IsExact = record { link = two_devices-IsLink; only = λ a out. ground arith }

abbrev shared : IsShared world two_devices 10
shared = record { cells = two_cells; exact = two_devices-IsExact; same = refl }

abbrev some_logins : List Op
some_logins = delete (pos 6) ∷ insert 30 (codes "fan") (pos 6) 73 ∷ delete (pos 5) ∷ []

run_example :
    (g : Heap) × (run 6 10 some_logins two_devices ≡ returned tt g)
    × IsShared (all_after world_after world some_logins) g 10
run_example = run-IsShared world 6 two_devices 10 some_logins shared (omega arith) (omega arith)
