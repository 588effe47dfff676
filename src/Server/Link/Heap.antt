-- ===== src/Server/Link/Heap.antt =====
-- Memory as a partial function from addresses to nodes, and commands over it.
use cloud_system.Base.{ℕ, Option, none, some, List, ◌==◌, if◌then◌else◌, ℤ}

abbrev pub Ptr : Type 0
Ptr = ℕ

abbrev pub null : Ptr
null = 0

-- `ID`, `fd` and `tid` of a `link_t`.
pub record Entry : Type 0 where
  pub id : List ℕ
  pub fd : ℤ
  pub tid : ℕ

pub record Node : Type 0 where
  pub entry : Entry
  pub next : Ptr

-- `none`: no node lives at the address.
abbrev pub Heap : Type 0
Heap = Ptr → Option Node

unfoldable pub put : Heap → Ptr → Option Node → Heap
put h p c a = if a == p then c else h a

-- How a command ends: it returns, the process exits, C leaves the behaviour undefined, or the
-- model's fuel is used up.
pub data Run (A : Type 0) : Type 0 where
  returned : A → Heap → Run A
  exits undef no_fuel : Run A

abbrev pub Cmd : Type 0 → Type 0
Cmd A = Heap → Run A

abbrev pub return : {A : Type 0} → A → Cmd A
return x mem = returned x mem

-- The three ends that give no result.
module _ {A : Type 0} where
  abbrev pub exhausted : Cmd A
  exhausted mem = no_fuel

  abbrev pub undefined : Cmd A
  undefined mem = undef

  abbrev pub exited : Cmd A
  exited mem = exits

infixl 5 ◌>>=◌ ◌>>◌
-- What follows a command runs only when the command returns.
module _ {A B : Type 0} where
  abbrev pub resume : (A → Cmd B) → Run A → Run B
  resume next no_fuel = no_fuel
  resume next undef = undef
  resume next exits = exits
  resume next (returned x mem) = next x mem

  abbrev pub ◌>>=◌ : Cmd A → (A → Cmd B) → Cmd B
  ◌>>=◌ first next mem = resume next (first mem)

  abbrev pub ◌>>◌ : Cmd A → Cmd B → Cmd B
  ◌>>◌ first second mem = resume (λ _. second) (first mem)

abbrev pub store : Ptr → Option Node → Cmd (Unit {0})
store p c h = returned tt (put h p c)

-- `*p`
unfoldable pub load : Ptr → Cmd Node
load p h = if p == null then undef else elim (h p) [ none ↦ undef | some n ↦ returned n h ]

-- `free(p)`, which needs a node at the address.
unfoldable pub free : Ptr → Cmd (Unit {0})
free p = do n ← load p; store p none

-- `p->next = q`
unfoldable pub set_next : (p q : Ptr) → Cmd (Unit {0})
set_next p q = do here ← load p; store p (some (record here { next = q }))
