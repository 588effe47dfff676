-- ===== src/Driver/Led/Init.antt =====
-- What `myleds_init` and `myleds_exit` hold of the GPIO lines.
use native.Mathlib.Nat.{add-zero}
use cloud_system.Base.{
  ℕ, ◌+◌, ◌≡◌, ◌⊎◌, refl, subst, ◌∙◌, inl, inr, true, false, Option, none, some, [], arith,
  if◌then◌else◌, ℤ, pos, negsuc, int_eq,
}
use cloud_system.Driver.Led.{
  Board, Kernel, init_value, uninit_value, numbers, create, register, extend_boards, core_boards,
  node_boards, myleds_init, myleds_exit,
}
use cloud_system.Driver.Led.Acquire.{
  count, uninit_value-count, leaked, leaked_none, all_given, Holds, init_value-Holds,
}

-- An error is no 0.
abbrev pub IsError : Option ℤ → Type 0
IsError none = Unit
IsError (some e) = int_eq e (pos 0) ≡ false

pub record HasErrors (k : Kernel) : Type 0 where
  pub node : IsError k.node
  pub class : IsError k.class
  pub device : IsError k.device

-- The lines of both boards.
abbrev pub wired : ℤ → Kernel → ℕ
wired x k = count x (numbers k.core) + count x (numbers k.extend)

-- Started: the driver holds each line once more, and the device, the class and the node.
abbrev pub Started : Kernel → Board → ℤ → ℤ × Board → Type 0
Started k b x (ret, b') =
    (ret ≡ pos 0)
    × (b'.gpios x ≡ b.gpios x + wired x k)
    × (b'.chrdev ≡ true)
    × (b'.class ≡ true)
    × (b'.device ≡ true)

-- Refused: an error, and what is held beyond what was held before is `n`.
abbrev pub Refused : ℕ → Board → ℤ → ℤ × Board → Type 0
Refused n b x (ret, b') = (int_eq ret (pos 0) ≡ false) × (b'.gpios x ≡ b.gpios x + n)

module _ (k : Kernel) (errors : HasErrors k) (b c : Board) (x : ℤ)
    (held : c.gpios x ≡ b.gpios x + wired x k) where
  undone :
      (d : Board)
      → d.gpios x ≡ c.gpios x
      → (uninit_value (numbers k.core) (uninit_value (numbers k.extend) d)).gpios x ≡ b.gpios x + 0
  undone d same = omega (
    arith,
    uninit_value-count x (numbers k.core) (uninit_value (numbers k.extend) d),
    uninit_value-count x (numbers k.extend) d,
  )

  register-cases : Started k b x (register k c) ⊎ Refused 0 b x (register k c)
  unfolding register create
  register-cases = steps k.major k.class k.device errors.class errors.device
    where
      steps :
          (major : ℤ) (class device : Option ℤ)
          → IsError class
          → IsError device
          → let k' = record k { major = major; class = class; device = device } in
            Started k b x (register k' c) ⊎ Refused 0 b x (register k' c)
      steps (negsuc n) class device ce de = inr (refl, undone c refl)
      steps (pos n) (some e) device ce de = inr (ce, undone _ refl)
      steps (pos n) none (some e) ce de = inr (de, undone _ refl)
      steps (pos n) none none ce de = inl (refl, held, refl, refl, refl)

-- What a failed start leaves behind: the line whose direction could not be set, if that is why it
-- failed.
abbrev pub lost : Option ℤ → ℤ → Kernel → ℕ
lost (some e) x k = 0
lost none x k = if all_given k.core then leaked x k.extend else leaked x k.core

module _ (k : Kernel) (errors : HasErrors k) (b : Board) (x : ℤ) where
  extend-cases :
      (c : Board)
      → c.gpios x ≡ b.gpios x + count x (numbers k.core)
      → let r = extend_boards k (init_value k.extend [] c) in
        Started k b x r ⊎ Refused (leaked x k.extend) b x r
  unfolding extend_boards
  extend-cases c held =
      from (init_value k.extend [] c) (init_value-Holds k.extend [] c x (omega arith))
    where
      from :
          (r : ℤ × Board)
          → Holds k.extend [] c r x
          → Started k b x (extend_boards k r) ⊎ Refused (leaked x k.extend) b x (extend_boards k r)
      from (ret, d) (inl (zero', given, more)) =
          rw zero' (rw (leaked_none x k.extend given) (register-cases k errors b d x (omega arith)))
      from (ret, d) (inr (bad, some', more)) =
          rw bad (inr (bad, omega (arith, uninit_value-count x (numbers k.core) d)))

  core-cases :
      let r = core_boards k (init_value k.core [] b) in
      Started k b x r ⊎ Refused (lost none x k) b x r
  unfolding core_boards
  core-cases = from (init_value k.core [] b) (init_value-Holds k.core [] b x (omega arith))
    where
      from :
          (r : ℤ × Board)
          → Holds k.core [] b r x
          → Started k b x (core_boards k r) ⊎ Refused (lost none x k) b x (core_boards k r)
      from (ret, d) (inl (zero', given, more)) = rw (zero', given) (extend-cases d more)
      from (ret, d) (inr (bad, some', more)) = rw (bad, some') (inr (bad, omega arith))

-- `myleds_init` either returns 0 and holds every line of both boards once more, with the device, the
-- class and the node; or it returns an error and holds no line more than before, but for the one
-- whose direction could not be set when that is the failure: it is requested and not freed.
pub myleds_init-balance :
    (k : Kernel) (b : Board) (x : ℤ)
    → HasErrors k
    → Started k b x (myleds_init k b) ⊎ Refused (lost k.node x k) b x (myleds_init k b)
unfolding myleds_init node_boards
myleds_init-balance k b x errors = from k.node errors.node
  where
    from :
        (node : Option ℤ)
        → IsError node
        → Started k b x (node_boards k node b) ⊎ Refused (lost node x k) b x (node_boards k node b)
    from none e = core-cases k errors b x
    from (some n) e = inr (e, omega arith)

-- What `myleds_init` took, `myleds_exit` gives back: each line is held as often as before the start,
-- and the device, the class and the node are gone.
myleds_exit-init :
    (k : Kernel) (b b' : Board) (x : ℤ)
    → HasErrors k
    → myleds_init k b ≡ (pos 0, b')
    → let c = myleds_exit (numbers k.core) (numbers k.extend) b' in (c.gpios x ≡ b.gpios x)
unfolding myleds_exit
myleds_exit-init k b b' x errors run = from (myleds_init-balance k b x errors)
  where
    off : Board
    off = record b' { device = false; class = false; chrdev = false }

    from :
        Started k b x (myleds_init k b) ⊎ Refused (lost k.node x k) b x (myleds_init k b)
        → (uninit_value (numbers k.core) (uninit_value (numbers k.extend) off)).gpios x ≡ b.gpios x
    from (inl (z, more, _, _, _)) = undone k errors b off x held off refl ∙ add-zero (b.gpios x)
      where
        held : off.gpios x ≡ b.gpios x + wired x k
        held = subst (λ (r : ℤ × Board). r.1.gpios x ≡ b.gpios x + wired x k) run more
    from (inr (bad, same)) =
        absurd (clash (subst (λ (r : ℤ × Board). int_eq r.0 (pos 0) ≡ false) run bad))
      where
        clash : int_eq (pos 0) (pos 0) ≡ false → ⊥
        clash h = cc
