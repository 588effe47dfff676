-- ===== src/Driver/Led.antt =====
-- mydev/led/led.c and led.h: six lamps on GPIO lines, three on the core board and three on the
-- extension board.
pub mod Acquire
pub mod Init
pub mod Lamps
mod Tests
use cloud_system.Base.{
  ℕ, suc, ◌+◌, ◌-◌, Bool, true, false, not, Option, none, some, List, [], ◌∷◌, ◌==◌, if◌then◌else◌,
  ℤ, pos, is_neg, int_eq,
}
use cloud_system.Driver.Chardev.{eio}

-- What the driver holds of the kernel: each GPIO line that often, and the device, the class and the
-- node. `lines` is the level of each line.
pub record Board : Type 0 where
  pub gpios : ℤ → ℕ
  pub lines : ℤ → ℕ
  pub chrdev : Bool
  pub class : Bool
  pub device : Bool

abbrev pub gpio_request : ℤ → Board → Board
gpio_request line b = record b { gpios = λ x. if int_eq x line then b.gpios x + 1 else b.gpios x }

abbrev pub gpio_free : ℤ → Board → Board
gpio_free line b = record b { gpios = λ x. if int_eq x line then b.gpios x - 1 else b.gpios x }

abbrev pub gpio_set_value : ℤ → ℕ → Board → Board
gpio_set_value line v b = record b { lines = λ x. if int_eq x line then v else b.lines x }

-- For one name: what `of_get_named_gpio`, `gpio_request` and `gpio_direction_output` give.
pub record Answer : Type 0 where
  pub line : ℤ
  pub requested : ℤ
  pub directed : ℤ

-- `for (--i; i >= 0; i--) gpio_free(line[i]);`, on the lines got so far, the last one first.
unfoldable pub free_all : List ℤ → Board → Board
free_all [] b = b
free_all (line ∷ got) b = free_all got (gpio_free line b)

-- `myleds_init_value`: the result and the board; `got` holds the lines of the names before.
unfoldable pub init_value : List Answer → List ℤ → Board → ℤ × Board
init_value [] got b = (pos 0, b)
init_value (a ∷ rest) got b =
    let next = init_value rest (a.line ∷ got) (gpio_set_value a.line 0 (gpio_request a.line b)) in
    if is_neg a.line
    then (a.line, free_all got b)
    else if not (int_eq a.requested (pos 0))
    then (a.requested, free_all got b)
    else if not (int_eq a.directed (pos 0))
    then (a.directed, free_all got (gpio_request a.line b))
    else next

-- `myleds_uninit_value`
unfoldable pub uninit_value : List ℤ → Board → Board
uninit_value [] b = b
uninit_value (line ∷ nos) b = uninit_value nos (gpio_free line b)

abbrev pub numbers : List Answer → List ℤ
numbers [] = []
numbers (a ∷ rest) = a.line ∷ numbers rest

-- What the kernel answers to `myleds_init`: the nodes (an error or none), the lines of both boards,
-- `register_chrdev`, `class_create` and `device_create`.
pub record Kernel : Type 0 where
  pub node : Option ℤ
  pub core : List Answer
  pub extend : List Answer
  pub major : ℤ
  pub class : Option ℤ
  pub device : Option ℤ

-- From `class_create` on; the labels `err5` to `err2` are the undoing of each step.
unfoldable pub create : Kernel → Board → ℤ × Board
create k b = elim k.class [
  | some e ↦ (
    e,
    uninit_value (numbers k.core) (uninit_value (numbers k.extend) (record b { chrdev = false })),
  )
  | none ↦ (elim k.device [
    | some e ↦ (
      e,
      uninit_value (numbers k.core)
          (uninit_value (numbers k.extend) (record b { chrdev = false; class = false })),
    )
    | none ↦ (pos 0, record b { class = true; device = true })
  ])
]

-- From `register_chrdev` on.
unfoldable pub register : Kernel → Board → ℤ × Board
register k b =
    if is_neg k.major
    then (k.major, uninit_value (numbers k.core) (uninit_value (numbers k.extend) b))
    else create k (record b { chrdev = true })

-- From the second `myleds_init_value` on.
unfoldable pub extend_boards : Kernel → ℤ × Board → ℤ × Board
extend_boards k (ret, b) =
    if int_eq ret (pos 0) then register k b else (ret, uninit_value (numbers k.core) b)

unfoldable pub core_boards : Kernel → ℤ × Board → ℤ × Board
core_boards k (ret, b) =
    if int_eq ret (pos 0) then extend_boards k (init_value k.extend [] b) else (ret, b)

-- From the result of `get_led_node` on.
unfoldable pub node_boards : Kernel → Option ℤ → Board → ℤ × Board
node_boards k (some e) b = (e, b)
node_boards k none b = core_boards k (init_value k.core [] b)

unfoldable pub myleds_init : Kernel → Board → ℤ × Board
myleds_init k b = node_boards k k.node b

unfoldable pub myleds_exit : List ℤ → List ℤ → Board → Board
myleds_exit core extend b =
    uninit_value core
      (uninit_value extend (record b { device = false; class = false; chrdev = false }))

-- The lines of the six lamps: `cgpiono` and `egpiono`.
pub record Wiring : Type 0 where
  pub c0 : ℤ
  pub c1 : ℤ
  pub c2 : ℤ
  pub e0 : ℤ
  pub e1 : ℤ
  pub e2 : ℤ

-- `led_set_value`; CLED1 to ELED6 are 1 to 6, and any other number is ignored.
unfoldable pub led_set_value : Wiring → ℕ → Bool → Board → Board
led_set_value w which status b =
    let v = if status then 1 else 0 in
    if which == 1
    then gpio_set_value w.c0 v b
    else if which == 2
    then gpio_set_value w.c1 v b
    else if which == 3
    then gpio_set_value w.c2 v b
    else if which == 4
    then gpio_set_value w.e0 v b
    else if which == 5
    then gpio_set_value w.e1 v b
    else if which == 6
    then gpio_set_value w.e2 v b
    else b

pub data Command : Type 0 where
  led_on led_off unknown : Command

-- `copy_ok`: `copy_from_user` gives the number `which`.
unfoldable pub myleds_ioctl : Wiring → Command → (copy_ok : Bool) → ℕ → Board → Board × ℤ
myleds_ioctl w Command.led_on copy_ok which b =
    if copy_ok then (led_set_value w which true b, pos 0) else (b, eio)
myleds_ioctl w Command.led_off copy_ok which b =
    if copy_ok then (led_set_value w which false b, pos 0) else (b, eio)
myleds_ioctl w Command.unknown copy_ok which b = (b, pos 0)
