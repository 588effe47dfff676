-- ===== src/Driver/Chardev.antt =====
-- What the drivers hold of the kernel: a registered character device, a class, a device node and
-- mapped registers; and the 128 bytes `kbuf` into which the fan and the motor copy what is written.
pub mod Mapping
use cloud_system.Base.{
  ℕ, zero, suc, Bool, true, false, Option, none, some, List, [], ◌∷◌, ◌++◌, if◌then◌else◌, take,
  ltb, ℤ, negsuc,
}

pub record Held : Type 0 where
  pub chrdev : Bool
  pub class : Bool
  pub device : Bool
  pub mapped : List ℕ

abbrev pub nothing : Held
nothing = record { chrdev = false; class = false; device = false; mapped = [] }

-- -EIO, -EINVAL, -ENOMEM and -EAGAIN
abbrev pub eio : ℤ
eio = negsuc 4

abbrev pub einval : ℤ
einval = negsuc 21

abbrev pub enomem : ℤ
enomem = negsuc 11

abbrev pub eagain : ℤ
eagain = negsuc 10

-- The chain of `ioremap` calls: `false` at the first that fails, with what was mapped before.
unfoldable pub map_all : (ℕ → Bool) → List ℕ → Held → Bool × Held
map_all ok [] h = (true, h)
map_all ok (a ∷ as') h =
    let rest = map_all ok as' (record h { mapped = h.mapped ++ a ∷ [] }) in
    if ok a then rest else (false, h)

abbrev pub drop {ℓ} : {A : Type ℓ} → ℕ → List A → List A
drop zero xs = xs
drop (suc n) [] = []
drop (suc n) (x ∷ xs) = drop n xs

abbrev pub kbuf_size : ℕ
kbuf_size = 128

-- `if (size > sizeof(kbuf)) size = sizeof(kbuf);`
abbrev pub clipped : ℕ → ℕ
clipped size = if ltb kbuf_size size then kbuf_size else size

-- `copy_from_user(kbuf, ubuf, size)`, with the bytes at `ubuf`.
abbrev pub copied : ℕ → List ℕ → List ℕ → List ℕ
copied size ubuf kbuf = take size ubuf ++ drop size kbuf
